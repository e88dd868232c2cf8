-- ===== src/Controller/Runtime.antt =====
-- src/controller/runtime.rs: the data of a controller cycle. A cycle reads a snapshot of the
-- coordination store (the record of src/coordination/etcd/mod.rs), plans every resource (`Plans`),
-- keeps the messages that are still in flight (`Pending`), reads the throttles (`Limits`) and
-- publishes the next messages (`Outputs`).
--
-- JSON is read and written by another library, whose decoders are the record `Json`. An error is
-- the error that it was made from where the source keeps only its text.
pub mod Limits
pub mod Plans
pub mod Current
pub mod Pending
pub mod Outputs
pub mod Publish
use clustodian.Model.Identity.{InstanceId, ResourceId, IdentifierError, SessionId, is_empty_text}
use clustodian.Model.Replica.{ReplicaStateError}
use clustodian.Model.Ideal.{IdealState, IdealStateError}
use clustodian.Model.Session.{ParticipantSessionSnapshot, LiveInstance}
use clustodian.Rebalance.SemiAuto.{SemiAutoError}
use clustodian.Rebalance.Topology.{CrushError}
use clustodian.Controller.Generation.{TransitionGenerationError}
use clustodian.Controller.Selection.{MessageSelectionError}
use clustodian.Controller.Throttle.{IntermediateThrottleError}
use clustodian.Base.Map.{Map, get, insert}
use clustodian.Base.Lists.{any}
use clustodian.Base.Logic.{
  ℕ, if◌then◌else◌, ltb, ◌==◌, Result, ◌>>=◌, and_then, ok, err, String, Bool, false, not, ◌&&◌,
  Option, none, some, List, ◌∷◌, ◌>>◌, [],
}
use clustodian.Base.Ord.{eqb, string_ord, nat_ord, pair_ord}

pub record MetadataEntry : Type 0 where
  pub value : Option String
  pub revision : ℕ

-- The parts of the store's snapshot that a cycle reads.
pub record CoordinationSnapshot : Type 0 where
  pub revision : ℕ
  pub authoritative_revision : ℕ
  pub metadata : Map String MetadataEntry
  pub participants : ParticipantSessionSnapshot

pub record PublishedTransition : Type 0 where
  pub resource : String
  pub partition : String
  pub replica : String
  pub target_session : ℕ
  pub from : String
  pub to : String
  pub message_type : String
  pub message_id : String

pub data ReconcileMode : Type 0 where
  startup normal session_replacement : ReconcileMode

pub record InstanceConfigRecord : Type 0 where
  pub name : String
  pub zone : String

pub record CrushTopologyRecord : Type 0 where
  pub path : String
  pub fault_zone_type : String
  pub end_node_type : String

pub record PlacementRecord : Type 0 where
  pub kind : String
  pub replicas : ℕ
  pub preference_lists : Map String (List String)
  pub partitions : List String
  pub topology : Option CrushTopologyRecord

pub record ResourceRecord : Type 0 where
  pub name : String
  pub state_model : String
  pub placement : PlacementRecord

pub record ThrottleRecord : Type 0 where
  pub scope : String
  pub resource : Option String
  pub replica : Option String
  pub rebalance_type : String
  pub max_in_flight : ℕ

pub record ResourcePlan : Type 0 where
  pub resource : ResourceId
  pub ideal : IdealState

-- `ControllerRuntimeError`; the last is a panic of `expect`.
pub data ControllerRuntimeError : Type 0 where
  message : String → ControllerRuntimeError
  identifier_error : IdentifierError → ControllerRuntimeError
  ideal_state_error : IdealStateError → ControllerRuntimeError
  crush_error : CrushError → ControllerRuntimeError
  semi_auto_error : SemiAutoError → ControllerRuntimeError
  generation_error : TransitionGenerationError → ControllerRuntimeError
  selection_error : MessageSelectionError → ControllerRuntimeError
  throttle_error : IntermediateThrottleError → ControllerRuntimeError
  expectation_failed : ReplicaStateError → ControllerRuntimeError

-- `serde_json::from_str` at the four types that are read.
pub record Json : Type 0 where
  pub decode_instance_configs : String → Result String (List InstanceConfigRecord)
  pub decode_resource : String → Result String ResourceRecord
  pub decode_throttles : String → Result String (List ThrottleRecord)
  pub decode_pending : String → Result String (List PublishedTransition)

-- `map_err(..)?`.
abbrev pub map_err {ℓ κ μ} :
    {E : Type ℓ} {F : Type κ} {A : Type μ} → (E → F) → Result E A → Result F A
map_err f (ok a) = ok a
map_err f (err e) = err (f e)

unfoldable pub metadata_value : CoordinationSnapshot → String → Option String
unfolding get
metadata_value snapshot key = and_then (get snapshot.metadata key) (λ entry. entry.value)

unfoldable pub same_replica : PublishedTransition → PublishedTransition → Bool
same_replica left right =
    eqb left.resource right.resource
    && eqb left.partition right.partition
    && eqb left.replica right.replica

-- `live_sessions`, collected in the order of the map.
unfoldable pub live_sessions : Map InstanceId LiveInstance → Map InstanceId SessionId
unfolding insert
live_sessions [] = []
live_sessions ((i, live) ∷ rest) = (i, live.session_id) ∷ live_sessions rest

unfoldable pub session_replaced : Map InstanceId SessionId → CoordinationSnapshot → Bool
unfolding get any
session_replaced known current =
    any
      (λ (p : InstanceId × LiveInstance). elim (get known p.0) [
        | none ↦ false
        | some session ↦ not (session == p.1.session_id)
      ])
      current.participants.live_instances

pub record ControllerState : Type 0 where
  pub pending : List PublishedTransition
  pub known_sessions : Map InstanceId SessionId
  pub authoritative_revision : ℕ

unfoldable pub observe_input_revision : ControllerState → ℕ → ControllerState
observe_input_revision s revision = record s {
  authoritative_revision =
      if ltb s.authoritative_revision revision then revision else s.authoritative_revision;
}

unfoldable pub mode_for : ControllerState → CoordinationSnapshot → ReconcileMode
unfolding session_replaced
mode_for s snapshot =
    if session_replaced s.known_sessions snapshot then session_replacement else normal

unfoldable pub remember_all :
    Map InstanceId LiveInstance → Map InstanceId SessionId → Map InstanceId SessionId
unfolding insert
remember_all [] known = known
remember_all ((i, live) ∷ rest) known = remember_all rest (insert known i live.session_id)

unfoldable pub remember_sessions : ControllerState → CoordinationSnapshot → ControllerState
unfolding remember_all
remember_sessions s snapshot = record s {
  known_sessions = remember_all snapshot.participants.live_instances s.known_sessions;
}

unfoldable pub read_pending :
    Json → CoordinationSnapshot → Result ControllerRuntimeError (List PublishedTransition)
unfolding metadata_value any is_empty_text
read_pending json snapshot =
    elim (metadata_value snapshot "controller/output/pending-transitions") [
      | none ↦ ok []
      | some value ↦ map_err message (json.decode_pending value) >>= λ pending.
          if any (λ t. is_empty_text t.message_id) pending
          then err (message "pending transition is missing message identity")
          else ok pending
    ]

unfoldable pub from_snapshot :
    Json → CoordinationSnapshot → Result ControllerRuntimeError ControllerState
unfolding read_pending live_sessions
from_snapshot json snapshot = read_pending json snapshot >>= λ pending. ok (record {
  pending = pending;
  known_sessions = live_sessions snapshot.participants.live_instances;
  authoritative_revision = snapshot.authoritative_revision;
})
