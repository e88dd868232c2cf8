-- ===== src/Model/Session.antt =====
-- src/model/session.rs: participant sessions. A method that returns an error leaves the state as
-- it was, so a method that changes the state returns the new one in its result.
pub mod Coherence
pub mod Steps
pub mod Snapshots
pub mod Carried
pub mod Published
pub mod Records
use clustodian.Model.Identity.{InstanceId, PartitionId, ResourceId, SessionId}
use clustodian.Model.State.{State}
use clustodian.Model.Replica.{CurrentState, ReplicaStates, ReplicaStateError, set_state}
use clustodian.Base.Logic.{
  if◌then◌else◌, ltb, ◌==◌, Result, ◌>>=◌, ◌>>◌, fail_if, and_then, unwrap_or, ok, err, ℕ, ◌+◌, ◌^◌,
  Option, none, some, ◌∷◌, [],
}
use clustodian.Base.Map.{Map, get, insert, remove, contains_key}
use clustodian.Base.Ord.{eqb, string_ord, nat_ord, pair_ord}

pub record LiveInstance : Type 0 where
  pub instance_id : InstanceId
  pub session_id : SessionId

pub record ActiveCurrentState : Type 0 where
  pub session_id : SessionId
  pub resources : Map ResourceId CurrentState

pub record ParticipantSessionSnapshot : Type 0 where
  pub live_instances : Map InstanceId LiveInstance
  pub active_current_state : Map InstanceId ActiveCurrentState

abbrev pub Sessions : Type 0
Sessions = Map SessionId (Map ResourceId CurrentState)

pub record ParticipantSessionState : Type 0 where
  pub next_session_sequence : ℕ
  pub known_sessions : Map SessionId InstanceId
  pub live_instances : Map InstanceId LiveInstance
  pub current_states : Map InstanceId Sessions
  pub default_initial_state : State
  pub resource_initial_states : Map ResourceId State

pub data SessionError : Type 0 where
  already_live not_live : InstanceId → SessionError
  session_id_exhausted : SessionError
  session_mismatch : InstanceId → SessionId → SessionId → SessionError
  session_ownership_mismatch : InstanceId → SessionId → InstanceId → SessionError
  unknown_session : SessionId → SessionError
  current_state : ReplicaStateError → SessionError

-- `map_err(SessionError::CurrentState)`.
abbrev pub as_session_error {ℓ} : {A : Type ℓ} → Result ReplicaStateError A → Result SessionError A
as_session_error (ok a) = ok a
as_session_error (err e) = err (current_state e)

unfoldable pub new : ParticipantSessionState
new = record {
  next_session_sequence = 0;
  known_sessions = [];
  live_instances = [];
  current_states = [];
  default_initial_state = "OFFLINE";
  resource_initial_states = [];
}

pub set_resource_initial_state :
    ParticipantSessionState → ResourceId → State → ParticipantSessionState
set_resource_initial_state s resource state = record s {
  resource_initial_states = insert s.resource_initial_states resource state;
}

unfoldable pub require_live_session :
    ParticipantSessionState → InstanceId → SessionId → Result SessionError (Unit {0})
require_live_session s i session = elim (get s.live_instances i) [
  | none ↦ err (not_live i)
  | some live ↦
      if live.session_id == session then ok tt else err (session_mismatch i live.session_id session)
]

-- `checked_add(1)` on a `u64`.
pub allocate_session :
    ParticipantSessionState → InstanceId → Result SessionError (ParticipantSessionState × SessionId)
allocate_session s i =
    let next = s.next_session_sequence + 1 in
    if ltb next (2 ^ 64)
    then ok (
      record s { next_session_sequence = next; known_sessions = insert s.known_sessions next i },
      next,
    )
    else err session_id_exhausted

-- The last entry of a map: its greatest key.
pub last_value {ℓ κ} : {K : Type ℓ} {V : Type κ} → Map K V → Option V
last_value [] = none
last_value ((k, v) ∷ []) = some v
last_value ((k, v) ∷ p ∷ m) = last_value (p ∷ m)

-- The carried copy of one partition: the instance's own replica goes back to the initial state.
pub carry_instances :
    InstanceId
    → State
    → PartitionId
    → Map InstanceId State
    → ReplicaStates
    → Result SessionError ReplicaStates
unfolding set_state
carry_instances i initial partition [] b = ok b
carry_instances i initial partition ((stored, state) ∷ rest) b =
    as_session_error (set_state b partition stored (if eqb stored i then initial else state))
    >>= carry_instances i initial partition rest

pub carry_partitions :
    InstanceId → State → ReplicaStates → ReplicaStates → Result SessionError ReplicaStates
unfolding carry_instances
carry_partitions i initial [] b = ok b
carry_partitions i initial ((partition, instances) ∷ rest) b =
    carry_instances i initial partition instances b >>= carry_partitions i initial rest

pub initial_state_of : ParticipantSessionState → ResourceId → State
initial_state_of s resource =
    unwrap_or (get s.resource_initial_states resource) s.default_initial_state

pub carry_resources :
    ParticipantSessionState
    → InstanceId
    → Map ResourceId CurrentState
    → Map ResourceId CurrentState
    → Result SessionError (Map ResourceId CurrentState)
unfolding carry_partitions initial_state_of
carry_resources s i [] carried = ok carried
carry_resources s i ((resource, state) ∷ rest) carried =
    carry_partitions i (initial_state_of s resource) state [] >>= λ copy.
    carry_resources s i rest (insert carried resource copy)

-- The records of the named session, or of the latest one.
pub previous_resources : Sessions → Option SessionId → Option (Map ResourceId CurrentState)
unfolding last_value
previous_resources sessions (some session) = get sessions session
previous_resources sessions none = last_value sessions

pub carried_current_states :
    ParticipantSessionState
    → InstanceId
    → Option SessionId
    → Result SessionError (Map ResourceId CurrentState)
unfolding previous_resources carry_resources
carried_current_states s i previous =
    elim (and_then (get s.current_states i) (λ sessions. previous_resources sessions previous)) [
      | none ↦ ok []
      | some resources ↦ carry_resources s i resources []
    ]

-- `entry(instance).or_default().insert(session, resources)`.
pub store_session :
    Map InstanceId Sessions
    → InstanceId
    → SessionId
    → Map ResourceId CurrentState
    → Map InstanceId Sessions
store_session states i session resources =
    insert states i (insert (unwrap_or (get states i) []) session resources)

-- The new incarnation goes live, over the carried records.
pub go_live :
    ParticipantSessionState
    → InstanceId
    → SessionId
    → Map ResourceId CurrentState
    → ParticipantSessionState
unfolding store_session
go_live s i session carried = record s {
  live_instances = insert s.live_instances i (record { instance_id = i; session_id = session });
  current_states = store_session s.current_states i session carried;
}

unfoldable pub connect :
    ParticipantSessionState → InstanceId → Result SessionError (ParticipantSessionState × SessionId)
unfolding carried_current_states allocate_session go_live contains_key
connect s i = do
  fail_if (contains_key s.live_instances i) (already_live i)
  carried ← carried_current_states s i none
  (s', session) ← allocate_session s i
  ok (go_live s' i session carried, session)

pub disconnect :
    ParticipantSessionState → InstanceId → SessionId → Result SessionError ParticipantSessionState
disconnect s i session =
    require_live_session s i session >> ok (record s { live_instances = remove s.live_instances i })

unfoldable pub expire_and_reconnect :
    ParticipantSessionState
    → InstanceId
    → SessionId
    → Result SessionError (ParticipantSessionState × SessionId)
unfolding require_live_session carried_current_states allocate_session go_live
expire_and_reconnect s i old = do
  require_live_session s i old
  carried ← carried_current_states s i (some old)
  (s', session) ← allocate_session s i
  ok (go_live s' i session carried, session)
