-- ===== src/Model/Session/Records.antt =====
-- src/model/session.rs: what participants publish under their sessions, and the snapshot of it.
use clustodian.Model.Identity.{InstanceId, PartitionId, ResourceId, SessionId}
use clustodian.Model.State.{State}
use clustodian.Model.Replica.{CurrentState, ReplicaStates, set_state}
use clustodian.Base.Logic.{
  if◌then◌else◌, Result, ◌>>=◌, ◌>>◌, and_then, unwrap_or, ok, err, Option, none, some, ◌∷◌, [],
}
use clustodian.Base.Map.{Map, get, insert}
use clustodian.Base.Ord.{eqb, string_ord, nat_ord, pair_ord}
use clustodian.Model.Session.{
  ActiveCurrentState, LiveInstance, ParticipantSessionSnapshot, ParticipantSessionState,
  SessionError, as_session_error, require_live_session, store_session, unknown_session,
  session_ownership_mismatch,
}

abbrev pub Merged : Type 0
Merged = Map (PartitionId × InstanceId) State

unfoldable pub merge_instances : PartitionId → Map InstanceId State → Merged → Merged
merge_instances partition [] merged = merged
merge_instances partition ((stored, state) ∷ rest) merged =
    merge_instances partition rest (insert merged (partition, stored) state)

unfoldable pub merge_existing : CurrentState → Merged → Merged
unfolding merge_instances
merge_existing [] merged = merged
merge_existing ((partition, instances) ∷ rest) merged =
    merge_existing rest (merge_instances partition instances merged)

unfoldable pub merge_published : InstanceId → Map PartitionId State → Merged → Merged
merge_published i [] merged = merged
merge_published i ((partition, state) ∷ rest) merged =
    merge_published i rest (insert merged (partition, i) state)

unfoldable pub build_current : Merged → ReplicaStates → Result SessionError CurrentState
unfolding set_state
build_current [] b = ok b
build_current (((partition, stored), state) ∷ rest) b =
    as_session_error (set_state b partition stored state) >>= build_current rest

unfoldable pub session_resources :
    ParticipantSessionState → InstanceId → SessionId → Option (Map ResourceId CurrentState)
session_resources s i session = and_then (get s.current_states i) (λ sessions. get sessions session)

unfoldable pub store_current_state :
    ParticipantSessionState
    → InstanceId
    → SessionId
    → ResourceId
    → Map PartitionId State
    → Result SessionError ParticipantSessionState
unfolding session_resources merge_existing merge_published build_current store_session
store_current_state s i session resource states = do
  let resources = unwrap_or (session_resources s i session) []
  let existing = unwrap_or (get resources resource) []
  current ← build_current (merge_published i states (merge_existing existing [])) []
  ok (record s {
    current_states = store_session s.current_states i session (insert resources resource current);
  })

unfoldable pub publish_current_state :
    ParticipantSessionState
    → InstanceId
    → SessionId
    → ResourceId
    → Map PartitionId State
    → Result SessionError ParticipantSessionState
publish_current_state s i session resource states =
    require_live_session s i session >> store_current_state s i session resource states

unfoldable pub inject_session_current_state :
    ParticipantSessionState
    → InstanceId
    → SessionId
    → ResourceId
    → Map PartitionId State
    → Result SessionError ParticipantSessionState
unfolding store_current_state
inject_session_current_state s i session resource states = elim (get s.known_sessions session) [
  | none ↦ err (unknown_session session)
  | some owner ↦
      if eqb owner i
      then store_current_state s i session resource states
      else err (session_ownership_mismatch i session owner)
]

unfoldable pub collect_active :
    ParticipantSessionState
    → Map InstanceId LiveInstance
    → Map InstanceId ActiveCurrentState
    → Map InstanceId ActiveCurrentState
unfolding session_resources
collect_active s [] active = active
collect_active s ((i, live) ∷ rest) active = collect_active s rest (
    insert active i (record {
      session_id = live.session_id;
      resources = unwrap_or (session_resources s i live.session_id) [];
    }))

unfoldable pub snapshot : ParticipantSessionState → ParticipantSessionSnapshot
unfolding collect_active
snapshot s = record {
  live_instances = s.live_instances;
  active_current_state = collect_active s s.live_instances [];
}
