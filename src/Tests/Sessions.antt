-- ===== src/Tests/Sessions.antt =====
-- Participant sessions, run from the new state.
use clustodian.Model.State.{State}
use clustodian.Model.Session.Published.{held, publish_merges}
use clustodian.Model.Replica.{CurrentState, get_state, set_state, insert_state}
use clustodian.Model.Session.Carried.{reset, expire_resets_records, or_else}
use clustodian.Model.Session.Snapshots.{expired_session_fenced, snapshot_shows_live, view_of}
use clustodian.Model.Session.Coherence.{Coherent, new-Coherent}
use clustodian.Model.Session.Steps.{
  Run, start, next, connected, reconnected, run-Coherent, live_sessions_distinct, opened_fresh,
}
use clustodian.Model.Session.{
  ParticipantSessionState, SessionError, LiveInstance, new, connect, expire_and_reconnect,
  disconnect, session_mismatch, require_live_session, initial_state_of,
}
use clustodian.Model.Session.Records.{
  publish_current_state, session_resources, snapshot, store_current_state,
}
use clustodian.Model.Identity.{InstanceId, SessionId, PartitionId, ResourceId}
use clustodian.Base.Map.{get, insert, contains_key, Map}
use clustodian.Base.Ord.{eqb, nat_ord, string_ord, pair_ord}
use clustodian.Base.Logic.{
  Result, some, ◌≡◌, ◌≢◌, ◌<◌, refl, [], ◌∷◌, ok, err, inr, ap, false, true, none, if◌then◌else◌,
}

-- The state that a call leaves, and the session that it opens.
abbrev after : Result SessionError (ParticipantSessionState × SessionId) → ParticipantSessionState
after (ok (s, n)) = s
after (err e) = new

unfoldable first_state : ParticipantSessionState
unfolding connect
first_state = after (connect new "n1")

unfoldable second_state : ParticipantSessionState
unfolding connect first_state
second_state = after (connect first_state "n2")

unfoldable third_state : ParticipantSessionState
unfolding expire_and_reconnect second_state
third_state = after (expire_and_reconnect second_state "n1" 1)

first_call : connect new "n1" ≡ ok (first_state, 1)
unfolding first_state connect new get insert contains_key eqb string_ord nat_ord
first_call = refl

second_call : connect first_state "n2" ≡ ok (second_state, 2)
unfolding second_state first_state connect new get insert contains_key eqb string_ord nat_ord
second_call = refl

third_call : expire_and_reconnect second_state "n1" 1 ≡ ok (third_state, 3)
unfolding third_state second_state first_state connect expire_and_reconnect new get insert
    contains_key eqb string_ord nat_ord
third_call = refl

second_run : Run new second_state
second_run = next (next start (connected "n1" 1 first_call)) (connected "n2" 2 second_call)

third_run : Run new third_state
third_run = next second_run (reconnected "n1" 1 3 third_call)

abbrev online : InstanceId → SessionId → LiveInstance
online i n = record { instance_id = i; session_id = n }

n1_live : get second_state.live_instances "n1" ≡ some (online "n1" 1)
unfolding second_state first_state connect new get insert contains_key eqb string_ord nat_ord
n1_live = refl

n2_live : get second_state.live_instances "n2" ≡ some (online "n2" 2)
unfolding second_state first_state connect new get insert contains_key eqb string_ord nat_ord
n2_live = refl

run-Coherent_example : Coherent third_state
run-Coherent_example = run-Coherent third_run new-Coherent

names_apart : ◌≢◌ {A = InstanceId} "n1" "n2"
unfolding eqb string_ord
names_apart = λ same. let e : false ≡ true = ap (λ s. eqb s "n2") same in absurd cc

live_sessions_distinct_example : (online "n1" 1).session_id ≢ (online "n2" 2).session_id
live_sessions_distinct_example =
    live_sessions_distinct "n1" "n2" (online "n1" 1) (online "n2" 2) second_run n1_live n2_live
      names_apart

opened_fresh_example :
    ((m : SessionId) (j : InstanceId) → get second_state.known_sessions m ≡ some j → m < 3)
    × (get third_state.known_sessions 3 ≡ some "n1")
    × (get third_state.live_instances "n1" ≡ some (online "n1" 3))
opened_fresh_example = opened_fresh "n1" 3 second_run (inr (1, third_call))

expired_session_fenced_example :
    (publish_current_state third_state "n1" 1 "orders" (("p0", "LEADER") ∷ [])
      ≡ err (session_mismatch "n1" 3 1))
    × (disconnect third_state "n1" 1 ≡ err (session_mismatch "n1" 3 1))
    × (session_resources third_state "n1" 1 ≡ session_resources second_state "n1" 1)
    × ((j : InstanceId)
        → "n1" ≢ j
        → get third_state.live_instances j ≡ get second_state.live_instances j)
expired_session_fenced_example =
    expired_session_fenced "n1" 1 3 "orders" (("p0", "LEADER") ∷ []) second_run third_call

snapshot_shows_live_example :
    get (snapshot third_state).active_current_state "n1"
    ≡ view_of third_state "n1" (get third_state.live_instances "n1")
snapshot_shows_live_example = snapshot_shows_live "n1" third_run

-- The state after a publication.
abbrev after_publish : Result SessionError ParticipantSessionState → ParticipantSessionState
after_publish (ok s) = s
after_publish (err e) = new

unfoldable published_state : ParticipantSessionState
unfolding publish_current_state second_state
published_state =
    after_publish (publish_current_state second_state "n1" 1 "orders" (("p0", "LEADER") ∷ []))

unfoldable fourth_state : ParticipantSessionState
unfolding expire_and_reconnect published_state
fourth_state = after (expire_and_reconnect published_state "n1" 1)

abbrev leader_record : CurrentState
leader_record = ("p0", ("n1", "LEADER") ∷ []) ∷ []

abbrev one_record : Map ResourceId CurrentState
one_record = ("orders", leader_record) ∷ []

fourth_call : expire_and_reconnect published_state "n1" 1 ≡ ok (fourth_state, 3)
unfolding fourth_state published_state second_state first_state connect expire_and_reconnect
    publish_current_state store_current_state require_live_session set_state insert_state new get
    insert contains_key eqb string_ord nat_ord pair_ord
fourth_call = refl

recorded : session_resources published_state "n1" 1 ≡ some one_record
unfolding published_state second_state first_state connect publish_current_state store_current_state
    require_live_session session_resources set_state insert_state new get insert contains_key eqb
    string_ord nat_ord pair_ord
recorded = refl

one_resource : get one_record "orders" ≡ some leader_record
unfolding get eqb string_ord
one_resource = refl

expire_resets_records_example :
    (records : Map ResourceId CurrentState) × (copy : CurrentState) × (session_resources
        fourth_state "n1" 3
      ≡ some records)
    × (get records "orders" ≡ some copy)
    × ((p : PartitionId) (j : InstanceId)
        → get_state copy p j
          ≡ reset "n1" (initial_state_of published_state "orders") j (get_state leader_record p j))
expire_resets_records_example =
    expire_resets_records published_state "n1" 1 3 "orders" one_record leader_record fourth_call
      recorded ((tt, tt), (((tt, tt), ((tt, tt), tt)), tt)) one_resource

abbrev first_states : Map PartitionId State
first_states = ("p0", "LEADER") ∷ []

publish_call : publish_current_state second_state "n1" 1 "orders" first_states ≡ ok published_state
unfolding published_state second_state first_state connect publish_current_state store_current_state
    require_live_session session_resources set_state insert_state new get insert contains_key eqb
    string_ord nat_ord pair_ord
publish_call = refl

held_nothing : held second_state "n1" 1 "orders" ≡ []
unfolding published_state second_state first_state connect publish_current_state store_current_state
    require_live_session session_resources set_state insert_state new get insert contains_key eqb
    string_ord nat_ord pair_ord
held_nothing = refl

abbrev first_name : InstanceId
first_name = "n1"

publish_merges_example :
    get_state (held published_state "n1" 1 "orders") "p0" "n1"
    ≡ or_else
        (if eqb first_name first_name then get first_states "p0" else none)
        (get_state (held second_state "n1" 1 "orders") "p0" "n1")
publish_merges_example =
    publish_merges second_state "n1" 1 "orders" first_states "p0" "n1" publish_call (tt, tt)
      (rw held_nothing tt) (rw held_nothing tt)
