-- ===== src/Model/Session/Steps.antt =====
-- The runs of the session state, and what holds along each of them.
use clustodian.Model.Session.Coherence.{
  Coherent, allocated, go_live-Coherent, store_current_state-Coherent, new-Coherent, some-inj,
}
use clustodian.Base.Ord.{nat_ord, string_ord, pair_ord, eqb-cases}
use clustodian.Model.State.{State}
use clustodian.Model.Identity.{PartitionId, ResourceId, InstanceId, SessionId}
use clustodian.Model.Session.{
  already_live, SessionError, new, LiveInstance, ParticipantSessionState, go_live, disconnect,
  require_live_session, expire_and_reconnect, connect, carried_current_states, allocate_session,
  set_resource_initial_state,
}
use clustodian.Model.Session.Records.{
  publish_current_state, inject_session_current_state, session_resources,
}
use clustodian.Base.Logic.{
  >>=-eq-ok, subst, ok-injective, ok, none, some, ◌>>=◌, Option-cases, Result, fail_if, ◌+◌, ◌<◌,
  ◌≡◌, sym, ap, ◌∙◌, ◌⊎◌, inl, inr, arith, ◌≢◌,
}
use clustodian.Base.Map.{Map, get, contains_key, get-insert_self, get-remove, remove-IsSorted}
use clustodian.Model.Replica.{CurrentState}

-- One call that succeeds.
pub data Step (s : ParticipantSessionState) : ParticipantSessionState → Type 0 where
  connected :
      {s' : ParticipantSessionState} (i : InstanceId) (n : SessionId)
      → connect s i ≡ ok (s', n)
      → Step s s'
  disconnected :
      {s' : ParticipantSessionState} (i : InstanceId) (n : SessionId)
      → disconnect s i n ≡ ok s'
      → Step s s'
  reconnected :
      {s' : ParticipantSessionState} (i : InstanceId) (old n : SessionId)
      → expire_and_reconnect s i old ≡ ok (s', n)
      → Step s s'
  published :
      {s' : ParticipantSessionState} (i : InstanceId) (n : SessionId) (resource : ResourceId)
      (states : Map PartitionId State)
      → publish_current_state s i n resource states ≡ ok s'
      → Step s s'
  injected :
      {s' : ParticipantSessionState} (i : InstanceId) (n : SessionId) (resource : ResourceId)
      (states : Map PartitionId State)
      → inject_session_current_state s i n resource states ≡ ok s'
      → Step s s'
  configured :
      {s' : ParticipantSessionState} (resource : ResourceId) (state : State)
      → set_resource_initial_state s resource state ≡ s'
      → Step s s'

-- The states that calls lead to from `s`.
pub data Run (s : ParticipantSessionState) : ParticipantSessionState → Type 0 where
  start : Run s s
  next : {s' s'' : ParticipantSessionState} → Run s s' → Step s' s'' → Run s s''

-- The parts of a call that starts a new session.
pub record Opened (s : ParticipantSessionState) (i : InstanceId) (s' : ParticipantSessionState)
    (n : SessionId) : Type 0 where
  pub carried : Map ResourceId CurrentState
  pub grown : ParticipantSessionState
  pub allocation : allocate_session s i ≡ ok (grown, n)
  pub result : go_live grown i n carried ≡ s'

-- What a connection and an expiration do after their checks.
abbrev open_with :
    ParticipantSessionState
    → InstanceId
    → Map ResourceId CurrentState
    → Result SessionError (ParticipantSessionState × SessionId)
open_with s i carried = do
  (s', session) ← allocate_session s i
  ok (go_live s' i session carried, session)

opened :
    (s : ParticipantSessionState) (i : InstanceId)
    (previous : Result SessionError (Map ResourceId CurrentState)) {s' : ParticipantSessionState}
    {n : SessionId}
    → (previous >>= open_with s i) ≡ ok (s', n)
    → Opened s i s' n
opened s i previous {s'} {n} h =
    let (carried, e, h1) = >>=-eq-ok previous (open_with s i) h in
    let ((grown, m), e1, h2) = >>=-eq-ok (allocate_session s i) _ h1 in
    let p = ok-injective h2 in
    let same : m ≡ n = ap (λ v. v.1) p in
    record {
      carried = carried;
      grown = grown;
      allocation = rw (← same) e1;
      result = rw (← same) (ap (λ v. v.0) p);
    }

pub connect-Opened :
    (s : ParticipantSessionState) (i : InstanceId) {s' : ParticipantSessionState} {n : SessionId}
    → connect s i ≡ ok (s', n)
    → Opened s i s' n
unfolding connect
connect-Opened s i h =
    let (u, e, h1) = >>=-eq-ok (fail_if (contains_key s.live_instances i) (already_live i)) _ h in
    opened s i (carried_current_states s i none) h1

pub expire-Opened :
    (s : ParticipantSessionState) (i : InstanceId) (old : SessionId) {s' : ParticipantSessionState}
    {n : SessionId}
    → expire_and_reconnect s i old ≡ ok (s', n)
    → Opened s i s' n
unfolding expire_and_reconnect
expire-Opened s i old h =
    let (u, e, h1) = >>=-eq-ok (require_live_session s i old) _ h in
    opened s i (carried_current_states s i (some old)) h1

Opened-Coherent :
    {s : ParticipantSessionState} {i : InstanceId} {s' : ParticipantSessionState} {n : SessionId}
    → Opened s i s' n
    → Coherent s
    → Coherent s'
Opened-Coherent {s} {i} o c =
    subst Coherent o.result (go_live-Coherent s i o.carried c o.allocation)

-- A session that passes the check is the instance's live one.
pub live_session :
    (s : ParticipantSessionState) (i : InstanceId) (n : SessionId) {u : Unit {0}}
    → require_live_session s i n ≡ ok u
    → (live : LiveInstance) × (get s.live_instances i ≡ some live) × (live.session_id ≡ n)
unfolding require_live_session
live_session s i n h = elim (Option-cases (get s.live_instances i)) [
  | inl gone ↦ absurd (ground arith)
  | inr (live, e) ↦ (live, e, ground arith)
]

Step-Coherent : {s s' : ParticipantSessionState} → Step s s' → Coherent s → Coherent s'
unfolding disconnect publish_current_state inject_session_current_state set_resource_initial_state
    session_resources
Step-Coherent {s} (connected i n h) c = Opened-Coherent (connect-Opened s i h) c
Step-Coherent {s} (disconnected i n h) c =
    let (u, e, h1) = >>=-eq-ok (require_live_session s i n) _ h in
    subst Coherent (ok-injective h1) (record {
      counted = c.counted;
      issued = c.issued;
      live_owned = λ j l e.
          let e' = sym (get-remove s.live_instances i j) ∙ e in c.live_owned j l (ground arith);
      stored_owned = c.stored_owned;
      ordered = remove-IsSorted s.live_instances i c.ordered;
    })
Step-Coherent {s} (reconnected i old n h) c = Opened-Coherent (expire-Opened s i old h) c
Step-Coherent {s} (published i n resource states h) c =
    let (u, e, h1) = >>=-eq-ok (require_live_session s i n) _ h in
    let (live, e1, same) = live_session s i n e in
    store_current_state-Coherent s i n resource states c (rw (← same) (c.live_owned i live e1).1) h1
Step-Coherent {s} (injected i n resource states h) c =
    elim (Option-cases (get s.known_sessions n)) [
      | inl unknown ↦ absurd (ground arith)
      | inr (owner, e) ↦ elim (eqb-cases owner i) [
        | inl (same, p) ↦
            store_current_state-Coherent s i n resource states c (rw p at e) (ground arith)
        | inr (other, p) ↦ absurd (ground arith)
      ]
    ]
Step-Coherent {s} (configured resource state h) c = subst Coherent h (record {
  counted = c.counted;
  issued = c.issued;
  live_owned = c.live_owned;
  stored_owned = c.stored_owned;
  ordered = c.ordered;
})

-- Every run of calls that succeed keeps the session state coherent: each session was issued to one
-- instance and is at most the counter, the counter is a `u64`, what is live for an instance or
-- recorded for it is a session that was issued to it, and the live instances are in a map's order.
pub run-Coherent : {s s' : ParticipantSessionState} → Run s s' → Coherent s → Coherent s'
run-Coherent start c = c
run-Coherent (next r step) c = Step-Coherent step (run-Coherent r c)

-- Two instances that are live at once, in a state that calls lead to from the new state, are live
-- under different sessions.
pub live_sessions_distinct :
    (i j : InstanceId) (a b : LiveInstance) {s : ParticipantSessionState}
    → Run new s
    → get s.live_instances i ≡ some a
    → get s.live_instances j ≡ some b
    → i ≢ j
    → a.session_id ≢ b.session_id
live_sessions_distinct i j a b r ea eb apart = λ same.
    let c = run-Coherent r new-Coherent in
    let ha = (c.live_owned i a ea).1 in
    let hb = (c.live_owned j b eb).1 in let ha' = rw same at ha in apart (some-inj (sym ha' ∙ hb))

-- A session that a call opens in a state that calls lead to from the new state is fresh: it was not
-- issued before, it is greater than every session that was, and the instance is live under it.
pub opened_fresh :
    (i : InstanceId) (n : SessionId) {s s' : ParticipantSessionState}
    → Run new s
    → (connect s i ≡ ok (s', n)) ⊎ ((old : SessionId) × (expire_and_reconnect s i old ≡ ok (s', n)))
    → ((m : SessionId) (j : InstanceId) → get s.known_sessions m ≡ some j → m < n)
      × (get s'.known_sessions n ≡ some i)
      × (get s'.live_instances i ≡ some (record { instance_id = i; session_id = n }))
unfolding go_live
opened_fresh i n {s} {s'} r h =
    let c = run-Coherent r new-Coherent in
    let o : Opened s i s' n = elim h [
      | inl e ↦ connect-Opened s i e
      | inr (old, e) ↦ expire-Opened s i old e
    ] in
    let (en, small, es) = allocated s i o.allocation in
    (
      λ m j e. let le = c.issued m j e in omega arith,
      rw (← o.result, ← es, en) (get-insert_self s.known_sessions (s.next_session_sequence + 1) i),
      rw (← o.result) (get-insert_self o.grown.live_instances i _),
    )
