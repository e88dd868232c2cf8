-- ===== src/Model/Session/Coherence.antt =====
-- The invariant of the session state, kept by every operation.
use clustodian.Model.State.{State}
use clustodian.Base.Ord.{nat_ord, string_ord, pair_ord, eqb, eqb-cases, eqb_refl}
use clustodian.Model.Session.{
  new, ParticipantSessionState, Sessions, store_session, allocate_session, LiveInstance, go_live,
}
use clustodian.Model.Session.Records.{
  session_resources, store_current_state, build_current, merge_published, merge_existing,
}
use clustodian.Base.Logic.{
  if◌then◌else◌, ltb, Bool-cases, and_then, ok-injective, ok, ◌+◌, ◌^◌, ◌≤◌, ◌<◌, ◌≡◌, sym, ap, inl,
  inr, ◌&&◌, Option, some, arith, [], unwrap_or, ℕ, refl, ◌∙◌, none, >>=-eq-ok, subst,
}
use clustodian.Base.Map.{
  Map, get, insert, IsSorted, get-insert, get-insert_self, get-insert_ne, insert-IsSorted,
}
use clustodian.Model.Identity.{InstanceId, SessionId, ResourceId, PartitionId}
use clustodian.Model.Replica.{CurrentState}

-- The sessions that were issued have owners, are at most the counter, and only an instance's own
-- sessions are live for it or hold its records.
pub record Coherent (s : ParticipantSessionState) : Type 0 where
  pub counted : s.next_session_sequence < 2 ^ 64
  pub issued :
      (n : SessionId) (i : InstanceId)
      → get s.known_sessions n ≡ some i
      → n ≤ s.next_session_sequence
  pub live_owned :
      (i : InstanceId) (live : LiveInstance)
      → get s.live_instances i ≡ some live
      → (live.instance_id ≡ i) × (get s.known_sessions live.session_id ≡ some i)
  pub stored_owned :
      (i : InstanceId) (n : SessionId) (r : Map ResourceId CurrentState)
      → session_resources s i n ≡ some r
      → get s.known_sessions n ≡ some i
  pub ordered : IsSorted s.live_instances

pub new-Coherent : Coherent new
unfolding new session_resources get
new-Coherent = record {
  counted = ground arith;
  issued = λ n i e. absurd cc;
  live_owned = λ i l e. absurd cc;
  stored_owned = λ i n r e. absurd cc;
  ordered = tt;
}

pub some-inj : {A : Type 0} {x y : A} → some x ≡ some y → x ≡ y
some-inj h = cc

-- What an allocation that succeeds does.
pub allocated :
    (s : ParticipantSessionState) (i : InstanceId) {s' : ParticipantSessionState} {n : SessionId}
    → allocate_session s i ≡ ok (s', n)
    → (n ≡ s.next_session_sequence + 1)
      × (s.next_session_sequence + 1 < 2 ^ 64)
      × (record s {
        next_session_sequence = s.next_session_sequence + 1;
        known_sessions = insert s.known_sessions (s.next_session_sequence + 1) i;
      }
          ≡ s')
unfolding allocate_session
allocated s i h = elim (Bool-cases (ltb (s.next_session_sequence + 1) (2 ^ 64))) [
  | inl fits ↦
      let p = ok-injective (rw fits at h) in (sym (ap (λ v. v.1) p), ground arith, ap (λ v. v.0) p)
  | inr over ↦ absurd (ground arith)
]

in_none :
    (o : Option Sessions) (m : SessionId)
    → get (unwrap_or o []) m ≡ and_then o (λ sessions. get sessions m)
unfolding get
in_none none m = refl
in_none (some sessions) m = refl

abbrev stored_at :
    Map InstanceId Sessions → InstanceId → SessionId → Option (Map ResourceId CurrentState)
stored_at states j m = and_then (get states j) (λ sessions. get sessions m)

-- A read of the records after they were stored for one session.
pub store_session-other :
    (states : Map InstanceId Sessions) (i j : InstanceId) (n m : SessionId)
    (r : Map ResourceId CurrentState)
    → stored_at (store_session states i n r) j m
      ≡ (if eqb i j && eqb n m then some r else stored_at states j m)
unfolding store_session
store_session-other states i j n m r = elim (eqb-cases i j) [
  | inl (e, p) ↦
      rw (← p, get-insert_self states i (insert (unwrap_or (get states i) []) n r), eqb_refl i)
        (get-insert (unwrap_or (get states i) []) n r m ∙ rw (in_none (get states i) m) refl)
  | inr (e, p) ↦ rw (e, get-insert_ne states i (insert (unwrap_or (get states i) []) n r) j p) refl
]

-- The sessions' owners after the next one was issued.
issued_to :
    (s : ParticipantSessionState) (i j : InstanceId) (m : SessionId)
    → Coherent s
    → get s.known_sessions m ≡ some j
    → get (insert s.known_sessions (s.next_session_sequence + 1) i) m ≡ some j
issued_to s i j m c e =
    let le = c.issued m j e in
    get-insert_ne s.known_sessions (s.next_session_sequence + 1) i m (λ same. omega arith) ∙ e

-- An instance that goes live under a session that was just allocated.
pub go_live-Coherent :
    (s : ParticipantSessionState) (i : InstanceId) (carried : Map ResourceId CurrentState)
    {s' : ParticipantSessionState} {n : SessionId}
    → Coherent s
    → allocate_session s i ≡ ok (s', n)
    → Coherent (go_live s' i n carried)
unfolding go_live session_resources
go_live-Coherent s i carried {s'} {n} c h =
    let (en, small, es) = allocated s i h in
    let next : ℕ = s.next_session_sequence + 1 in
    let here_now : LiveInstance = record { instance_id = i; session_id = next } in
    rw (← es, en)
      (record {
        counted = small;
        issued = λ m j e. elim (eqb-cases next m) [
          | inl (_, p) ↦ omega arith
          | inr (_, p) ↦
              let old = c.issued m j (sym (get-insert_ne s.known_sessions next i m p) ∙ e) in
              omega arith
        ];
        live_owned = λ j l e. elim (eqb-cases i j) [
          | inl (_, p) ↦
              let e' = rw (← p) at e in
              let l_eq : here_now ≡ l =
                some-inj (sym (get-insert_self s.live_instances i here_now) ∙ e') in
              rw (← l_eq, ← p) (refl, get-insert_self s.known_sessions next i)
          | inr (_, p) ↦
              let old = c.live_owned j l (sym (get-insert_ne s.live_instances i _ j p) ∙ e) in
              (old.0, issued_to s i j l.session_id c old.1)
        ];
        stored_owned = λ j m r e.
            let e' = sym (store_session-other s.current_states i j next m carried) ∙ e in
            elim (eqb-cases i j) [
              | inl (a, p) ↦ elim (eqb-cases next m) [
                | inl (b, q) ↦ rw (← q, ← p) (get-insert_self s.known_sessions next i)
                | inr (b, q) ↦ issued_to s i j m c (c.stored_owned j m r (rw (a, b) at e'))
              ]
              | inr (a, p) ↦ issued_to s i j m c (c.stored_owned j m r (rw a at e'))
            ];
        ordered = insert-IsSorted s.live_instances i _ c.ordered;
      })

-- Records stored for a session of its owner.
pub store_current_state-Coherent :
    (s : ParticipantSessionState) (i : InstanceId) (n : SessionId) (resource : ResourceId)
    (states : Map PartitionId State) {s' : ParticipantSessionState}
    → Coherent s
    → get s.known_sessions n ≡ some i
    → store_current_state s i n resource states ≡ ok s'
    → Coherent s'
unfolding store_current_state session_resources
store_current_state-Coherent s i n resource states c owned h =
    let resources : Map ResourceId CurrentState = unwrap_or (session_resources s i n) [] in
    let existing : CurrentState = unwrap_or (get resources resource) [] in
    let (current, e, h1) =
      >>=-eq-ok (build_current (merge_published i states (merge_existing existing [])) []) _ h in
    subst Coherent (ok-injective h1) (record {
      counted = c.counted;
      issued = c.issued;
      live_owned = c.live_owned;
      stored_owned = λ j m r e.
          let e' =
            sym (store_session-other s.current_states i j n m (insert resources resource current))
            ∙ e in
          elim (eqb-cases i j) [
            | inl (a, p) ↦ elim (eqb-cases n m) [
              | inl (b, q) ↦ rw (← q, ← p) owned
              | inr (b, q) ↦ c.stored_owned j m r (rw (a, b) at e')
            ]
            | inr (a, p) ↦ c.stored_owned j m r (rw a at e')
          ];
      ordered = c.ordered;
    })
