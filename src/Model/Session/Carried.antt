-- ===== src/Model/Session/Carried.antt =====
-- The records that a new session starts with.
use clustodian.Model.Session.Coherence.{store_session-other}
use clustodian.Base.Ord.{eqb, eqb-cases, string_ord, nat_ord, pair_ord, eqb_refl}
use clustodian.Base.Map.{Map, IsSorted, get, get_below, insert, get-insert_ne, get-insert_self}
use clustodian.Base.Lists.{All}
use clustodian.Model.State.{State}
use clustodian.Model.Identity.{InstanceId, PartitionId, ResourceId, SessionId}
use clustodian.Model.Replica.Stores.{
  Stores, insert_state-Stores, get_state-head, absent_nil, absent_below,
}
use clustodian.Model.Replica.{
  ReplicaStates, ReplicaStateError, set_state, insert_state, get_state, CurrentState,
}
use clustodian.Model.Session.{
  carry_instances, carry_partitions, as_session_error, expire_and_reconnect, initial_state_of,
  require_live_session, carried_current_states, allocate_session, ParticipantSessionState,
  carry_resources, go_live, previous_resources,
}
use clustodian.Model.Session.Records.{session_resources}
use clustodian.Base.Logic.{
  Option, some, none, ◌≡◌, refl, [], ◌∷◌, ok, err, >>=-eq-ok, ok-injective, subst, arith,
  if◌then◌else◌, Result, ◌>>=◌, ◌∙◌, inl, inr, ap,
}

-- An entry of the copy: the instance's own replica is in the initial state, others are as they were.
abbrev pub reset : InstanceId → State → InstanceId → Option State → Option State
reset i initial j none = none
reset i initial j (some s) = some (if eqb j i then initial else s)

abbrev pub or_else : Option State → Option State → Option State
or_else none before = before
or_else (some s) before = some s

-- A store that is accepted.
pub set_state-Stores :
    (b : ReplicaStates) (p : PartitionId) (i : InstanceId) (s : State) {b' : ReplicaStates}
    → as_session_error (set_state b p i s) ≡ ok b'
    → Stores b p i s b'
unfolding set_state
set_state-Stores b p i s {b'} h =
    subst (Stores b p i s) (stored (insert_state b p i s).1 h) (insert_state-Stores b p i s)
  where
    stored :
        (r : Result ReplicaStateError (Unit {0}))
        → as_session_error (r >>= λ u. ok (insert_state b p i s).0) ≡ ok b'
        → (insert_state b p i s).0 ≡ b'
    stored (ok u) e = ok-injective e
    stored (err x) e = absurd cc

module _ (i : InstanceId) (initial : State) where
  carry_instances_lem :
      (p : PartitionId) (list : Map InstanceId State) (b : ReplicaStates) {b' : ReplicaStates}
      → IsSorted list
      → carry_instances i initial p list b ≡ ok b'
      → (q : PartitionId) (j : InstanceId)
      → get_state b' q j ≡ (
          if eqb p q
          then or_else (reset i initial j (get list j)) (get_state b q j)
          else get_state b q j)
  unfolding carry_instances get
  carry_instances_lem p [] b {b'} sorted h q j = rw (← ok-injective h) (ground arith)
  carry_instances_lem p ((k, s) ∷ rest) b {b'} sorted h q j =
      let v : State = if eqb k i then initial else s in
      let (one, e, h1) = >>=-eq-ok (as_session_error (set_state b p k v)) _ h in
      let stores = set_state-Stores b p k v e in
      carry_instances_lem p rest one sorted.1 h1 q j
      ∙ rw (stores q j) (elim (eqb-cases p q) [
        | inl (x, same) ↦ elim (eqb-cases k j) [
          | inl (y, this) ↦ rw (x, y, ← this, get_below rest k sorted.0) refl
          | inr (y, other) ↦ rw (x, y) refl
        ]
        | inr (x, other) ↦ rw x refl
      ])

  carry_partitions_lem :
      (list : ReplicaStates) (b : ReplicaStates) {b' : ReplicaStates}
      → IsSorted list
      → All (λ e. IsSorted e.1) list
      → carry_partitions i initial list b ≡ ok b'
      → (q : PartitionId) (j : InstanceId)
      → get_state b' q j ≡ or_else (reset i initial j (get_state list q j)) (get_state b q j)
  unfolding carry_partitions
  carry_partitions_lem [] b {b'} sorted inner h q j = rw (← ok-injective h, absent_nil q j) refl
  carry_partitions_lem ((p, entries) ∷ rest) b {b'} sorted inner h q j =
      let (one, e, h1) = >>=-eq-ok (carry_instances i initial p entries b) _ h in
      let first = carry_instances_lem p entries b inner.0 e q j in
      carry_partitions_lem rest one sorted.1 inner.1 h1 q j
      ∙ rw (first, get_state-head p entries rest q j)
          (elim (eqb-cases p q) [
            | inl (x, same) ↦ rw (x, ← same, absent_below p rest sorted.0 j) refl
            | inr (x, other) ↦ rw x refl
          ])

-- The records of every resource are in a map's order, at each level.
abbrev pub Ordered : Map ResourceId CurrentState → Type 0
Ordered resources =
    IsSorted resources × All (λ r. IsSorted r.1 × All (λ e. IsSorted e.1) r.1) resources

module _ (s : ParticipantSessionState) (i : InstanceId) where
  carry_resources_kept :
      (list taken : Map ResourceId CurrentState) (r : ResourceId)
      {taken' : Map ResourceId CurrentState}
      → carry_resources s i list taken ≡ ok taken'
      → get list r ≡ none
      → get taken' r ≡ get taken r
  unfolding carry_resources get
  carry_resources_kept [] taken r h n = rw (← ok-injective h) refl
  carry_resources_kept ((k, state) ∷ rest) taken r h n =
      let (copy, e, h1) = >>=-eq-ok (carry_partitions i (initial_state_of s k) state []) _ h in
      elim (eqb-cases k r) [
        | inl (x, same) ↦ absurd (ground arith)
        | inr (x, other) ↦
            carry_resources_kept rest (insert taken k copy) r h1 (rw x at n)
            ∙ get-insert_ne taken k copy r other
      ]

  -- The copy of one resource's records.
  abbrev Copied : ResourceId → CurrentState → Map ResourceId CurrentState → Type 0
  Copied r state taken =
      (copy : CurrentState) × (get taken r ≡ some copy)
      × ((p : PartitionId) (j : InstanceId)
          → get_state copy p j ≡ reset i (initial_state_of s r) j (get_state state p j))

  or_else-none : (o : Option State) → or_else o none ≡ o
  or_else-none none = refl
  or_else-none (some x) = refl

  carry_resources-Copied :
      (list taken : Map ResourceId CurrentState) (r : ResourceId) (state : CurrentState)
      {taken' : Map ResourceId CurrentState}
      → Ordered list
      → carry_resources s i list taken ≡ ok taken'
      → get list r ≡ some state
      → Copied r state taken'
  unfolding carry_resources get
  carry_resources-Copied [] taken r state o h e = absurd cc
  carry_resources-Copied ((k, own) ∷ rest) taken r state o h e =
      let (copy, made, h1) = >>=-eq-ok (carry_partitions i (initial_state_of s k) own []) _ h in
      elim (eqb-cases k r) [
        | inl (x, same) ↦
            let own_it : own ≡ state = some_state (rw x at e) in
            (
              copy,
              carry_resources_kept rest (insert taken k copy) r h1
                    (rw (← same) (get_below rest k o.0.0))
                  ∙ rw (← same) (get-insert_self taken k copy),
              λ p j.
                  carry_partitions_lem i (initial_state_of s k) own [] o.1.0.0 o.1.0.1 made p j
                  ∙ rw
                      (
                        absent_nil p j,
                        or_else-none (reset i (initial_state_of s k) j (get_state own p j)),
                      )
                      (rw (same, own_it) refl),
            )
        | inr (x, other) ↦
            carry_resources-Copied rest (insert taken k copy) r state (o.0.1, o.1.1) h1 (rw x at e)
      ]
    where
      some_state : {a b : CurrentState} → some a ≡ some b → a ≡ b
      some_state p = cc

carried_parts :
    (s : ParticipantSessionState) (i : InstanceId) (old : SessionId)
    (resources : Map ResourceId CurrentState) {taken : Map ResourceId CurrentState}
    → session_resources s i old ≡ some resources
    → carried_current_states s i (some old) ≡ ok taken
    → carry_resources s i resources [] ≡ ok taken
unfolding session_resources carried_current_states previous_resources
carried_parts s i old resources held h = rw (carried_current_states, held) at h

live_records :
    (g : ParticipantSessionState) (i : InstanceId) (n : SessionId) (c : Map ResourceId CurrentState)
    → session_resources (go_live g i n c) i n ≡ some c
unfolding go_live session_resources
live_records g i n c =
    store_session-other g.current_states i i n n c ∙ rw (eqb_refl i, eqb_refl n) refl

-- Where `expire_and_reconnect` succeeds and the expired session holds a resource's records, in a
-- map's order, the new session starts with a copy of them, in which the instance's own replicas are
-- in the resource's initial state and all others are as they were recorded.
pub expire_resets_records :
    (s : ParticipantSessionState) (i : InstanceId) (old n : SessionId) (r : ResourceId)
    (resources : Map ResourceId CurrentState) (state : CurrentState) {s' : ParticipantSessionState}
    → expire_and_reconnect s i old ≡ ok (s', n)
    → session_resources s i old ≡ some resources
    → Ordered resources
    → get resources r ≡ some state
    → (records : Map ResourceId CurrentState) × (copy : CurrentState) × (session_resources s' i n
        ≡ some records)
      × (get records r ≡ some copy)
      × ((p : PartitionId) (j : InstanceId)
          → get_state copy p j ≡ reset i (initial_state_of s r) j (get_state state p j))
unfolding expire_and_reconnect session_resources
expire_resets_records s i old n r resources state {s'} h held ordered e =
    let (u, e1, h1) = >>=-eq-ok (require_live_session s i old) _ h in
    let (taken, e2, h2) = >>=-eq-ok (carried_current_states s i (some old)) _ h1 in
    let ((grown, m), e3, h3) = >>=-eq-ok (allocate_session s i) _ h2 in
    let (copy, found, copied) =
      carry_resources-Copied s i resources [] r state ordered
        (carried_parts s i old resources held e2) e in
    let pair = ok-injective h3 in
    let same : m ≡ n = ap (λ v. v.1) pair in
    (taken, copy, rw (← ap (λ v. v.0) pair, ← same) (live_records grown i m taken), found, copied)
