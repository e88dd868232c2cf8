-- ===== src/Model/Session/Published.antt =====
-- What a publication makes of the recorded states.
use clustodian.Model.Session.Coherence.{store_session-other}
use clustodian.Model.Session.Carried.{or_else, set_state-Stores}
use clustodian.Base.Ord.{eqb, eqb-cases, eqb_refl, string_ord, nat_ord, pair_ord}
use clustodian.Base.Map.{
  Map, IsSorted, get, get_below, insert, get-insert, insert-IsSorted, get-insert_self,
}
use clustodian.Base.Lists.{All}
use clustodian.Model.State.{State}
use clustodian.Model.Identity.{InstanceId, PartitionId, SessionId, ResourceId}
use clustodian.Model.Replica.Stores.{get_state-head, absent_nil, absent_below}
use clustodian.Model.Replica.{ReplicaStates, get_state, set_state, CurrentState}
use clustodian.Model.Session.{
  as_session_error, require_live_session, ParticipantSessionState, store_session,
}
use clustodian.Model.Session.Records.{
  Merged, merge_instances, merge_existing, merge_published, session_resources,
  publish_current_state, store_current_state, build_current,
}
use clustodian.Base.Logic.{
  Option, some, none, ◌≡◌, ◌≢◌, refl, [], ◌∷◌, arith, if◌then◌else◌, ◌&&◌, ap, ◌∙◌, inl, inr, false,
  Bool, >>=-eq-ok, ok-injective, unwrap_or, ok, true, sym,
}

abbrev same_key : PartitionId × InstanceId → PartitionId × InstanceId → Bool
same_key a b = eqb a b

unequal :
    (a b : PartitionId × InstanceId) → ◌≢◌ {A = PartitionId × InstanceId} a b → same_key a b ≡ false
unequal a b n = elim (eqb-cases a b) [ inl (x, same) ↦ absurd (n same) | inr (x, other) ↦ x ]

pair_eqb : (p q : PartitionId) (j k : InstanceId) → same_key (p, j) (q, k) ≡ (eqb p q && eqb j k)
pair_eqb p q j k = elim (eqb-cases p q) [
  | inl (x, same) ↦ elim (eqb-cases j k) [
    | inl (y, this) ↦
        let pair : PartitionId × InstanceId = (q, k) in
        rw (same, this, eqb_refl q, eqb_refl k) (eqb_refl pair)
    | inr (y, other) ↦ rw (x, y) (unequal (p, j) (q, k) (λ e. other (ap (λ v. v.1) e)))
  ]
  | inr (x, other) ↦ rw x (unequal (p, j) (q, k) (λ e. other (ap (λ v. v.0) e)))
]

merge_instances_lem :
    (p : PartitionId) (list : Map InstanceId State) (merged : Merged)
    → IsSorted list
    → (q : PartitionId) (j : InstanceId)
    → get (merge_instances p list merged) (q, j)
      ≡ (if eqb p q then or_else (get list j) (get merged (q, j)) else get merged (q, j))
unfolding merge_instances get
merge_instances_lem p [] merged sorted q j = ground arith
merge_instances_lem p ((k, s) ∷ rest) merged sorted q j =
    merge_instances_lem p rest (insert merged (p, k) s) sorted.1 q j
    ∙ rw (get-insert merged (p, k) s (q, j), pair_eqb p q k j)
        (elim (eqb-cases p q) [
          | inl (x, same) ↦ elim (eqb-cases k j) [
            | inl (y, this) ↦ rw (x, y, ← this, get_below rest k sorted.0) refl
            | inr (y, other) ↦ rw (x, y) refl
          ]
          | inr (x, other) ↦ rw x refl
        ])

merge_existing_lem :
    (list : ReplicaStates) (merged : Merged)
    → IsSorted list
    → All (λ e. IsSorted e.1) list
    → (q : PartitionId) (j : InstanceId)
    → get (merge_existing list merged) (q, j) ≡ or_else (get_state list q j) (get merged (q, j))
unfolding merge_existing
merge_existing_lem [] merged sorted inner q j = rw (absent_nil q j) refl
merge_existing_lem ((p, entries) ∷ rest) merged sorted inner q j =
    merge_existing_lem rest (merge_instances p entries merged) sorted.1 inner.1 q j
    ∙ rw (merge_instances_lem p entries merged inner.0 q j, get_state-head p entries rest q j)
        (elim (eqb-cases p q) [
          | inl (x, same) ↦ rw (x, ← same, absent_below p rest sorted.0 j) refl
          | inr (x, other) ↦ rw x refl
        ])

merge_published_lem :
    (i : InstanceId) (list : Map PartitionId State) (merged : Merged)
    → IsSorted list
    → (q : PartitionId) (j : InstanceId)
    → get (merge_published i list merged) (q, j)
      ≡ (if eqb i j then or_else (get list q) (get merged (q, j)) else get merged (q, j))
unfolding merge_published get
merge_published_lem i [] merged sorted q j = ground arith
merge_published_lem i ((p, s) ∷ rest) merged sorted q j =
    merge_published_lem i rest (insert merged (p, i) s) sorted.1 q j
    ∙ rw (get-insert merged (p, i) s (q, j), pair_eqb p q i j)
        (elim (eqb-cases p q) [
          | inl (x, same) ↦ elim (eqb-cases i j) [
            | inl (y, this) ↦ rw (x, y, ← same, get_below rest p sorted.0) refl
            | inr (y, other) ↦ rw (x, y) refl
          ]
          | inr (x, other) ↦ rw x (ground arith)
        ])

merge_instances-IsSorted :
    (p : PartitionId) (list : Map InstanceId State) (merged : Merged)
    → IsSorted merged
    → IsSorted (merge_instances p list merged)
unfolding merge_instances
merge_instances-IsSorted p [] merged h = h
merge_instances-IsSorted p ((k, s) ∷ rest) merged h =
    merge_instances-IsSorted p rest (insert merged (p, k) s) (insert-IsSorted merged (p, k) s h)

merge_existing-IsSorted :
    (list : ReplicaStates) (merged : Merged)
    → IsSorted merged
    → IsSorted (merge_existing list merged)
unfolding merge_existing
merge_existing-IsSorted [] merged h = h
merge_existing-IsSorted ((p, entries) ∷ rest) merged h =
    merge_existing-IsSorted rest (merge_instances p entries merged)
      (merge_instances-IsSorted p entries merged h)

merge_published-IsSorted :
    (i : InstanceId) (list : Map PartitionId State) (merged : Merged)
    → IsSorted merged
    → IsSorted (merge_published i list merged)
unfolding merge_published
merge_published-IsSorted i [] merged h = h
merge_published-IsSorted i ((p, s) ∷ rest) merged h =
    merge_published-IsSorted i rest (insert merged (p, i) s) (insert-IsSorted merged (p, i) s h)

build_current_lem :
    (list : Merged) (b : ReplicaStates) {b' : ReplicaStates}
    → IsSorted list
    → build_current list b ≡ ok b'
    → (q : PartitionId) (j : InstanceId)
    → get_state b' q j ≡ or_else (get list (q, j)) (get_state b q j)
unfolding build_current get
build_current_lem [] b sorted h q j = rw (← ok-injective h) refl
build_current_lem (((p, k), s) ∷ rest) b sorted h q j =
    let (one, e, h1) = >>=-eq-ok (as_session_error (set_state b p k s)) _ h in
    let stores = set_state-Stores b p k s e in
    build_current_lem rest one sorted.1 h1 q j
    ∙ rw (stores q j, pair_eqb p q k j)
        (elim (eqb-cases p q) [
          | inl (x, same) ↦ elim (eqb-cases k j) [
            | inl (y, this) ↦ rw (x, y, ← same, ← this, get_below rest (p, k) sorted.0) refl
            | inr (y, other) ↦ rw (x, y) refl
          ]
          | inr (x, other) ↦ rw x refl
        ])

-- The states that a session holds for a resource.
abbrev pub held : ParticipantSessionState → InstanceId → SessionId → ResourceId → CurrentState
held s i n resource = unwrap_or (get (unwrap_or (session_resources s i n) []) resource) []

held_after :
    (s : ParticipantSessionState) (i : InstanceId) (n : SessionId) (resource : ResourceId)
    (resources : Map ResourceId CurrentState) (current : CurrentState)
    → held
        (record s {
          current_states = store_session s.current_states i n (insert resources resource current);
        })
        i
        n
        resource
      ≡ current
unfolding session_resources
held_after s i n resource resources current =
    let stored : Map ResourceId CurrentState = insert resources resource current in
    let read : session_resources
          (record s { current_states = store_session s.current_states i n stored }) i n
        ≡ some stored =
      store_session-other s.current_states i i n n stored ∙ rw (eqb_refl i, eqb_refl n) refl in
    ap (λ o. unwrap_or (get (unwrap_or o []) resource) []) read
    ∙ rw (get-insert_self resources resource current) refl

layers :
    (c : Bool) (a b : Option State)
    → or_else (if c then or_else a (or_else b none) else or_else b none) none
      ≡ or_else (if c then a else none) b
layers true none none = refl
layers true none (some t) = refl
layers true (some t) b = refl
layers false a none = refl
layers false a (some t) = refl

merged_read :
    (i : InstanceId) (states : Map PartitionId State) (existing : CurrentState) (p : PartitionId)
    (j : InstanceId)
    → IsSorted states
    → IsSorted existing
    → All (λ e. IsSorted e.1) existing
    → or_else
        (get (merge_published i states (merge_existing existing [])) (p, j))
        (get_state [] p j)
      ≡ or_else (if eqb i j then get states p else none) (get_state existing p j)
unfolding get
merged_read i states existing p j sorted outer inner =
    rw
      (
        merge_published_lem i states (merge_existing existing []) sorted p j,
        merge_existing_lem existing [] outer inner p j,
        absent_nil p j,
      )
      (layers (eqb i j) (get states p) (get_state existing p j))

-- Where `publish_current_state` succeeds, on published states and recorded ones in a map's order,
-- the session's record of the resource has the published states of the instance, and every other
-- state as it was recorded.
pub publish_merges :
    (s : ParticipantSessionState) (i : InstanceId) (n : SessionId) (resource : ResourceId)
    (states : Map PartitionId State) (p : PartitionId) (j : InstanceId)
    {s' : ParticipantSessionState}
    → publish_current_state s i n resource states ≡ ok s'
    → IsSorted states
    → IsSorted (held s i n resource)
    → All (λ e. IsSorted e.1) (held s i n resource)
    → get_state (held s' i n resource) p j
      ≡ or_else (if eqb i j then get states p else none) (get_state (held s i n resource) p j)
unfolding publish_current_state store_current_state
publish_merges s i n resource states p j {s'} h sorted outer inner =
    let existing : CurrentState = held s i n resource in
    let merged : Merged = merge_published i states (merge_existing existing []) in
    let (u, e, h1) = >>=-eq-ok (require_live_session s i n) _ h in
    let (current, e1, h2) = >>=-eq-ok (build_current merged []) _ h1 in
    let built =
      build_current_lem merged []
        (merge_published-IsSorted i states (merge_existing existing [])
          (merge_existing-IsSorted existing [] tt))
        e1 p j in
    let kept : held s' i n resource ≡ current =
      ap (λ t. held t i n resource) (sym (ok-injective h2))
      ∙ held_after s i n resource (unwrap_or (session_resources s i n) []) current in
    rw kept (built ∙ merged_read i states existing p j sorted outer inner)
