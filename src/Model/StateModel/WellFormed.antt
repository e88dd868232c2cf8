-- ===== src/Model/StateModel/WellFormed.antt =====
-- What `build` guarantees of the definitions that it publishes.
use clustodian.Model.Identity.{is_empty_text}
use clustodian.Model.State.{State, StateCardinality, Transition, is_dropped}
use clustodian.Model.StateModel.Table.{build_transition_table}
use clustodian.Model.StateModel.{
  StateModelDefinition, StateModelBuilder, StateModelError, Seen, see_states, check_transitions,
  check_drops, transition_key, build, empty_model_name, no_states, missing_initial_state,
  unknown_initial_state, missing_dropped_state, next_state_toward, cardinality_for,
}
use clustodian.Model.StateModel.Positions.{Known}
use clustodian.Base.Logic.{
  is_some, and_then, ok-injective, ok, ◌≡◌, refl, subst, ◌⊎◌, true, false, List, ◌∷◌, ◌++◌, map,
  Bool-cases, ◌∙◌, inl, inr, arith, [], fail_if, ok_or, some, >>=-eq-ok, ap, Bool, Option, none,
  not,
}
use clustodian.Base.Lists.{is_empty, All, contains, Distinct, contains-append, find, All-imp}
use clustodian.Base.Map.{Map, get, contains_key, insert, get-insert_self, get-insert_ne}
use clustodian.Base.Ord.{string_ord, nat_ord, pair_ord, eqb-cases, eqb-sym, eqb_refl}
use clustodian.Base.Set.{add, contains-add}

-- The states are distinct, the transitions are distinct and between them, the initial state is one
-- of them, each has a cardinality, and each but the dropped ones has a hop toward a dropped one.
pub record WellFormed (m : StateModelDefinition) : Type 0 where
  pub distinct : Distinct m.states_by_priority
  pub initial : contains m.states_by_priority m.initial_state ≡ true
  pub known : Known m.states_by_priority m.transitions_by_priority
  pub distinct_transitions : Distinct (map transition_key m.transitions_by_priority)
  pub cardinal : All (λ s. is_some (cardinality_for m s) ≡ true) m.states_by_priority
  pub table : m.next_states ≡ build_transition_table m.states_by_priority m.transitions_by_priority
  pub drops :
      (dropped : State) × (is_dropped dropped ≡ true)
      × (contains m.states_by_priority dropped ≡ true)
      × All
          (λ s. (s ≡ dropped) ⊎ (is_some (next_state_toward m s dropped) ≡ true))
          m.states_by_priority

-- The set and the list of the states seen hold the same states.
record SeenWell (s : Seen) : Type 0 where
  same : (a : State) → contains s.state_set a ≡ contains s.states_by_priority a
  distinct : Distinct s.states_by_priority
  cardinal : All (λ a. is_some (get s.cardinalities a) ≡ true) s.states_by_priority

abbrev nothing_seen : Seen
nothing_seen = record { state_set = []; states_by_priority = []; cardinalities = [] }

nothing-SeenWell : SeenWell nothing_seen
nothing-SeenWell = record { same = λ a. refl; distinct = tt; cardinal = tt }

Distinct-snoc :
    (xs : List State) (a : State) → Distinct xs → contains xs a ≡ false → Distinct (xs ++ a ∷ [])
unfolding contains
Distinct-snoc [] a d n = (refl, tt)
Distinct-snoc (x ∷ xs) a d n = (
  contains-append xs (a ∷ []) x ∙ ground (arith, eqb-sym a x),
  Distinct-snoc xs a d.1 (ground arith),
)

kept :
    (xs : List State) (m : Map State StateCardinality) (a : State) (c : StateCardinality)
    → All (λ x. is_some (get m x) ≡ true) xs
    → All (λ x. is_some (get (insert m a c) x) ≡ true) (xs ++ a ∷ [])
kept [] m a c h = (rw (get-insert_self m a c) refl, tt)
kept (x ∷ xs) m a c h = (
  elim (eqb-cases a x) [
    | inl (e, p) ↦ rw (← p, get-insert_self m a c) refl
    | inr (e, n) ↦ rw (get-insert_ne m a c x n) h.0
  ],
  kept xs m a c h.1,
)

seen-SeenWell :
    (a : State) (c : StateCardinality) (s : Seen)
    → SeenWell s
    → contains s.state_set a ≡ false
    → SeenWell (record {
      state_set = add s.state_set a;
      states_by_priority = s.states_by_priority ++ a ∷ [];
      cardinalities = insert s.cardinalities a c;
    })
unfolding contains
seen-SeenWell a c s w fresh = record {
  same = λ x.
      contains-add s.state_set a x
      ∙ rw (contains-append s.states_by_priority (a ∷ []) x, w.same x) (ground arith);
  distinct = Distinct-snoc s.states_by_priority a w.distinct (rw (← w.same a) fresh);
  cardinal = kept s.states_by_priority s.cardinalities a c w.cardinal;
}

see_states-SeenWell :
    (list : List (State × StateCardinality)) (s : Seen) {r : Seen}
    → SeenWell s
    → see_states s list ≡ ok r
    → SeenWell r
unfolding see_states
see_states-SeenWell [] s w h = subst SeenWell (ok-injective h) w
see_states-SeenWell ((a, c) ∷ list) s w h = elim (Bool-cases (contains s.state_set a)) [
  | inl dup ↦ absurd (ground arith)
  | inr fresh ↦
      see_states-SeenWell list
        (record {
          state_set = add s.state_set a;
          states_by_priority = s.states_by_priority ++ a ∷ [];
          cardinalities = insert s.cardinalities a c;
        })
        (seen-SeenWell a c s w fresh) (rw fresh at h)
]

-- Keys that are not in the grown set are not in the set, and not the key that was added.
split_add :
    (seen : List (State × State)) (k : State × State) (ts : List Transition)
    → All (λ t. contains (add seen k) (transition_key t) ≡ false) ts
    → All (λ t. contains seen (transition_key t) ≡ false) ts
      × (contains (map transition_key ts) k ≡ false)
unfolding contains
split_add seen k [] h = (tt, refl)
split_add seen k (t ∷ ts) h =
    let (old, apart) = split_add seen k ts h.1 in
    let grown = rw (contains-add seen k (transition_key t)) at h.0 in
    let flip = eqb-sym k (transition_key t) in ((ground arith, old), ground arith)

check_transitions_ok :
    (set : List State) (ts : List Transition) (seen : List (State × State))
    → check_transitions set seen ts ≡ ok tt
    → Known set ts
      × Distinct (map transition_key ts)
      × All (λ t. contains seen (transition_key t) ≡ false) ts
unfolding check_transitions
check_transitions_ok set [] seen h = (tt, tt, tt)
check_transitions_ok set (t ∷ ts) seen h =
    let from_in : contains set t.source ≡ true = ground arith in
    let to_in : contains set t.target ≡ true = ground arith in
    let fresh : contains seen (transition_key t) ≡ false = ground arith in
    let (known, distinct, unseen) =
      check_transitions_ok set ts (add seen (transition_key t)) (ground arith) in
    let (old, apart) = split_add seen (transition_key t) ts unseen in
    (((from_in, to_in), known), (apart, distinct), (fresh, old))

check_drops_ok :
    (table : Map State (Map State State)) (dropped : State) (states : List State)
    → check_drops table dropped states ≡ ok tt
    → All
        (λ s.
          (s ≡ dropped)
          ⊎ (is_some (and_then (get table s) (λ targets. get targets dropped)) ≡ true))
        states
unfolding check_drops contains_key
check_drops_ok table dropped [] h = tt
check_drops_ok table dropped (s ∷ states) h = (
  elim (eqb-cases s dropped) [ inl (e, p) ↦ inl p | inr (e, n) ↦ inr (ground arith) ],
  check_drops_ok table dropped states (ground arith),
)

find_ok :
    (xs : List State) (d : State)
    → find is_dropped xs ≡ some d
    → (is_dropped d ≡ true) × (contains xs d ≡ true)
unfolding find contains
find_ok [] d h = absurd cc
find_ok (x ∷ xs) d h = elim (Bool-cases (is_dropped x)) [
  | inl yes_it ↦ let e : x ≡ d = ground arith in (rw (← e) yes_it, rw (e, eqb_refl d) refl)
  | inr no_it ↦ let r = find_ok xs d (rw no_it at h) in (r.0, ground arith)
]

fail_if_ok :
    (test : Bool) (e : StateModelError) {u : Unit {0}} → fail_if test e ≡ ok u → test ≡ false
fail_if_ok true e h = absurd cc
fail_if_ok false e h = refl

ok_or_ok : (o : Option State) (e : StateModelError) {a : State} → ok_or o e ≡ ok a → o ≡ some a
ok_or_ok none e h = absurd cc
ok_or_ok (some x) e h = ap some (ok-injective h)

-- A definition that `build` publishes is well formed: its states are distinct, the
-- initial state is one of them, its transitions are distinct and join them, each state has a
-- cardinality, and one of them is a dropped state toward which each other state has a next hop.
pub build-WellFormed :
    (b : StateModelBuilder) {m : StateModelDefinition} → build b ≡ ok m → WellFormed m
unfolding build cardinality_for next_state_toward
build-WellFormed b {m} h =
    let (u1, e1, h1) = >>=-eq-ok (fail_if (is_empty_text b.name) empty_model_name) _ h in
    let (u2, e2, h2) = >>=-eq-ok (fail_if (is_empty b.states) no_states) _ h1 in
    let (seen, e3, h3) = >>=-eq-ok (see_states nothing_seen b.states) _ h2 in
    let (initial, e4, h4) = >>=-eq-ok (ok_or b.initial_state missing_initial_state) _ h3 in
    let (u5, e5, h5) =
      >>=-eq-ok (fail_if (not (contains seen.state_set initial)) (unknown_initial_state initial)) _
        h4 in
    let (u6, e6, h6) = >>=-eq-ok (check_transitions seen.state_set [] b.transitions) _ h5 in
    let (dropped, e7, h7) =
      >>=-eq-ok (ok_or (find is_dropped seen.states_by_priority) missing_dropped_state) _ h6 in
    let (u8, e8, h8) =
      >>=-eq-ok
        (check_drops (build_transition_table seen.states_by_priority b.transitions) dropped
          seen.states_by_priority)
        _ h7 in
    let w = see_states-SeenWell b.states nothing_seen nothing-SeenWell e3 in
    let (known, apart, fresh) = check_transitions_ok seen.state_set b.transitions [] e6 in
    let d =
      find_ok seen.states_by_priority dropped
        (ok_or_ok (find is_dropped seen.states_by_priority) missing_dropped_state e7) in
    let initial_in =
      fail_if_ok (not (contains seen.state_set initial)) (unknown_initial_state initial) e5 in
    subst WellFormed (ok-injective h8) (record {
      distinct = w.distinct;
      initial = rw (← w.same initial) (ground arith);
      known =
          All-imp (λ t h. (rw (← w.same t.source) h.0, rw (← w.same t.target) h.1)) b.transitions
            known;
      distinct_transitions = apart;
      cardinal = w.cardinal;
      table = refl;
      drops = (dropped, d.0, d.1, check_drops_ok _ dropped seen.states_by_priority e8);
    })
