-- ===== src/Controller/Runtime/Current/Started.antt =====
-- The replicas that `normalize_current` starts in the initial state, and its result.
use Prim.Native.Nat.Ordering.{lt}
use clustodian.Model.Identity.{InstanceId, PartitionId}
use clustodian.Model.State.{State}
use clustodian.Model.Replica.{ReplicaStates, CurrentState, get_state}
use clustodian.Model.Replica.Stores.{Stores, absent_nil}
use clustodian.Model.Ideal.{IdealState}
use clustodian.Model.StateModel.{StateModelDefinition}
use clustodian.Controller.Runtime.Current.{start_replicas, start_partitions, normalize_current}
use clustodian.Controller.Runtime.Current.Normalized.{
  set_state-Stores, or_else, AllSorted, keep_partitions-KeepsAll,
}
use clustodian.Base.Map.{Map, get, IsSorted, get_below}
use clustodian.Base.Lists.{contains, All, Distinct, All-imp, All-of_In}
use clustodian.Base.Ord.{string_ord, eqb, eqb-cases, eqb_of_lt, eqb-sym, nat_ord, pair_ord}
use clustodian.Base.Logic.{
  List, if◌then◌else◌, Bool-cases, is_some, unwrap_or, ok, ◌≡◌, refl, ◌∙◌, inl, inr, Bool, true,
  false, not, ◌&&◌, none, some, ◌∷◌, arith, [],
}

module _ (live : List InstanceId) (initial : State) (actual : CurrentState) where
  -- A live instance without a recorded state.
  abbrev pub is_new : PartitionId → InstanceId → Bool
  is_new p j = contains live j && not (is_some (get_state actual p j))

  abbrev Starts : PartitionId → List InstanceId → ReplicaStates → ReplicaStates → Type 0
  Starts p list built built' =
      (q : PartitionId) (j : InstanceId)
      → get_state built' q j
        ≡ (if eqb p q && contains list j && is_new p j then some initial else get_state built q j)

  -- No new replica of the list has a state yet.
  abbrev Open : PartitionId → List InstanceId → ReplicaStates → Type 0
  Open p list built = All (λ j. is_new p j ≡ true → get_state built p j ≡ none) list

  stored-Open :
      (p : PartitionId) (i : InstanceId) (built stored : ReplicaStates)
      → Stores built p i initial stored
      → (list : List InstanceId) → contains list i ≡ false
      → Open p list built
      → Open p list stored
  unfolding contains
  stored-Open p i built stored stores [] n h = tt
  stored-Open p i built stored stores (j ∷ list) n h = (
    λ new_it. stores p j ∙ (let free = h.0 new_it in ground (arith, eqb-sym i j)),
    stored-Open p i built stored stores list (ground arith) h.1,
  )

  start_replicas-Starts :
      (p : PartitionId) (list : List InstanceId) (built : ReplicaStates)
      → Distinct list
      → Open p list built
      → (built' : ReplicaStates) × (start_replicas live initial actual p list built ≡ ok built')
        × Starts p list built built'
  unfolding start_replicas contains
  start_replicas-Starts p [] built d h = (built, refl, λ q j. ground arith)
  start_replicas-Starts p (i ∷ rest) built d h = elim (Bool-cases (is_new p i)) [
    | inl e ↦
        (let (stored, is_ok, stores) = set_state-Stores built p i initial (h.0 e) in
          let (built', rest_ok, starts) =
            start_replicas-Starts p rest stored d.1
              (stored-Open p i built stored stores rest d.0 h.1) in
          (
            built',
            rw (e, is_ok) rest_ok,
            λ q j. starts q j ∙ rw (stores q j) (ground (arith, eqb-cases i j)),
          ))
    | inr e ↦
        (let (built', rest_ok, starts) = start_replicas-Starts p rest built d.1 h.1 in
          (built', rw e rest_ok, λ q j. starts q j ∙ ground (arith, eqb-cases i j)))
  ]

  abbrev pub StartsAll : Map PartitionId (List InstanceId) → ReplicaStates → ReplicaStates → Type 0
  StartsAll lists built built' =
      (q : PartitionId) (j : InstanceId)
      → get_state built' q j ≡ (
          if contains (unwrap_or (get lists q) []) j && is_new q j
          then some initial
          else get_state built q j)

  started-Open :
      (p : PartitionId) (list : List InstanceId) (built stored : ReplicaStates)
      → Starts p list built stored
      → (rest : Map PartitionId (List InstanceId)) → All (λ e. string_ord.cmp p e.0 ≡ lt) rest
      → All (λ e. Open e.0 e.1 built) rest
      → All (λ e. Open e.0 e.1 stored) rest
  started-Open p list built stored starts [] above h = tt
  started-Open p list built stored starts ((q, other) ∷ rest) above h = (
    All-imp (λ j free new_it. starts q j ∙ rw (eqb_of_lt p q above.0) (free new_it)) other h.0,
    started-Open p list built stored starts rest above.1 h.1,
  )

  start_partitions-StartsAll :
      (lists : Map PartitionId (List InstanceId)) (built : ReplicaStates)
      → IsSorted lists
      → All (λ e. Distinct e.1) lists
      → All (λ e. Open e.0 e.1 built) lists
      → (built' : ReplicaStates) × (start_partitions live initial actual lists built ≡ ok built')
        × StartsAll lists built built'
  unfolding start_partitions get contains
  start_partitions-StartsAll [] built sorted distinct h = (built, refl, λ q j. ground arith)
  start_partitions-StartsAll ((p, list) ∷ rest) built sorted distinct h =
      let (stored, is_ok, starts) = start_replicas-Starts p list built distinct.0 h.0 in
      let (built', rest_ok, starts_all) =
        start_partitions-StartsAll rest stored sorted.1 distinct.1
          (started-Open p list built stored starts rest sorted.0 h.1) in
      (
        built',
        rw is_ok rest_ok,
        λ q j.
            starts_all q j
            ∙ rw (starts q j) (elim (eqb-cases p q) [
              | inl (e, same) ↦ rw (e, ← same, get_below rest p sorted.0, contains) (ground arith)
              | inr (e, other) ↦ rw e (ground arith)
            ]),
      )

-- Where the recorded states and the preference lists are in a map's order and no list names an
-- instance twice, no expectation of `normalize_current` fails, and it plans with exactly this: a
-- live instance is in its recorded state, or in the initial state where it has none and is
-- preferred for the partition, and every other has no state.
pub normalize_exact :
    (actual : CurrentState) (ideal : IdealState) (live : List InstanceId) (m : StateModelDefinition)
    → AllSorted actual
    → IsSorted ideal.preference_lists
    → All (λ e. Distinct e.1) ideal.preference_lists
    → (planned : CurrentState) × (normalize_current actual ideal live m ≡ ok planned)
      × ((p : PartitionId) (i : InstanceId)
          → get_state planned p i ≡ (
              if contains live i
              then or_else (get_state actual p i) (
                  if contains (unwrap_or (get ideal.preference_lists p) []) i
                  then some m.initial_state
                  else none)
              else none))
unfolding normalize_current
normalize_exact actual ideal live m sorted ordered distinct =
    let (kept, kept_ok, keeps) =
      keep_partitions-KeepsAll live actual [] sorted
        (All-of_In _ actual (λ e i j. absent_nil e.0 j)) in
    let (planned, planned_ok, starts) =
      start_partitions-StartsAll live m.initial_state actual ideal.preference_lists kept ordered
        distinct
        (All-of_In _ ideal.preference_lists (λ e i.
          All-of_In _ e.1 (λ j k new_it. keeps e.0 j ∙ rw (absent_nil e.0 j) (ground arith)))) in
    (
      planned,
      rw kept_ok planned_ok,
      λ p i. starts p i ∙ rw (keeps p i, absent_nil p i) (ground arith),
    )
