-- ===== src/Rebalance/SemiAuto/Placed.antt =====
-- What the placement of one partition makes of the output.
use clustodian.Rebalance.SemiAuto.Quotas.{
  quota, quota_once, fill_states-Placing, sort_by_key-All, All_self, count_none,
}
use clustodian.Rebalance.SemiAuto.Put.{drop_replicas-Drops, Drops}
use clustodian.Base.Map.{Map, keys, contains-keys, keys-Distinct, IsSorted, get-In, get}
use clustodian.Base.Lists.{
  contains, Distinct, All, In-All, filter, length, All-imp, contains-filter, filter-Distinct,
}
use clustodian.Base.Ord.{eqb, eqb_refl, string_ord, nat_ord, pair_ord}
use clustodian.Model.StateModel.{StateModelDefinition, cardinality_for}
use clustodian.Model.State.{State}
use clustodian.Model.Identity.{InstanceId, PartitionId}
use clustodian.Model.Replica.{ReplicaStates, get_state, CurrentState}
use clustodian.Rebalance.SemiAuto.Placement.{in_state}
use clustodian.Rebalance.SemiAuto.Filled.{Placing, Active}
use clustodian.Rebalance.SemiAuto.{Filling, place_partition}
use clustodian.Rebalance.SemiAuto.Order.{state_count, sort_by_key, current_state_priority}
use clustodian.Base.Logic.{
  List, some, none, ◌≡◌, refl, [], ◌∷◌, ◌+◌, ◌≤◌, arith, true, false, ok, ◌&&◌, if◌then◌else◌, inl,
  inr, Option-cases, is_some, unwrap_or, ◌∙◌,
}

-- What one partition's placement leaves for it: a replica outside the preference list is dropped
-- where it is recorded, a preferred instance that is not live has no state, and the live preferred
-- instances in a state of the model are at most what the state's cardinality asks for.
pub record Placed (current : CurrentState) (live : List InstanceId) (m : StateModelDefinition)
    (p : PartitionId) (preferences : List InstanceId) (output' : ReplicaStates) : Type 0 where
  pub left :
      (j : InstanceId)
      → contains preferences j ≡ false
      → get_state output' p j ≡ (if is_some (get_state current p j) then some "DROPPED" else none)
  pub down :
      (j : InstanceId)
      → contains preferences j ≡ true
      → contains live j ≡ false
      → get_state output' p j ≡ none
  pub within :
      (s : State)
      → contains m.states_by_priority s ≡ true
      → in_state output' p s (filter (contains live) preferences)
        ≤ state_count
            (cardinality_for m s)
            (length (filter (contains live) preferences))
            (length preferences)

module _ (current : CurrentState) (live : List InstanceId) (m : StateModelDefinition)
    (p : PartitionId) (preferences : List InstanceId) (output : ReplicaStates) where
  abbrev recorded : Map InstanceId State
  recorded = unwrap_or (get current p) []

  abbrev active : List InstanceId
  active = filter (contains live) preferences

  recorded-keys : (j : InstanceId) → contains (keys recorded) j ≡ is_some (get_state current p j)
  unfolding get_state get contains
  recorded-keys j = elim (Option-cases (get current p)) [
    | inl e ↦ rw (get_state, e) refl
    | inr (states, e) ↦ rw (get_state, e) (contains-keys states j)
  ]

  recorded-IsSorted : All (λ e. IsSorted e.1) current → IsSorted recorded
  recorded-IsSorted sorted = elim (Option-cases (get current p)) [
    | inl e ↦ rw e tt
    | inr (states, e) ↦ rw e (In-All (λ e. IsSorted e.1) (get-In current p states e) sorted)
  ]

  all_free :
      ((j : InstanceId) → get_state output p j ≡ none)
      → (list : List InstanceId) → All (λ j. get_state output p j ≡ none) list
  all_free fresh [] = tt
  all_free fresh (j ∷ list) = (fresh j, all_free fresh list)

  active_split : (i : InstanceId) → contains active i ≡ (contains preferences i && contains live i)
  active_split i = contains-filter (contains live) preferences i

  module _ (base : ReplicaStates)
      (drops : Drops (contains preferences) p (keys recorded) output base)
      (fresh : (j : InstanceId) → get_state output p j ≡ none) where
    active_free : (i : InstanceId) → contains active i ≡ true → get_state base p i ≡ none
    active_free i a = drops p i ∙ ground (arith, active_split i, fresh i)

    all_active : Active p active base active
    all_active = All_self active active (λ i h. h)

    abbrev begin : Filling
    begin = record {
      current_priority = sort_by_key (current_state_priority (get current p) m) active;
      assigned = [];
      output = base;
    }

    begin-Placing : Placing p active base begin
    unfolding contains
    begin-Placing = record {
      inside =
          sort_by_key-All (λ i. contains active i ≡ true) (current_state_priority (get current p) m)
            active all_active;
      assigned_in = λ i h. absurd cc;
      free = λ i a n. active_free i a;
      kept = λ q j n. refl;
    }

    all_active_free :
        (list : List InstanceId)
        → Active p active base list
        → All (λ i. get_state base p i ≡ none) list
    all_active_free list h = All-imp (λ i a. active_free i a) list h

    finished-Placed :
        (f : Filling)
        → Distinct m.states_by_priority
        → Placing p active base f
        → ((s : State)
            → in_state f.output p s active
              ≤ in_state base p s active
                + quota m (length active) (length preferences) m.states_by_priority s)
        → Placed current live m p preferences f.output
    finished-Placed f states w bound = record {
      left = λ j n.
          w.kept p j (ground (arith, active_split j))
          ∙ drops p j
          ∙ ground (arith, eqb_refl p, recorded-keys j, fresh j);
      down = λ j y n.
          w.kept p j (ground (arith, active_split j)) ∙ drops p j ∙ ground (arith, fresh j);
      within = λ s known.
          let most = bound s in
          let none_yet = count_none base p s active (all_active_free active all_active) in
          let once =
            quota_once m (length active) (length preferences) m.states_by_priority s states known in
          omega arith;
    }

  pub place_partition-Placed :
      All (λ e. IsSorted e.1) current
      → Distinct preferences
      → Distinct m.states_by_priority
      → ((j : InstanceId) → get_state output p j ≡ none)
      → (output' : ReplicaStates) × (place_partition current live m p preferences output
          ≡ ok output')
        × ((q : PartitionId) (j : InstanceId)
            → eqb p q ≡ false
            → get_state output' q j ≡ get_state output q j)
        × Placed current live m p preferences output'
  unfolding place_partition
  place_partition-Placed sorted distinct states fresh =
      let (base, e, drops) =
        drop_replicas-Drops (contains preferences) p (keys recorded) output
          (keys-Distinct recorded (recorded-IsSorted sorted)) (all_free fresh (keys recorded)) in
      let (f, e', w, bound) =
        fill_states-Placing p active base (get current p) (length active) (length preferences) m
          m.states_by_priority active (begin base drops fresh)
          (filter-Distinct (contains live) preferences distinct) (begin-Placing base drops fresh)
          (all_active base drops fresh) in
      (
        f.output,
        rw (place_partition, e, e') refl,
        (λ q j ne. w.kept q j (ground arith) ∙ drops q j ∙ ground arith),
        finished-Placed base drops fresh f states w bound,
      )
