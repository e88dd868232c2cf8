-- ===== src/Rebalance/SemiAuto/Total.antt =====
-- The whole computation of the best possible state.
use clustodian.Model.Replica.Stores.{absent_nil}
use clustodian.Base.Map.{Map, keys, IsSorted, keys-Distinct, contains-keys, In-get}
use clustodian.Base.Lists.{contains, Distinct, All, In, here, there}
use clustodian.Base.Ord.{string_ord, nat_ord, pair_ord}
use clustodian.Model.StateModel.{StateModelDefinition}
use clustodian.Model.Ideal.{IdealState, preference_list}
use clustodian.Model.Identity.{InstanceId, PartitionId}
use clustodian.Model.Replica.{BestPossibleState, CurrentState, get_state}
use clustodian.Rebalance.SemiAuto.Partitions.{
  place_partitions-AllPlaced, Placed-agrees, drop_partitions_lem, drained,
}
use clustodian.Rebalance.SemiAuto.Placed.{Placed}
use clustodian.Rebalance.SemiAuto.{compute_semi_auto_best_possible_state}
use clustodian.Base.Logic.{
  List, some, none, ◌≡◌, refl, [], ◌∷◌, ◌∙◌, ok, is_some, false, if◌then◌else◌, true, sym,
  ok-injective,
}

-- What both theorems ask of the inputs: the maps are in their order, each preference list names an
-- instance once, and the model's states are distinct.
pub record Sound (ideal : IdealState) (current : CurrentState) (m : StateModelDefinition)
    : Type 0 where
  pub lists : IsSorted ideal.preference_lists
  pub preferences : All (λ e. Distinct e.1) ideal.preference_lists
  pub partitions : IsSorted current
  pub replicas : All (λ e. IsSorted e.1) current
  pub states : Distinct m.states_by_priority

module _ (ideal : IdealState) (current : CurrentState) (live : List InstanceId)
    (m : StateModelDefinition) (sound : Sound ideal current m) where
  no_list :
      (p : PartitionId)
      → is_some (preference_list ideal p) ≡ false
      → contains (keys ideal.preference_lists) p ≡ false
  unfolding preference_list
  no_list p n = contains-keys ideal.preference_lists p ∙ n

  listed :
      (e : PartitionId × List InstanceId)
      → In e ideal.preference_lists
      → is_some (preference_list ideal e.0) ≡ true
  unfolding preference_list
  listed e i = rw (In-get sound.lists i) refl

  still-Placed :
      (one two : BestPossibleState)
      → ((q : PartitionId) (j : InstanceId)
          → get_state two q j ≡ drained ideal current q j (get_state one q j))
      → (list : Map PartitionId (List InstanceId))
      → ((e : PartitionId × List InstanceId) → In e list → In e ideal.preference_lists)
      → All (λ e. Placed current live m e.0 e.1 one) list
      → All (λ e. Placed current live m e.0 e.1 two) list
  still-Placed one two after [] within h = tt
  still-Placed one two after (e ∷ list) within h = (
    Placed-agrees current live m e.0 e.1 one two
        (λ j. after e.0 j ∙ rw (listed e (within e (here refl))) refl) h.0,
    still-Placed one two after list (λ f i. within f (there i)) h.1,
  )

  -- The two loops, one after the other.
  both :
      (output : BestPossibleState) × (compute_semi_auto_best_possible_state ideal current live m
        ≡ ok output)
      × All (λ e. Placed current live m e.0 e.1 output) ideal.preference_lists
      × ((p : PartitionId) (j : InstanceId)
          → is_some (preference_list ideal p) ≡ false
          → get_state output p j
            ≡ (if is_some (get_state current p j) then some "DROPPED" else none))
  unfolding compute_semi_auto_best_possible_state
  both =
      let (one, e, (kept, placed)) =
        place_partitions-AllPlaced current live m ideal.preference_lists [] sound.replicas
          sound.states (keys-Distinct ideal.preference_lists sound.lists) sound.preferences
          (λ p j h. absent_nil p j) in
      let removed : (p : PartitionId) (j : InstanceId)
          → is_some (preference_list ideal p) ≡ false
          → get_state one p j ≡ none =
        λ p j n. kept p j (no_list p n) ∙ absent_nil p j in
      let (two, e', after) =
        drop_partitions_lem ideal current one (keys-Distinct current sound.partitions)
          sound.replicas (λ q j h n. removed q j n) in
      (
        two,
        rw (compute_semi_auto_best_possible_state, e) e',
        still-Placed one two after ideal.preference_lists (λ e i. i) placed,
        λ p j n. after p j ∙ rw (n, removed p j n) refl,
      )

-- On sound inputs the computation never fails, and places every partition of the ideal state: there
-- a recorded replica outside the preference list is dropped and no other outside it has a state, a
-- preferred instance that is not live has none, and the live preferred instances in a state of the
-- model are at most what the state's cardinality asks for.
pub compute_places :
    (ideal : IdealState) (current : CurrentState) (live : List InstanceId)
    (m : StateModelDefinition)
    → Sound ideal current m
    → (output : BestPossibleState) × (compute_semi_auto_best_possible_state ideal current live m
        ≡ ok output)
      × All (λ e. Placed current live m e.0 e.1 output) ideal.preference_lists
compute_places ideal current live m sound =
    let (output, e, placed, drained_it) = both ideal current live m sound in (output, e, placed)

-- On sound inputs, a partition that the ideal state does not have is drained: each replica that is
-- recorded for it is dropped, and no other has a state.
pub compute_drains :
    (ideal : IdealState) (current : CurrentState) (live : List InstanceId)
    (m : StateModelDefinition) (p : PartitionId) (j : InstanceId) {output : BestPossibleState}
    → Sound ideal current m
    → compute_semi_auto_best_possible_state ideal current live m ≡ ok output
    → is_some (preference_list ideal p) ≡ false
    → get_state output p j ≡ (if is_some (get_state current p j) then some "DROPPED" else none)
compute_drains ideal current live m p j sound h gone =
    let (output', e, placed, drains) = both ideal current live m sound in
    let same = ok-injective (sym e ∙ h) in rw (← same) (drains p j gone)
