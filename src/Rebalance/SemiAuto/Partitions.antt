-- ===== src/Rebalance/SemiAuto/Partitions.antt =====
-- The placement of all partitions, and the draining of those that the placement no longer has.
use clustodian.Model.Replica.Stores.{absent_nil, get_state-head, get_state_absent}
use clustodian.Base.Map.{Map, keys, IsSorted, keys-Distinct, contains-keys}
use clustodian.Base.Lists.{count, contains, Distinct, All, filter}
use clustodian.Base.Ord.{eqb, eqb-cases, eqb_refl, string_ord, nat_ord, pair_ord}
use clustodian.Model.StateModel.{StateModelDefinition}
use clustodian.Model.Ideal.{IdealState, preference_list}
use clustodian.Model.State.{State}
use clustodian.Model.Identity.{InstanceId, PartitionId}
use clustodian.Model.Replica.{ReplicaStates, CurrentState, get_state}
use clustodian.Rebalance.SemiAuto.Placement.{in_state}
use clustodian.Rebalance.SemiAuto.Put.{drop_replicas-Drops}
use clustodian.Rebalance.SemiAuto.Placed.{Placed, place_partition-Placed}
use clustodian.Rebalance.SemiAuto.{place_partitions, drop_partitions}
use clustodian.Base.Logic.{
  List, Option, some, none, ◌≡◌, refl, [], ◌∷◌, ◌∙◌, arith, true, false, ok, Bool-cases, ◌&&◌, not,
  is_some, if◌then◌else◌, inl, inr,
}

-- Equal reads of a partition count alike.
in_state_agrees :
    (one two : ReplicaStates) (p : PartitionId) (s : State)
    → ((j : InstanceId) → get_state two p j ≡ get_state one p j)
    → (list : List InstanceId) → in_state two p s list ≡ in_state one p s list
unfolding count
in_state_agrees one two p s same [] = refl
in_state_agrees one two p s same (j ∷ list) =
    let later = in_state_agrees one two p s same list in rw (same j, later) refl

module _ (current : CurrentState) (live : List InstanceId) (m : StateModelDefinition) where
  pub Placed-agrees :
      (p : PartitionId) (preferences : List InstanceId) (one two : ReplicaStates)
      → ((j : InstanceId) → get_state two p j ≡ get_state one p j)
      → Placed current live m p preferences one
      → Placed current live m p preferences two
  Placed-agrees p preferences one two same w = record {
    left = λ j n. same j ∙ w.left j n;
    down = λ j y n. same j ∙ w.down j y n;
    within = λ s known.
        rw (in_state_agrees one two p s same (filter (contains live) preferences))
          (w.within s known);
  }

  -- What the loop over the placed partitions promises: the others stay.
  abbrev AllPlaced : Map PartitionId (List InstanceId) → ReplicaStates → ReplicaStates → Type 0
  AllPlaced list output output' =
      ((q : PartitionId) (j : InstanceId)
        → contains (keys list) q ≡ false
        → get_state output' q j ≡ get_state output q j)
      × All (λ e. Placed current live m e.0 e.1 output') list

  pub place_partitions-AllPlaced :
      (list : Map PartitionId (List InstanceId)) (output : ReplicaStates)
      → All (λ e. IsSorted e.1) current
      → Distinct m.states_by_priority
      → Distinct (keys list)
      → All (λ e. Distinct e.1) list
      → ((p : PartitionId) (j : InstanceId)
          → contains (keys list) p ≡ true
          → get_state output p j ≡ none)
      → (output' : ReplicaStates) × (place_partitions current live m list output ≡ ok output')
        × AllPlaced list output output'
  unfolding place_partitions contains
  place_partitions-AllPlaced [] output sorted states d ds fresh =
      (output, refl, ((λ q j n. refl), tt))
  place_partitions-AllPlaced ((p, preferences) ∷ rest) output sorted states d ds fresh =
      let (one, e, others, placed) =
        place_partition-Placed current live m p preferences output sorted ds.0 states
          (λ j. fresh p j (rw (eqb_refl p) refl)) in
      let (two, e', (kept, later)) =
        place_partitions-AllPlaced rest one sorted states d.1 ds.1
          (λ q j h. others q j (elsewhere q h) ∙ fresh q j (ground arith)) in
      (
        two,
        rw (place_partitions, e) e',
        (
          (λ q j n. kept q j (ground arith) ∙ others q j (ground arith)),
          (Placed-agrees p preferences one two (λ j. kept p j d.0) placed, later),
        ),
      )
    where
      elsewhere : (q : PartitionId) → contains (keys rest) q ≡ true → eqb p q ≡ false
      elsewhere q h = elim (eqb-cases p q) [
        | inl (e, same) ↦ let h' = rw (← same) at h in absurd (ground arith)
        | inr (e, other) ↦ e
      ]

-- What the draining loop makes of a read.
abbrev pub drained :
    IdealState → ReplicaStates → PartitionId → InstanceId → Option State → Option State
drained ideal list q j before =
    if not (is_some (preference_list ideal q)) && is_some (get_state list q j)
    then some "DROPPED"
    else before

free_list :
    (output : ReplicaStates) (p : PartitionId)
    → ((j : InstanceId) → get_state output p j ≡ none)
    → (list : List InstanceId) → All (λ j. get_state output p j ≡ none) list
free_list output p h [] = tt
free_list output p h (j ∷ list) = (h j, free_list output p h list)

pub drop_partitions_lem :
    (ideal : IdealState) (list : ReplicaStates) (output : ReplicaStates)
    → Distinct (keys list)
    → All (λ e. IsSorted e.1) list
    → ((q : PartitionId) (j : InstanceId)
        → contains (keys list) q ≡ true
        → is_some (preference_list ideal q) ≡ false
        → get_state output q j ≡ none)
    → (output' : ReplicaStates) × (drop_partitions ideal list output ≡ ok output')
      × ((q : PartitionId) (j : InstanceId)
          → get_state output' q j ≡ drained ideal list q j (get_state output q j))
unfolding drop_partitions contains
drop_partitions_lem ideal [] output d sorted fresh =
    (output, refl, λ q j. rw (absent_nil q j) (ground arith))
drop_partitions_lem ideal ((p, entries) ∷ rest) output d sorted fresh =
    elim (Bool-cases (is_some (preference_list ideal p))) [
      | inl placed ↦
          let (two, e, after) =
            drop_partitions_lem ideal rest output d.1 sorted.1
              (λ q j h n. fresh q j (ground arith) n) in
          (
            two,
            rw (drop_partitions, placed) e,
            λ q j. after q j ∙ elim (eqb-cases p q) [
              | inl (x, same) ↦ rw (← same, placed) refl
              | inr (x, other) ↦ rw (get_state-head p entries rest q j, x) refl
            ],
          )
      | inr gone ↦
          let (one, e, drops) =
            drop_replicas-Drops (λ i. false) p (keys entries) output
              (keys-Distinct entries sorted.0)
              (free_list output p (λ j. fresh p j (rw (eqb_refl p) refl) gone) (keys entries)) in
          let (two, e', after) = drop_partitions_lem ideal rest one d.1 sorted.1 (λ q j h n.
            drops q j ∙ elim (eqb-cases p q) [
              | inl (x, same) ↦ let h' = rw (← same) at h in absurd (ground arith)
              | inr (x, other) ↦ rw x (fresh q j (rw h (ground arith)) n)
            ]) in
          (
            two,
            rw (drop_partitions, gone, e) e',
            λ q j. after q j ∙ elim (eqb-cases p q) [
              | inl (x, same) ↦
                  let dropped = drops p j in
                  let recorded = contains-keys entries j in
                  rw
                    (
                      ← same,
                      gone,
                      get_state-head p entries rest p j,
                      eqb_refl p,
                      get_state_absent rest p j d.0,
                      dropped,
                      eqb_refl p,
                      recorded,
                    )
                    (ground arith)
              | inr (x, other) ↦ rw (get_state-head p entries rest q j, x, drops q j, x) refl
            ],
          )
    ]
