-- ===== src/Routing/Leaders.antt =====
-- Who a routing snapshot names: exactly the configured instances that advertise the state.
use clustodian.Model.Replica.{view_state, ExternalView, get_state}
use clustodian.Base.Lists.{contains, Distinct, All, In-All}
use clustodian.Base.Set.{
  add, IsOrdered, add-IsOrdered, contains-add, IsOrdered-Distinct, extend, extend-IsOrdered,
  contains-extend,
}
use clustodian.Base.Map.{IsSorted, get_below, Map, get, get-In}
use clustodian.Base.Ord.{eqb, eqb-cases, nat_ord, string_ord, pair_ord, eqb-sym, eqb_refl}
use clustodian.Model.State.{State}
use clustodian.Model.Identity.{
  PartitionId, ResourceId, InstanceId, is_empty_text, new_resource, new_partition, validate,
}
use clustodian.Routing.{
  RoutingSnapshot, RoutingError, instances_for, leader, replicas, advertising, multiple_leaders,
  sole_leader, named,
}
use clustodian.Base.Logic.{
  Option, none, some, ◌≡◌, refl, [], ◌∷◌, true, false, ◌&&◌, ◌||◌, if◌then◌else◌, ◌∙◌, Bool, List,
  arith, and_then, Option-cases, inl, inr, String, Result, ok, err, sym, ◌≢◌,
}

abbrev pub is_state : State → Option State → Bool
is_state state none = false
is_state state (some advertised) = eqb advertised state

-- The instance is configured, and the external view has it in the state.
abbrev pub advertises : RoutingSnapshot → ResourceId → PartitionId → State → InstanceId → Bool
advertises snapshot resource partition state i =
    is_state state (view_state snapshot.external_view resource partition i)
    && contains snapshot.configured_instances i

-- The entries of each partition are in a map's order.
abbrev pub Ordered : ExternalView → Type 0
Ordered view = All (λ r. All (λ p. IsSorted p.1) r.1) view

or-false : (a : Bool) → (a || false) ≡ a
or-false a = ground arith

module _ (configured : List InstanceId) (state : State) where
  abbrev step : List InstanceId → InstanceId → State → List InstanceId
  step found j advertised =
      if eqb advertised state && contains configured j then add found j else found

  step-contains :
      (found : List InstanceId) (j : InstanceId) (advertised : State) (i : InstanceId)
      → contains (step found j advertised) i
        ≡ ((eqb j i && eqb advertised state && contains configured i) || contains found i)
  step-contains found j advertised i = ground (arith, contains-add found j i, eqb-cases j i)

  -- The set after the loop: what was found, and the entries that match.
  advertising-contains :
      (list : Map InstanceId State) (found : List InstanceId) (i : InstanceId)
      → IsSorted list
      → contains (advertising configured state found list) i
        ≡ ((is_state state (get list i) && contains configured i) || contains found i)
  unfolding advertising get
  advertising-contains [] found i h = refl
  advertising-contains ((j, advertised) ∷ rest) found i h =
      advertising-contains rest (step found j advertised) i h.1
      ∙ rw (step-contains found j advertised i)
          (ground (arith, eqb-cases j i, get_below rest j h.0))

  advertising-IsOrdered :
      (list : Map InstanceId State) (found : List InstanceId)
      → IsOrdered found
      → IsOrdered (advertising configured state found list)
  unfolding advertising
  advertising-IsOrdered [] found h = h
  advertising-IsOrdered ((j, advertised) ∷ rest) found h =
      advertising-IsOrdered rest (step found j advertised)
        (chosen (eqb advertised state && contains configured j))
    where
      chosen : (b : Bool) → IsOrdered (if b then add found j else found)
      chosen true = add-IsOrdered found j h
      chosen false = h

module _ (snapshot : RoutingSnapshot) (resource : ResourceId) (partition : PartitionId)
    (state : State) where
  abbrev row : Option (Map InstanceId State)
  row = and_then (get snapshot.external_view resource) (λ partitions. get partitions partition)

  members :
      Ordered snapshot.external_view
      → (i : InstanceId)
      → contains (instances_for snapshot resource partition state) i
        ≡ advertises snapshot resource partition state i
  unfolding instances_for view_state get_state contains
  members ordered i = elim (Option-cases (get snapshot.external_view resource)) [
    | inl e ↦ rw (instances_for, view_state, e) refl
    | inr (partitions, e) ↦ elim (Option-cases (get partitions partition)) [
      | inl f ↦ rw (instances_for, view_state, get_state, e, f) refl
      | inr (states, f) ↦
          rw (instances_for, view_state, get_state, e, f)
            (advertising-contains snapshot.configured_instances state states [] i (
                In-All _ (get-In partitions partition states f) (
                  In-All (λ r. All (λ p. IsSorted p.1) r.1)
                    (get-In snapshot.external_view resource partitions e) ordered))
              ∙ or-false
                  (is_state state (get states i) && contains snapshot.configured_instances i))
    ]
  ]

  members-IsOrdered : IsOrdered (instances_for snapshot resource partition state)
  unfolding instances_for
  members-IsOrdered = elim (Option-cases row) [
    | inl e ↦ rw (instances_for, e) tt
    | inr (states, e) ↦
        rw (instances_for, e)
          (advertising-IsOrdered snapshot.configured_instances state states [] tt)
  ]

-- One who is the first of the two clearly is not the second.
two_members : (i j : InstanceId) (rest : List InstanceId) → Distinct (i ∷ j ∷ rest) → i ≢ j
unfolding contains
two_members i j rest d = λ same. ground (arith, eqb-sym i j, eqb_refl i)

-- The three answers of `leader`, over the instances that are configured and in the state `LEADER`.
abbrev pub Answer :
    RoutingSnapshot → ResourceId → PartitionId → Result RoutingError (Option InstanceId) → Type 0
Answer snapshot resource partition (ok none) =
    (j : InstanceId) → advertises snapshot resource partition "LEADER" j ≡ false
Answer snapshot resource partition (ok (some i)) =
    (j : InstanceId) → advertises snapshot resource partition "LEADER" j ≡ eqb i j
Answer snapshot resource partition (err e) =
    (i : InstanceId) × (j : InstanceId) × (rest : List InstanceId) × (e
      ≡ multiple_leaders resource partition (i ∷ j ∷ rest))
    × (i ≢ j)
    × ((k : InstanceId)
        → contains (i ∷ j ∷ rest) k ≡ advertises snapshot resource partition "LEADER" k)

sole_leader-Answer :
    (snapshot : RoutingSnapshot) (resource : ResourceId) (partition : PartitionId)
    (found : List InstanceId)
    → Distinct found
    → ((k : InstanceId) → contains found k ≡ advertises snapshot resource partition "LEADER" k)
    → Answer snapshot resource partition (sole_leader resource partition found)
unfolding sole_leader contains
sole_leader-Answer snapshot resource partition [] d h = λ j. sym (h j)
sole_leader-Answer snapshot resource partition (i ∷ []) d h = λ j. ground (arith, h j)
sole_leader-Answer snapshot resource partition (i ∷ j ∷ rest) d h =
    (i, j, rest, refl, two_members i j rest d, h)

-- On names that are not empty, `leader` answers by the configured instances that the external view
-- has in the state `LEADER`: none where there is none, the only one where there is one, and the
-- error that lists exactly those where there are two or more.
pub leader_exact :
    (snapshot : RoutingSnapshot) (resource partition : String)
    → Ordered snapshot.external_view
    → is_empty_text resource ≡ false
    → is_empty_text partition ≡ false
    → Answer snapshot resource partition (leader snapshot resource partition)
unfolding leader named new_resource new_partition validate
leader_exact snapshot resource partition ordered hr hp =
    rw (leader, new_resource, new_partition, validate, hr, hp)
      (sole_leader-Answer snapshot resource partition
        (instances_for snapshot resource partition "LEADER")
        (IsOrdered-Distinct _ (members-IsOrdered snapshot resource partition "LEADER"))
        (members snapshot resource partition "LEADER" ordered))

-- On names that are not empty, `replicas` answers a set without duplicates, of exactly the
-- configured instances that the external view has in the state `LEADER` or in `STANDBY`.
pub replicas_exact :
    (snapshot : RoutingSnapshot) (resource partition : String)
    → Ordered snapshot.external_view
    → is_empty_text resource ≡ false
    → is_empty_text partition ≡ false
    → (found : List InstanceId) × (replicas snapshot resource partition ≡ ok found)
      × Distinct found
      × ((i : InstanceId)
          → contains found i ≡ (
              advertises snapshot resource partition "LEADER" i
              || advertises snapshot resource partition "STANDBY" i))
unfolding replicas named new_resource new_partition validate
replicas_exact snapshot resource partition ordered hr hp =
    let leaders = instances_for snapshot resource partition "LEADER" in
    let standbys = instances_for snapshot resource partition "STANDBY" in
    (
      extend leaders standbys,
      rw (hr, hp) refl,
      IsOrdered-Distinct _ (
          extend-IsOrdered standbys leaders
            (members-IsOrdered snapshot resource partition "LEADER")),
      λ i.
          contains-extend leaders standbys i
          ∙ rw
              (
                members snapshot resource partition "LEADER" ordered i,
                members snapshot resource partition "STANDBY" ordered i,
              )
              refl,
    )
