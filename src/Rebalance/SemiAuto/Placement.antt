-- ===== src/Rebalance/SemiAuto/Placement.antt =====
-- The placement of one partition: it never fails, and keeps to the cardinalities.
use clustodian.Model.Replica.Stores.{Stores}
use clustodian.Base.Lists.{count, contains, Distinct}
use clustodian.Base.Ord.{eqb, eqb-cases, eqb_refl, eqb-sym, string_ord, nat_ord, pair_ord}
use clustodian.Model.State.{State}
use clustodian.Model.Identity.{InstanceId, PartitionId}
use clustodian.Model.Replica.{ReplicaStates, get_state}
use clustodian.Rebalance.SemiAuto.Order.{same_state}
use clustodian.Base.Logic.{
  List, some, none, ◌≡◌, refl, [], ◌∷◌, ℕ, ◌+◌, ◌≤◌, arith, false, if◌then◌else◌, ◌∙◌, inl, inr,
  Bool,
}

abbrev has_state : ReplicaStates → PartitionId → State → InstanceId → Bool
has_state output p s i = same_state (get_state output p i) (some s)

-- How many of the instances are in the state.
abbrev pub in_state : ReplicaStates → PartitionId → State → List InstanceId → ℕ
in_state output p s = count (has_state output p s)

same_state-some : (a s : State) → same_state (some a) (some s) ≡ eqb a s
unfolding same_state
same_state-some a s = refl

same_state-none : (s : State) → same_state none (some s) ≡ false
unfolding same_state
same_state-none s = refl

module _ (p : PartitionId) (i : InstanceId) (s : State) (output output' : ReplicaStates)
    (stores : Stores output p i s output') where
  -- Instances that are not the stored one keep their states.
  in_state-others :
      (t : State) (list : List InstanceId)
      → contains list i ≡ false
      → in_state output' p t list ≡ in_state output p t list
  unfolding count contains
  in_state-others t [] n = refl
  in_state-others t (j ∷ list) n =
      let same : get_state output' p j ≡ get_state output p j =
        stores p j ∙ ground (arith, eqb-sym i j) in
      ground (arith, in_state-others t list, same)

  -- Where the instances are distinct, a store into a free one adds at most one to its state.
  pub in_state-Stores :
      (t : State) (list : List InstanceId)
      → Distinct list
      → get_state output p i ≡ none
      → in_state output' p t list ≤ in_state output p t list + (if eqb s t then 1 else 0)
  unfolding count contains
  in_state-Stores t [] d free = omega arith
  in_state-Stores t (j ∷ list) d free = elim (eqb-cases i j) [
    | inl (e, same) ↦
        let now : get_state output' p j ≡ some s = stores p j ∙ ground (arith, eqb_refl p) in
        let before : get_state output p j ≡ none = rw (← same) free in
        let rest = in_state-others t list (rw same d.0) in
        rw (now, before, same_state-some s t, same_state-none t, rest) (ground arith)
    | inr (e, other) ↦
        let same : get_state output' p j ≡ get_state output p j = stores p j ∙ ground arith in
        rw same (ground (arith, in_state-Stores t list d.1 free))
  ]
