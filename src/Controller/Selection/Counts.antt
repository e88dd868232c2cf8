-- ===== src/Controller/Selection/Counts.antt =====
-- The counts that message selection keeps, for one bounded state: `tally` of a map is the number
-- of replicas that it records.
use clustodian.Model.Identity.{InstanceId, PartitionId}
use clustodian.Model.State.{State}
use clustodian.Model.Replica.{CurrentState, get_state}
use clustodian.Model.StateModel.{StateModelDefinition}
use clustodian.Transition.{PendingTransition}
use clustodian.Controller.Selection.Counting.{increase_state_count, count_live, count_pending}
use clustodian.Base.Logic.{
  if◌then◌else◌, Bool-cases, unwrap_or, ℕ, ◌+◌, ◌≡◌, refl, inl, inr, Bool, true, List, ◌∷◌, arith,
  [],
}
use clustodian.Base.Lists.{count}
use clustodian.Base.Map.{Map, get, contains_key, get-insert}
use clustodian.Base.Ord.{eqb, eqb_refl, eqb-cases, string_ord, nat_ord, pair_ord}

abbrev pub tally : Map State ℕ → State → ℕ
tally counts s = unwrap_or (get counts s) 0

abbrev pub one_if : Bool → ℕ
one_if b = if b then 1 else 0

-- The state in which a live replica counts.
abbrev pub effective_state : CurrentState → StateModelDefinition → PartitionId → InstanceId → State
effective_state current m partition i = unwrap_or (get_state current partition i) m.initial_state

module _ (bounds : Map State ℕ) (s : State) (bounded : contains_key bounds s ≡ true) where
  pub tally-increase :
      (t : State) (counts : Map State ℕ)
      → tally (increase_state_count bounds t counts) s ≡ tally counts s + one_if (eqb t s)
  unfolding increase_state_count
  tally-increase t counts = elim (eqb-cases t s) [
    | inl (e, p) ↦
        rw (e, p, bounded, get-insert counts s (unwrap_or (get counts s) 0 + 1) s, eqb_refl s) refl
    | inr (e, n) ↦ rw e (elim (Bool-cases (contains_key bounds t)) [
      | inl k ↦ rw (k, get-insert counts t (unwrap_or (get counts t) 0 + 1) s, e) (omega arith)
      | inr k ↦ rw k (omega arith)
    ])
  ]

  pub tally-count_live :
      (current : CurrentState) (m : StateModelDefinition) (partition : PartitionId)
      (counts : Map State ℕ) (live : List InstanceId)
      → tally (count_live bounds current m partition counts live) s
        ≡ tally counts s + count (λ i. eqb (effective_state current m partition i) s) live
  unfolding count_live count
  tally-count_live current m partition counts [] = omega arith
  tally-count_live current m partition counts (i ∷ live) =
      let state = effective_state current m partition i in
      omega (
        arith,
        tally-count_live current m partition (increase_state_count bounds state counts) live,
        tally-increase state counts,
      )

  pub tally-count_pending :
      (counts : Map State ℕ) (pending : List PendingTransition)
      → tally (count_pending bounds counts pending) s
        ≡ tally counts s
          + count (λ t. eqb t.source_state s) pending
          + count (λ t. eqb t.target_state s) pending
  unfolding count_pending count
  tally-count_pending counts [] = omega arith
  tally-count_pending counts (t ∷ pending) =
      let after = increase_state_count bounds t.target_state counts in
      omega (
        arith,
        tally-count_pending (increase_state_count bounds t.source_state after) pending,
        tally-increase t.source_state after,
        tally-increase t.target_state counts,
      )
