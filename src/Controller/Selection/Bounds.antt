-- ===== src/Controller/Selection/Bounds.antt =====
-- Message selection never exceeds the bound of a state, and invents no transition.
use clustodian.Model.Identity.{InstanceId, PartitionId}
use clustodian.Model.State.{State}
use clustodian.Model.Replica.{CurrentState}
use clustodian.Model.StateModel.{StateModelDefinition}
use clustodian.Transition.{TransitionRequest, PendingTransition}
use clustodian.Controller.Selection.{Selecting, select_partition, select_at, select_partitions}
use clustodian.Controller.Selection.Counting.{count_live, count_pending, group_priorities}
use clustodian.Controller.Selection.Counts.{
  effective_state, tally, tally-count_live, tally-count_pending,
}
use clustodian.Controller.Selection.Greedy.{entering, select_groups-Fits}
use clustodian.Controller.Selection.Grouping.{at, select_partition-All}
use clustodian.Base.Logic.{
  unwrap_or, ℕ, ◌+◌, ◌≤◌, ◌≡◌, refl, ◌⊎◌, inl, Bool, true, ◌&&◌, some, List, [], Option-cases, ap,
  inr, false, ◌∷◌, arith,
}
use clustodian.Base.Lists.{count, All, All-append, count-append, contains, Distinct}
use clustodian.Base.Map.{Map, get, contains_key}
use clustodian.Base.Ord.{eqb, string_ord, nat_ord, pair_ord, eqb_refl, eqb-cases}

-- The replicas of a partition that take up room in a state before anything is selected: those
-- live in it, and the ends of the transitions in flight.
abbrev pub occupied :
    CurrentState
    → StateModelDefinition
    → PartitionId
    → State
    → List InstanceId
    → List PendingTransition
    → ℕ
occupied current m p s live pending =
    count (λ i. eqb (effective_state current m p i) s) live
    + count (λ t. eqb t.partition p && eqb t.source_state s) pending
    + count (λ t. eqb t.partition p && eqb t.target_state s) pending

-- Whether a request takes a replica of the partition into the state.
abbrev pub entering_at : PartitionId → State → TransitionRequest → Bool
entering_at p s r = eqb r.partition p && entering s r

abbrev pub Room : ℕ → ℕ → ℕ → Type 0
Room placed base bound = (placed ≡ 0) ⊎ (base + placed ≤ bound)

pub select_partition-Room :
    (bounds : Map State ℕ) (s : State) (bound : ℕ) (known : get bounds s ≡ some bound)
    (current : CurrentState) (live : List InstanceId) (m : StateModelDefinition)
    (pending : Map PartitionId (List PendingTransition)) (p : PartitionId)
    (candidates : List TransitionRequest)
    → Room
        (count (entering s) (select_partition bounds current live m pending p candidates))
        (count (λ i. eqb (effective_state current m p i) s) live
          + count (λ t. eqb t.source_state s) (at pending p)
          + count (λ t. eqb t.target_state s) (at pending p))
        bound
unfolding select_partition count get
select_partition-Room bounds s bound known current live m pending p candidates =
    (select_groups-Fits bounds s bound base known (group_priorities m [] candidates) start
      (record { counted = started; room = inl refl })).room
  where
    bounded : contains_key bounds s ≡ true
    bounded = unfold contains_key in rw known refl

    base : ℕ
    base =
        count (λ i. eqb (effective_state current m p i) s) live
        + count (λ t. eqb t.source_state s) (at pending p)
        + count (λ t. eqb t.target_state s) (at pending p)

    start : Selecting
    start = record {
      state_counts =
          count_pending bounds (count_live bounds current m p [] live)
            (unwrap_or (get pending p) []);
      selected = [];
    }

    started : tally start.state_counts s ≡ base + 0
    started = omega (
      arith,
      tally-count_pending bounds s bounded (count_live bounds current m p [] live) (at pending p),
      tally-count_live bounds s bounded current m p [] live,
    )

-- The requests of one partition are the only ones that count for it.
count-own :
    (p : PartitionId) (s : State) (rs : List TransitionRequest)
    → All (λ r. r.partition ≡ p) rs
    → count (entering_at p s) rs ≡ count (entering s) rs
unfolding count
count-own p s [] h = refl
count-own p s (r ∷ rs) h = rw (h.0, eqb_refl p, count-own p s rs h.1) refl

count-other :
    (p q : PartitionId) (s : State) (rs : List TransitionRequest)
    → eqb q p ≡ false
    → All (λ r. r.partition ≡ q) rs
    → count (entering_at p s) rs ≡ 0
unfolding count
count-other p q s [] n h = refl
count-other p q s (r ∷ rs) n h = rw (h.0, n, count-other p q s rs n h.1) refl

module _ (bounds : Map State ℕ) (current : CurrentState) (live : List InstanceId)
    (m : StateModelDefinition) (pending : Map PartitionId (List PendingTransition))
    (groups : Map PartitionId (List TransitionRequest)) where
  abbrev pub chosen : PartitionId → List TransitionRequest
  chosen = select_at bounds current live m pending groups

  select_at-All {μ} :
      (P : TransitionRequest → Type μ) (p : PartitionId) → All P (at groups p) → All P (chosen p)
  unfolding select_at
  select_at-All P p h = elim (Option-cases (get groups p)) [
    | inl e ↦ rw (e, select_at) tt
    | inr (g, e) ↦
        rw (e, select_at) (select_partition-All P bounds current live m pending p g (rw e at h))
  ]

  pub select_partitions-All {μ} :
      (P : TransitionRequest → Type μ) (ps : List PartitionId)
      → ((p : PartitionId) → All P (at groups p))
      → All P (select_partitions bounds current live m pending groups ps)
  unfolding select_partitions
  select_partitions-All P [] h = tt
  select_partitions-All P (p ∷ ps) h =
      All-append P (chosen p) _ (select_at-All P p (h p)) (select_partitions-All P ps h)

  module _ (own : (p : PartitionId) → All (λ r. r.partition ≡ p) (at groups p)) where
    count-absent :
        (p : PartitionId) (s : State) (ps : List PartitionId)
        → contains ps p ≡ false
        → count (entering_at p s) (select_partitions bounds current live m pending groups ps) ≡ 0
    unfolding select_partitions contains count
    count-absent p s [] h = refl
    count-absent p s (q ∷ ps) h = omega (
      arith,
      count-append (entering_at p s) (chosen q)
          (select_partitions bounds current live m pending groups ps),
      count-other p q s (chosen q) (ground arith) (select_at-All (λ r. r.partition ≡ q) q (own q)),
      count-absent p s ps (ground arith),
    )

    -- A partition that stands once among those walked gets what is chosen for it, and no other.
    pub count-select_partitions :
        (p : PartitionId) (s : State) (ps : List PartitionId)
        → Distinct ps
        → (count (entering_at p s) (select_partitions bounds current live m pending groups ps) ≡ 0)
          ⊎ (count (entering_at p s) (select_partitions bounds current live m pending groups ps)
              ≡ count (entering s) (chosen p))
    unfolding select_partitions count
    count-select_partitions p s [] h = inl refl
    count-select_partitions p s (q ∷ ps) h = elim (eqb-cases q p) [
      | inl (e, same) ↦ inr (
          omega (
            arith,
            count-append (entering_at p s) (chosen q)
                (select_partitions bounds current live m pending groups ps),
            ap (λ x. count (entering s) (chosen x)) same,
            ap (λ x. count (entering_at x s) (chosen q)) same,
            count-own q s (chosen q) (select_at-All (λ r. r.partition ≡ q) q (own q)),
            count-absent p s ps (rw same at h.0),
          ))
      | inr (n, _) ↦ ground (
        arith,
        count-append (entering_at p s) (chosen q)
            (select_partitions bounds current live m pending groups ps),
        count-other p q s (chosen q) n (select_at-All (λ r. r.partition ≡ q) q (own q)),
        count-select_partitions p s ps h.1,
      )
    ]
