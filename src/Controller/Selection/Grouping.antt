-- ===== src/Controller/Selection/Grouping.antt =====
-- How the candidates and the pending transitions are filed under their partitions and priorities.
use clustodian.Model.Identity.{InstanceId, PartitionId, ResourceId}
use clustodian.Model.Replica.{CurrentState}
use clustodian.Model.Ideal.{IdealState}
use clustodian.Model.StateModel.{StateModelDefinition}
use clustodian.Transition.{TransitionRequest, PendingTransition}
use clustodian.Controller.Selection.{
  group_candidates, group_pending, Selecting, select_one, select_group, select_groups,
  select_partition,
}
use clustodian.Controller.Selection.Counting.{group_priorities, priority_of}
use clustodian.Base.Logic.{
  unwrap_or, inl, inr, List, ◌∷◌, [], if◌then◌else◌, ok, ℕ, ◌+◌, ◌≡◌, refl, Bool, true, ◌&&◌, arith,
  ok-injective, subst,
}
use clustodian.Base.Lists.{All, All-append, count, In, count-append, here, there}
use clustodian.Base.Map.{Map, get, push_at, get-push_at, insert}
use clustodian.Base.Ord.{Ord, eqb-cases, string_ord, nat_ord, pair_ord, eqb, eq_of_eqb}
use clustodian.Base.Set.{add}
use clustodian.Model.State.{State}

-- Every vector of the map satisfies `P` throughout, for the key under which it is filed.
abbrev pub Filed {ℓ κ μ} :
    {K : Type ℓ} ⦃o : Ord K⦄ {V : Type κ} → (K → V → Type μ) → Map K (List V) → Type (ℓ ⊔ μ)
Filed {K = K} P groups = (k : K) → All (P k) (unwrap_or (get groups k) [])

push_at-Filed {ℓ κ μ} :
    {K : Type ℓ} ⦃o : Ord K⦄ {V : Type κ} (P : K → V → Type μ) (groups : Map K (List V)) (k : K)
    (v : V)
    → P k v
    → Filed P groups
    → Filed P (push_at groups k v)
push_at-Filed P groups k v h f j = elim (eqb-cases k j) [
  | inl (e, p) ↦
      rw (get-push_at groups k v j, e)
        (rw (← p) (All-append (P k) (unwrap_or (get groups k) []) (v ∷ []) (f k) (h, tt)))
  | inr (e, n) ↦ rw (get-push_at groups k v j, e) (f j)
]

-- The candidates under a key, none where the key is absent.
abbrev pub at {ℓ κ} : {K : Type ℓ} ⦃o : Ord K⦄ {V : Type κ} → Map K (List V) → K → List V
at groups k = unwrap_or (get groups k) []

-- What one accepted round of the loop over the candidates has checked.
group_candidates_step :
    (resource : ResourceId) (ideal : IdealState) (current : CurrentState) (m : StateModelDefinition)
    (groups : Map PartitionId (List TransitionRequest)) (c : TransitionRequest)
    (rest : List TransitionRequest) {r : Map PartitionId (List TransitionRequest)}
    → group_candidates resource ideal current m groups (c ∷ rest) ≡ ok r
    → (eqb c.resource resource ≡ true)
      × (group_candidates resource ideal current m (push_at groups c.partition c) rest ≡ ok r)
unfolding group_candidates
group_candidates_step resource ideal current m groups c rest h = ground arith

pub group_candidates-Filed {μ} :
    (Q : TransitionRequest → Type μ) (resource : ResourceId) (ideal : IdealState)
    (current : CurrentState) (m : StateModelDefinition) (candidates : List TransitionRequest)
    (groups : Map PartitionId (List TransitionRequest))
    {r : Map PartitionId (List TransitionRequest)}
    → group_candidates resource ideal current m groups candidates ≡ ok r
    → ((c : TransitionRequest) → c.resource ≡ resource → In c candidates → Q c)
    → Filed (λ p c. (c.partition ≡ p) × Q c) groups
    → Filed (λ p c. (c.partition ≡ p) × Q c) r
unfolding group_candidates
group_candidates-Filed Q resource ideal current m [] groups h q f =
    subst (Filed (λ p c. (c.partition ≡ p) × Q c)) (ok-injective h) f
group_candidates-Filed Q resource ideal current m (c ∷ rest) groups h q f =
    let step = group_candidates_step resource ideal current m groups c rest h in
    group_candidates-Filed Q resource ideal current m rest (push_at groups c.partition c) step.1
      (λ d e i. q d e (there i))
      (push_at-Filed (λ p c. (c.partition ≡ p) × Q c) groups c.partition c
        (refl, q c (eq_of_eqb c.resource resource step.0) (here refl)) f)

group_pending_step :
    (ideal : IdealState) (current : CurrentState) (m : StateModelDefinition)
    (seen : List (PartitionId × InstanceId)) (groups : Map PartitionId (List PendingTransition))
    (t : PendingTransition) (rest : List PendingTransition)
    {r : Map PartitionId (List PendingTransition)}
    → group_pending ideal current m seen groups (t ∷ rest) ≡ ok r
    → group_pending ideal current m
        (add seen (t.partition, t.replica))
        (push_at groups t.partition t)
        rest
      ≡ ok r
unfolding group_pending
group_pending_step ideal current m seen groups t rest h = ground arith

count-push_at :
    (test : PendingTransition → Bool) (groups : Map PartitionId (List PendingTransition))
    (t : PendingTransition) (p : PartitionId)
    → count test (at (push_at groups t.partition t) p)
      ≡ count test (at groups p) + (if eqb t.partition p && test t then 1 else 0)
unfolding count
count-push_at test groups t p = elim (eqb-cases t.partition p) [
  | inl (e, q) ↦
      rw (get-push_at groups t.partition t p, e)
        (rw (← q) (omega (arith, count-append test (at groups t.partition) (t ∷ []))))
  | inr (e, n) ↦ rw (get-push_at groups t.partition t p, e) (omega arith)
]

-- The pending transitions of a partition are those of the list that name it.
pub count-group_pending :
    (test : PendingTransition → Bool) (ideal : IdealState) (current : CurrentState)
    (m : StateModelDefinition) (p : PartitionId) (pending : List PendingTransition)
    (seen : List (PartitionId × InstanceId)) (groups : Map PartitionId (List PendingTransition))
    {r : Map PartitionId (List PendingTransition)}
    → group_pending ideal current m seen groups pending ≡ ok r
    → count test (at r p)
      ≡ count test (at groups p) + count (λ t. eqb t.partition p && test t) pending
unfolding count group_pending
count-group_pending test ideal current m p [] seen groups {r} h =
    rw (← ok-injective h) (omega arith)
count-group_pending test ideal current m p (t ∷ rest) seen groups h = omega (
  arith,
  count-push_at test groups t p,
  count-group_pending test ideal current m p rest (add seen (t.partition, t.replica))
      (push_at groups t.partition t) (group_pending_step ideal current m seen groups t rest h),
)

module _ {μ} (P : TransitionRequest → Type μ) where
  -- Every group of the map satisfies `P` throughout.
  abbrev Grouped : Map ℕ (List TransitionRequest) → Type μ
  Grouped groups = All (λ e. All P e.1) groups

  insert-Grouped :
      (groups : Map ℕ (List TransitionRequest)) (k : ℕ) (g : List TransitionRequest)
      → All P g
      → Grouped groups
      → Grouped (insert groups k g)
  unfolding insert
  insert-Grouped [] k g h f = (h, tt)
  insert-Grouped ((j, w) ∷ groups) k g h f = ground (arith, insert-Grouped groups k g h f.1)

  at-Grouped :
      (groups : Map ℕ (List TransitionRequest)) (k : ℕ) → Grouped groups → All P (at groups k)
  unfolding get
  at-Grouped [] k f = tt
  at-Grouped ((j, w) ∷ groups) k f = elim (eqb-cases j k) [
    | inl (e, p) ↦ rw e f.0
    | inr (e, n) ↦ rw e (at-Grouped groups k f.1)
  ]

  group_priorities-Grouped :
      (m : StateModelDefinition) (candidates : List TransitionRequest)
      (groups : Map ℕ (List TransitionRequest))
      → All P candidates
      → Grouped groups
      → Grouped (group_priorities m groups candidates)
  unfolding group_priorities push_at
  group_priorities-Grouped m [] groups h f = f
  group_priorities-Grouped m (c ∷ rest) groups h f = group_priorities-Grouped m rest _ h.1 (
      insert-Grouped groups (priority_of m c) _
        (All-append P (at groups (priority_of m c)) (c ∷ []) (at-Grouped groups (priority_of m c) f)
          (h.0, tt))
        f)

  select_one-All :
      (bounds : Map State ℕ) (sel : Selecting) (c : TransitionRequest)
      → P c
      → All P sel.selected
      → All P (select_one bounds sel c).selected
  unfolding select_one
  select_one-All bounds sel c h f = ground (arith, All-append P sel.selected (c ∷ []) f (h, tt))

  select_group-All :
      (bounds : Map State ℕ) (group : List TransitionRequest) (sel : Selecting)
      → All P group
      → All P sel.selected
      → All P (select_group bounds sel group).selected
  unfolding select_group
  select_group-All bounds [] sel h f = f
  select_group-All bounds (c ∷ group) sel h f =
      select_group-All bounds group (select_one bounds sel c) h.1
        (select_one-All bounds sel c h.0 f)

  select_groups-All :
      (bounds : Map State ℕ) (groups : Map ℕ (List TransitionRequest)) (sel : Selecting)
      → Grouped groups
      → All P sel.selected
      → All P (select_groups bounds sel groups).selected
  unfolding select_groups
  select_groups-All bounds [] sel h f = f
  select_groups-All bounds ((k, group) ∷ groups) sel h f =
      select_groups-All bounds groups _ h.1 (select_group-All bounds group sel h.0 f)

  -- What is selected for a partition comes from its candidates.
  pub select_partition-All :
      (bounds : Map State ℕ) (current : CurrentState) (live : List InstanceId)
      (m : StateModelDefinition) (pending : Map PartitionId (List PendingTransition))
      (p : PartitionId) (candidates : List TransitionRequest)
      → All P candidates
      → All P (select_partition bounds current live m pending p candidates)
  unfolding select_partition
  select_partition-All bounds current live m pending p candidates h =
      select_groups-All bounds _ _ (group_priorities-Grouped m candidates [] h tt) tt
