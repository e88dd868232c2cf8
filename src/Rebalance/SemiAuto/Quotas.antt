-- ===== src/Rebalance/SemiAuto/Quotas.antt =====
-- The placement of one partition against the cardinalities of the states.
use clustodian.Base.Map.{Map}
use clustodian.Base.Lists.{count, contains, Distinct, All}
use clustodian.Base.Ord.{eqb, eqb-cases, eqb_refl, string_ord, nat_ord, pair_ord}
use clustodian.Model.StateModel.{StateModelDefinition, cardinality_for}
use clustodian.Model.State.{State}
use clustodian.Model.Identity.{InstanceId, PartitionId}
use clustodian.Model.Replica.{ReplicaStates, get_state}
use clustodian.Rebalance.SemiAuto.Placement.{in_state}
use clustodian.Rebalance.SemiAuto.Filled.{Placing, Active, fill_state-Placing}
use clustodian.Rebalance.SemiAuto.{Filling, fill_states}
use clustodian.Rebalance.SemiAuto.Order.{state_count, sort_by_key, insert_by_key, same_state}
use clustodian.Base.Logic.{
  List, Option, none, ◌≡◌, refl, [], ◌∷◌, ℕ, ◌+◌, ◌≤◌, arith, true, false, ok, Bool-cases,
  if◌then◌else◌, leb, inl, inr,
}

-- What the loop over the states may assign to a state.
abbrev pub quota : StateModelDefinition → ℕ → ℕ → List State → State → ℕ
quota m candidates preferences [] s = 0
quota m candidates preferences (t ∷ rest) s =
    (if eqb t s then state_count (cardinality_for m t) candidates preferences else 0)
    + quota m candidates preferences rest s

quota_absent :
    (m : StateModelDefinition) (candidates preferences : ℕ) (states : List State) (s : State)
    → contains states s ≡ false
    → quota m candidates preferences states s ≡ 0
unfolding contains
quota_absent m candidates preferences [] s n = refl
quota_absent m candidates preferences (t ∷ rest) s n =
    ground (arith, quota_absent m candidates preferences rest s)

-- Distinct states are assigned once each.
pub quota_once :
    (m : StateModelDefinition) (candidates preferences : ℕ) (states : List State) (s : State)
    → Distinct states
    → contains states s ≡ true
    → quota m candidates preferences states s
      ≡ state_count (cardinality_for m s) candidates preferences
unfolding contains
quota_once m candidates preferences [] s d h = absurd cc
quota_once m candidates preferences (t ∷ rest) s d h = elim (eqb-cases t s) [
  | inl (e, same) ↦
      let absent = quota_absent m candidates preferences rest s (rw same at d.0) in
      rw (e, same, absent) (omega arith)
  | inr (e, other) ↦
      let later = quota_once m candidates preferences rest s d.1 (ground arith) in
      rw e (omega arith)
]

module _ (p : PartitionId) (active : List InstanceId) (base : ReplicaStates)
    (current : Option (Map InstanceId State)) (candidates preferences : ℕ)
    (m : StateModelDefinition) where
  pub fill_states-Placing :
      (states : List State) (queue : List InstanceId) (f : Filling)
      → Distinct active
      → Placing p active base f
      → Active p active base queue
      → (f' : Filling) × (fill_states p current candidates preferences m states queue f ≡ ok f')
        × Placing p active base f'
        × ((s : State)
            → in_state f'.output p s active
              ≤ in_state f.output p s active + quota m candidates preferences states s)
  unfolding fill_states
  fill_states-Placing [] queue f d w a = (f, refl, w, λ s. omega arith)
  fill_states-Placing (t ∷ rest) queue f d w a =
      let (r, e, w', a', bound) =
        fill_state-Placing p active base
          (record {
            partition = p;
            current = current;
            candidate_count = candidates;
            requested = t;
            model = m;
          })
          (state_count (cardinality_for m t) candidates preferences) queue f refl d w a in
      let (f', e', w'', bound') = fill_states-Placing rest r.0 r.1 d w' a' in
      (f', rw e e', w'', λ s. let x = bound s in let y = bound' s in omega arith)

pub sort_by_key-All :
    (P : InstanceId → Type 0) (key : InstanceId → ℕ) (list : List InstanceId)
    → All P list
    → All P (sort_by_key key list)
unfolding sort_by_key
sort_by_key-All P key [] h = tt
sort_by_key-All P key (x ∷ xs) h =
    inserted x (sort_by_key key xs) h.0 (sort_by_key-All P key xs h.1)
  where
    inserted :
        (x : InstanceId) (ys : List InstanceId) → P x → All P ys → All P (insert_by_key key x ys)
    inserted x [] hx h = (hx, tt)
    inserted x (y ∷ ys) hx h = elim (Bool-cases (leb (key x) (key y))) [
      | inl e ↦ rw (insert_by_key, e) (hx, h)
      | inr e ↦ rw (insert_by_key, e) (h.0, inserted x ys hx h.1)
    ]

pub All_self :
    (xs ys : List InstanceId)
    → ((i : InstanceId) → contains ys i ≡ true → contains xs i ≡ true)
    → All (λ i. contains xs i ≡ true) ys
unfolding contains
All_self xs [] h = tt
All_self xs (y ∷ ys) h =
    (h y (rw (contains, eqb_refl y) refl), All_self xs ys (λ i e. h i (ground arith)))

pub count_none :
    (output : ReplicaStates) (p : PartitionId) (s : State) (list : List InstanceId)
    → All (λ i. get_state output p i ≡ none) list
    → in_state output p s list ≡ 0
unfolding count same_state
count_none output p s [] h = refl
count_none output p s (i ∷ list) h =
    let later = count_none output p s list h.1 in rw h.0 (omega arith)
