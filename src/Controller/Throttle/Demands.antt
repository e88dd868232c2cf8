-- ===== src/Controller/Throttle/Demands.antt =====
-- src/controller/message_throttle.rs: what `required_states` demands, and when a transition counts
-- as recovery.
use clustodian.Model.Identity.{InstanceId, PartitionId}
use clustodian.Model.State.{State, StateCardinality, exact, replica_count, node_count, unbounded}
use clustodian.Model.StateModel.{StateModelDefinition, cardinality_for}
use clustodian.Controller.Throttle.{ResourceTransitionInput, recovery_balance, load_balance}
use clustodian.Controller.Throttle.Required.{
  Demand, take_share, demand_state, demand_states, demand_replicas, required_states,
  live_candidates, satisfy, satisfy_all, rebalance_type, is_replica_count,
}
use clustodian.Base.Logic.{
  ℕ, if◌then◌else◌, ltb, ◌==◌, Bool-cases, Option-cases, unwrap_or, ◌+◌, ◌-◌, ◌≤◌, ◌<◌, min, ◌≡◌,
  inl, inr, ◌&&◌, Option, none, some, List, ◌∷◌, arith, [], refl, ap,
}
use clustodian.Base.Map.{Map, get, insert, get-insert, values, remove, contains_key, get-remove}
use clustodian.Base.Ord.{eqb, eqb-cases, string_ord, nat_ord, pair_ord}
use clustodian.Base.Group.{total}
use clustodian.Base.Lists.{count}

-- Every state that is demanded is demanded of at least one replica.
abbrev pub Positive : Map State ℕ → Type 0
Positive m = (s : State) (n : ℕ) → get m s ≡ some n → 0 < n

-- All the replicas that are demanded.
abbrev pub demanded : Map State ℕ → ℕ
demanded [] = 0
demanded ((s, n) ∷ m) = n + demanded m

demanded-insert : (m : Map State ℕ) (s : State) (n : ℕ) → demanded (insert m s n) ≤ demanded m + n
unfolding insert
demanded-insert [] s n = omega arith
demanded-insert ((t, k) ∷ m) s n = ground (arith, demanded-insert m s n)

insert-Positive :
    (m : Map State ℕ) (s : State) (n : ℕ) → 0 < n → Positive m → Positive (insert m s n)
insert-Positive m s n up h t k e =
    let after = get-insert m s n t in ground (arith, h t k, eqb-cases s t)

-- What the loops keep of `total` candidates.
abbrev Within : ℕ → Demand → Type 0
Within total d = Positive d.result × (demanded d.result + d.remaining_candidates ≤ total)

take_share-Within :
    (total : ℕ) (state : State) (share : ℕ) (d : Demand)
    → 0 < share
    → share ≤ d.remaining_candidates
    → Within total d
    → Within total (take_share state share d)
unfolding take_share
take_share-Within total state share d up le (positive, sum) = (
  insert-Positive d.result state share up positive,
  omega (arith, demanded-insert d.result state share),
)

demand_state-Within :
    (total : ℕ) (state : State) (c : Option StateCardinality) (d : Demand)
    → 0 < d.remaining_candidates
    → Within total d
    → Within total (demand_state state c d)
unfolding demand_state
demand_state-Within total state none d up h = h
demand_state-Within total state (some (exact n)) d up h = elim (Bool-cases (ltb 0 n)) [
  | inl e ↦ rw e (
      take_share-Within total state (min n d.remaining_candidates) d (ground arith) (ground arith)
        h)
  | inr e ↦ rw e h
]
demand_state-Within total state (some node_count) d up h =
    take_share-Within total state d.remaining_candidates d up (omega arith) h
demand_state-Within total state (some replica_count) d up h = h
demand_state-Within total state (some unbounded) d up h = h

demand_states-Within :
    (total : ℕ) (m : StateModelDefinition) (states : List State) (d : Demand)
    → Within total d
    → Within total (demand_states m states d)
unfolding demand_states
demand_states-Within total m [] d h = h
demand_states-Within total m (s ∷ states) d h = elim (Bool-cases (d.remaining_candidates == 0)) [
  | inl e ↦ rw (demand_states, e) h
  | inr e ↦
      rw (demand_states, e)
        (demand_states-Within total m states _
          (demand_state-Within total s (cardinality_for m s) d (ground arith) h))
]

demand_replicas-Within :
    (total : ℕ) (m : StateModelDefinition) (states : List State) (d : Demand)
    → Within total d
    → Positive (demand_replicas m states d) × (demanded (demand_replicas m states d) ≤ total)
unfolding demand_replicas
demand_replicas-Within total m [] d (positive, sum) = (positive, omega arith)
demand_replicas-Within total m (s ∷ states) d (positive, sum) =
    elim (Bool-cases (
      is_replica_count (cardinality_for m s)
      && ltb 0 d.remaining_candidates
      && ltb 0 d.remaining_replicas)) [
        | inl e ↦
            rw (demand_replicas, e)
              (
                insert-Positive d.result s (min d.remaining_candidates d.remaining_replicas)
                    (ground arith) positive,
                ground (
                  arith,
                  demanded-insert d.result s (min d.remaining_candidates d.remaining_replicas),
                ),
              )
        | inr e ↦ rw (demand_replicas, e) (demand_replicas-Within total m states d (positive, sum))
      ]

module _ (resource : ResourceTransitionInput) (partition : PartitionId)
    (live_instances : List InstanceId) (m : StateModelDefinition) where
  -- The states that a partition requires are demanded of at least one replica each, and of no more
  -- replicas together than the preference list has live instances.
  pub required_states_bounded :
      Positive (required_states resource partition live_instances m)
      × (demanded (required_states resource partition live_instances m)
          ≤ live_candidates resource partition live_instances)
  unfolding required_states
  required_states_bounded =
      demand_replicas-Within (live_candidates resource partition live_instances) m
        m.states_by_priority _
        (demand_states-Within (live_candidates resource partition live_instances) m
          m.states_by_priority _ (λ s n e. absurd cc, omega arith))

-- What is still demanded of a state.
abbrev need : Map State ℕ → State → ℕ
need m s = unwrap_or (get m s) 0

need_same : (m : Map State ℕ) (s t : State) (n : ℕ) → get m s ≡ some n → s ≡ t → need m t ≡ n
need_same m s t n e p = rw (← p, e) refl

remove-Positive : (m : Map State ℕ) (s : State) → Positive m → Positive (remove m s)
remove-Positive m s h t k e = let after = get-remove m s t in ground (arith, h t k)

satisfy_one :
    (m : Map State ℕ) (s t : State)
    → Positive m
    → Positive (satisfy (get m s) s m)
      × (need (satisfy (get m s) s m) t ≡ need m t - (if eqb s t then 1 else 0))
unfolding satisfy
satisfy_one m s t h = elim (Option-cases (get m s)) [
  | inl e ↦
      rw (e, satisfy)
        (
          h,
          elim (eqb-cases s t) [
            | inl (x, p) ↦ rw (x, ← p, e) refl
            | inr (x, p) ↦ rw x (omega arith)
          ],
        )
  | inr (n, e) ↦
      rw (e, satisfy)
        (elim (Bool-cases (n == 1)) [
          | inl f ↦ rw f (
            remove-Positive m s h,
            elim (eqb-cases s t) [
              | inl (x, p) ↦ rw (get-remove m s t, x, need_same m s t n e p) (ground arith)
              | inr (x, p) ↦ rw (get-remove m s t, x) (omega arith)
            ],
          )
          | inr f ↦
              (let up = h s n e in
                rw f (
                  insert-Positive m s (n - 1) (ground arith) h,
                  elim (eqb-cases s t) [
                    | inl (x, p) ↦ rw (get-insert m s (n - 1) t, x, need_same m s t n e p) refl
                    | inr (x, p) ↦ rw (get-insert m s (n - 1) t, x) (omega arith)
                  ],
                ))
        ])
]

satisfy_all-need :
    (states : List State) (m : Map State ℕ) (t : State)
    → Positive m
    → Positive (satisfy_all states m)
      × (need (satisfy_all states m) t ≡ need m t - count (λ s. eqb s t) states)
unfolding satisfy_all count
satisfy_all-need [] m t h = (h, omega arith)
satisfy_all-need (s ∷ states) m t h =
    let one = satisfy_one m s t h in
    let rest = satisfy_all-need states (satisfy (get m s) s m) t one.0 in
    (rest.0, omega (arith, rest.1, one.1))

contains_key-need : (m : Map State ℕ) (t : State) → Positive m → contains_key m t ≡ ltb 0 (need m t)
unfolding contains_key
contains_key-need m t h = elim (Option-cases (get m t)) [
  | inl e ↦ rw e refl
  | inr (n, e) ↦ (let up = h t n e in rw e (ground arith))
]

-- A transition is recovery exactly where fewer replicas of its partition are in its target state
-- than the partition requires there, whatever the order in which the current states are met.
pub rebalance_type_exact :
    (resource : ResourceTransitionInput) (p : PartitionId) (live_instances : List InstanceId)
    (m : StateModelDefinition) (current : Map PartitionId (Map InstanceId State)) (target : State)
    → rebalance_type (required_states resource p live_instances m) current p target ≡ (
        if ltb
          (count (λ s. eqb s target) (values (unwrap_or (get current p) [])))
          (unwrap_or (get (required_states resource p live_instances m) target) 0)
        then recovery_balance
        else load_balance)
unfolding rebalance_type
rebalance_type_exact resource p live_instances m current target =
    let required = required_states resource p live_instances m in
    let (positive, left) =
      satisfy_all-need (values (unwrap_or (get current p) [])) required target
        (required_states_bounded resource p live_instances m).0 in
    rw (contains_key-need _ target positive, left)
      (ap (λ b. if b then recovery_balance else load_balance) (ground arith))
