-- ===== src/Rebalance/SemiAuto/Order.antt =====
-- src/rebalance/semi_auto.rs: how many replicas a state asks for, and which instance is proposed next.
use clustodian.Model.Identity.{InstanceId}
use clustodian.Model.State.{State, StateCardinality, exact, replica_count, node_count, unbounded}
use clustodian.Model.StateModel.{StateModelDefinition, next_state_toward, highest_priority_state}
use clustodian.Base.Logic.{
  if◌then◌else◌, leb, ltb, usize_max, and_then, unwrap_or, ℕ, Bool, true, false, ◌&&◌, Option, none,
  some, List, ◌∷◌, [],
}
use clustodian.Base.Lists.{any, position, contains}
use clustodian.Base.Map.{Map, get}
use clustodian.Base.Ord.{eqb, string_ord, nat_ord, pair_ord}

unfoldable pub state_count : Option StateCardinality → ℕ → ℕ → ℕ
state_count none live_candidates preferences = 0
state_count (some (exact n)) live_candidates preferences = n
state_count (some replica_count) live_candidates preferences = preferences
state_count (some node_count) live_candidates preferences = live_candidates
state_count (some unbounded) live_candidates preferences = 0

unfoldable pub current_state_priority :
    Option (Map InstanceId State) → StateModelDefinition → InstanceId → ℕ
current_state_priority current m replica =
    unwrap_or
      (and_then (and_then current (λ states. get states replica))
        (λ state. position (λ candidate. eqb candidate state) m.states_by_priority))
      usize_max

-- `sort_by_key`: a stable sort, as insertion from the back.
unfoldable pub insert_by_key {ℓ} : {A : Type ℓ} → (A → ℕ) → A → List A → List A
insert_by_key key x [] = x ∷ []
insert_by_key key x (y ∷ ys) =
    if leb (key x) (key y) then x ∷ y ∷ ys else y ∷ insert_by_key key x ys

unfoldable pub sort_by_key {ℓ} : {A : Type ℓ} → (A → ℕ) → List A → List A
unfolding insert_by_key
sort_by_key key [] = []
sort_by_key key (x ∷ xs) = insert_by_key key x (sort_by_key key xs)

-- The first candidate of the iterator that is not assigned, with what the iterator has left.
unfoldable pub next_unassigned :
    InstanceId → List InstanceId → List InstanceId → InstanceId × List InstanceId
next_unassigned proposed assigned [] = (proposed, [])
next_unassigned proposed assigned (c ∷ rest) =
    if contains assigned c then next_unassigned proposed assigned rest else (c, rest)

unfoldable pub adjust_instance_if_necessary :
    InstanceId
    → List InstanceId
    → ℕ
    → ℕ
    → Bool
    → Bool
    → List InstanceId
    → InstanceId × List InstanceId
unfolding next_unassigned
adjust_instance_if_necessary proposed assigned remaining_candidates remaining_requests is_top
      needs_adjustment priority =
    if ltb remaining_requests remaining_candidates && is_top && needs_adjustment
    then next_unassigned proposed assigned priority
    else (proposed, priority)

-- `==` on two optional states.
unfoldable pub same_state : Option State → Option State → Bool
same_state none none = true
same_state none (some t) = false
same_state (some s) none = false
same_state (some s) (some t) = eqb s t

unfoldable pub is_second_top_state : State → StateModelDefinition → Bool
unfolding next_state_toward highest_priority_state same_state
is_second_top_state state m =
    let top = highest_priority_state m in
    any
      (λ candidate.
        same_state (next_state_toward m candidate top) (some top) && eqb candidate state)
      m.states_by_priority
