-- ===== src/Controller/Throttle/Priority.antt =====
-- src/controller/message_throttle.rs: the orders in which partitions and messages are considered.
use clustodian.Model.Identity.{InstanceId, PartitionId}
use clustodian.Model.State.{State}
use clustodian.Model.StateModel.{StateModelDefinition}
use clustodian.Controller.Throttle.{
  ResourceTransitionInput, OperationalPendingTransition, pending_as_request,
}
use clustodian.Transition.{TransitionRequest}
use clustodian.Base.Ord.{string_ord, then_with, eqb, nat_ord, pair_ord}
use clustodian.Base.Map.{get, insert, Map, values}
use clustodian.Base.Lists.{any, count, position}
use Prim.Native.Nat.Ordering.{lt, eq, gt}
use clustodian.Base.Logic.{
  if◌then◌else◌, usize_max, ◌==◌, and_then, unwrap_or, ℕ, ◌+◌, ◌-◌, compare, Ordering, Bool, false,
  not, Option, none, some, List, ◌∷◌, [],
}

-- How many replicas each state has.
unfoldable pub tally_states : List State → Map State ℕ → Map State ℕ
unfolding insert get
tally_states [] remaining = remaining
tally_states (state ∷ rest) remaining =
    tally_states rest (insert remaining state (unwrap_or (get remaining state) 0 + 1))

-- `filter(..).count()` with the counts that the filter uses up.
unfoldable pub count_active : Map State ℕ → List State → ℕ
unfolding insert get
count_active remaining [] = 0
count_active remaining (state ∷ rest) =
    let n = unwrap_or (get remaining state) 0 in
    let skipped = count_active remaining rest in
    let used = count_active (insert remaining state (n - 1)) rest in
    if n == 0 then skipped else 1 + used

-- `best.get(instance) == Some(state)`.
unfoldable pub is_best : Map InstanceId State → InstanceId × State → Bool
unfolding get
is_best best (replica, state) = elim (get best replica) [
  | none ↦ false
  | some wanted ↦ eqb wanted state
]

-- The closure `key`.
unfoldable pub partition_key :
    State → Option (Map InstanceId State) → Option (Map InstanceId State) → ℕ × ℕ × ℕ
unfolding tally_states count_active is_best any count
partition_key top_state current best =
    let states = unwrap_or current [] in
    (
      if any (λ s. eqb s top_state) (values states) then 0 else 1,
      elim best [ none ↦ 0 | some b ↦ count_active (tally_states (values b) []) (values states) ],
      elim best [ none ↦ 0 | some b ↦ count (is_best b) states ],
    )

unfoldable pub cmp_keys : ℕ × ℕ × ℕ → ℕ × ℕ × ℕ → Ordering
cmp_keys (a, b, c) (x, y, z) = then_with (compare a x) (then_with (compare b y) (compare c z))

unfoldable pub partition_priority :
    ResourceTransitionInput → State → PartitionId → PartitionId → Ordering
unfolding partition_key cmp_keys get
partition_priority resource top_state left right =
    then_with
      (cmp_keys
        (partition_key top_state (get resource.current_state left)
          (get resource.best_possible_state left))
        (partition_key top_state (get resource.current_state right)
          (get resource.best_possible_state right)))
      (string_ord.cmp left right)

-- The derived `Ord` of `Option<usize>`.
unfoldable pub cmp_positions : Option ℕ → Option ℕ → Ordering
cmp_positions none none = eq
cmp_positions none (some y) = lt
cmp_positions (some x) none = gt
cmp_positions (some x) (some y) = compare x y

unfoldable pub state_rank : StateModelDefinition → State → ℕ
unfolding position
state_rank m state = unwrap_or (position (λ s. eqb s state) m.states_by_priority) usize_max

unfoldable pub preference_rank : ResourceTransitionInput → PartitionId → InstanceId → Option ℕ
unfolding get position
preference_rank resource partition replica =
    and_then (get resource.preference_lists partition) (position (λ i. eqb i replica))

unfoldable pub message_priority :
    ResourceTransitionInput
    → StateModelDefinition
    → TransitionRequest
    → TransitionRequest
    → Ordering
unfolding state_rank preference_rank cmp_positions
message_priority resource m left right =
    if not (eqb left.target_state right.target_state)
    then compare (state_rank m left.target_state) (state_rank m right.target_state)
    else then_with
        (cmp_positions (preference_rank resource left.partition left.replica)
          (preference_rank resource right.partition right.replica))
        (string_ord.cmp left.replica right.replica)

unfoldable pub message_pending_priority :
    ResourceTransitionInput
    → StateModelDefinition
    → OperationalPendingTransition
    → OperationalPendingTransition
    → Ordering
unfolding message_priority pending_as_request
message_pending_priority resource m left right =
    message_priority resource m (pending_as_request left) (pending_as_request right)
