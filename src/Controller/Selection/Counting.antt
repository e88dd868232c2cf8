-- ===== src/Controller/Selection/Counting.antt =====
-- src/controller/message_selection.rs: the bounds of the states, what stands in each state, and the\npriority of a candidate.
use clustodian.Model.Identity.{InstanceId, PartitionId}
use clustodian.Model.State.{
  State, StateCardinality, Transition, exact, replica_count, node_count, unbounded,
}
use clustodian.Model.Replica.{CurrentState, get_state}
use clustodian.Model.StateModel.{StateModelDefinition, cardinality_for}
use clustodian.Transition.{TransitionRequest, PendingTransition}
use clustodian.Base.Logic.{
  if◌then◌else◌, unwrap_or, ℕ, ◌+◌, Bool, ◌&&◌, Option, none, some, List, ◌∷◌, usize_max, [],
}
use clustodian.Base.Lists.{position}
use clustodian.Base.Map.{Map, get, insert, contains_key, push_at}
use clustodian.Base.Ord.{eqb, string_ord, nat_ord, pair_ord}

-- The bound of one state: `R` and `-1` constrain nothing here.
unfoldable pub bound_of : Option StateCardinality → ℕ → Option ℕ
bound_of none live = none
bound_of (some (exact n)) live = some n
bound_of (some node_count) live = some live
bound_of (some replica_count) live = none
bound_of (some unbounded) live = none

unfoldable pub collect_bounds : StateModelDefinition → ℕ → Map State ℕ → List State → Map State ℕ
unfolding bound_of cardinality_for
collect_bounds m live bounds [] = bounds
collect_bounds m live bounds (s ∷ rest) =
    collect_bounds m live
      (elim (bound_of (cardinality_for m s) live) [ none ↦ bounds | some b ↦ insert bounds s b ])
      rest

unfoldable pub state_bounds : StateModelDefinition → ℕ → Map State ℕ
unfolding collect_bounds
state_bounds m live = collect_bounds m live [] m.states_by_priority

unfoldable pub increase_state_count : Map State ℕ → State → Map State ℕ → Map State ℕ
increase_state_count bounds state counts =
    if contains_key bounds state
    then insert counts state (unwrap_or (get counts state) 0 + 1)
    else counts

-- The live replicas of a partition, each in its current state or the initial one.
unfoldable pub count_live :
    Map State ℕ
    → CurrentState
    → StateModelDefinition
    → PartitionId
    → Map State ℕ
    → List InstanceId
    → Map State ℕ
unfolding increase_state_count get_state
count_live bounds current m partition counts [] = counts
count_live bounds current m partition counts (i ∷ rest) =
    count_live bounds current m partition
      (increase_state_count bounds (unwrap_or (get_state current partition i) m.initial_state)
        counts)
      rest

-- The transitions in flight count at both ends.
unfoldable pub count_pending : Map State ℕ → Map State ℕ → List PendingTransition → Map State ℕ
unfolding increase_state_count
count_pending bounds counts [] = counts
count_pending bounds counts (t ∷ rest) =
    count_pending bounds
      (increase_state_count bounds t.source_state
        (increase_state_count bounds t.target_state counts))
      rest

unfoldable pub same_transition : TransitionRequest → Transition → Bool
same_transition c t = eqb t.source c.source_state && eqb t.target c.target_state

pub priority_of : StateModelDefinition → TransitionRequest → ℕ
unfolding same_transition
priority_of m c = unwrap_or (position (same_transition c) m.transitions_by_priority) usize_max

-- The candidates of a partition under their priorities.
unfoldable pub group_priorities :
    StateModelDefinition
    → Map ℕ (List TransitionRequest)
    → List TransitionRequest
    → Map ℕ (List TransitionRequest)
unfolding priority_of push_at
group_priorities m groups [] = groups
group_priorities m groups (c ∷ rest) = group_priorities m (push_at groups (priority_of m c) c) rest
