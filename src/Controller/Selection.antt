-- ===== src/Controller/Selection.antt =====
-- src/controller/message_selection.rs: the transitions that fit the bounds of the state model.
pub mod Counts
pub mod Greedy
pub mod Grouping
pub mod Bounds
pub mod Safety
pub mod Counting
use clustodian.Controller.Selection.Counting.{
  count_live, count_pending, group_priorities, increase_state_count, state_bounds,
}
use clustodian.Model.Identity.{InstanceId, PartitionId, ResourceId}
use clustodian.Model.State.{
  State, StateCardinality, Transition, exact, replica_count, node_count, unbounded, is_dropped,
}
use clustodian.Model.Replica.{CurrentState, get_state}
use clustodian.Model.Ideal.{IdealState, preference_list}
use clustodian.Model.StateModel.{StateModelDefinition, next_state_toward, cardinality_for}
use clustodian.Transition.{TransitionRequest, PendingTransition}
use clustodian.Base.Logic.{
  if◌then◌else◌, ltb, Result, is_some, unwrap_or, ok, err, ℕ, ◌+◌, Bool, false, not, ◌&&◌, Option,
  none, some, List, ◌∷◌, ◌++◌, ◌>>=◌, usize_max, [], ◌>>◌,
}
use clustodian.Base.Lists.{length, find, position, contains}
use clustodian.Base.Map.{Map, keys, get, insert, contains_key, push_at}
use clustodian.Base.Ord.{eqb, string_ord, nat_ord, pair_ord}
use clustodian.Base.Set.{add, extend, collect}

pub data MessageSelectionError : Type 0 where
  candidate_resource_mismatch : ResourceId → ResourceId → MessageSelectionError
  unknown_candidate_partition unknown_pending_partition : PartitionId → MessageSelectionError
  duplicate_pending_transition : PartitionId → InstanceId → MessageSelectionError

-- `option == Some(state)`.
pub is_state : Option State → State → Bool
is_state none state = false
is_state (some s) state = eqb s state

unfoldable pub is_drop_path :
    PartitionId → State → State → CurrentState → StateModelDefinition → Bool
unfolding is_state next_state_toward contains_key
is_drop_path partition source target current m = elim (find is_dropped m.states_by_priority) [
  | none ↦ false
  | some dropped ↦
      contains_key current partition && is_state (next_state_toward m source dropped) target
]

-- The first loop: checks the candidates and files them under their partitions.
pub group_candidates :
    ResourceId
    → IdealState
    → CurrentState
    → StateModelDefinition
    → Map PartitionId (List TransitionRequest)
    → List TransitionRequest
    → Result MessageSelectionError (Map PartitionId (List TransitionRequest))
unfolding is_drop_path preference_list push_at
group_candidates resource ideal current m groups [] = ok groups
group_candidates resource ideal current m groups (c ∷ rest) =
    if not (eqb c.resource resource)
    then err (candidate_resource_mismatch resource c.resource)
    else if not (is_some (preference_list ideal c.partition))
        && not (is_drop_path c.partition c.source_state c.target_state current m)
    then err (unknown_candidate_partition c.partition)
    else group_candidates resource ideal current m (push_at groups c.partition c) rest

-- The second loop: checks the pending transitions, with the set of keys seen.
pub group_pending :
    IdealState
    → CurrentState
    → StateModelDefinition
    → List (PartitionId × InstanceId)
    → Map PartitionId (List PendingTransition)
    → List PendingTransition
    → Result MessageSelectionError (Map PartitionId (List PendingTransition))
unfolding is_drop_path preference_list push_at
group_pending ideal current m seen groups [] = ok groups
group_pending ideal current m seen groups (t ∷ rest) =
    if not (is_some (preference_list ideal t.partition))
      && not (is_drop_path t.partition t.source_state t.target_state current m)
    then err (unknown_pending_partition t.partition)
    else if contains seen (t.partition, t.replica)
    then err (duplicate_pending_transition t.partition t.replica)
    else group_pending ideal current m (add seen (t.partition, t.replica))
        (push_at groups t.partition t) rest

pub record Selecting : Type 0 where
  pub state_counts : Map State ℕ
  pub selected : List TransitionRequest

-- Whether a bound leaves no room for one more replica in the state.
pub is_full : Map State ℕ → Map State ℕ → State → Bool
is_full bounds counts state = elim (get bounds state) [
  | none ↦ false
  | some upper ↦ ltb upper (unwrap_or (get counts state) 0 + 1)
]

-- One candidate: it is passed over, or it is counted and selected.
pub select_one : Map State ℕ → Selecting → TransitionRequest → Selecting
unfolding is_full increase_state_count
select_one bounds s c = if is_full bounds s.state_counts c.target_state then s else record {
  state_counts = increase_state_count bounds c.target_state s.state_counts;
  selected = s.selected ++ c ∷ [];
}

pub select_group : Map State ℕ → Selecting → List TransitionRequest → Selecting
unfolding select_one
select_group bounds s [] = s
select_group bounds s (c ∷ rest) = select_group bounds (select_one bounds s c) rest

pub select_groups : Map State ℕ → Selecting → Map ℕ (List TransitionRequest) → Selecting
unfolding select_group
select_groups bounds s [] = s
select_groups bounds s ((priority, group) ∷ rest) =
    select_groups bounds (select_group bounds s group) rest

-- What the loop selects for one partition, given its candidates.
pub select_partition :
    Map State ℕ
    → CurrentState
    → List InstanceId
    → StateModelDefinition
    → Map PartitionId (List PendingTransition)
    → PartitionId
    → List TransitionRequest
    → List TransitionRequest
unfolding count_live count_pending group_priorities select_groups
select_partition bounds current live m pending partition candidates =
    let live_counts = count_live bounds current m partition [] live in
    let counts = count_pending bounds live_counts (unwrap_or (get pending partition) []) in
    (select_groups bounds (record { state_counts = counts; selected = [] })
      (group_priorities m [] candidates)).selected

-- The body of the loop over the partitions: one without candidates is passed over.
pub select_at :
    Map State ℕ
    → CurrentState
    → List InstanceId
    → StateModelDefinition
    → Map PartitionId (List PendingTransition)
    → Map PartitionId (List TransitionRequest)
    → PartitionId
    → List TransitionRequest
unfolding select_partition
select_at bounds current live m pending candidates p = elim (get candidates p) [
  | none ↦ []
  | some group ↦ select_partition bounds current live m pending p group
]

pub select_partitions :
    Map State ℕ
    → CurrentState
    → List InstanceId
    → StateModelDefinition
    → Map PartitionId (List PendingTransition)
    → Map PartitionId (List TransitionRequest)
    → List PartitionId
    → List TransitionRequest
unfolding select_at
select_partitions bounds current live m pending candidates [] = []
select_partitions bounds current live m pending candidates (p ∷ rest) =
    select_at bounds current live m pending candidates p
    ++ select_partitions bounds current live m pending candidates rest

unfoldable pub select_transitions :
    ResourceId
    → IdealState
    → CurrentState
    → List InstanceId
    → List TransitionRequest
    → List PendingTransition
    → StateModelDefinition
    → Result MessageSelectionError (List TransitionRequest)
unfolding group_candidates group_pending state_bounds select_partitions collect extend
select_transitions resource ideal current live candidates pending m = do
  candidates_by_partition ← group_candidates resource ideal current m [] candidates
  pending_by_partition ← group_pending ideal current m [] [] pending
  let bounds = state_bounds m (length live)
  let partitions = extend (collect (keys ideal.preference_lists)) (keys candidates_by_partition)
  ok (
      select_partitions bounds current live m pending_by_partition candidates_by_partition
        partitions)
