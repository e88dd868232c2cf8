-- ===== src/Rebalance/SemiAuto.antt =====
-- src/rebalance/semi_auto.rs: the best possible state of an explicit placement.
pub mod Put
pub mod Placement
pub mod Filled
pub mod Quotas
pub mod Placed
pub mod Partitions
pub mod Total
pub mod Order
use clustodian.Rebalance.SemiAuto.Order.{
  adjust_instance_if_necessary, current_state_priority, is_second_top_state, sort_by_key,
  state_count,
}
use clustodian.Model.Identity.{InstanceId, PartitionId}
use clustodian.Model.State.{State, StateCardinality, exact, replica_count, node_count, unbounded}
use clustodian.Model.Replica.{
  CurrentState, BestPossibleState, ReplicaStates, ReplicaStateError, set_state,
}
use clustodian.Model.Ideal.{IdealState, preference_list}
use clustodian.Model.StateModel.{
  StateModelDefinition, next_state_toward, cardinality_for, highest_priority_state,
}
use clustodian.Base.Logic.{
  if◌then◌else◌, leb, ltb, usize_max, Result, ◌>>=◌, is_some, and_then, unwrap_or, ok, err, ℕ, zero,
  suc, ◌-◌, Bool, true, false, not, ◌&&◌, Option, none, some, List, ◌∷◌, [], ◌>>◌,
}
use clustodian.Base.Lists.{length, any, filter, position, count, contains}
use clustodian.Base.Map.{Map, keys, get}
use clustodian.Base.Ord.{eqb, string_ord, nat_ord, pair_ord}
use clustodian.Base.Set.{add}

-- `SemiAutoError` wraps the one error that `set_state` has.
pub data SemiAutoError : Type 0 where
  replica_state : ReplicaStateError → SemiAutoError

-- `output.set_state(..)?`.
pub put_state :
    ReplicaStates → PartitionId → InstanceId → State → Result SemiAutoError ReplicaStates
unfolding set_state
put_state output partition replica state = elim (set_state output partition replica state) [
  | ok output' ↦ ok output'
  | err e ↦ err (replica_state e)
]

-- What the loops over one partition change, the queue apart.
pub record Filling : Type 0 where
  pub current_priority : List InstanceId
  pub assigned : List InstanceId
  pub output : ReplicaStates

-- What stays fixed while one state of one partition is assigned.
pub record Target : Type 0 where
  pub partition : PartitionId
  pub current : Option (Map InstanceId State)
  pub candidate_count : ℕ
  pub requested : State
  pub model : StateModelDefinition

-- The choice that the loop makes for the instance at the front of the queue.
pub propose : Target → ℕ → InstanceId → Filling → InstanceId × List InstanceId
unfolding adjust_instance_if_necessary is_second_top_state highest_priority_state
propose t count peek f =
    let state = unwrap_or (and_then t.current (λ states. get states peek)) t.model.initial_state in
    adjust_instance_if_necessary peek f.assigned (t.candidate_count - length f.assigned) count
      (eqb t.requested (highest_priority_state t.model))
      (not (eqb state t.requested) && not (is_second_top_state state t.model)) f.current_priority

-- The assignment of one instance, after the choice.
pub assign : Target → InstanceId × List InstanceId → Filling → Result SemiAutoError Filling
unfolding put_state
assign t (proposed, priority) f = do
  output ← put_state f.output t.partition proposed t.requested
  ok (record { current_priority = priority; assigned = add f.assigned proposed; output = output })

-- The `while` loop: it drops the front of the queue, or counts one assignment.
pub fill_state :
    Target → ℕ → List InstanceId → Filling → Result SemiAutoError (List InstanceId × Filling)
unfolding propose assign
fill_state t zero queue f = ok (queue, f)
fill_state t (suc count) [] f = ok ([], f)
fill_state t (suc count) (peek ∷ queue) f = elim (contains f.assigned peek) [
  | true ↦ fill_state t (suc count) queue f
  | false ↦
      let choice = propose t (suc count) peek f in
      (assign t choice f >>= λ f'. elim (eqb choice.0 peek) [
        | true ↦ fill_state t count queue f'
        | false ↦ fill_state t count (peek ∷ queue) f'
      ])
]

-- The loop over the states in priority order.
pub fill_states :
    PartitionId
    → Option (Map InstanceId State)
    → ℕ
    → ℕ
    → StateModelDefinition
    → List State
    → List InstanceId
    → Filling
    → Result SemiAutoError Filling
unfolding fill_state state_count cardinality_for
fill_states partition current candidates preferences m [] queue f = ok f
fill_states partition current candidates preferences m (s ∷ rest) queue f =
    fill_state
      (record {
        partition = partition;
        current = current;
        candidate_count = candidates;
        requested = s;
        model = m;
      })
      (state_count (cardinality_for m s) candidates preferences) queue f
    >>= λ r. fill_states partition current candidates preferences m rest r.0 r.1

-- The replicas of a partition that its preference list has left: `keep` is that test.
pub drop_replicas :
    (InstanceId → Bool)
    → PartitionId
    → List InstanceId
    → ReplicaStates
    → Result SemiAutoError ReplicaStates
unfolding put_state
drop_replicas keep partition [] output = ok output
drop_replicas keep partition (i ∷ rest) output =
    (if keep i then ok output else put_state output partition i "DROPPED")
    >>= drop_replicas keep partition rest

-- The body of the loop over the ideal state's partitions.
pub place_partition :
    CurrentState
    → List InstanceId
    → StateModelDefinition
    → PartitionId
    → List InstanceId
    → ReplicaStates
    → Result SemiAutoError ReplicaStates
unfolding drop_replicas fill_states sort_by_key current_state_priority
place_partition current live m partition preferences output = do
  let states = get current partition
  output' ← drop_replicas (contains preferences) partition (keys (unwrap_or states [])) output
  let active = filter (contains live) preferences
  f ←
      fill_states partition states (length active) (length preferences) m m.states_by_priority
        active
        (record {
          current_priority = sort_by_key (current_state_priority states m) active;
          assigned = [];
          output = output';
        })
  ok f.output

pub place_partitions :
    CurrentState
    → List InstanceId
    → StateModelDefinition
    → Map PartitionId (List InstanceId)
    → ReplicaStates
    → Result SemiAutoError ReplicaStates
unfolding place_partition
place_partitions current live m [] output = ok output
place_partitions current live m ((partition, preferences) ∷ rest) output =
    place_partition current live m partition preferences output
    >>= place_partitions current live m rest

-- The last loop: every replica of a partition that the ideal state no longer has is dropped.
pub drop_partitions :
    IdealState
    → Map PartitionId (Map InstanceId State)
    → ReplicaStates
    → Result SemiAutoError ReplicaStates
unfolding drop_replicas preference_list
drop_partitions ideal [] output = ok output
drop_partitions ideal ((partition, current) ∷ rest) output =
    (if is_some (preference_list ideal partition)
      then ok output
      else drop_replicas (λ i. false) partition (keys current) output)
    >>= drop_partitions ideal rest

unfoldable pub compute_semi_auto_best_possible_state :
    IdealState
    → CurrentState
    → List InstanceId
    → StateModelDefinition
    → Result SemiAutoError BestPossibleState
unfolding place_partitions drop_partitions
compute_semi_auto_best_possible_state ideal current live m =
    place_partitions current live m ideal.preference_lists [] >>= drop_partitions ideal current
