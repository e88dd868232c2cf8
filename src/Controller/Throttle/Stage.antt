-- ===== src/Controller/Throttle/Stage.antt =====
-- src/controller/message_throttle.rs: `compute_intermediate_and_throttle` and the loops that it is
-- made of.
use clustodian.Model.Identity.{InstanceId, PartitionId, ResourceId}
use clustodian.Model.State.{State, is_dropped}
use clustodian.Model.Replica.{ReplicaStates}
use clustodian.Model.StateModel.{StateModelDefinition, highest_priority_state}
use clustodian.Controller.Throttle.{
  ResourceTransitionInput, OperationalPendingTransition, StateTransitionThrottleConfig,
  IntermediateThrottleError, IntermediateThrottleResult, pending_as_request,
}
use clustodian.Controller.Throttle.Quota.{
  ThrottleController, should_throttle, charge, new_controller,
}
use clustodian.Controller.Throttle.Required.{required_states, rebalance_type}
use clustodian.Controller.Throttle.Priority.{partition_priority, message_priority}
use clustodian.Transition.{TransitionRequest}
use clustodian.Base.Ord.{string_ord, pair_ord, eqb, nat_ord}
use clustodian.Base.Map.{get, insert, remove, Map, keys, modify}
use clustodian.Base.Lists.{any, find, filter}
use clustodian.Base.Sort.{sort_by}
use clustodian.Base.Logic.{
  if◌then◌else◌, Result, ◌>>=◌, ◌>>◌, unwrap_or, ok, ℕ, Bool, ◌&&◌, Option, List, ◌∷◌, ◌++◌, map,
  [],
}
use clustodian.Base.Group.{group_by}
use clustodian.Controller.Throttle.Checks.{
  is_in_state, index_resources, validate_selected, check_known, file_pending,
}
use clustodian.Controller.Throttle.Charging.{charge_all}

unfoldable pub is_pending_match : TransitionRequest → OperationalPendingTransition → Bool
is_pending_match t candidate =
    eqb candidate.partition t.partition
    && eqb candidate.replica t.replica
    && eqb candidate.source_state t.source_state
    && eqb candidate.target_state t.target_state

unfoldable pub pending_by_resource_matches :
    List OperationalPendingTransition → TransitionRequest → Bool
unfolding is_pending_match any
pending_by_resource_matches pending t = any (is_pending_match t) pending

-- `entry(partition).or_default().insert(instance, state)`.
unfoldable pub put_derived : ReplicaStates → PartitionId → InstanceId → State → ReplicaStates
unfolding insert get
put_derived states partition replica state =
    insert states partition (insert (unwrap_or (get states partition) []) replica state)

-- The mutable locals of the main loop.
pub record Dispatching : Type 0 where
  pub derived : ReplicaStates
  pub controller : ThrottleController
  pub dispatchable : List TransitionRequest

-- The body of the loop over the messages of a partition.
unfoldable pub dispatch_one :
    ResourceTransitionInput
    → List OperationalPendingTransition
    → Map State ℕ
    → TransitionRequest
    → Dispatching
    → Dispatching
unfolding pending_by_resource_matches rebalance_type should_throttle charge put_derived
dispatch_one resource pending required t d =
    let class = rebalance_type required d.derived t.partition t.target_state in
    if pending_by_resource_matches pending t
    then d
    else if should_throttle d.controller class resource.resource t.replica
    then d
    else record {
      derived = put_derived d.derived t.partition t.replica t.target_state;
      controller = charge class resource.resource t.replica d.controller;
      dispatchable = d.dispatchable ++ t ∷ [];
    }

unfoldable pub dispatch_each :
    ResourceTransitionInput
    → List OperationalPendingTransition
    → Map State ℕ
    → List TransitionRequest
    → Dispatching
    → Dispatching
unfolding dispatch_one
dispatch_each resource pending required [] d = d
dispatch_each resource pending required (t ∷ rest) d =
    dispatch_each resource pending required rest (dispatch_one resource pending required t d)

unfoldable pub dispatch_partitions :
    ResourceTransitionInput
    → List OperationalPendingTransition
    → List InstanceId
    → StateModelDefinition
    → Map PartitionId (List TransitionRequest)
    → List PartitionId
    → Dispatching
    → Dispatching
unfolding dispatch_each required_states sort_by message_priority get
dispatch_partitions resource pending live_instances m groups [] d = d
dispatch_partitions resource pending live_instances m groups (p ∷ rest) d =
    dispatch_partitions resource pending live_instances m groups rest (
      dispatch_each resource pending (required_states resource p live_instances m)
        (sort_by (message_priority resource m) (unwrap_or (get groups p) [])) d)

-- What a finished transition leaves: the dropped state takes the replica out.
unfoldable pub apply_transition : Option State → TransitionRequest → ReplicaStates → ReplicaStates
unfolding is_in_state put_derived modify
apply_transition dropped t states =
    if is_in_state dropped t.target_state
    then modify (λ instances. remove instances t.replica) states t.partition
    else put_derived states t.partition t.replica t.target_state

unfoldable pub apply_transitions :
    Option State → List TransitionRequest → ReplicaStates → ReplicaStates
unfolding apply_transition
apply_transitions dropped [] states = states
apply_transitions dropped (t ∷ rest) states =
    apply_transitions dropped rest (apply_transition dropped t states)

unfoldable pub apply_pending :
    Option State → List OperationalPendingTransition → ReplicaStates → ReplicaStates
unfolding apply_transitions pending_as_request
apply_pending dropped pending states =
    apply_transitions dropped (map pending_as_request pending) states

-- The derived equality of requests.
unfoldable pub same_request : TransitionRequest → TransitionRequest → Bool
same_request a b =
    eqb a.resource b.resource
    && eqb a.partition b.partition
    && eqb a.replica b.replica
    && eqb a.source_state b.source_state
    && eqb a.target_state b.target_state

-- The result of the main loop's body for a resource with selected transitions.
unfoldable pub dispatch_resource :
    ResourceTransitionInput
    → List OperationalPendingTransition
    → List InstanceId
    → StateModelDefinition
    → ThrottleController
    → List TransitionRequest
    → Dispatching
unfolding dispatch_partitions group_by sort_by partition_priority highest_priority_state
    apply_pending filter any same_request apply_transitions find
dispatch_resource resource pending live_instances m c dispatched =
    let groups = group_by (λ t. t.partition) [] resource.selected_transitions in
    let start : Dispatching = record {
      derived = resource.current_state;
      controller = c;
      dispatchable = dispatched;
    } in
    let d =
      dispatch_partitions resource pending live_instances m groups
        (sort_by (partition_priority resource (highest_priority_state m)) (keys groups)) start in
    let dropped = find is_dropped m.states_by_priority in
    record {
      derived =
          apply_transitions dropped
            (filter (λ t. any (same_request t) d.dispatchable) resource.selected_transitions)
            (apply_pending dropped pending d.derived);
      controller = d.controller;
      dispatchable = d.dispatchable;
    }

-- The main loop, with the intermediate states and the dispatched transitions so far.
unfoldable pub dispatch_all :
    Map ResourceId (List OperationalPendingTransition)
    → List InstanceId
    → StateModelDefinition
    → Map ResourceId ReplicaStates
    → ThrottleController
    → List TransitionRequest
    → List ResourceTransitionInput
    → Result IntermediateThrottleError IntermediateThrottleResult
unfolding dispatch_resource validate_selected get insert
dispatch_all groups live_instances m intermediate c dispatched [] =
    ok (record { intermediate_state = intermediate; dispatchable_transitions = dispatched })
dispatch_all groups live_instances m intermediate c dispatched (r ∷ rest) =
    validate_selected r m r.selected_transitions >> elim r.selected_transitions [
      | [] ↦
          dispatch_all groups live_instances m
            (insert intermediate r.resource r.best_possible_state) c dispatched rest
      | _ ∷ _ ↦
          (let d =
              dispatch_resource r (unwrap_or (get groups r.resource) []) live_instances m c
                dispatched in
            dispatch_all groups live_instances m (insert intermediate r.resource d.derived)
              d.controller d.dispatchable rest)
    ]

unfoldable pub compute_intermediate_and_throttle :
    List ResourceTransitionInput
    → List InstanceId
    → List OperationalPendingTransition
    → List StateTransitionThrottleConfig
    → StateModelDefinition
    → Result IntermediateThrottleError IntermediateThrottleResult
unfolding index_resources check_known file_pending charge_all dispatch_all new_controller
compute_intermediate_and_throttle resources live_instances pending configs m =
    index_resources [] resources >>= λ known.
    check_known known pending >> file_pending [] [] pending >>= λ groups.
    let c =
      charge_all groups live_instances m resources
        (new_controller resources live_instances configs) in
    dispatch_all groups live_instances m [] c [] resources
