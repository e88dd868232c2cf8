-- ===== src/Controller/Runtime/Outputs.antt =====
-- src/controller/runtime.rs: `compute_outputs_with_pending_policy`, a whole cycle from a snapshot to
-- the external view and the messages that are published next.
pub mod Cycle
pub mod Fenced
pub mod Bounded
use clustodian.Controller.Runtime.Publish.{cmp_published, dedup, publish_all}
use Prim.Native.String.{◌++◌ as append, String}
use Prim.Native.Nat.Ordering.{lt, eq, gt}
use clustodian.Model.Identity.{InstanceId, ResourceId, PartitionId}
use clustodian.Model.Replica.{CurrentState, ExternalView, BestPossibleState, from_current_states}
use clustodian.Model.Session.{LiveInstance}
use clustodian.Model.StateModel.{StateModelDefinition}
use clustodian.Rebalance.Topology.{CrushTopology, CrushInstance, CrushError}
use clustodian.Rebalance.SemiAuto.{SemiAutoError, compute_semi_auto_best_possible_state}
use clustodian.Controller.Generation.{generate_transitions}
use clustodian.Controller.Selection.{select_transitions}
use clustodian.Controller.Throttle.{
  ResourceTransitionInput, OperationalPendingTransition, StateTransitionThrottleConfig,
}
use clustodian.Controller.Throttle.Stage.{compute_intermediate_and_throttle}
use clustodian.Transition.{TransitionRequest}
use clustodian.Controller.Runtime.{
  CoordinationSnapshot, PublishedTransition, ReconcileMode, startup, normal, session_replacement,
  ResourcePlan, ControllerRuntimeError, semi_auto_error, generation_error, selection_error,
  throttle_error, expectation_failed, map_err, Json, same_replica,
}
use clustodian.Controller.Runtime.Current.{normalize_current, active_current_state}
use clustodian.Controller.Runtime.Pending.{
  retain_pending, operational_pending_for_plans, pending_for_resource, is_replacement,
}
use clustodian.Controller.Runtime.Plans.{instance_configs, resource_plans}
use clustodian.Controller.Runtime.Limits.{throttles}
use clustodian.Base.Decimal.{decimal}
use clustodian.Base.Map.{Map, get, insert, keys, contains_key}
use clustodian.Base.Lists.{any, find, is_empty}
use clustodian.Base.Sort.{sort_by}
use clustodian.Base.Ord.{eqb, string_ord, then_with, nat_ord, pair_ord}
use clustodian.Base.Logic.{
  ℕ, if◌then◌else◌, ◌==◌, Result, ◌>>=◌, unwrap_or, ok, ◌+◌, compare, Ordering, Bool, ◌&&◌, Option,
  none, some, List, ◌∷◌, ◌++◌, ◌>>◌, [],
}

-- `preference_lists.entry(partition).or_default()` for every planned partition.
unfoldable pub add_partitions :
    List PartitionId → Map PartitionId (List InstanceId) → Map PartitionId (List InstanceId)
unfolding get insert
add_partitions [] lists = lists
add_partitions (p ∷ rest) lists = add_partitions rest (insert lists p (unwrap_or (get lists p) []))

-- The best possible state of a plan; one without preference lists has none.
unfoldable pub best_of :
    ResourcePlan
    → CurrentState
    → List InstanceId
    → StateModelDefinition
    → Result ControllerRuntimeError BestPossibleState
unfolding compute_semi_auto_best_possible_state
best_of plan planning live m =
    let best =
      map_err semi_auto_error (compute_semi_auto_best_possible_state plan.ideal planning live m) in
    if is_empty plan.ideal.preference_lists then ok [] else best

unfoldable pub resource_transition_input :
    ResourcePlan
    → Map ResourceId CurrentState
    → List InstanceId
    → List OperationalPendingTransition
    → StateModelDefinition
    → Result ControllerRuntimeError ResourceTransitionInput
unfolding normalize_current best_of generate_transitions select_transitions pending_for_resource
    add_partitions get
resource_transition_input plan actual live pending m = do
  planning ←
      map_err expectation_failed
        (normalize_current (unwrap_or (get actual plan.resource) []) plan.ideal live m)
  best ← best_of plan planning live m
  candidates ← map_err generation_error (generate_transitions plan.resource planning best m)
  selected ← map_err selection_error (
      select_transitions plan.resource plan.ideal planning live candidates
        (pending_for_resource plan.resource pending) m)
  ok (record {
    resource = plan.resource;
    replicas = plan.ideal.replicas;
    min_active_replicas = none;
    preference_lists = add_partitions (keys planning) plan.ideal.preference_lists;
    current_state = planning;
    best_possible_state = best;
    selected_transitions = selected;
  })

unfoldable pub plan_inputs :
    List ResourcePlan
    → Map ResourceId CurrentState
    → List InstanceId
    → List OperationalPendingTransition
    → StateModelDefinition
    → Result ControllerRuntimeError (List ResourceTransitionInput)
unfolding resource_transition_input
plan_inputs [] actual live pending m = ok []
plan_inputs (plan ∷ rest) actual live pending m =
    resource_transition_input plan actual live pending m >>= λ input.
    plan_inputs rest actual live pending m >>= λ inputs. ok (input ∷ inputs)

unfoldable pub throttles_for :
    Json
    → CoordinationSnapshot
    → ReconcileMode
    → Result ControllerRuntimeError (List StateTransitionThrottleConfig)
unfolding throttles
throttles_for json snapshot startup = ok []
throttles_for json snapshot normal = throttles json snapshot
throttles_for json snapshot session_replacement = throttles json snapshot

module _ (json : Json)
    (crush : ResourceId
      → List PartitionId
      → ℕ
      → List CrushInstance
      → List InstanceId
      → CrushTopology
      → Result CrushError (Map PartitionId (List InstanceId)))
    (m : StateModelDefinition) where
  -- A whole cycle; `m` is the model of `leader_standby()`.
  unfoldable pub compute_outputs_with_pending_policy :
      CoordinationSnapshot
      → List PublishedTransition
      → ReconcileMode
      → Result ControllerRuntimeError (ExternalView × List PublishedTransition)
  unfolding instance_configs active_current_state resource_plans retain_pending is_replacement
      operational_pending_for_plans plan_inputs throttles_for compute_intermediate_and_throttle
      publish_all sort_by cmp_published dedup from_current_states
  compute_outputs_with_pending_policy snapshot pending mode = do
    let live = keys snapshot.participants.live_instances
    configs ← instance_configs json snapshot
    actual ←
        map_err expectation_failed
          (active_current_state snapshot.participants.active_current_state configs live)
    plans ← resource_plans json crush snapshot configs live
    let retained = retain_pending pending snapshot actual plans (is_replacement mode)
    let operational = operational_pending_for_plans retained plans mode
    inputs ← plan_inputs plans actual live operational m
    limits ← throttles_for json snapshot mode
    throttle ←
        map_err throttle_error (compute_intermediate_and_throttle inputs live operational limits m)
    ok (
      from_current_states actual,
      dedup (
          sort_by cmp_published
            (publish_all snapshot pending 0 throttle.dispatchable_transitions retained)),
    )
