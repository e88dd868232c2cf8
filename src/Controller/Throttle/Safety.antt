-- ===== src/Controller/Throttle/Safety.antt =====
-- src/controller/message_throttle.rs: the quotas that a whole call keeps to.
use clustodian.Model.Identity.{InstanceId, ResourceId}
use clustodian.Model.StateModel.{StateModelDefinition}
use clustodian.Controller.Throttle.{
  ResourceTransitionInput, OperationalPendingTransition, IntermediateThrottleResult,
  StateTransitionThrottleConfig,
}
use clustodian.Controller.Throttle.Stage.{compute_intermediate_and_throttle}
use clustodian.Controller.Throttle.Charged.{in_flight, dispatch_within}
use clustodian.Controller.Throttle.Limits.{
  last_limit, limits_cluster, limits_resource, limits_instance,
}
use clustodian.Controller.Throttle.Limits.Starts.{cluster_start, resource_start, instance_start}
use clustodian.Controller.Throttle.Gauges.{cluster_gauge, resource_gauge, instance_gauge}
use clustodian.Base.Logic.{ℕ, ok, ◌-◌, ◌≤◌, ◌≡◌, ◌∙◌, true, none, some, List, map}
use clustodian.Base.Lists.{length, count, contains, count_all}
use clustodian.Base.Ord.{eqb, string_ord, nat_ord, pair_ord}

module _ (resources : List ResourceTransitionInput) (live_instances : List InstanceId)
    (pending : List OperationalPendingTransition) (configs : List StateTransitionThrottleConfig)
    (m : StateModelDefinition) (limit : ℕ) where
  -- Where the last cluster-wide configuration for work of any class sets a limit, a successful
  -- call dispatches no more transitions than the transitions in flight leave of it.
  pub cluster_throttled :
      {out : IntermediateThrottleResult}
      → compute_intermediate_and_throttle resources live_instances pending configs m ≡ ok out
      → last_limit limits_cluster configs none ≡ some limit
      → length out.dispatchable_transitions ≤ limit - in_flight (λ r i. true) resources pending
  unfolding cluster_gauge count
  cluster_throttled {out} h e = rw (← count_all out.dispatchable_transitions) (
      dispatch_within cluster_gauge resources live_instances pending configs m limit h
        (cluster_start resources live_instances configs ∙ e))

  -- The same for one of the resources, with the last configuration for any class that reaches it.
  pub resource_throttled :
      {out : IntermediateThrottleResult} (k : ResourceId)
      → compute_intermediate_and_throttle resources live_instances pending configs m ≡ ok out
      → contains (map (λ r. r.resource) resources) k ≡ true
      → last_limit (limits_resource k) configs none ≡ some limit
      → count (λ t. eqb t.resource k) out.dispatchable_transitions
        ≤ limit - in_flight (λ r i. eqb r k) resources pending
  unfolding resource_gauge
  resource_throttled k h known e =
      dispatch_within (resource_gauge k) resources live_instances pending configs m limit h
        (resource_start resources live_instances configs k known ∙ e)

  -- The same for a live instance, with the last configuration for any class that reaches it.
  pub instance_throttled :
      {out : IntermediateThrottleResult} (k : InstanceId)
      → compute_intermediate_and_throttle resources live_instances pending configs m ≡ ok out
      → contains live_instances k ≡ true
      → last_limit (limits_instance k) configs none ≡ some limit
      → count (λ t. eqb t.replica k) out.dispatchable_transitions
        ≤ limit - in_flight (λ r i. eqb i k) resources pending
  unfolding instance_gauge
  instance_throttled k h live e =
      dispatch_within (instance_gauge k) resources live_instances pending configs m limit h
        (instance_start resources live_instances configs k live ∙ e)
