-- ===== src/Controller/Runtime/Outputs/Cycle.antt =====
-- The parts of a cycle that succeeds.
use clustodian.Model.Identity.{InstanceId, ResourceId, PartitionId}
use clustodian.Model.Replica.{ExternalView, CurrentState, from_current_states}
use clustodian.Model.StateModel.{StateModelDefinition}
use clustodian.Rebalance.Topology.{CrushTopology, CrushInstance, CrushError}
use clustodian.Controller.Throttle.{
  ResourceTransitionInput, StateTransitionThrottleConfig, IntermediateThrottleResult,
}
use clustodian.Controller.Throttle.Stage.{compute_intermediate_and_throttle}
use clustodian.Controller.Runtime.{
  CoordinationSnapshot, PublishedTransition, ReconcileMode, Json, map_err, ResourcePlan,
  expectation_failed, throttle_error,
}
use clustodian.Controller.Runtime.Current.{active_current_state}
use clustodian.Controller.Runtime.Plans.{instance_configs, resource_plans}
use clustodian.Controller.Runtime.Pending.{
  retain_pending, operational_pending_for_plans, is_replacement,
}
use clustodian.Controller.Runtime.Outputs.{
  throttles_for, plan_inputs, compute_outputs_with_pending_policy,
}
use clustodian.Controller.Runtime.Publish.{publish_all, cmp_published, dedup}
use clustodian.Base.Sort.{sort_by}
use clustodian.Base.Logic.{ℕ, Result, >>=-eq-ok, ok-injective, ok, err, String, ◌≡◌, ap, List}
use clustodian.Base.Map.{Map, keys}
use clustodian.Base.Ord.{string_ord, nat_ord, pair_ord}

map_err-ok {ℓ κ μ} :
    {E : Type ℓ} {F : Type κ} {A : Type μ} (f : E → F) (r : Result E A) {a : A}
    → map_err f r ≡ ok a
    → r ≡ ok a
map_err-ok f (ok b) h = ap ok (ok-injective h)
map_err-ok f (err e) h = absurd cc

module _ (json : Json)
    (crush : ResourceId
      → List PartitionId
      → ℕ
      → List CrushInstance
      → List InstanceId
      → CrushTopology
      → Result CrushError (Map PartitionId (List InstanceId)))
    (m : StateModelDefinition) (snapshot : CoordinationSnapshot)
    (pending : List PublishedTransition) (mode : ReconcileMode) where
  pub record Cycle (view : ExternalView) (next : List PublishedTransition) : Type 0 where
    pub configs : Map InstanceId String
    pub actual : Map ResourceId CurrentState
    pub plans : List ResourcePlan
    pub inputs : List ResourceTransitionInput
    pub limits : List StateTransitionThrottleConfig
    pub throttle : IntermediateThrottleResult
    pub actual_ok :
        active_current_state snapshot.participants.active_current_state configs
          (keys snapshot.participants.live_instances)
        ≡ ok actual
    pub limits_ok : throttles_for json snapshot mode ≡ ok limits
    pub throttle_ok :
        compute_intermediate_and_throttle inputs
          (keys snapshot.participants.live_instances)
          (operational_pending_for_plans
            (retain_pending pending snapshot actual plans (is_replacement mode))
            plans
            mode)
          limits
          m
        ≡ ok throttle
    pub view_is : from_current_states actual ≡ view
    pub next_is :
        dedup (
          sort_by cmp_published (
            publish_all snapshot pending 0 throttle.dispatchable_transitions
              (retain_pending pending snapshot actual plans (is_replacement mode))))
        ≡ next

  pub outputs-Cycle :
      {view : ExternalView} {next : List PublishedTransition}
      → compute_outputs_with_pending_policy json crush m snapshot pending mode ≡ ok (view, next)
      → Cycle view next
  unfolding compute_outputs_with_pending_policy
  outputs-Cycle h =
      let live = keys snapshot.participants.live_instances in
      let (configs, _, h1) = >>=-eq-ok (instance_configs json snapshot) _ h in
      let (actual, actual_ok, h2) =
        >>=-eq-ok
          (map_err expectation_failed
            (active_current_state snapshot.participants.active_current_state configs live))
          _ h1 in
      let (plans, _, h3) = >>=-eq-ok (resource_plans json crush snapshot configs live) _ h2 in
      let operational =
        operational_pending_for_plans
          (retain_pending pending snapshot actual plans (is_replacement mode)) plans mode in
      let (inputs, _, h4) = >>=-eq-ok (plan_inputs plans actual live operational m) _ h3 in
      let (limits, limits_ok, h5) = >>=-eq-ok (throttles_for json snapshot mode) _ h4 in
      let (throttle, throttle_ok, h6) =
        >>=-eq-ok
          (map_err throttle_error
            (compute_intermediate_and_throttle inputs live operational limits m))
          _ h5 in
      record {
        configs = configs;
        actual = actual;
        plans = plans;
        inputs = inputs;
        limits = limits;
        throttle = throttle;
        actual_ok = map_err-ok expectation_failed _ actual_ok;
        limits_ok = limits_ok;
        throttle_ok = map_err-ok throttle_error _ throttle_ok;
        view_is = ap (λ p. p.0) (ok-injective h6);
        next_is = ap (λ p. p.1) (ok-injective h6);
      }
