-- ===== src/Controller/Throttle/Limits/Starts.antt =====
-- src/controller/message_throttle.rs: the quotas that a controller starts with.
use clustodian.Model.Identity.{InstanceId, ResourceId}
use clustodian.Controller.Throttle.{
  ThrottleScope, cluster_scope, resource_scope, instance_scope, StateTransitionThrottleConfig,
  ResourceTransitionInput, rebalance_ord, ThrottleTarget, resource_target, instance_target,
}
use clustodian.Controller.Throttle.Quota.{
  ThrottleController, apply_config, apply_configs, new_controller, empty_quotas, target_resource,
  target_instance,
}
use clustodian.Base.Logic.{
  if◌then◌else◌, ◌≡◌, true, Option, some, refl, ◌∙◌, is_some, ap, false, ◌&&◌, none, List, ◌∷◌, [],
  map,
}
use clustodian.Base.Map.{get}
use clustodian.Base.Ord.{eqb, string_ord, nat_ord, pair_ord}
use clustodian.Base.Lists.{contains}
use clustodian.Controller.Throttle.Gauges.{
  any_quota_at, cluster_gauge, resource_gauge, instance_gauge,
}
use clustodian.Controller.Throttle.Limits.{
  and_false, any_quota-apply_configs, any_quota_at-set_for, get-empty_quotas, is_any, last_limit,
  limits_cluster, limits_instance, limits_resource,
}

resource_reached :
    (target : Option ThrottleTarget) (k : ResourceId)
    → (elim (target_resource target) [ none ↦ true | some j ↦ eqb j k ])
      ≡ (elim target [ some (resource_target r) ↦ eqb r k | _ ↦ true ])
unfolding target_resource
resource_reached none k = refl
resource_reached (some (resource_target r)) k = refl
resource_reached (some (instance_target i)) k = refl

instance_reached :
    (target : Option ThrottleTarget) (k : InstanceId)
    → (elim (target_instance target) [ none ↦ true | some j ↦ eqb j k ])
      ≡ (elim target [ some (instance_target i) ↦ eqb i k | _ ↦ true ])
unfolding target_instance
instance_reached none k = refl
instance_reached (some (resource_target r)) k = refl
instance_reached (some (instance_target i)) k = refl

resource-apply_config :
    (scope : ThrottleScope) (config : StateTransitionThrottleConfig) (c : ThrottleController)
    (k : ResourceId)
    → is_some (get c.resources k) ≡ true
    → (is_some (get (apply_config scope config c).resources k) ≡ true)
      × (any_quota_at (apply_config scope config c).resources k ≡ (
          if is_any config.rebalance_type && (elim scope [
            | resource_scope ↦ elim config.target [ some (resource_target r) ↦ eqb r k | _ ↦ true ]
            | _ ↦ false
          ])
          then some config.max_transitions
          else any_quota_at c.resources k))
unfolding apply_config
resource-apply_config cluster_scope config c k h =
    (h, rw (and_false (is_any config.rebalance_type)) refl)
resource-apply_config resource_scope config c k h =
    rw (← resource_reached config.target k)
      (any_quota_at-set_for config (target_resource config.target) c.resources k h)
resource-apply_config instance_scope config c k h =
    (h, rw (and_false (is_any config.rebalance_type)) refl)

resource-apply_configs :
    (configs : List StateTransitionThrottleConfig) (c : ThrottleController) (k : ResourceId)
    → is_some (get c.resources k) ≡ true
    → any_quota_at (apply_configs configs c).resources k
      ≡ last_limit (limits_resource k) configs (any_quota_at c.resources k)
unfolding apply_configs
resource-apply_configs [] c k h = refl
resource-apply_configs (config ∷ configs) c k h =
    let step = resource-apply_config config.scope config c k h in
    resource-apply_configs configs (apply_config config.scope config c) k step.0
    ∙ ap (last_limit (limits_resource k) configs) step.1

instance-apply_config :
    (scope : ThrottleScope) (config : StateTransitionThrottleConfig) (c : ThrottleController)
    (k : InstanceId)
    → is_some (get c.instances k) ≡ true
    → (is_some (get (apply_config scope config c).instances k) ≡ true)
      × (any_quota_at (apply_config scope config c).instances k ≡ (
          if is_any config.rebalance_type && (elim scope [
            | instance_scope ↦ elim config.target [ some (instance_target i) ↦ eqb i k | _ ↦ true ]
            | _ ↦ false
          ])
          then some config.max_transitions
          else any_quota_at c.instances k))
unfolding apply_config
instance-apply_config cluster_scope config c k h =
    (h, rw (and_false (is_any config.rebalance_type)) refl)
instance-apply_config resource_scope config c k h =
    (h, rw (and_false (is_any config.rebalance_type)) refl)
instance-apply_config instance_scope config c k h =
    rw (← instance_reached config.target k)
      (any_quota_at-set_for config (target_instance config.target) c.instances k h)

instance-apply_configs :
    (configs : List StateTransitionThrottleConfig) (c : ThrottleController) (k : InstanceId)
    → is_some (get c.instances k) ≡ true
    → any_quota_at (apply_configs configs c).instances k
      ≡ last_limit (limits_instance k) configs (any_quota_at c.instances k)
unfolding apply_configs
instance-apply_configs [] c k h = refl
instance-apply_configs (config ∷ configs) c k h =
    let step = instance-apply_config config.scope config c k h in
    instance-apply_configs configs (apply_config config.scope config c) k step.0
    ∙ ap (last_limit (limits_instance k) configs) step.1

start_at :
    (ks : List ResourceId) (k : ResourceId)
    → contains ks k ≡ true
    → get (empty_quotas ks []) k ≡ some []
unfolding get
start_at ks k h = get-empty_quotas ks [] k ∙ rw h refl

-- The quotas with which a call starts are the limits of the last configurations that apply.
pub cluster_start :
    (resources : List ResourceTransitionInput) (live_instances : List InstanceId)
    (configs : List StateTransitionThrottleConfig)
    → cluster_gauge.read (new_controller resources live_instances configs)
      ≡ last_limit limits_cluster configs none
unfolding new_controller cluster_gauge get
cluster_start resources live_instances configs = any_quota-apply_configs configs _

pub resource_start :
    (resources : List ResourceTransitionInput) (live_instances : List InstanceId)
    (configs : List StateTransitionThrottleConfig) (k : ResourceId)
    → contains (map (λ r. r.resource) resources) k ≡ true
    → (resource_gauge k).read (new_controller resources live_instances configs)
      ≡ last_limit (limits_resource k) configs none
unfolding new_controller resource_gauge get
resource_start resources live_instances configs k h =
    let start = start_at (map (λ r. r.resource) resources) k h in
    resource-apply_configs configs _ k (rw start refl)
    ∙ ap (last_limit (limits_resource k) configs) (rw start refl)

pub instance_start :
    (resources : List ResourceTransitionInput) (live_instances : List InstanceId)
    (configs : List StateTransitionThrottleConfig) (k : InstanceId)
    → contains live_instances k ≡ true
    → (instance_gauge k).read (new_controller resources live_instances configs)
      ≡ last_limit (limits_instance k) configs none
unfolding new_controller instance_gauge get
instance_start resources live_instances configs k h =
    let start = start_at live_instances k h in
    instance-apply_configs configs _ k (rw start refl)
    ∙ ap (last_limit (limits_instance k) configs) (rw start refl)
