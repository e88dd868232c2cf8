-- ===== src/Controller/Throttle/Quota.antt =====
-- src/controller/message_throttle.rs: `ThrottleController`, the quotas that are left.
use clustodian.Model.Identity.{InstanceId, ResourceId}
use clustodian.Controller.Throttle.{
  RebalanceType, ThrottleTarget, ResourceTransitionInput, StateTransitionThrottleConfig,
  ThrottleScope, any_balance, resource_target, cluster_scope, instance_target, resource_scope,
  instance_scope, rebalance_ord,
}
use clustodian.Base.Ord.{eqb, Ord, string_ord, nat_ord, pair_ord}
use clustodian.Base.Map.{get, insert, modify, modify_all, Map}
use clustodian.Base.Logic.{
  ℕ, map, if◌then◌else◌, ◌==◌, unwrap_or, ◌-◌, Bool, false, ◌||◌, Option, none, some, List, ◌∷◌, [],
}

abbrev pub Quotas : Type 0
Quotas = Map RebalanceType ℕ

pub record ThrottleController : Type 0 where
  pub cluster : Quotas
  pub resources : Map ResourceId Quotas
  pub instances : Map InstanceId Quotas

-- `*value == 0` on a quota that may be missing.
unfoldable pub is_zero : Option ℕ → Bool
is_zero none = false
is_zero (some n) = n == 0

unfoldable pub quota_exhausted : Quotas → RebalanceType → Bool
unfolding is_zero
quota_exhausted quota ty = is_zero (get quota any_balance) || is_zero (get quota ty)

-- `saturating_sub(1)`.
unfoldable pub charge_quota : RebalanceType → Quotas → Quotas
charge_quota ty quota =
    let charged = modify (λ n. n - 1) quota any_balance in
    if eqb ty any_balance then charged else modify (λ n. n - 1) charged ty

-- `is_some_and(|quota| quota_exhausted(quota, ..))`.
unfoldable pub exhausted : RebalanceType → Option Quotas → Bool
exhausted ty none = false
exhausted ty (some quota) = quota_exhausted quota ty

unfoldable pub should_throttle : ThrottleController → RebalanceType → ResourceId → InstanceId → Bool
unfolding exhausted
should_throttle c ty resource replica =
    quota_exhausted c.cluster ty
    || exhausted ty (get c.resources resource)
    || exhausted ty (get c.instances replica)

unfoldable pub charge :
    RebalanceType → ResourceId → InstanceId → ThrottleController → ThrottleController
unfolding charge_quota
charge ty resource replica c = record {
  cluster = charge_quota ty c.cluster;
  resources = modify (charge_quota ty) c.resources resource;
  instances = modify (charge_quota ty) c.instances replica;
}

-- The first two loops: `entry(k).or_default()`, so every resource and every live instance has
-- quotas, none of them set.
unfoldable pub empty_quotas {ℓ} : {K : Type ℓ} ⦃o : Ord K⦄ → List K → Map K Quotas → Map K Quotas
unfolding get insert
empty_quotas [] quotas = quotas
empty_quotas (k ∷ rest) quotas = empty_quotas rest (insert quotas k (unwrap_or (get quotas k) []))

unfoldable pub set_quota : StateTransitionThrottleConfig → Quotas → Quotas
unfolding insert
set_quota config quotas = insert quotas config.rebalance_type config.max_transitions

unfoldable pub target_resource : Option ThrottleTarget → Option ResourceId
target_resource none = none
target_resource (some (resource_target resource)) = some resource
target_resource (some (instance_target replica)) = none

unfoldable pub target_instance : Option ThrottleTarget → Option InstanceId
target_instance none = none
target_instance (some (resource_target resource)) = none
target_instance (some (instance_target replica)) = some replica

-- A target narrows the configuration to one key; without one of the scope's kind it reaches all.
unfoldable pub set_for {ℓ} :
    {K : Type ℓ} ⦃o : Ord K⦄
    → StateTransitionThrottleConfig
    → Option K
    → Map K Quotas
    → Map K Quotas
unfolding set_quota modify
set_for config none quotas = modify_all (set_quota config) quotas
set_for config (some k) quotas = modify (set_quota config) quotas k

unfoldable pub apply_config :
    ThrottleScope → StateTransitionThrottleConfig → ThrottleController → ThrottleController
unfolding set_quota set_for target_resource target_instance
apply_config cluster_scope config c = record {
  cluster = set_quota config c.cluster;
  resources = c.resources;
  instances = c.instances;
}
apply_config resource_scope config c = record {
  cluster = c.cluster;
  resources = set_for config (target_resource config.target) c.resources;
  instances = c.instances;
}
apply_config instance_scope config c = record {
  cluster = c.cluster;
  resources = c.resources;
  instances = set_for config (target_instance config.target) c.instances;
}

unfoldable pub apply_configs :
    List StateTransitionThrottleConfig → ThrottleController → ThrottleController
unfolding apply_config
apply_configs [] c = c
apply_configs (config ∷ rest) c = apply_configs rest (apply_config config.scope config c)

-- `ThrottleController::new`.
unfoldable pub new_controller :
    List ResourceTransitionInput
    → List InstanceId
    → List StateTransitionThrottleConfig
    → ThrottleController
unfolding apply_configs empty_quotas
new_controller resources live_instances configs = apply_configs configs (record {
  cluster = [];
  resources = empty_quotas (map (λ r. r.resource) resources) [];
  instances = empty_quotas live_instances [];
})
