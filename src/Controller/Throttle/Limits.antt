-- ===== src/Controller/Throttle/Limits.antt =====
-- src/controller/message_throttle.rs: the limits that the configurations set.
pub mod Starts
use clustodian.Model.Identity.{InstanceId, ResourceId}
use clustodian.Controller.Throttle.{
  RebalanceType, any_balance, recovery_balance, load_balance, ThrottleScope, cluster_scope,
  resource_scope, instance_scope, StateTransitionThrottleConfig, ResourceTransitionInput,
  rebalance_ord, ThrottleTarget, resource_target, instance_target,
}
use clustodian.Controller.Throttle.Quota.{
  ThrottleController, Quotas, set_for, set_quota, apply_config, apply_configs, new_controller,
  empty_quotas, target_resource, target_instance,
}
use clustodian.Base.Logic.{
  ℕ, if◌then◌else◌, and_then, map_option, ◌≡◌, true, Option, some, refl, ◌∙◌, inl, inr, arith,
  is_some, ap, Bool, false, ◌&&◌, none, List, ◌∷◌, [], unwrap_or, map, ◌>>=◌, ◌>>◌,
}
use clustodian.Base.Map.{Map, get, get-modify, get-insert, insert, get-modify_all}
use clustodian.Base.Ord.{eqb, string_ord, nat_ord, pair_ord, eqb-cases}
use clustodian.Base.Lists.{contains}
use clustodian.Controller.Throttle.Gauges.{
  any_quota, any_quota_at, cluster_gauge, resource_gauge, instance_gauge,
}

-- The limit of the last configuration that applies.
abbrev pub last_limit :
    (StateTransitionThrottleConfig → Bool)
    → List StateTransitionThrottleConfig
    → Option ℕ
    → Option ℕ
last_limit applies [] found = found
last_limit applies (config ∷ rest) found =
    last_limit applies rest (if applies config then some config.max_transitions else found)

abbrev pub is_any : RebalanceType → Bool
is_any any_balance = true
is_any recovery_balance = false
is_any load_balance = false

abbrev pub limits_cluster : StateTransitionThrottleConfig → Bool
limits_cluster config =
    is_any config.rebalance_type && (elim config.scope [ cluster_scope ↦ true | _ ↦ false ])

-- A configuration of the scope without a target of its kind reaches every resource.
abbrev pub limits_resource : ResourceId → StateTransitionThrottleConfig → Bool
limits_resource k config = is_any config.rebalance_type && (elim config.scope [
  | resource_scope ↦ elim config.target [ some (resource_target r) ↦ eqb r k | _ ↦ true ]
  | _ ↦ false
])

abbrev pub limits_instance : InstanceId → StateTransitionThrottleConfig → Bool
limits_instance k config = is_any config.rebalance_type && (elim config.scope [
  | instance_scope ↦ elim config.target [ some (instance_target i) ↦ eqb i k | _ ↦ true ]
  | _ ↦ false
])

any_quota-set_quota :
    (config : StateTransitionThrottleConfig) (quotas : Quotas)
    → any_quota (set_quota config quotas)
      ≡ (if is_any config.rebalance_type then some config.max_transitions else any_quota quotas)
unfolding set_quota eqb rebalance_ord
any_quota-set_quota config quotas =
    get-insert quotas config.rebalance_type config.max_transitions any_balance
    ∙ matches config.rebalance_type
  where
    matches :
        (ty : RebalanceType)
        → (if eqb ty any_balance then some config.max_transitions else any_quota quotas)
          ≡ (if is_any ty then some config.max_transitions else any_quota quotas)
    matches any_balance = refl
    matches recovery_balance = refl
    matches load_balance = refl

after_set :
    (config : StateTransitionThrottleConfig) (o : Option Quotas)
    → is_some o ≡ true
    → (is_some (map_option (set_quota config) o) ≡ true)
      × (and_then (map_option (set_quota config) o) any_quota ≡ (
          if is_any config.rebalance_type
          then some config.max_transitions
          else and_then o any_quota))
after_set config none h = absurd cc
after_set config (some quotas) h = (refl, any_quota-set_quota config quotas)

and_true : (b : Bool) → (b && true) ≡ b
and_true true = refl
and_true false = refl

pub and_false : (b : Bool) → (b && false) ≡ false
and_false true = refl
and_false false = refl

-- The quotas of a scope's key after one configuration.
pub any_quota_at-set_for :
    (config : StateTransitionThrottleConfig) (target : Option ResourceId)
    (m : Map ResourceId Quotas) (k : ResourceId)
    → is_some (get m k) ≡ true
    → (is_some (get (set_for config target m) k) ≡ true)
      × (any_quota_at (set_for config target m) k ≡ (
          if is_any config.rebalance_type && (elim target [ none ↦ true | some j ↦ eqb j k ])
          then some config.max_transitions
          else any_quota_at m k))
unfolding set_for
any_quota_at-set_for config none m k there_is =
    rw (set_for, get-modify_all (set_quota config) m k, and_true (is_any config.rebalance_type))
      (after_set config (get m k) there_is)
any_quota_at-set_for config (some j) m k there_is = elim (eqb-cases j k) [
  | inl (e, p) ↦
      rw (set_for, get-modify (set_quota config) m j k, e, and_true (is_any config.rebalance_type))
        (after_set config (get m k) there_is)
  | inr (e, n) ↦
      rw (set_for, get-modify (set_quota config) m j k, e, and_false (is_any config.rebalance_type))
        (there_is, refl)
]

-- A key that `entry(..).or_default()` met has quotas, none of them set where none was.
pub get-empty_quotas :
    (ks : List ResourceId) (m : Map ResourceId Quotas) (k : ResourceId)
    → get (empty_quotas ks m) k ≡ (if contains ks k then some (unwrap_or (get m k) []) else get m k)
unfolding empty_quotas contains
get-empty_quotas [] m k = refl
get-empty_quotas (x ∷ ks) m k =
    get-empty_quotas ks (insert m x (unwrap_or (get m x) [])) k ∙ elim (eqb-cases x k) [
      | inl (e, p) ↦ rw (get-insert m x (unwrap_or (get m x) []) k, e) (rw p (ground arith))
      | inr (e, n) ↦ rw (get-insert m x (unwrap_or (get m x) []) k, e) refl
    ]

any_quota-apply_config :
    (scope : ThrottleScope) (config : StateTransitionThrottleConfig) (c : ThrottleController)
    → any_quota (apply_config scope config c).cluster ≡ (
        if is_any config.rebalance_type && (elim scope [ cluster_scope ↦ true | _ ↦ false ])
        then some config.max_transitions
        else any_quota c.cluster)
unfolding apply_config
any_quota-apply_config cluster_scope config c =
    any_quota-set_quota config c.cluster ∙ rw (and_true (is_any config.rebalance_type)) refl
any_quota-apply_config resource_scope config c = rw (and_false (is_any config.rebalance_type)) refl
any_quota-apply_config instance_scope config c = rw (and_false (is_any config.rebalance_type)) refl

pub any_quota-apply_configs :
    (configs : List StateTransitionThrottleConfig) (c : ThrottleController)
    → any_quota (apply_configs configs c).cluster
      ≡ last_limit limits_cluster configs (any_quota c.cluster)
unfolding apply_configs
any_quota-apply_configs [] c = refl
any_quota-apply_configs (config ∷ configs) c =
    any_quota-apply_configs configs (apply_config config.scope config c)
    ∙ ap (last_limit limits_cluster configs) (any_quota-apply_config config.scope config c)
