-- ===== src/Controller/Runtime/Limits.antt =====
-- src/controller/runtime.rs: `throttles`, which reads the throttle configurations.
use Prim.Native.String.{◌++◌ as append}
use clustodian.Model.Identity.{new_resource, new_instance}
use clustodian.Controller.Throttle.{
  RebalanceType, any_balance, recovery_balance, load_balance, ThrottleScope, cluster_scope,
  resource_scope, instance_scope, StateTransitionThrottleConfig, new_config, for_resource,
  for_instance,
}
use clustodian.Controller.Runtime.{
  ThrottleRecord, ControllerRuntimeError, message, identifier_error, map_err, Json,
  CoordinationSnapshot, metadata_value,
}
use clustodian.Base.Logic.{
  ℕ, String, if◌then◌else◌, ◌==◌, Result, ◌>>=◌, fail_if, ok, err, Option, none, some, List, ◌∷◌,
  ◌>>◌, [],
}
use clustodian.Base.Ord.{eqb, string_ord, nat_ord, pair_ord}

unfoldable pub parse_scope : String → Result ControllerRuntimeError ThrottleScope
unfolding eqb string_ord
parse_scope value =
    if eqb value "CLUSTER"
    then ok cluster_scope
    else if eqb value "RESOURCE"
    then ok resource_scope
    else if eqb value "INSTANCE"
    then ok instance_scope
    else err (message (append "unknown throttle scope " value))

unfoldable pub parse_rebalance_type : String → Result ControllerRuntimeError RebalanceType
unfolding eqb string_ord
parse_rebalance_type value =
    if eqb value "ANY"
    then ok any_balance
    else if eqb value "RECOVERY_BALANCE"
    then ok recovery_balance
    else if eqb value "LOAD_BALANCE"
    then ok load_balance
    else err (message (append "unknown rebalance type " value))

-- The arms of the last `match`, for the scope and the optional targets of a record.
unfoldable pub read_target :
    ThrottleScope
    → RebalanceType
    → ℕ
    → Option String
    → Option String
    → Result ControllerRuntimeError StateTransitionThrottleConfig
unfolding new_config for_resource for_instance new_resource new_instance
read_target cluster_scope ty limit none none = ok (new_config ty cluster_scope limit)
read_target cluster_scope ty limit none (some replica) =
    err (message "cluster transition throttle cannot target a resource or instance")
read_target cluster_scope ty limit (some resource) replica =
    err (message "cluster transition throttle cannot target a resource or instance")
read_target resource_scope ty limit resource (some replica) =
    err (message "resource transition throttle cannot target an instance")
read_target resource_scope ty limit none none = ok (new_config ty resource_scope limit)
read_target resource_scope ty limit (some resource) none =
    map_err identifier_error (new_resource resource) >>= λ r. ok (for_resource ty r limit)
read_target instance_scope ty limit (some resource) replica =
    err (message "instance transition throttle cannot target a resource")
read_target instance_scope ty limit none none = ok (new_config ty instance_scope limit)
read_target instance_scope ty limit none (some replica) =
    map_err identifier_error (new_instance replica) >>= λ i. ok (for_instance ty i limit)

unfoldable pub read_throttle :
    ThrottleRecord → Result ControllerRuntimeError StateTransitionThrottleConfig
unfolding parse_scope parse_rebalance_type read_target
read_throttle record_ = do
  scope ← parse_scope record_.scope
  ty ← parse_rebalance_type record_.rebalance_type
  fail_if (record_.max_in_flight == 0)
      (message "transition throttle limit must be greater than zero")
  read_target scope ty record_.max_in_flight record_.resource record_.replica

unfoldable pub read_throttles :
    List ThrottleRecord → Result ControllerRuntimeError (List StateTransitionThrottleConfig)
unfolding read_throttle
read_throttles [] = ok []
read_throttles (r ∷ rest) =
    read_throttle r >>= λ config. read_throttles rest >>= λ configs. ok (config ∷ configs)

unfoldable pub throttles :
    Json → CoordinationSnapshot → Result ControllerRuntimeError (List StateTransitionThrottleConfig)
unfolding read_throttles metadata_value
throttles json snapshot = elim (metadata_value snapshot "controller/throttles") [
  | none ↦ ok []
  | some value ↦ map_err message (json.decode_throttles value) >>= read_throttles
]
