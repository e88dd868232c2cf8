-- ===== src/Tests/Throttling.antt =====
-- The throttling stage, run with one transition in flight and quotas of every scope.
use clustodian.Base.Loop.{for_range}
use clustodian.Model.StateModel.Table.{build_transition_table}
use clustodian.Controller.Throttle.Quota.{quota_exhausted}
use clustodian.Model.State.{is_dropped}
use clustodian.Model.Identity.{InstanceId, PartitionId, is_empty_text}
use clustodian.Transition.{TransitionRequest}
use clustodian.Controller.Throttle.{
  any_balance, recovery_balance, load_balance, cluster_scope, new_config, for_resource,
  for_instance, ResourceTransitionInput, OperationalPendingTransition,
  StateTransitionThrottleConfig, IntermediateThrottleResult, rebalance_ord,
}
use clustodian.Controller.Throttle.Stage.{compute_intermediate_and_throttle}
use clustodian.Controller.Throttle.Required.{rebalance_type, required_states, live_candidates}
use clustodian.Controller.Throttle.Charged.{in_flight}
use clustodian.Controller.Throttle.Limits.{
  last_limit, limits_cluster, limits_resource, limits_instance,
}
use clustodian.Controller.Throttle.Safety.{
  cluster_throttled, resource_throttled, instance_throttled,
}
use clustodian.Controller.Throttle.Accepted.{Acceptable, compute_accepts}
use clustodian.Controller.Throttle.Dispatched.{Origin, dispatch_sound}
use clustodian.Controller.Throttle.Unthrottled.{waiting, unthrottled_dispatches}
use clustodian.Controller.Throttle.Demands.{
  Positive, demanded, required_states_bounded, rebalance_type_exact,
}
use clustodian.Tests.Models.{standby_model}
use clustodian.Base.Logic.{
  ok, ◌≡◌, refl, none, List, ◌∷◌, [], if◌then◌else◌, ltb, unwrap_or, ◌-◌, ◌≤◌, ◌↔◌, true, some, map,
}
use clustodian.Base.Ord.{string_ord, nat_ord, pair_ord, eqb}
use clustodian.Base.Lists.{length, count, All, contains}
use clustodian.Base.Map.{values, get}

abbrev join : PartitionId → InstanceId → TransitionRequest
join p i = record {
  resource = "orders";
  partition = p;
  replica = i;
  source_state = "OFFLINE";
  target_state = "STANDBY";
}

abbrev orders : ResourceTransitionInput
orders = record {
  resource = "orders";
  replicas = 2;
  min_active_replicas = none;
  preference_lists = ("p0", "n1" ∷ "n2" ∷ []) ∷ ("p1", "n1" ∷ "n2" ∷ []) ∷ [];
  current_state =
      ("p0", ("n1", "OFFLINE") ∷ ("n2", "OFFLINE") ∷ []) ∷ ("p1", ("n1", "OFFLINE") ∷ []) ∷ [];
  best_possible_state =
      ("p0", ("n1", "LEADER") ∷ ("n2", "STANDBY") ∷ []) ∷ ("p1", ("n1", "LEADER") ∷ []) ∷ [];
  selected_transitions = join "p0" "n1" ∷ join "p0" "n2" ∷ [];
}

abbrev moving : OperationalPendingTransition
moving = record {
  resource = "orders";
  partition = "p1";
  replica = "n1";
  source_state = "OFFLINE";
  target_state = "STANDBY";
}

abbrev live : List InstanceId
live = "n1" ∷ "n2" ∷ []

abbrev quotas : List StateTransitionThrottleConfig
unfolding new_config for_resource for_instance
quotas =
    new_config any_balance cluster_scope 2
    ∷ for_resource any_balance "orders" 2
    ∷ for_instance any_balance "n1" 1
    ∷ []

-- The instance quota of n1 is in flight, so n2 alone may go.
abbrev throttled : IntermediateThrottleResult
throttled = record {
  intermediate_state =
      (
        "orders",
        ("p0", ("n1", "OFFLINE") ∷ ("n2", "STANDBY") ∷ []) ∷ ("p1", ("n1", "STANDBY") ∷ []) ∷ [],
      )
      ∷ [];
  dispatchable_transitions = join "p0" "n2" ∷ [];
}

ran :
    compute_intermediate_and_throttle (orders ∷ []) live (moving ∷ []) quotas standby_model
    ≡ ok throttled
unfolding compute_intermediate_and_throttle eqb string_ord quota_exhausted rebalance_ord
    standby_model is_empty_text pair_ord is_dropped build_transition_table for_range quotas
ran = refl

cluster_limit_set : last_limit limits_cluster quotas none ≡ some 2
unfolding quotas
cluster_limit_set = refl

resource_limit_set : last_limit (limits_resource "orders") quotas none ≡ some 2
unfolding quotas eqb string_ord
resource_limit_set = refl

instance_limit_set : last_limit (limits_instance "n1") quotas none ≡ some 1
unfolding quotas eqb string_ord
instance_limit_set = refl

knows_orders : contains (map (λ r. r.resource) (orders ∷ [])) "orders" ≡ true
unfolding contains eqb string_ord
knows_orders = refl

n1_lives : contains live "n1" ≡ true
unfolding contains eqb string_ord
n1_lives = refl

cluster_throttled_example :
    length (throttled.dispatchable_transitions)
    ≤ 2 - in_flight (λ r i. true) (orders ∷ []) (moving ∷ [])
cluster_throttled_example =
    cluster_throttled (orders ∷ []) live (moving ∷ []) quotas standby_model 2 ran cluster_limit_set

resource_throttled_example :
    count (λ t. eqb t.resource "orders") (throttled.dispatchable_transitions)
    ≤ 2 - in_flight (λ r i. eqb r "orders") (orders ∷ []) (moving ∷ [])
resource_throttled_example =
    resource_throttled (orders ∷ []) live (moving ∷ []) quotas standby_model 2 "orders" ran
      knows_orders resource_limit_set

instance_throttled_example :
    count (λ t. eqb t.replica "n1") (throttled.dispatchable_transitions)
    ≤ 1 - in_flight (λ r i. eqb i "n1") (orders ∷ []) (moving ∷ [])
instance_throttled_example =
    instance_throttled (orders ∷ []) live (moving ∷ []) quotas standby_model 1 "n1" ran n1_lives
      instance_limit_set

compute_accepts_example :
    ((out : IntermediateThrottleResult) × (compute_intermediate_and_throttle
          (orders ∷ [])
          live
          (moving ∷ [])
          quotas
          standby_model
        ≡ ok out))
    ↔ Acceptable (orders ∷ []) (moving ∷ []) standby_model
compute_accepts_example = compute_accepts (orders ∷ []) live (moving ∷ []) quotas standby_model

dispatch_sound_example :
    All (Origin (orders ∷ []) (moving ∷ [])) (throttled.dispatchable_transitions)
dispatch_sound_example = dispatch_sound (orders ∷ []) live (moving ∷ []) quotas standby_model ran

-- Without configurations both go.
abbrev unthrottled : IntermediateThrottleResult
unthrottled = record {
  intermediate_state =
      (
        "orders",
        ("p0", ("n1", "STANDBY") ∷ ("n2", "STANDBY") ∷ []) ∷ ("p1", ("n1", "STANDBY") ∷ []) ∷ [],
      )
      ∷ [];
  dispatchable_transitions = join "p0" "n1" ∷ join "p0" "n2" ∷ [];
}

ran_free :
    compute_intermediate_and_throttle (orders ∷ []) live (moving ∷ []) [] standby_model
    ≡ ok unthrottled
unfolding compute_intermediate_and_throttle eqb string_ord quota_exhausted rebalance_ord
    standby_model is_empty_text pair_ord is_dropped build_transition_table for_range
ran_free = refl

unthrottled_dispatches_example :
    count (λ t. eqb t.replica "n1") (unthrottled.dispatchable_transitions)
    ≡ waiting (λ t. eqb t.replica "n1") (moving ∷ []) (orders ∷ [])
unthrottled_dispatches_example =
    unthrottled_dispatches (orders ∷ []) live (moving ∷ []) standby_model (λ t. eqb t.replica "n1")
      ran_free

required_states_bounded_example :
    Positive (required_states orders "p0" live standby_model)
    × (demanded (required_states orders "p0" live standby_model) ≤ live_candidates orders "p0" live)
required_states_bounded_example = required_states_bounded orders "p0" live standby_model

rebalance_type_exact_example :
    rebalance_type
      (required_states orders "p0" live standby_model)
      (orders.current_state)
      "p0"
      "STANDBY"
    ≡ (if ltb
          (count (λ s. eqb s "STANDBY") (values (unwrap_or (get (orders.current_state) "p0") [])))
          (unwrap_or (get (required_states orders "p0" live standby_model) "STANDBY") 0)
        then recovery_balance
        else load_balance)
rebalance_type_exact_example =
    rebalance_type_exact orders "p0" live standby_model (orders.current_state) "STANDBY"
