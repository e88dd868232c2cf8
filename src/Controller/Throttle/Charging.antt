-- ===== src/Controller/Throttle/Charging.antt =====
-- src/controller/message_throttle.rs: `charge_pending`, which takes what is in flight off the quotas.
use clustodian.Model.Identity.{InstanceId, PartitionId, ResourceId}
use clustodian.Model.State.{State}
use clustodian.Model.StateModel.{StateModelDefinition}
use clustodian.Controller.Throttle.{ResourceTransitionInput, OperationalPendingTransition}
use clustodian.Controller.Throttle.Quota.{ThrottleController, charge}
use clustodian.Controller.Throttle.Required.{required_states, rebalance_type}
use clustodian.Controller.Throttle.Priority.{message_pending_priority}
use clustodian.Base.Ord.{string_ord, pair_ord, nat_ord}
use clustodian.Base.Map.{get, Map}
use clustodian.Base.Sort.{sort_by}
use clustodian.Base.Logic.{if◌then◌else◌, and_then, unwrap_or, ℕ, Bool, not, ◌&&◌, List, ◌∷◌, []}
use clustodian.Base.Group.{group_by}
use clustodian.Controller.Throttle.Checks.{is_in_state}

-- A pending transition is charged where its instance is in the source state still.
unfoldable pub is_charged : ResourceTransitionInput → OperationalPendingTransition → Bool
unfolding is_in_state get
is_charged resource t =
    let current =
      and_then (get resource.current_state t.partition) (λ states. get states t.replica) in
    is_in_state current t.source_state && not (is_in_state current t.target_state)

unfoldable pub charge_one :
    ResourceTransitionInput
    → Map State ℕ
    → OperationalPendingTransition
    → ThrottleController
    → ThrottleController
unfolding is_charged rebalance_type charge
charge_one resource required t c =
    if is_charged resource t
    then charge (rebalance_type required resource.current_state t.partition t.target_state)
        resource.resource t.replica c
    else c

unfoldable pub charge_each :
    ResourceTransitionInput
    → Map State ℕ
    → List OperationalPendingTransition
    → ThrottleController
    → ThrottleController
unfolding charge_one
charge_each resource required [] c = c
charge_each resource required (t ∷ rest) c =
    charge_each resource required rest (charge_one resource required t c)

unfoldable pub charge_partitions :
    ResourceTransitionInput
    → List InstanceId
    → StateModelDefinition
    → Map PartitionId (List OperationalPendingTransition)
    → ThrottleController
    → ThrottleController
unfolding charge_each required_states sort_by message_pending_priority
charge_partitions resource live_instances m [] c = c
charge_partitions resource live_instances m ((partition, transitions) ∷ rest) c =
    charge_partitions resource live_instances m rest (
      charge_each resource (required_states resource partition live_instances m)
        (sort_by (message_pending_priority resource m) transitions) c)

unfoldable pub charge_pending :
    ResourceTransitionInput
    → List OperationalPendingTransition
    → List InstanceId
    → StateModelDefinition
    → ThrottleController
    → ThrottleController
unfolding charge_partitions group_by
charge_pending resource pending live_instances m c =
    charge_partitions resource live_instances m (group_by (λ t. t.partition) [] pending) c

-- The loop over the resources that charges what is in flight.
unfoldable pub charge_all :
    Map ResourceId (List OperationalPendingTransition)
    → List InstanceId
    → StateModelDefinition
    → List ResourceTransitionInput
    → ThrottleController
    → ThrottleController
unfolding charge_pending get
charge_all groups live_instances m [] c = c
charge_all groups live_instances m (r ∷ rest) c =
    charge_all groups live_instances m rest
      (charge_pending r (unwrap_or (get groups r.resource) []) live_instances m c)
