-- ===== src/Controller/Throttle.antt =====
-- src/controller/message_throttle.rs: the data of the throttling stage. Its parts are in the
-- children: the quotas (`Quota`), the classes of work (`Required`), the orders (`Priority`) and the
-- stage itself (`Stage`).
pub mod Quota
pub mod Required
pub mod Priority
pub mod Checks
pub mod Charging
pub mod Stage
pub mod Dispatched
pub mod Unthrottled
pub mod Accepted
pub mod Demands
pub mod Gauge
pub mod Charged
pub mod Gauges
pub mod Limits
pub mod Safety
pub mod Free
use Prim.Native.Nat.Ordering.{lt, eq, gt}
use Prim.Native.String.{◌++◌ as append}
use clustodian.Model.Identity.{InstanceId, PartitionId, ResourceId}
use clustodian.Model.State.{State}
use clustodian.Model.Replica.{CurrentState, BestPossibleState, IntermediateState}
use clustodian.Transition.{TransitionRequest}
use clustodian.Base.Logic.{ℕ, Option, none, some, List, compare, refl, ◌≡◌, ◌>>=◌, ◌>>◌, String}
use clustodian.Base.Map.{Map}
use clustodian.Base.Ord.{
  Ord, nat-only, nat_self, nat-swaps, nat-chains, string_ord, nat_ord, pair_ord,
}

pub data RebalanceType : Type 0 where
  any_balance recovery_balance load_balance : RebalanceType

-- The derived `Ord`: the order of the declaration.
abbrev pub rank : RebalanceType → ℕ
rank any_balance = 0
rank recovery_balance = 1
rank load_balance = 2

pub rank_only : (a b : RebalanceType) → compare (rank a) (rank b) ≡ eq → a ≡ b
rank_only any_balance any_balance h = refl
rank_only any_balance recovery_balance h = absurd cc
rank_only any_balance load_balance h = absurd cc
rank_only recovery_balance any_balance h = absurd cc
rank_only recovery_balance recovery_balance h = refl
rank_only recovery_balance load_balance h = absurd cc
rank_only load_balance any_balance h = absurd cc
rank_only load_balance recovery_balance h = absurd cc
rank_only load_balance load_balance h = refl

instance unfoldable pub rebalance_ord : Ord RebalanceType
rebalance_ord = record {
  cmp = λ a b. compare (rank a) (rank b);
  self_eq = λ a. nat_self (rank a);
  only_self = rank_only;
  swaps = λ a b. nat-swaps (rank a) (rank b);
  chains = λ a b c. nat-chains (rank a) (rank b) (rank c);
}

pub data ThrottleScope : Type 0 where
  cluster_scope resource_scope instance_scope : ThrottleScope

pub data ThrottleTarget : Type 0 where
  resource_target : ResourceId → ThrottleTarget
  instance_target : InstanceId → ThrottleTarget

pub record StateTransitionThrottleConfig : Type 0 where
  pub rebalance_type : RebalanceType
  pub scope : ThrottleScope
  pub max_transitions : ℕ
  pub target : Option ThrottleTarget

unfoldable pub new_config : RebalanceType → ThrottleScope → ℕ → StateTransitionThrottleConfig
new_config rebalance_type scope max_transitions = record {
  rebalance_type = rebalance_type;
  scope = scope;
  max_transitions = max_transitions;
  target = none;
}

unfoldable pub for_resource : RebalanceType → ResourceId → ℕ → StateTransitionThrottleConfig
for_resource rebalance_type resource max_transitions = record {
  rebalance_type = rebalance_type;
  scope = resource_scope;
  max_transitions = max_transitions;
  target = some (resource_target resource);
}

unfoldable pub for_instance : RebalanceType → InstanceId → ℕ → StateTransitionThrottleConfig
for_instance rebalance_type replica max_transitions = record {
  rebalance_type = rebalance_type;
  scope = instance_scope;
  max_transitions = max_transitions;
  target = some (instance_target replica);
}

pub record OperationalPendingTransition : Type 0 where
  pub resource : ResourceId
  pub partition : PartitionId
  pub replica : InstanceId
  pub source_state : State
  pub target_state : State

pub record ResourceTransitionInput : Type 0 where
  pub resource : ResourceId
  pub replicas : ℕ
  pub min_active_replicas : Option ℕ
  pub preference_lists : Map PartitionId (List InstanceId)
  pub current_state : CurrentState
  pub best_possible_state : BestPossibleState
  pub selected_transitions : List TransitionRequest

pub record IntermediateThrottleResult : Type 0 where
  pub intermediate_state : IntermediateState
  pub dispatchable_transitions : List TransitionRequest

pub data IntermediateThrottleError : Type 0 where
  duplicate_resource : ResourceId → IntermediateThrottleError
  duplicate_pending : PartitionId → InstanceId → IntermediateThrottleError
  resource_mismatch : ResourceId → ResourceId → IntermediateThrottleError
  unknown_pending_resource : ResourceId → IntermediateThrottleError
  unknown_selected_partition : ResourceId → PartitionId → IntermediateThrottleError

-- `pending_as_request`.
unfoldable pub pending_as_request : OperationalPendingTransition → TransitionRequest
pending_as_request t = record {
  resource = t.resource;
  partition = t.partition;
  replica = t.replica;
  source_state = t.source_state;
  target_state = t.target_state;
}

-- `impl Display for IntermediateThrottleError`.
throttle_error_text : IntermediateThrottleError → String
throttle_error_text (duplicate_resource resource) = append "duplicate resource " resource
throttle_error_text (duplicate_pending partition replica) =
    append "duplicate pending transition for partition "
      (append partition (append " and instance " replica))
throttle_error_text (resource_mismatch expected actual) =
    append "selected transition belongs to resource "
      (append actual (append ", expected " expected))
throttle_error_text (unknown_pending_resource resource) =
    append "pending transition references unknown resource " resource
throttle_error_text (unknown_selected_partition resource partition) =
    append "selected transition references unknown partition "
      (append partition (append " in resource " resource))
