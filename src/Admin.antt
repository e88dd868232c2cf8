-- ===== src/Admin.antt =====
-- src/admin.rs and src/cluster.rs: the transition limits of the application facade, and the records
-- under which an administrator stores them.
pub mod Limits
use clustodian.Model.Identity.{InstanceId, ResourceId, new_resource, new_instance, IdentifierError}
use clustodian.Controller.Runtime.{map_err}
use clustodian.Base.Logic.{
  ℕ, String, if◌then◌else◌, ◌==◌, Result, ◌>>=◌, fail_if, ok, Option, none, some, List, map, ◌>>◌,
  ◌∷◌, [],
}
use clustodian.Base.Lists.{any}
use clustodian.Base.Ord.{string_ord, nat_ord, pair_ord}

pub data TransitionType : Type 0 where
  any_transition recovery_transition load_transition : TransitionType

pub data TransitionLimitTargetSpec : Type 0 where
  cluster_spec : TransitionLimitTargetSpec
  resource_spec : String → TransitionLimitTargetSpec
  instance_spec : String → TransitionLimitTargetSpec

pub record TransitionLimit : Type 0 where
  pub target : TransitionLimitTargetSpec
  pub transition_type : TransitionType
  pub max_in_flight : ℕ

-- `TransitionLimit::cluster`, `resource`, `instance` and `transition_type`.
unfoldable pub cluster_limit : ℕ → TransitionLimit
cluster_limit n = record {
  target = cluster_spec;
  transition_type = any_transition;
  max_in_flight = n;
}

unfoldable pub resource_limit : String → ℕ → TransitionLimit
resource_limit resource n = record {
  target = resource_spec resource;
  transition_type = any_transition;
  max_in_flight = n;
}

unfoldable pub instance_limit : String → ℕ → TransitionLimit
instance_limit replica n = record {
  target = instance_spec replica;
  transition_type = any_transition;
  max_in_flight = n;
}

unfoldable pub counting : TransitionLimit → TransitionType → TransitionLimit
counting limit ty = record limit { transition_type = ty }

pub data TransitionRebalanceType : Type 0 where
  any_rebalance recovery_rebalance load_rebalance : TransitionRebalanceType

pub data TransitionLimitTarget : Type 0 where
  cluster_target : TransitionLimitTarget
  limit_resource : ResourceId → TransitionLimitTarget
  limit_instance : InstanceId → TransitionLimitTarget

pub record TransitionLimitSpec : Type 0 where
  pub target : TransitionLimitTarget
  pub rebalance_type : TransitionRebalanceType
  pub max_in_flight : ℕ

-- `ApplicationError::Spec`, with the text or the error that it is made from.
pub data ApplicationError : Type 0 where
  spec : String → ApplicationError
  spec_identifier : IdentifierError → ApplicationError

unfoldable pub target_of : TransitionLimitTargetSpec → Result ApplicationError TransitionLimitTarget
unfolding new_resource new_instance
target_of cluster_spec = ok cluster_target
target_of (resource_spec resource) =
    map_err spec_identifier (new_resource resource) >>= λ r. ok (limit_resource r)
target_of (instance_spec replica) =
    map_err spec_identifier (new_instance replica) >>= λ i. ok (limit_instance i)

unfoldable pub rebalance_of : TransitionType → TransitionRebalanceType
rebalance_of any_transition = any_rebalance
rebalance_of recovery_transition = recovery_rebalance
rebalance_of load_transition = load_rebalance

-- `TransitionLimit::into_low_level`.
unfoldable pub into_low_level : TransitionLimit → Result ApplicationError TransitionLimitSpec
unfolding target_of rebalance_of
into_low_level limit = do
  fail_if (limit.max_in_flight == 0) (spec "transition limit must be greater than zero")
  target ← target_of limit.target
  ok (record {
    target = target;
    rebalance_type = rebalance_of limit.transition_type;
    max_in_flight = limit.max_in_flight;
  })

-- What the serializer takes.
pub record TransitionLimitRecord : Type 0 where
  pub scope : String
  pub resource : Option String
  pub replica : Option String
  pub rebalance_type : String
  pub max_in_flight : ℕ

-- `TransitionLimitRecord::from`: the scope's name with its two optional targets.
unfoldable pub scope_of : TransitionLimitTarget → String × Option String × Option String
scope_of cluster_target = ("CLUSTER", none, none)
scope_of (limit_resource resource) = ("RESOURCE", some resource, none)
scope_of (limit_instance replica) = ("INSTANCE", none, some replica)

unfoldable pub type_name : TransitionRebalanceType → String
type_name any_rebalance = "ANY"
type_name recovery_rebalance = "RECOVERY_BALANCE"
type_name load_rebalance = "LOAD_BALANCE"

unfoldable pub record_of : TransitionLimitSpec → TransitionLimitRecord
unfolding scope_of type_name
record_of limit =
    let (scope, resource, replica) = scope_of limit.target in
    record {
      scope = scope;
      resource = resource;
      replica = replica;
      rebalance_type = type_name limit.rebalance_type;
      max_in_flight = limit.max_in_flight;
    }

-- `put_transition_limits`, up to the serializer and the store: the records that are written.
unfoldable pub limit_records : List TransitionLimitSpec → Option (List TransitionLimitRecord)
unfolding record_of any
limit_records limits =
    if any (λ l. l.max_in_flight == 0) limits then none else some (map record_of limits)

-- The facade's list of limits, collected into a result.
unfoldable pub lower_all : List TransitionLimit → Result ApplicationError (List TransitionLimitSpec)
unfolding into_low_level
lower_all [] = ok []
lower_all (limit ∷ rest) =
    into_low_level limit >>= λ spec. lower_all rest >>= λ specs. ok (spec ∷ specs)
