-- ===== src/Model/Ideal.antt =====
-- src/model/ideal_state.rs: the explicit placement of a resource, and its builder.
pub mod Accepted
use clustodian.Model.Identity.{InstanceId, PartitionId, ResourceId}
use clustodian.Base.Logic.{ℕ, Result, Option, List, [], ◌==◌, fail_if, not, ◌>>◌, ok}
use clustodian.Base.Map.{contains_key, Map, get, insert}
use clustodian.Base.Set.{collect}
use clustodian.Base.Lists.{length, is_empty}
use clustodian.Base.Ord.{string_ord, nat_ord, pair_ord}

pub record IdealState : Type 0 where
  pub resource : ResourceId
  pub replicas : ℕ
  pub preference_lists : Map PartitionId (List InstanceId)

pub record IdealStateBuilder : Type 0 where
  pub resource : ResourceId
  pub replicas : ℕ
  pub preference_lists : Map PartitionId (List InstanceId)

pub data IdealStateError : Type 0 where
  duplicate_partition : PartitionId → IdealStateError
  duplicate_preference_instance : PartitionId → IdealStateError
  no_partitions : IdealStateError
  preference_list_replica_count : PartitionId → ℕ → ℕ → IdealStateError

unfoldable pub builder : ResourceId → ℕ → IdealStateBuilder
builder resource replicas = record {
  resource = resource;
  replicas = replicas;
  preference_lists = [];
}

unfoldable pub preference_list : IdealState → PartitionId → Option (List InstanceId)
preference_list ideal partition = get ideal.preference_lists partition

-- A refused list leaves the builder as it was.
unfoldable pub set_preference_list :
    IdealStateBuilder → PartitionId → List InstanceId → Result IdealStateError IdealStateBuilder
unfolding contains_key collect
set_preference_list b partition instances = do
  fail_if (contains_key b.preference_lists partition) (duplicate_partition partition)
  fail_if (not (length instances == b.replicas))
      (preference_list_replica_count partition b.replicas (length instances))
  fail_if (not (length (collect instances) == length instances))
      (duplicate_preference_instance partition)
  ok (record b { preference_lists = insert b.preference_lists partition instances })

unfoldable pub build : IdealStateBuilder → Result IdealStateError IdealState
build b = do
  fail_if (is_empty b.preference_lists) no_partitions
  ok (record {
    resource = b.resource;
    replicas = b.replicas;
    preference_lists = b.preference_lists;
  })
