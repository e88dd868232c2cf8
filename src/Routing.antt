-- ===== src/Routing.antt =====
-- src/routing/snapshot.rs: routing over an external view and the configured instances.
pub mod Leaders
use clustodian.Model.Identity.{InstanceId, PartitionId, ResourceId, new_resource, new_partition}
use clustodian.Model.State.{State}
use clustodian.Model.Replica.{ExternalView}
use clustodian.Base.Logic.{
  if◌then◌else◌, Result, and_then, ok, err, String, ◌&&◌, Option, none, some, List, ◌∷◌, ◌>>=◌, [],
}
use clustodian.Base.Lists.{contains}
use clustodian.Base.Map.{Map, get}
use clustodian.Base.Ord.{eqb, string_ord, nat_ord, pair_ord}
use clustodian.Base.Set.{add, extend, collect}

pub data RoutingError : Type 0 where
  invalid_resource invalid_partition : String → RoutingError
  multiple_leaders : String → String → List InstanceId → RoutingError

pub record RoutingSnapshot : Type 0 where
  pub external_view : ExternalView
  pub configured_instances : List InstanceId

unfoldable pub from_external_view : ExternalView → List InstanceId → RoutingSnapshot
unfolding collect
from_external_view view configured = record {
  external_view = view;
  configured_instances = collect configured;
}

-- The set of the configured instances of a partition that advertise the state.
pub advertising : List InstanceId → State → List InstanceId → Map InstanceId State → List InstanceId
advertising configured state found [] = found
advertising configured state found ((replica, advertised) ∷ rest) =
    advertising configured state
      (if eqb advertised state && contains configured replica then add found replica else found)
      rest

pub instances_for : RoutingSnapshot → ResourceId → PartitionId → State → List InstanceId
unfolding advertising
instances_for snapshot resource partition state =
    elim (and_then (get snapshot.external_view resource) (λ partitions. get partitions partition)) [
      | none ↦ []
      | some states ↦ advertising snapshot.configured_instances state [] states
    ]

-- `map_err` to the routing error of the name.
pub named {ℓ κ} : {E : Type κ} {A : Type ℓ} → Result E A → RoutingError → Result RoutingError A
named (ok a) e = ok a
named (err e') e = err e

pub sole_leader :
    ResourceId → PartitionId → List InstanceId → Result RoutingError (Option InstanceId)
sole_leader resource partition [] = ok none
sole_leader resource partition (i ∷ []) = ok (some i)
sole_leader resource partition (i ∷ j ∷ rest) =
    err (multiple_leaders resource partition (i ∷ j ∷ rest))

unfoldable pub leader : RoutingSnapshot → String → String → Result RoutingError (Option InstanceId)
unfolding new_resource new_partition instances_for named sole_leader
leader snapshot resource partition = do
  resource_id ← named (new_resource resource) (invalid_resource resource)
  partition_id ← named (new_partition partition) (invalid_partition partition)
  sole_leader resource_id partition_id (instances_for snapshot resource_id partition_id "LEADER")

pub replicas : RoutingSnapshot → String → String → Result RoutingError (List InstanceId)
unfolding new_resource new_partition instances_for named extend
replicas snapshot resource partition = do
  resource_id ← named (new_resource resource) (invalid_resource resource)
  partition_id ← named (new_partition partition) (invalid_partition partition)
  ok (
      extend (instances_for snapshot resource_id partition_id "LEADER")
        (instances_for snapshot resource_id partition_id "STANDBY"))
