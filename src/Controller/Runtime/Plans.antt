-- ===== src/Controller/Runtime/Plans.antt =====
-- src/controller/runtime.rs: `instance_configs` and `resource_plans`. The hash-based placement,
-- `compute_crush_assignment` of src/rebalance/crush.rs, is a parameter.
use Prim.Native.Char.{code}
use Prim.Native.String.{◌++◌ as append}
use clustodian.Model.Identity.{
  InstanceId, PartitionId, ResourceId, new_instance, new_partition, new_resource,
}
use clustodian.Model.Ideal.{IdealStateBuilder, builder, set_preference_list, build}
use clustodian.Rebalance.Topology.{CrushTopology, CrushInstance, CrushError, new_topology, new_leaf}
use clustodian.Controller.Runtime.{
  CoordinationSnapshot, MetadataEntry, ResourceRecord, PlacementRecord, CrushTopologyRecord,
  InstanceConfigRecord, ResourcePlan, ControllerRuntimeError, message, identifier_error,
  ideal_state_error, crush_error, map_err, Json, metadata_value,
}
use clustodian.Base.Map.{Map, insert, values}
use clustodian.Base.Lists.{length}
use clustodian.Base.Ord.{eqb, string_ord, nat_ord, pair_ord}
use clustodian.Base.Logic.{
  ℕ, String, if◌then◌else◌, ◌==◌, Result, ◌>>=◌, fail_if, unwrap_or, ok, err, min, not, Option,
  none, some, List, ◌∷◌, ◌>>◌, [],
}

unfoldable pub collect_configs :
    List InstanceConfigRecord
    → Map InstanceId String
    → Result ControllerRuntimeError (Map InstanceId String)
unfolding new_instance insert
collect_configs [] configs = ok configs
collect_configs (r ∷ rest) configs = map_err identifier_error (new_instance r.name) >>= λ i.
    collect_configs rest (insert configs i r.zone)

unfoldable pub instance_configs :
    Json → CoordinationSnapshot → Result ControllerRuntimeError (Map InstanceId String)
unfolding collect_configs metadata_value
instance_configs json snapshot = elim (metadata_value snapshot "controller/instance-configs") [
  | none ↦ ok []
  | some value ↦
      map_err message (json.decode_instance_configs value) >>= λ records. collect_configs records []
]

-- `str::strip_prefix`.
unfoldable pub strip_prefix : String → String → Option String
strip_prefix String.[] value = some value
strip_prefix (String.◌∷◌ c prefix) String.[] = none
strip_prefix (String.◌∷◌ c prefix) (String.◌∷◌ d value) =
    let rest = strip_prefix prefix value in if code c == code d then rest else none

-- `collect::<Result<Vec<_>, _>>()` over identifiers.
unfoldable pub parse_instances : List String → Result ControllerRuntimeError (List InstanceId)
unfolding new_instance
parse_instances [] = ok []
parse_instances (name ∷ rest) = map_err identifier_error (new_instance name) >>= λ i.
    parse_instances rest >>= λ instances. ok (i ∷ instances)

unfoldable pub parse_partitions : List String → Result ControllerRuntimeError (List PartitionId)
unfolding new_partition
parse_partitions [] = ok []
parse_partitions (name ∷ rest) = map_err identifier_error (new_partition name) >>= λ p.
    parse_partitions rest >>= λ partitions. ok (p ∷ partitions)

unfoldable pub parse_lists :
    Map String (List String)
    → Map PartitionId (List InstanceId)
    → Result ControllerRuntimeError (Map PartitionId (List InstanceId))
unfolding parse_instances new_partition insert
parse_lists [] lists = ok lists
parse_lists ((name, instances) ∷ rest) lists =
    map_err identifier_error (new_partition name) >>= λ p.
    parse_instances instances >>= λ parsed. parse_lists rest (insert lists p parsed)

unfoldable pub leaves : Map InstanceId String → Result ControllerRuntimeError (List CrushInstance)
unfolding new_leaf
leaves [] = ok []
leaves ((i, zone) ∷ rest) =
    map_err crush_error (new_leaf i zone) >>= λ leaf. leaves rest >>= λ others. ok (leaf ∷ others)

unfoldable pub topology_of :
    Option CrushTopologyRecord → Result ControllerRuntimeError CrushTopology
unfolding new_topology
topology_of none = map_err crush_error (new_topology "/instance" "instance" "instance")
topology_of (some t) = map_err crush_error (new_topology t.path t.fault_zone_type t.end_node_type)

-- `values().map(Vec::len).min().unwrap_or_default()`.
unfoldable pub shortest : List (List InstanceId) → ℕ
shortest [] = 0
shortest (list ∷ []) = length list
shortest (list ∷ other ∷ rest) = min (length list) (shortest (other ∷ rest))

unfoldable pub fill_builder :
    Map PartitionId (List InstanceId)
    → IdealStateBuilder
    → Result ControllerRuntimeError IdealStateBuilder
unfolding set_preference_list
fill_builder [] b = ok b
fill_builder ((p, instances) ∷ rest) b =
    map_err ideal_state_error (set_preference_list b p instances) >>= fill_builder rest

unfoldable pub plan_of :
    ResourceId → ℕ → Map PartitionId (List InstanceId) → Result ControllerRuntimeError ResourcePlan
unfolding fill_builder builder build
plan_of resource replicas lists = do
  b ← fill_builder lists (builder resource replicas)
  ideal ← map_err ideal_state_error (build b)
  ok (record { resource = resource; ideal = ideal })

module _ (json : Json)
    (crush : ResourceId
      → List PartitionId
      → ℕ
      → List CrushInstance
      → List InstanceId
      → CrushTopology
      → Result CrushError (Map PartitionId (List InstanceId))) where
  -- The arms for the two kinds of placement, up to the ideal state.
  unfoldable pub plan_crush :
      ResourceId
      → PlacementRecord
      → Map InstanceId String
      → List InstanceId
      → Result ControllerRuntimeError ResourcePlan
  unfolding parse_partitions leaves topology_of shortest plan_of
  plan_crush resource placement configs live = do
    partitions ← parse_partitions placement.partitions
    instances ← leaves configs
    topology ← topology_of placement.topology
    lists ←
        map_err crush_error
          (crush resource partitions (min placement.replicas (length live)) instances live topology)
    plan_of resource (shortest (values lists)) lists

  unfoldable pub plan_semi_auto :
      ResourceId → PlacementRecord → Result ControllerRuntimeError ResourcePlan
  unfolding parse_lists plan_of
  plan_semi_auto resource placement = do
    lists ← parse_lists placement.preference_lists []
    plan_of resource placement.replicas lists

  unfoldable pub plan_resource :
      String
      → ResourceRecord
      → Map InstanceId String
      → List InstanceId
      → Result ControllerRuntimeError ResourcePlan
  unfolding plan_crush plan_semi_auto new_resource eqb string_ord
  plan_resource name r configs live = do
    fail_if (not (eqb r.name name)) (
        message (
          append "resource metadata key "
            (append name (append " disagrees with resource name " r.name))))
    fail_if (not (eqb r.state_model "LeaderStandby"))
        (message (append "unsupported M10 state model " r.state_model))
    resource ← map_err identifier_error (new_resource r.name)
    if eqb r.placement.kind "CRUSH"
        then plan_crush resource r.placement configs live
        else if eqb r.placement.kind "SEMI_AUTO"
        then plan_semi_auto resource r.placement
        else err (message (append "unsupported M10 placement kind " r.placement.kind))

  unfoldable pub plan_entries :
      Map String MetadataEntry
      → Map InstanceId String
      → List InstanceId
      → Result ControllerRuntimeError (List ResourcePlan)
  unfolding strip_prefix plan_resource
  plan_entries [] configs live = ok []
  plan_entries ((key, entry) ∷ rest) configs live =
      elim (strip_prefix "controller/resources/" key) [
        | none ↦ plan_entries rest configs live
        | some name ↦
            (map_err message (json.decode_resource (unwrap_or entry.value "")) >>= λ r.
            plan_resource name r configs live >>= λ plan.
            plan_entries rest configs live >>= λ plans. ok (plan ∷ plans))
      ]

  unfoldable pub resource_plans :
      CoordinationSnapshot
      → Map InstanceId String
      → List InstanceId
      → Result ControllerRuntimeError (List ResourcePlan)
  unfolding plan_entries
  resource_plans snapshot configs live = plan_entries snapshot.metadata configs live
