-- ===== src/Rebalance/Topology.antt =====
-- src/rebalance/crush.rs: the topology of a hash-based placement, its leaves and its errors.
use Prim.Native.Char.{Char, code}
use clustodian.Model.Identity.{InstanceId, PartitionId, is_empty_text}
use clustodian.Base.Logic.{
  String, if◌then◌else◌, ◌==◌, Result, ok, err, Bool, false, not, ◌&&◌, List, ◌∷◌, [],
}
use clustodian.Base.Ord.{eqb, string_ord, nat_ord, pair_ord}
use clustodian.Base.Lists.{filter}

pub record CrushTopology : Type 0 where
  pub path : String
  pub fault_zone_type : String
  pub end_node_type : String

pub record CrushInstance : Type 0 where
  pub replica : InstanceId
  pub fault_zone : String

pub data CrushError : Type 0 where
  duplicate_instance : InstanceId → CrushError
  duplicate_crush_partition : PartitionId → CrushError
  empty_fault_zone : CrushError
  live_instance_unknown : InstanceId → CrushError
  no_instances : CrushError
  no_crush_partitions : CrushError
  selected_non_instance : CrushError
  unsupported_topology : String → String → String → CrushError

-- The first component of a list of components grows by a character.
unfoldable pub grow : Char → List String → List String
grow c [] = String.◌∷◌ c String.[] ∷ []
grow c (part ∷ rest) = String.◌∷◌ c part ∷ rest

-- `split('/')`.
unfoldable pub split_path : String → List String
unfolding grow
split_path String.[] = String.[] ∷ []
split_path (String.◌∷◌ c s) =
    let rest = split_path s in if code c == b'/' then String.[] ∷ rest else grow c rest

-- `filter(|component| !component.is_empty())`.
unfoldable pub components : String → List String
unfolding split_path is_empty_text filter
components path = filter (λ part. not (is_empty_text part)) (split_path path)

unfoldable pub is_supported : List String → String → String → Bool
is_supported [] zone_type node_type = false
is_supported (a ∷ []) zone_type node_type = eqb a node_type && eqb zone_type node_type
is_supported (a ∷ b ∷ []) zone_type node_type = eqb a zone_type && eqb b node_type
is_supported (a ∷ b ∷ c ∷ rest) zone_type node_type = false

-- `CrushTopology::new`, with its `validate`.
unfoldable pub new_topology : String → String → String → Result CrushError CrushTopology
unfolding components is_supported
new_topology path zone_type node_type =
    if is_supported (components path) zone_type node_type
    then ok (record { path = path; fault_zone_type = zone_type; end_node_type = node_type })
    else err (unsupported_topology path zone_type node_type)

-- `CrushInstance::new`.
unfoldable pub new_leaf : InstanceId → String → Result CrushError CrushInstance
unfolding is_empty_text
new_leaf replica zone =
    if is_empty_text zone
    then err empty_fault_zone
    else ok (record { replica = replica; fault_zone = zone })
