-- ===== src/Controller/Throttle/Required.antt =====
-- src/controller/message_throttle.rs: `required_states` and `rebalance_type`, which tell recovery
-- from load balancing.
use clustodian.Model.Identity.{InstanceId, PartitionId}
use clustodian.Model.State.{State, StateCardinality, exact, replica_count, node_count, unbounded}
use clustodian.Model.StateModel.{StateModelDefinition, cardinality_for}
use clustodian.Controller.Throttle.{
  RebalanceType, ResourceTransitionInput, recovery_balance, load_balance,
}
use clustodian.Base.Ord.{string_ord, nat_ord, pair_ord}
use clustodian.Base.Map.{get, insert, remove, contains_key, Map, values}
use clustodian.Base.Lists.{count, contains}
use clustodian.Base.Logic.{
  if◌then◌else◌, ltb, ◌==◌, unwrap_or, ℕ, ◌-◌, min, Bool, true, false, ◌&&◌, Option, none, some,
  List, ◌∷◌, [],
}

-- The locals of `required_states` as the first loop leaves them.
pub record Demand : Type 0 where
  pub remaining_candidates : ℕ
  pub remaining_replicas : ℕ
  pub result : Map State ℕ

unfoldable pub take_share : State → ℕ → Demand → Demand
unfolding insert
take_share state share d = record {
  remaining_candidates = d.remaining_candidates - share;
  remaining_replicas = d.remaining_replicas - share;
  result = insert d.result state share;
}

-- The arms of the `match`.
unfoldable pub demand_state : State → Option StateCardinality → Demand → Demand
unfolding take_share
demand_state state none d = d
demand_state state (some (exact n)) d =
    if ltb 0 n then take_share state (min n d.remaining_candidates) d else d
demand_state state (some node_count) d = take_share state d.remaining_candidates d
demand_state state (some replica_count) d = d
demand_state state (some unbounded) d = d

-- The first loop; it breaks where no candidate is left.
unfoldable pub demand_states : StateModelDefinition → List State → Demand → Demand
unfolding demand_state cardinality_for
demand_states m [] d = d
demand_states m (state ∷ rest) d =
    let left = demand_states m rest (demand_state state (cardinality_for m state) d) in
    if d.remaining_candidates == 0 then d else left

unfoldable pub is_replica_count : Option StateCardinality → Bool
is_replica_count none = false
is_replica_count (some (exact n)) = false
is_replica_count (some node_count) = false
is_replica_count (some replica_count) = true
is_replica_count (some unbounded) = false

-- The second loop: the first `R` state takes what is left.
unfoldable pub demand_replicas : StateModelDefinition → List State → Demand → Map State ℕ
unfolding is_replica_count cardinality_for insert
demand_replicas m [] d = d.result
demand_replicas m (state ∷ rest) d =
    let left = demand_replicas m rest d in
    if is_replica_count (cardinality_for m state)
      && ltb 0 d.remaining_candidates
      && ltb 0 d.remaining_replicas
    then insert d.result state (min d.remaining_candidates d.remaining_replicas)
    else left

-- `live_candidates`: the live instances of the preference list.
unfoldable pub live_candidates : ResourceTransitionInput → PartitionId → List InstanceId → ℕ
unfolding get count contains
live_candidates resource partition live_instances =
    count (contains live_instances) (unwrap_or (get resource.preference_lists partition) [])

unfoldable pub required_states :
    ResourceTransitionInput → PartitionId → List InstanceId → StateModelDefinition → Map State ℕ
unfolding demand_states demand_replicas live_candidates
required_states resource partition live_instances m =
    let first : Demand = record {
      remaining_candidates = live_candidates resource partition live_instances;
      remaining_replicas = unwrap_or resource.min_active_replicas resource.replicas;
      result = [];
    } in
    demand_replicas m m.states_by_priority (demand_states m m.states_by_priority first)

-- A replica in a required state satisfies one of its demands.
unfoldable pub satisfy : Option ℕ → State → Map State ℕ → Map State ℕ
unfolding insert
satisfy none state remaining = remaining
satisfy (some n) state remaining =
    if n == 1 then remove remaining state else insert remaining state (n - 1)

unfoldable pub satisfy_all : List State → Map State ℕ → Map State ℕ
unfolding satisfy get
satisfy_all [] remaining = remaining
satisfy_all (state ∷ rest) remaining =
    satisfy_all rest (satisfy (get remaining state) state remaining)

unfoldable pub rebalance_type :
    Map State ℕ → Map PartitionId (Map InstanceId State) → PartitionId → State → RebalanceType
unfolding satisfy_all get contains_key
rebalance_type required current partition target =
    let remaining = satisfy_all (values (unwrap_or (get current partition) [])) required in
    if contains_key remaining target then recovery_balance else load_balance
