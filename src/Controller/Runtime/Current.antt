-- ===== src/Controller/Runtime/Current.antt =====
-- src/controller/runtime.rs: `normalize_current` and `active_current_state`, the current states that
-- a cycle plans with. A `set_state(..).expect(..)` that would panic is the error of `set_state`.
pub mod Normalized
pub mod Started
pub mod Active
use clustodian.Model.Identity.{InstanceId, PartitionId, ResourceId}
use clustodian.Model.State.{State}
use clustodian.Model.Replica.{ReplicaStates, ReplicaStateError, CurrentState, set_state, get_state}
use clustodian.Model.Ideal.{IdealState}
use clustodian.Model.Session.{ActiveCurrentState}
use clustodian.Model.StateModel.{StateModelDefinition}
use clustodian.Base.Map.{Map, get, insert, contains_key}
use clustodian.Base.Lists.{contains}
use clustodian.Base.Ord.{string_ord, nat_ord, pair_ord}
use clustodian.Base.Logic.{
  List, if◌then◌else◌, Result, ◌>>=◌, is_some, unwrap_or, ok, String, not, ◌&&◌, ◌||◌, ◌∷◌, ◌>>◌,
  [],
}

-- The first loop, over the replicas of a partition: those of live instances are kept.
unfoldable pub keep_replicas :
    List InstanceId
    → PartitionId
    → Map InstanceId State
    → ReplicaStates
    → Result ReplicaStateError ReplicaStates
unfolding set_state contains
keep_replicas live partition [] built = ok built
keep_replicas live partition ((i, state) ∷ rest) built =
    if contains live i
    then set_state built partition i state >>= keep_replicas live partition rest
    else keep_replicas live partition rest built

unfoldable pub keep_partitions :
    List InstanceId → ReplicaStates → ReplicaStates → Result ReplicaStateError ReplicaStates
unfolding keep_replicas
keep_partitions live [] built = ok built
keep_partitions live ((p, replicas) ∷ rest) built =
    keep_replicas live p replicas built >>= keep_partitions live rest

-- The second loop, over a preference list: a live instance without a state starts in the initial
-- one.
unfoldable pub start_replicas :
    List InstanceId
    → State
    → CurrentState
    → PartitionId
    → List InstanceId
    → ReplicaStates
    → Result ReplicaStateError ReplicaStates
unfolding set_state get_state contains
start_replicas live initial actual partition [] built = ok built
start_replicas live initial actual partition (i ∷ rest) built =
    if contains live i && not (is_some (get_state actual partition i))
    then set_state built partition i initial >>= start_replicas live initial actual partition rest
    else start_replicas live initial actual partition rest built

unfoldable pub start_partitions :
    List InstanceId
    → State
    → CurrentState
    → Map PartitionId (List InstanceId)
    → ReplicaStates
    → Result ReplicaStateError ReplicaStates
unfolding start_replicas
start_partitions live initial actual [] built = ok built
start_partitions live initial actual ((p, instances) ∷ rest) built =
    start_replicas live initial actual p instances built
    >>= start_partitions live initial actual rest

unfoldable pub normalize_current :
    CurrentState
    → IdealState
    → List InstanceId
    → StateModelDefinition
    → Result ReplicaStateError CurrentState
unfolding keep_partitions start_partitions
normalize_current actual ideal live m =
    keep_partitions live actual []
    >>= start_partitions live m.initial_state actual ideal.preference_lists

-- The nested loops of `active_current_state`: the states of configured, live replicas.
unfoldable pub gather_replicas :
    Map InstanceId String
    → List InstanceId
    → Map InstanceId State
    → Map InstanceId State
    → Map InstanceId State
unfolding contains_key contains insert
gather_replicas configs live [] states = states
gather_replicas configs live ((replica, state) ∷ rest) states = gather_replicas configs live rest (
    if not (contains_key configs replica) || not (contains live replica)
    then states
    else insert states replica state)

unfoldable pub gather_partitions :
    Map InstanceId String → List InstanceId → CurrentState → ReplicaStates → ReplicaStates
unfolding gather_replicas get insert
gather_partitions configs live [] states = states
gather_partitions configs live ((p, replicas) ∷ rest) states =
    gather_partitions configs live rest
      (insert states p (gather_replicas configs live replicas (unwrap_or (get states p) [])))

unfoldable pub gather_resources :
    Map InstanceId String
    → List InstanceId
    → Map ResourceId CurrentState
    → Map ResourceId ReplicaStates
    → Map ResourceId ReplicaStates
unfolding gather_partitions get insert
gather_resources configs live [] states = states
gather_resources configs live ((r, current) ∷ rest) states =
    gather_resources configs live rest
      (insert states r (gather_partitions configs live current (unwrap_or (get states r) [])))

unfoldable pub gather_instances :
    Map InstanceId String
    → List InstanceId
    → Map InstanceId ActiveCurrentState
    → Map ResourceId ReplicaStates
    → Map ResourceId ReplicaStates
unfolding gather_resources
gather_instances configs live [] states = states
gather_instances configs live ((i, active) ∷ rest) states =
    gather_instances configs live rest (gather_resources configs live active.resources states)

-- The rebuilding of every resource's states with a builder.
unfoldable pub rebuild_replicas :
    PartitionId → Map InstanceId State → ReplicaStates → Result ReplicaStateError ReplicaStates
unfolding set_state
rebuild_replicas partition [] built = ok built
rebuild_replicas partition ((i, state) ∷ rest) built =
    set_state built partition i state >>= rebuild_replicas partition rest

unfoldable pub rebuild_partitions :
    ReplicaStates → ReplicaStates → Result ReplicaStateError ReplicaStates
unfolding rebuild_replicas
rebuild_partitions [] built = ok built
rebuild_partitions ((p, replicas) ∷ rest) built =
    rebuild_replicas p replicas built >>= rebuild_partitions rest

unfoldable pub rebuild_resources :
    Map ResourceId ReplicaStates → Result ReplicaStateError (Map ResourceId CurrentState)
unfolding rebuild_partitions
rebuild_resources [] = ok []
rebuild_resources ((r, entries) ∷ rest) = rebuild_partitions entries [] >>= λ current.
    rebuild_resources rest >>= λ others. ok ((r, current) ∷ others)

unfoldable pub active_current_state :
    Map InstanceId ActiveCurrentState
    → Map InstanceId String
    → List InstanceId
    → Result ReplicaStateError (Map ResourceId CurrentState)
unfolding gather_instances rebuild_resources
active_current_state active configs live =
    rebuild_resources (gather_instances configs live active [])
