-- ===== src/Model/Replica.antt =====
-- src/model/replica_state.rs, and the maps that wrap it: current_state.rs, best_possible_state.rs,
-- external_view.rs and src/controller/intermediate_state.rs. A builder holds the same map as the
-- value that it publishes, so both are the map itself.
pub mod Stores
use clustodian.Model.Identity.{InstanceId, PartitionId, ResourceId}
use clustodian.Model.State.{State}
use clustodian.Base.Map.{Map, get, insert}
use clustodian.Base.Logic.{
  Option, Result, ◌>>◌, unwrap_or, and_then, [], if◌then◌else◌, is_some, ok, err,
}
use clustodian.Base.Ord.{string_ord, nat_ord, pair_ord}

pub data ReplicaStateError : Type 0 where
  duplicate : PartitionId → InstanceId → ReplicaStateError

abbrev pub ReplicaStates : Type 0
ReplicaStates = Map PartitionId (Map InstanceId State)

-- `ReplicaStates::insert`: the state is stored also where the entry was there before.
unfoldable pub insert_state :
    ReplicaStates
    → PartitionId
    → InstanceId
    → State
    → ReplicaStates × Result ReplicaStateError (Unit {0})
insert_state states partition replica state =
    let instances = unwrap_or (get states partition) [] in
    (
      insert states partition (insert instances replica state),
      if is_some (get instances replica) then err (duplicate partition replica) else ok tt,
    )

-- `ReplicaStates::get`.
unfoldable pub get_state : ReplicaStates → PartitionId → InstanceId → Option State
get_state states partition replica = and_then (get states partition) (λ m. get m replica)

abbrev pub CurrentState : Type 0
CurrentState = ReplicaStates

abbrev pub BestPossibleState : Type 0
BestPossibleState = ReplicaStates

-- `builder.set_state(..)?`: the builder goes on only where the entry is new.
unfoldable pub set_state :
    ReplicaStates → PartitionId → InstanceId → State → Result ReplicaStateError ReplicaStates
unfolding insert_state
set_state states partition replica state =
    let (states', result) = insert_state states partition replica state in result >> ok states'

abbrev pub ExternalView : Type 0
ExternalView = Map ResourceId ReplicaStates

-- `ExternalView::from_current_states`: collects the maps under their resources.
unfoldable pub from_current_states : Map ResourceId CurrentState → ExternalView
from_current_states current_states = current_states

-- `ExternalView::state`, and `IntermediateState::state` on a map of the same type.
unfoldable pub view_state : ExternalView → ResourceId → PartitionId → InstanceId → Option State
unfolding get_state
view_state view resource partition replica =
    and_then (get view resource) (λ states. get_state states partition replica)

abbrev pub IntermediateState : Type 0
IntermediateState = ExternalView
