-- ===== src/Controller/Generation.antt =====
-- src/controller/message_generation.rs: the next transition of every replica.
pub mod Validation
pub mod Requests
use clustodian.Model.Identity.{InstanceId, PartitionId, ResourceId}
use clustodian.Model.State.{State}
use clustodian.Model.Replica.{CurrentState, BestPossibleState, get_state}
use clustodian.Model.StateModel.{StateModelDefinition, next_state_toward}
use clustodian.Transition.{TransitionRequest}
use clustodian.Base.Logic.{
  if◌then◌else◌, Result, ◌>>◌, is_some, ok, err, none, some, List, ◌∷◌, ◌++◌, [],
}
use clustodian.Base.Map.{Map}
use clustodian.Base.Ord.{eqb, string_ord, nat_ord, pair_ord}

pub data TransitionGenerationError : Type 0 where
  missing_current_state : PartitionId → InstanceId → TransitionGenerationError
  missing_target_state : PartitionId → InstanceId → TransitionGenerationError

-- The first instance of a partition that has no entry in the other map.
pub require_entries :
    (PartitionId → InstanceId → TransitionGenerationError)
    → CurrentState
    → PartitionId
    → Map InstanceId State
    → Result TransitionGenerationError (Unit {0})
require_entries missing other partition [] = ok tt
require_entries missing other partition ((replica, state) ∷ rest) =
    let later = require_entries missing other partition rest in
    if is_some (get_state other partition replica) then later else err (missing partition replica)

-- The same over every partition: one of the two loops of the validation.
pub require_partitions :
    (PartitionId → InstanceId → TransitionGenerationError)
    → CurrentState
    → Map PartitionId (Map InstanceId State)
    → Result TransitionGenerationError (Unit {0})
unfolding require_entries
require_partitions missing other [] = ok tt
require_partitions missing other ((partition, instances) ∷ rest) =
    require_entries missing other partition instances >> require_partitions missing other rest

pub validate_explicit_replica_set :
    CurrentState → BestPossibleState → Result TransitionGenerationError (Unit {0})
unfolding require_partitions
validate_explicit_replica_set current target =
    require_partitions missing_current_state current target
    >> require_partitions missing_target_state target current

-- The body of the inner loop. A missing current state panics in the source; validation rules it out.
pub request_for :
    ResourceId
    → CurrentState
    → StateModelDefinition
    → PartitionId
    → InstanceId
    → State
    → List TransitionRequest
request_for resource current m partition replica desired =
    elim (get_state current partition replica) [
      | none ↦ []
      | some state ↦ if eqb state desired then [] else (elim (next_state_toward m state desired) [
        | none ↦ []
        | some next ↦
            record {
              resource = resource;
              partition = partition;
              replica = replica;
              source_state = state;
              target_state = next;
            }
            ∷ []
      ])
    ]

pub requests_of_partition :
    ResourceId
    → CurrentState
    → StateModelDefinition
    → PartitionId
    → Map InstanceId State
    → List TransitionRequest
unfolding request_for
requests_of_partition resource current m partition [] = []
requests_of_partition resource current m partition ((replica, desired) ∷ rest) =
    request_for resource current m partition replica desired
    ++ requests_of_partition resource current m partition rest

pub requests_of :
    ResourceId
    → CurrentState
    → StateModelDefinition
    → Map PartitionId (Map InstanceId State)
    → List TransitionRequest
unfolding requests_of_partition
requests_of resource current m [] = []
requests_of resource current m ((partition, instances) ∷ rest) =
    requests_of_partition resource current m partition instances
    ++ requests_of resource current m rest

unfoldable pub generate_transitions :
    ResourceId
    → CurrentState
    → BestPossibleState
    → StateModelDefinition
    → Result TransitionGenerationError (List TransitionRequest)
unfolding validate_explicit_replica_set requests_of
generate_transitions resource current target m =
    validate_explicit_replica_set current target >> ok (requests_of resource current m target)
