-- ===== src/Controller/Throttle/Checks.antt =====
-- src/controller/message_throttle.rs: the checks of the inputs, and the grouping that goes with them.
use clustodian.Model.Identity.{InstanceId, PartitionId, ResourceId}
use clustodian.Model.State.{State, is_dropped}
use clustodian.Model.StateModel.{StateModelDefinition, next_state_toward}
use clustodian.Controller.Throttle.{
  ResourceTransitionInput, OperationalPendingTransition, IntermediateThrottleError,
  duplicate_resource, unknown_pending_resource, resource_mismatch, duplicate_pending,
  unknown_selected_partition,
}
use clustodian.Transition.{TransitionRequest}
use clustodian.Base.Ord.{string_ord, pair_ord, eqb, nat_ord}
use clustodian.Base.Map.{get, contains_key, Map, push_at}
use clustodian.Base.Lists.{find, contains}
use clustodian.Base.Set.{add}
use clustodian.Base.Logic.{
  if◌then◌else◌, Result, ok, err, Bool, true, false, not, ◌&&◌, ◌||◌, Option, none, some, List, ◌∷◌,
  [],
}

-- `resource_indexes`: only its keys are used.
unfoldable pub index_resources :
    List ResourceId
    → List ResourceTransitionInput
    → Result IntermediateThrottleError (List ResourceId)
unfolding add contains
index_resources seen [] = ok seen
index_resources seen (r ∷ rest) =
    if contains seen r.resource
    then err (duplicate_resource r.resource)
    else index_resources (add seen r.resource) rest

unfoldable pub check_known :
    List ResourceId
    → List OperationalPendingTransition
    → Result IntermediateThrottleError (Unit {0})
unfolding contains
check_known known [] = ok tt
check_known known (t ∷ rest) =
    if contains known t.resource
    then check_known known rest
    else err (unknown_pending_resource t.resource)

abbrev pub Place : Type 0
Place = PartitionId × InstanceId

abbrev pub PendingKey : Type 0
PendingKey = ResourceId × Place

unfoldable pub pending_key : OperationalPendingTransition → PendingKey
pending_key t = (t.resource, (t.partition, t.replica))

unfoldable pub file_pending :
    List PendingKey
    → Map ResourceId (List OperationalPendingTransition)
    → List OperationalPendingTransition
    → Result IntermediateThrottleError (Map ResourceId (List OperationalPendingTransition))
unfolding pending_key add contains push_at
file_pending seen groups [] = ok groups
file_pending seen groups (t ∷ rest) =
    if contains seen (pending_key t)
    then err (duplicate_pending t.partition t.replica)
    else file_pending (add seen (pending_key t)) (push_at groups t.resource t) rest

-- `option == Some(state)`.
unfoldable pub is_in_state : Option State → State → Bool
is_in_state none state = false
is_in_state (some s) state = eqb s state

unfoldable pub is_drop_transition :
    TransitionRequest → ResourceTransitionInput → StateModelDefinition → Bool
unfolding is_in_state next_state_toward contains_key find
is_drop_transition t resource m = elim (find is_dropped m.states_by_priority) [
  | none ↦ false
  | some dropped ↦
      contains_key resource.current_state t.partition
      && is_in_state (next_state_toward m t.source_state dropped) t.target_state
]

-- `is_some_and(|preference| !preference.is_empty())`.
unfoldable pub has_preference : Option (List InstanceId) → Bool
has_preference none = false
has_preference (some []) = false
has_preference (some (i ∷ rest)) = true

unfoldable pub validate_selected :
    ResourceTransitionInput
    → StateModelDefinition
    → List TransitionRequest
    → Result IntermediateThrottleError (Unit {0})
unfolding is_drop_transition has_preference contains_key get
validate_selected resource m [] = ok tt
validate_selected resource m (t ∷ rest) =
    if not (eqb t.resource resource.resource)
    then err (resource_mismatch resource.resource t.resource)
    else if not (contains_key resource.preference_lists t.partition)
        || (not (has_preference (get resource.preference_lists t.partition))
            && not (is_drop_transition t resource m))
    then err (unknown_selected_partition resource.resource t.partition)
    else validate_selected resource m rest
