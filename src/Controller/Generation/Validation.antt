-- ===== src/Controller/Generation/Validation.antt =====
-- When the generation of transitions refuses its inputs.
use clustodian.Base.Logic.{is_some, >>=-eq-ok, ok, ◌≡◌, refl, true, ◌∷◌, ap, List, arith, []}
use clustodian.Base.Lists.{In, here, there}
use clustodian.Base.Map.{Map}
use clustodian.Base.Ord.{string_ord, nat_ord, pair_ord}
use clustodian.Model.Identity.{PartitionId, ResourceId, InstanceId}
use clustodian.Controller.Generation.{
  generate_transitions, validate_explicit_replica_set, TransitionGenerationError, requests_of,
  require_entries, require_partitions, missing_current_state, missing_target_state,
}
use clustodian.Model.Replica.{CurrentState, BestPossibleState, get_state}
use clustodian.Model.State.{State}
use clustodian.Model.StateModel.{StateModelDefinition}
use clustodian.Transition.{TransitionRequest}

-- A partition's entry for an instance, as a loop over the map meets it.
abbrev pub Holds :
    Map PartitionId (Map InstanceId State) → PartitionId → InstanceId → State → Type 0
Holds states p r s =
    (instances : Map InstanceId State) × In (p, instances) states × In (r, s) instances

-- Each entry of the first has one in the second.
abbrev pub Covered :
    Map PartitionId (Map InstanceId State) → Map PartitionId (Map InstanceId State) → Type 0
Covered from to =
    (p : PartitionId) (r : InstanceId) (s : State)
    → Holds from p r s
    → is_some (get_state to p r) ≡ true

module _ (missing : PartitionId → InstanceId → TransitionGenerationError)
    (other : Map PartitionId (Map InstanceId State)) where
  entries_ok :
      (p : PartitionId) (instances : Map InstanceId State)
      → require_entries missing other p instances ≡ ok tt
      → (r : InstanceId) (s : State) → In (r, s) instances
      → is_some (get_state other p r) ≡ true
  unfolding require_entries
  entries_ok p [] h r s i = elim i [ ]
  entries_ok p ((a, b) ∷ rest) h r s (here e) = rw (ap (λ v. v.0) e) (ground arith)
  entries_ok p ((a, b) ∷ rest) h r s (there i) = entries_ok p rest (ground arith) r s i

  ok_entries :
      (p : PartitionId) (instances : Map InstanceId State)
      → ((r : InstanceId) (s : State) → In (r, s) instances → is_some (get_state other p r) ≡ true)
      → require_entries missing other p instances ≡ ok tt
  unfolding require_entries
  ok_entries p [] f = refl
  ok_entries p ((a, b) ∷ rest) f =
      rw (f a b (here refl)) (ok_entries p rest (λ r s i. f r s (there i)))

  partitions_ok :
      (from : Map PartitionId (Map InstanceId State))
      → require_partitions missing other from ≡ ok tt
      → Covered from other
  unfolding require_partitions
  partitions_ok [] h p r s (x, i, j) = elim i [ ]
  partitions_ok ((q, instances) ∷ rest) h p r s (x, i, j) =
      let (u, first, later) = >>=-eq-ok (require_entries missing other q instances) _ h in
      elim i [
        | here e ↦
            rw (ap (λ v. v.0) e) (entries_ok q instances first r s (rw (← ap (λ v. v.1) e) j))
        | there i ↦ partitions_ok rest later p r s (x, i, j)
      ]

  ok_partitions :
      (from : Map PartitionId (Map InstanceId State))
      → Covered from other
      → require_partitions missing other from ≡ ok tt
  unfolding require_partitions
  ok_partitions [] f = refl
  ok_partitions ((q, instances) ∷ rest) f =
      rw (ok_entries q instances (λ r s i. f q r s (instances, here refl, i)))
        (ok_partitions rest (λ p r s (x, i, j). f p r s (x, there i, j)))

-- The generation succeeds where each entry of the target assignment has a recorded current state and
-- each recorded current state has an entry in the target assignment.
pub generate_transitions_total :
    (resource : ResourceId) (current : CurrentState) (target : BestPossibleState)
    (m : StateModelDefinition)
    → Covered target current
    → Covered current target
    → (q : List TransitionRequest) × (generate_transitions resource current target m ≡ ok q)
unfolding generate_transitions validate_explicit_replica_set
generate_transitions_total resource current target m there_it back = (
  requests_of resource current m target,
  rw
      (
        ok_partitions missing_current_state current target there_it,
        ok_partitions missing_target_state target current back,
      )
      refl,
)

-- The generation succeeds only where each entry of the target assignment has a recorded current
-- state and each recorded current state has an entry in the target assignment.
pub generate_transitions_requires :
    (resource : ResourceId) (current : CurrentState) (target : BestPossibleState)
    (m : StateModelDefinition) {requests : List TransitionRequest}
    → generate_transitions resource current target m ≡ ok requests
    → Covered target current × Covered current target
unfolding generate_transitions validate_explicit_replica_set
generate_transitions_requires resource current target m h =
    let (u, valid, h1) = >>=-eq-ok (validate_explicit_replica_set current target) _ h in
    let (v, one, two) =
      >>=-eq-ok (require_partitions missing_current_state current target) _ valid in
    (
      partitions_ok missing_current_state current target one,
      partitions_ok missing_target_state target current two,
    )
