-- ===== src/Controller/Generation/Requests.antt =====
-- Which transitions the generation asks for.
use clustodian.Controller.Generation.Validation.{Holds}
use clustodian.Base.Logic.{
  >>=-eq-ok, ok, ◌≡◌, refl, ◌∷◌, Option-cases, ok-injective, ap, subst, ◌≢◌, inl, inr, some, List,
  [],
}
use clustodian.Base.Lists.{In, here, there, All, All-append, In-append_left, In-append_right}
use clustodian.Base.Map.{Map}
use clustodian.Base.Ord.{string_ord, nat_ord, pair_ord, eqb-cases}
use clustodian.Model.Identity.{PartitionId, ResourceId, InstanceId}
use clustodian.Controller.Generation.{
  generate_transitions, validate_explicit_replica_set, requests_of, requests_of_partition,
  request_for,
}
use clustodian.Model.Replica.{CurrentState, BestPossibleState, get_state}
use clustodian.Model.State.{State}
use clustodian.Model.StateModel.{StateModelDefinition, next_state_toward}
use clustodian.Transition.{TransitionRequest}

-- What justifies a request: the replica's recorded state is its source, the target assignment holds
-- another state for it, and its target is the next hop from the one toward the other.
abbrev pub Justified :
    ResourceId
    → CurrentState
    → BestPossibleState
    → StateModelDefinition
    → TransitionRequest
    → Type 0
Justified resource current target m q =
    (q.resource ≡ resource)
    × (get_state current q.partition q.replica ≡ some q.source_state)
    × ((desired : State) × Holds target q.partition q.replica desired
        × (q.source_state ≢ desired)
        × (next_state_toward m q.source_state desired ≡ some q.target_state))

module _ (resource : ResourceId) (current : CurrentState) (m : StateModelDefinition) where
  request_for_cases :
      (target : BestPossibleState) (p : PartitionId) (r : InstanceId) (desired : State)
      → Holds target p r desired
      → All (Justified resource current target m) (request_for resource current m p r desired)
  unfolding request_for
  request_for_cases target p r desired held = elim (Option-cases (get_state current p r)) [
    | inl none_it ↦ rw (request_for, none_it) tt
    | inr (s, e) ↦ elim (eqb-cases s desired) [
      | inl (same, q) ↦ rw (request_for, e, same) tt
      | inr (other, n) ↦ elim (Option-cases (next_state_toward m s desired)) [
        | inl stuck ↦ rw (request_for, e, other, stuck) tt
        | inr (next, hop) ↦ rw (request_for, e, other, hop) ((refl, e, (desired, held, n, hop)), tt)
      ]
    ]
  ]

  of_partition_sound :
      (target : BestPossibleState) (p : PartitionId) (instances : Map InstanceId State)
      → ((r : InstanceId) (s : State) → In (r, s) instances → Holds target p r s)
      → All
          (Justified resource current target m)
          (requests_of_partition resource current m p instances)
  unfolding requests_of_partition
  of_partition_sound target p [] f = tt
  of_partition_sound target p ((r, s) ∷ rest) f =
      All-append _ (request_for resource current m p r s) _
        (request_for_cases target p r s (f r s (here refl)))
        (of_partition_sound target p rest (λ r s i. f r s (there i)))

  requests_of_sound :
      (target : BestPossibleState) (list : Map PartitionId (Map InstanceId State))
      → ((p : PartitionId) (x : Map InstanceId State) → In (p, x) list → In (p, x) target)
      → All (Justified resource current target m) (requests_of resource current m list)
  unfolding requests_of
  requests_of_sound target [] f = tt
  requests_of_sound target ((p, x) ∷ rest) f =
      All-append _ (requests_of_partition resource current m p x) _
        (of_partition_sound target p x (λ r s i. (x, f p x (here refl), i)))
        (requests_of_sound target rest (λ p x i. f p x (there i)))

  asked :
      (p : PartitionId) (r : InstanceId) (s desired next : State)
      → get_state current p r ≡ some s
      → s ≢ desired
      → next_state_toward m s desired ≡ some next
      → In
          (record {
            resource = resource;
            partition = p;
            replica = r;
            source_state = s;
            target_state = next;
          })
          (request_for resource current m p r desired)
  unfolding request_for
  asked p r s desired next e n hop = elim (eqb-cases s desired) [
    | inl (same, q) ↦ absurd (n q)
    | inr (other, n) ↦ rw (request_for, e, other, hop) (here refl)
  ]

  module _ (p : PartitionId) (r : InstanceId) (desired : State) (q : TransitionRequest)
      (there_it : In q (request_for resource current m p r desired)) where
    of_partition_complete :
        (instances : Map InstanceId State)
        → In (r, desired) instances
        → In q (requests_of_partition resource current m p instances)
    unfolding requests_of_partition
    of_partition_complete [] i = elim i [ ]
    of_partition_complete ((a, b) ∷ rest) (here e) =
        In-append_left {xs = request_for resource current m p a b} _
          (rw (← ap (λ v. v.0) e, ← ap (λ v. v.1) e) there_it)
    of_partition_complete ((a, b) ∷ rest) (there i) =
        In-append_right (request_for resource current m p a b) (of_partition_complete rest i)

    requests_of_complete :
        (list : Map PartitionId (Map InstanceId State)) (x : Map InstanceId State)
        → In (p, x) list
        → In (r, desired) x
        → In q (requests_of resource current m list)
    unfolding requests_of
    requests_of_complete [] x i j = elim i [ ]
    requests_of_complete ((a, b) ∷ rest) x (here e) j =
        In-append_left {xs = requests_of_partition resource current m a b} _
          (rw (← ap (λ v. v.0) e, ← ap (λ v. v.1) e) (of_partition_complete x j))
    requests_of_complete ((a, b) ∷ rest) x (there i) j =
        In-append_right (requests_of_partition resource current m a b)
          (requests_of_complete rest x i j)

-- Each generated request is for the resource and a replica in its recorded state, whose target
-- assignment is another state, and asks for the next hop toward it.
pub generate_transitions_sound :
    (resource : ResourceId) (current : CurrentState) (target : BestPossibleState)
    (m : StateModelDefinition) {requests : List TransitionRequest}
    → generate_transitions resource current target m ≡ ok requests
    → All (Justified resource current target m) requests
unfolding generate_transitions
generate_transitions_sound resource current target m h =
    let (u, valid, h1) = >>=-eq-ok (validate_explicit_replica_set current target) _ h in
    subst (All (Justified resource current target m)) (ok-injective h1)
      (requests_of_sound resource current m target target (λ p x i. i))

-- No replica is left out: where generation succeeds, a replica whose recorded state differs from its
-- target and has a next hop toward it is asked to take that hop.
pub generate_transitions_complete :
    (resource : ResourceId) (current : CurrentState) (target : BestPossibleState)
    (m : StateModelDefinition) (p : PartitionId) (r : InstanceId) (s desired next : State)
    {requests : List TransitionRequest}
    → generate_transitions resource current target m ≡ ok requests
    → get_state current p r ≡ some s
    → Holds target p r desired
    → s ≢ desired
    → next_state_toward m s desired ≡ some next
    → In
        (record {
          resource = resource;
          partition = p;
          replica = r;
          source_state = s;
          target_state = next;
        })
        requests
unfolding generate_transitions
generate_transitions_complete resource current target m p r s desired next h e (x, i, j) n hop =
    let (u, valid, h1) = >>=-eq-ok (validate_explicit_replica_set current target) _ h in
    subst (In _) (ok-injective h1) (
      requests_of_complete resource current m p r desired _
        (asked resource current m p r s desired next e n hop) target x i j)
