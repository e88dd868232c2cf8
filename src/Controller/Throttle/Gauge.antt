-- ===== src/Controller/Throttle/Gauge.antt =====
-- src/controller/message_throttle.rs: what the quotas of one scope do, as an interface, and what
-- every stage of a call does to them.
use clustodian.Model.Identity.{InstanceId, PartitionId, ResourceId}
use clustodian.Model.State.{State}
use clustodian.Model.StateModel.{StateModelDefinition, highest_priority_state}
use clustodian.Controller.Throttle.{
  RebalanceType, ResourceTransitionInput, OperationalPendingTransition, IntermediateThrottleResult,
}
use clustodian.Controller.Throttle.Quota.{ThrottleController, should_throttle, charge}
use clustodian.Controller.Throttle.Required.{rebalance_type}
use clustodian.Controller.Throttle.Stage.{
  Dispatching, dispatch_one, dispatch_each, dispatch_partitions, dispatch_resource,
  pending_by_resource_matches, dispatch_all,
}
use clustodian.Controller.Throttle.Checks.{validate_selected}
use clustodian.Transition.{TransitionRequest}
use clustodian.Base.Logic.{
  ℕ, if◌then◌else◌, Bool-cases, ◌+◌, ◌-◌, ◌≡◌, inl, inr, Bool, true, Option, some, List, ok, refl,
  sym, ◌∙◌, false, ◌∷◌, ◌++◌, arith, ℕ_discrete, [], List-cases, >>=-eq-ok, ok-injective, ◌≤◌,
}
use clustodian.Base.Lists.{count, All, count-append, filter-All}
use clustodian.Base.Map.{Map, get, keys}
use clustodian.Base.Ord.{string_ord, nat_ord, pair_ord, eqb-cases, eqb}
use clustodian.Base.Sort.{sort_by-All, sort_by}
use clustodian.Base.Group.{vector_at, vector_at-group_by, group_by}
use clustodian.Controller.Throttle.Priority.{partition_priority}
use clustodian.Model.Replica.{ReplicaStates}

-- One quota of the controller: where it stands, and which work it counts.
pub record Gauge : Type 0 where
  pub read : ThrottleController → Option ℕ
  pub counts : ResourceId → InstanceId → Bool
  pub blocks :
      (c : ThrottleController) (ty : RebalanceType) (r : ResourceId) (i : InstanceId)
      → read c ≡ some 0
      → counts r i ≡ true
      → should_throttle c ty r i ≡ true
  pub drops :
      (c : ThrottleController) (ty : RebalanceType) (r : ResourceId) (i : InstanceId) (n : ℕ)
      → read c ≡ some n
      → read (charge ty r i c) ≡ some (n - (if counts r i then 1 else 0))

pub validate_selected-own :
    (resource : ResourceTransitionInput) (m : StateModelDefinition) (ts : List TransitionRequest)
    → validate_selected resource m ts ≡ ok tt
    → All (λ t. t.resource ≡ resource.resource) ts
unfolding validate_selected
validate_selected-own resource m [] h = tt
validate_selected-own resource m (t ∷ ts) h = elim (eqb-cases t.resource resource.resource) [
  | inl (e, p) ↦ (p, validate_selected-own resource m ts (ground arith))
  | inr (e, n) ↦ absurd (ground arith)
]

module _ (g : Gauge) where
  -- The transitions that the quota counts.
  abbrev pub counted : TransitionRequest → Bool
  counted t = g.counts t.resource t.replica

  -- What is spent and what is left make up the quota.
  abbrev pub Balanced : ℕ → Dispatching → Type 0
  Balanced n d = (q : ℕ) × (g.read d.controller ≡ some q) × (count counted d.dispatchable + q ≡ n)

  spend :
      (n q : ℕ) (d : Dispatching) (class : RebalanceType) (r : ResourceId) (t : TransitionRequest)
      → t.resource ≡ r
      → should_throttle d.controller class r t.replica ≡ false
      → g.read d.controller ≡ some q
      → count counted d.dispatchable + q ≡ n
      → count counted (d.dispatchable ++ t ∷ []) + (q - (if g.counts r t.replica then 1 else 0)) ≡ n
  unfolding count
  spend n q d class r t own free left sum =
      rw (count-append counted d.dispatchable (t ∷ []), count, count, own)
        (elim (Bool-cases (g.counts r t.replica)) [
          | inl e ↦ rw e (elim (ℕ_discrete q 0) [
            | yes z ↦
                absurd
                  (cc (sym free ∙ g.blocks d.controller class r t.replica (left ∙ rw z refl) e))
            | no nz ↦ omega arith
          ])
          | inr e ↦ rw e (omega arith)
        ])

  dispatch_one-Balanced :
      (resource : ResourceTransitionInput) (pending : List OperationalPendingTransition)
      (required : Map State ℕ) (t : TransitionRequest) (n : ℕ) (d : Dispatching)
      → t.resource ≡ resource.resource
      → Balanced n d
      → Balanced n (dispatch_one resource pending required t d)
  unfolding dispatch_one
  dispatch_one-Balanced resource pending required t n d own (q, left, sum) =
      elim (Bool-cases (pending_by_resource_matches pending t)) [
        | inl e ↦ rw (dispatch_one, e) (q, left, sum)
        | inr e ↦
            elim (Bool-cases (should_throttle d.controller class resource.resource t.replica)) [
              | inl f ↦ rw (dispatch_one, e, f) (q, left, sum)
              | inr f ↦
                  rw (dispatch_one, e, f)
                    (
                      q - (if g.counts resource.resource t.replica then 1 else 0),
                      g.drops d.controller class resource.resource t.replica q left,
                      spend n q d class resource.resource t own f left sum,
                    )
            ]
      ]
    where
      class : RebalanceType
      class = rebalance_type required d.derived t.partition t.target_state

  dispatch_each-Balanced :
      (resource : ResourceTransitionInput) (pending : List OperationalPendingTransition)
      (required : Map State ℕ) (ts : List TransitionRequest) (n : ℕ) (d : Dispatching)
      → All (λ t. t.resource ≡ resource.resource) ts
      → Balanced n d
      → Balanced n (dispatch_each resource pending required ts d)
  unfolding dispatch_each
  dispatch_each-Balanced resource pending required [] n d own b = b
  dispatch_each-Balanced resource pending required (t ∷ ts) n d own b =
      dispatch_each-Balanced resource pending required ts n _ own.1
        (dispatch_one-Balanced resource pending required t n d own.0 b)

  dispatch_partitions-Balanced :
      (resource : ResourceTransitionInput) (pending : List OperationalPendingTransition)
      (live_instances : List InstanceId) (m : StateModelDefinition)
      (groups : Map PartitionId (List TransitionRequest)) (ps : List PartitionId) (n : ℕ)
      (d : Dispatching)
      → ((p : PartitionId) → All (λ t. t.resource ≡ resource.resource) (vector_at groups p))
      → Balanced n d
      → Balanced n (dispatch_partitions resource pending live_instances m groups ps d)
  unfolding dispatch_partitions
  dispatch_partitions-Balanced resource pending live_instances m groups [] n d own b = b
  dispatch_partitions-Balanced resource pending live_instances m groups (p ∷ ps) n d own b =
      dispatch_partitions-Balanced resource pending live_instances m groups ps n _ own
        (dispatch_each-Balanced resource pending _ _ n d (sort_by-All _ _ _ (own p)) b)

  own_groups :
      (r : ResourceId) (ts : List TransitionRequest)
      → All (λ t. t.resource ≡ r) ts
      → (p : PartitionId)
      → All (λ t. t.resource ≡ r) (vector_at (group_by (λ t. t.partition) [] ts) p)
  unfolding get
  own_groups r ts own p =
      rw (vector_at-group_by (λ t. t.partition) ts [] p)
        (filter-All (λ t. t.resource ≡ r) (λ t. eqb t.partition p) ts own)

  dispatch_resource-Balanced :
      (resource : ResourceTransitionInput) (pending : List OperationalPendingTransition)
      (live_instances : List InstanceId) (m : StateModelDefinition) (c : ThrottleController)
      (dispatched : List TransitionRequest) (n q : ℕ)
      → All (λ t. t.resource ≡ resource.resource) resource.selected_transitions
      → g.read c ≡ some q
      → count counted dispatched + q ≡ n
      → Balanced n (dispatch_resource resource pending live_instances m c dispatched)
  unfolding dispatch_resource
  dispatch_resource-Balanced resource pending live_instances m c dispatched n q own left sum =
      dispatch_partitions-Balanced resource pending live_instances m
        (group_by (λ t. t.partition) [] resource.selected_transitions)
        (sort_by (partition_priority resource (highest_priority_state m))
          (keys (group_by (λ t. t.partition) [] resource.selected_transitions)))
        n (record { derived = resource.current_state; controller = c; dispatchable = dispatched })
        (own_groups resource.resource resource.selected_transitions own) (q, left, sum)

  pub dispatch_all-Balanced :
      (groups : Map ResourceId (List OperationalPendingTransition))
      (live_instances : List InstanceId) (m : StateModelDefinition)
      (rs : List ResourceTransitionInput) (intermediate : Map ResourceId ReplicaStates)
      (c : ThrottleController) (dispatched : List TransitionRequest) (n q : ℕ)
      {out : IntermediateThrottleResult}
      → dispatch_all groups live_instances m intermediate c dispatched rs ≡ ok out
      → g.read c ≡ some q
      → count counted dispatched + q ≡ n
      → count counted out.dispatchable_transitions ≤ n
  unfolding dispatch_all
  dispatch_all-Balanced groups live_instances m [] intermediate c dispatched n q h left sum =
      rw (← ok-injective h) (omega arith)
  dispatch_all-Balanced groups live_instances m (r ∷ rs) intermediate c dispatched n q h left sum =
      let (_, valid, h1) = >>=-eq-ok (validate_selected r m r.selected_transitions) _ h in
      elim (List-cases r.selected_transitions) [
        | inl e ↦
            dispatch_all-Balanced groups live_instances m rs _ c dispatched n q (rw e at h1) left
              sum
        | inr (t, ts, e) ↦
            (let b =
                dispatch_resource-Balanced r (vector_at groups r.resource) live_instances m c
                  dispatched n q (validate_selected-own r m r.selected_transitions valid) left
                  sum in
              dispatch_all-Balanced groups live_instances m rs _ _ _ n b.0 (rw e at h1) b.1 b.2)
      ]
