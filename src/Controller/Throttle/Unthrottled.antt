-- ===== src/Controller/Throttle/Unthrottled.antt =====
-- src/controller/message_throttle.rs: a call without throttle configurations.
use clustodian.Controller.Throttle.Free.{
  Free, charge-Free, charge_all-Free, empty_quotas-Unset, should_throttle-Free,
}
use clustodian.Model.Identity.{InstanceId, PartitionId, ResourceId}
use clustodian.Model.State.{State}
use clustodian.Model.Replica.{ReplicaStates}
use clustodian.Model.StateModel.{StateModelDefinition, highest_priority_state}
use clustodian.Controller.Throttle.{
  RebalanceType, rebalance_ord, ResourceTransitionInput, OperationalPendingTransition,
  IntermediateThrottleResult,
}
use clustodian.Controller.Throttle.Quota.{ThrottleController, new_controller, apply_configs}
use clustodian.Controller.Throttle.Required.{rebalance_type, required_states}
use clustodian.Controller.Throttle.Checks.{
  index_resources, check_known, file_pending, validate_selected,
}
use clustodian.Controller.Throttle.Charged.{file_pending-group_by}
use clustodian.Controller.Throttle.Gauge.{validate_selected-own}
use clustodian.Controller.Throttle.Stage.{
  Dispatching, dispatch_one, dispatch_each, dispatch_partitions, dispatch_resource,
  pending_by_resource_matches, dispatch_all, compute_intermediate_and_throttle,
}
use clustodian.Controller.Throttle.Dispatched.{is_in_flight, not_in_flight}
use clustodian.Transition.{TransitionRequest}
use clustodian.Base.Logic.{
  ℕ, Bool-cases, ◌≡◌, refl, inl, inr, ◌∷◌, ◌>>◌, [], if◌then◌else◌, ◌+◌, Bool, not, ◌&&◌, List,
  arith, List-cases, >>=-eq-ok, ok-injective, ok, ap, ◌∙◌, map,
}
use clustodian.Base.Lists.{All, count, count-append, sum, All-imp, count_cong}
use clustodian.Base.Map.{Map, keys}
use clustodian.Base.Ord.{string_ord, nat_ord, pair_ord}
use clustodian.Base.Sort.{sort_by, count-sort_by, sum-sort_by}
use clustodian.Base.Group.{group_by, vector_at, group_by-IsSorted, total, total-group_by, sum-keys}
use clustodian.Controller.Throttle.Priority.{partition_priority, message_priority}

-- What a message adds to the members of `test` that are dispatched.
abbrev added :
    (TransitionRequest → Bool) → List OperationalPendingTransition → TransitionRequest → Bool
added test pending t = not (pending_by_resource_matches pending t) && test t

-- With `n` members of `test` dispatched and no quota set.
abbrev Reached : (TransitionRequest → Bool) → ℕ → Dispatching → Type 0
Reached test n d = Free d.controller × (count test d.dispatchable ≡ n)

module _ (test : TransitionRequest → Bool) (resource : ResourceTransitionInput)
    (pending : List OperationalPendingTransition) where
  dispatch_one-Reached :
      (required : Map State ℕ) (t : TransitionRequest) (n : ℕ) (d : Dispatching)
      → Reached test n d
      → Reached test
          (n + (if added test pending t then 1 else 0))
          (dispatch_one resource pending required t d)
  unfolding dispatch_one count
  dispatch_one-Reached required t n d (free, total) =
      elim (Bool-cases (pending_by_resource_matches pending t)) [
        | inl e ↦ rw (dispatch_one, e) (free, omega (arith, total))
        | inr e ↦
            rw
              (
                dispatch_one,
                e,
                should_throttle-Free d.controller class resource.resource t.replica free,
              )
              (
                charge-Free d.controller class resource.resource t.replica free,
                omega (arith, total, count-append test d.dispatchable (t ∷ [])),
              )
      ]
    where
      class : RebalanceType
      class = rebalance_type required d.derived t.partition t.target_state

  dispatch_each-Reached :
      (required : Map State ℕ) (ts : List TransitionRequest) (n : ℕ) (d : Dispatching)
      → Reached test n d
      → Reached test
          (n + count (added test pending) ts)
          (dispatch_each resource pending required ts d)
  unfolding dispatch_each count
  dispatch_each-Reached required [] n d (free, total) = (free, omega (arith, total))
  dispatch_each-Reached required (t ∷ ts) n d reached =
      let (free, total) =
        dispatch_each-Reached required ts _ _ (dispatch_one-Reached required t n d reached) in
      (free, omega (arith, total))

  dispatch_partitions-Reached :
      (live_instances : List InstanceId) (m : StateModelDefinition)
      (groups : Map PartitionId (List TransitionRequest)) (ps : List PartitionId) (n : ℕ)
      (d : Dispatching)
      → Reached test n d
      → Reached test
          (n + sum (λ p. count (added test pending) (vector_at groups p)) ps)
          (dispatch_partitions resource pending live_instances m groups ps d)
  unfolding dispatch_partitions
  dispatch_partitions-Reached live_instances m groups [] n d (free, total) =
      (free, omega (arith, total))
  dispatch_partitions-Reached live_instances m groups (p ∷ ps) n d reached =
      let sorted = sort_by (message_priority resource m) (vector_at groups p) in
      let (free, total) =
        dispatch_partitions-Reached live_instances m groups ps _ _ (
          dispatch_each-Reached (required_states resource p live_instances m) sorted n d reached) in
      (
        free,
        omega (
          arith,
          total,
          count-sort_by (message_priority resource m) (added test pending) (vector_at groups p),
        ),
      )

  dispatch_resource-Reached :
      (live_instances : List InstanceId) (m : StateModelDefinition) (c : ThrottleController)
      (dispatched : List TransitionRequest)
      → Free c
      → Reached test
          (count test dispatched + count (added test pending) resource.selected_transitions)
          (dispatch_resource resource pending live_instances m c dispatched)
  unfolding dispatch_resource
  dispatch_resource-Reached live_instances m c dispatched free =
      let (free', total') =
        dispatch_partitions-Reached live_instances m groups
          (sort_by (partition_priority resource (highest_priority_state m)) (keys groups))
          (count test dispatched)
          (record { derived = resource.current_state; controller = c; dispatchable = dispatched })
          (free, refl) in
      (
        free',
        omega (
          arith,
          total',
          sum-sort_by (partition_priority resource (highest_priority_state m))
              (λ p. count (added test pending) (vector_at groups p)) (keys groups),
          sum-keys (added test pending) groups
              (group_by-IsSorted (λ t. t.partition) resource.selected_transitions [] tt),
          total-group_by (added test pending) (λ t. t.partition) resource.selected_transitions []
              tt,
        ),
      )
    where
      groups : Map PartitionId (List TransitionRequest)
      groups = group_by (λ t. t.partition) [] resource.selected_transitions

-- The selected transitions that pass `test` and are not in flight.
abbrev pub waiting :
    (TransitionRequest → Bool)
    → List OperationalPendingTransition
    → List ResourceTransitionInput
    → ℕ
waiting test pending =
    sum (λ r. count (λ t. not (is_in_flight pending t) && test t) r.selected_transitions)

dispatch_all-waiting :
    (test : TransitionRequest → Bool) (pending : List OperationalPendingTransition)
    (live_instances : List InstanceId) (m : StateModelDefinition)
    (rs : List ResourceTransitionInput) (intermediate : Map ResourceId ReplicaStates)
    (c : ThrottleController) (dispatched : List TransitionRequest)
    {out : IntermediateThrottleResult}
    → dispatch_all
        (group_by (λ t. t.resource) [] pending)
        live_instances
        m
        intermediate
        c
        dispatched
        rs
      ≡ ok out
    → Free c
    → count test out.dispatchable_transitions ≡ count test dispatched + waiting test pending rs
unfolding dispatch_all count
dispatch_all-waiting test pending live_instances m [] intermediate c dispatched h free =
    rw (← ok-injective h) (omega arith)
dispatch_all-waiting test pending live_instances m (r ∷ rs) intermediate c dispatched h free =
    let (_, valid, h1) = >>=-eq-ok (validate_selected r m r.selected_transitions) _ h in
    elim (List-cases r.selected_transitions) [
      | inl e ↦
          rw (e, count)
            (dispatch_all-waiting test pending live_instances m rs _ c dispatched (rw e at h1) free
              ∙ omega arith)
      | inr (t, ts, e) ↦
          (let (free', total) =
              dispatch_resource-Reached test r
                (vector_at (group_by (λ t. t.resource) [] pending) r.resource) live_instances m c
                dispatched free in
            dispatch_all-waiting test pending live_instances m rs _ _ _ (rw e at h1) free'
            ∙ omega
                (arith, total, same_added (validate_selected-own r m r.selected_transitions valid)))
    ]
  where
    same_added :
        All (λ t. t.resource ≡ r.resource) r.selected_transitions
        → count
            (added test (vector_at (group_by (λ t. t.resource) [] pending) r.resource))
            r.selected_transitions
          ≡ count (λ t. not (is_in_flight pending t) && test t) r.selected_transitions
    same_added own = count_cong _ _ r.selected_transitions (
        All-imp {P = λ t. t.resource ≡ r.resource}
          (λ t e. ap (λ b. not b && test t) (not_in_flight pending r.resource t e))
          r.selected_transitions own)

-- Without throttle configurations a successful call holds nothing back: each transition is
-- dispatched as often as it is selected over all resources, those in flight already left out.
pub unthrottled_dispatches :
    (resources : List ResourceTransitionInput) (live_instances : List InstanceId)
    (pending : List OperationalPendingTransition) (m : StateModelDefinition)
    (test : TransitionRequest → Bool) {out : IntermediateThrottleResult}
    → compute_intermediate_and_throttle resources live_instances pending [] m ≡ ok out
    → count test out.dispatchable_transitions ≡ waiting test pending resources
unfolding compute_intermediate_and_throttle new_controller apply_configs count
unthrottled_dispatches resources live_instances pending m test h =
    let (known, _, h1) = >>=-eq-ok (index_resources [] resources) _ h in
    let (groups, checked, h2) =
      >>=-eq-ok (check_known known pending >> file_pending [] [] pending) _ h1 in
    let (_, _, filed) = >>=-eq-ok (check_known known pending) _ checked in
    dispatch_all-waiting test pending live_instances m resources [] _ []
      (rw (file_pending-group_by pending [] [] filed) at h2)
      (charge_all-Free _ live_instances m resources _ (
        refl,
        empty_quotas-Unset (map (λ r. r.resource) resources) [] tt,
        empty_quotas-Unset live_instances [] tt,
      ))
    ∙ omega arith
