-- ===== src/Controller/Throttle/Dispatched.antt =====
-- src/controller/message_throttle.rs: which transitions a call dispatches.
use clustodian.Model.Identity.{InstanceId, PartitionId, ResourceId}
use clustodian.Model.State.{State}
use clustodian.Model.Replica.{ReplicaStates}
use clustodian.Model.StateModel.{StateModelDefinition, highest_priority_state}
use clustodian.Controller.Throttle.{
  RebalanceType, ResourceTransitionInput, OperationalPendingTransition, IntermediateThrottleResult,
  StateTransitionThrottleConfig,
}
use clustodian.Controller.Throttle.Quota.{ThrottleController, should_throttle}
use clustodian.Controller.Throttle.Required.{rebalance_type}
use clustodian.Controller.Throttle.Checks.{
  index_resources, check_known, file_pending, validate_selected,
}
use clustodian.Controller.Throttle.Charged.{file_pending-group_by}
use clustodian.Controller.Throttle.Gauge.{validate_selected-own}
use clustodian.Controller.Throttle.Stage.{
  Dispatching, dispatch_one, dispatch_each, dispatch_partitions, dispatch_resource,
  pending_by_resource_matches, is_pending_match, dispatch_all, compute_intermediate_and_throttle,
}
use clustodian.Transition.{TransitionRequest}
use clustodian.Base.Logic.{
  ℕ, Bool-cases, List-cases, ◌>>◌, >>=-eq-ok, ok-injective, ok, ◌≡◌, refl, sym, ap, ◌∙◌, subst, inl,
  inr, Bool, false, ◌&&◌, List, ◌∷◌, [],
}
use clustodian.Base.Lists.{
  any, All, All-append, In, In-All, filter-All, any-filter, All-of_In, here, there,
}
use clustodian.Base.Sort.{sort_by, sort_by-All}
use clustodian.Base.Map.{Map, keys, get}
use clustodian.Base.Ord.{eqb, string_ord, nat_ord, pair_ord}
use clustodian.Base.Group.{group_by, vector_at, vector_at-group_by}
use clustodian.Controller.Throttle.Priority.{partition_priority}

-- The transition is in flight already.
abbrev pub is_in_flight : List OperationalPendingTransition → TransitionRequest → Bool
is_in_flight pending t = any (λ c. eqb c.resource t.resource && is_pending_match t c) pending

module _ {κ} (Q : TransitionRequest → Type κ) where
  dispatch_one-All :
      (resource : ResourceTransitionInput) (pending : List OperationalPendingTransition)
      (required : Map State ℕ) (t : TransitionRequest) (d : Dispatching)
      → (pending_by_resource_matches pending t ≡ false → Q t)
      → All Q d.dispatchable
      → All Q (dispatch_one resource pending required t d).dispatchable
  unfolding dispatch_one
  dispatch_one-All resource pending required t d good all_good =
      elim (Bool-cases (pending_by_resource_matches pending t)) [
        | inl e ↦ rw (dispatch_one, e) all_good
        | inr e ↦
            elim (Bool-cases (should_throttle d.controller class resource.resource t.replica)) [
              | inl f ↦ rw (dispatch_one, e, f) all_good
              | inr f ↦
                  rw (dispatch_one, e, f)
                    (All-append Q d.dispatchable (t ∷ []) all_good (good e, tt))
            ]
      ]
    where
      class : RebalanceType
      class = rebalance_type required d.derived t.partition t.target_state

  dispatch_each-All :
      (resource : ResourceTransitionInput) (pending : List OperationalPendingTransition)
      (required : Map State ℕ) (ts : List TransitionRequest) (d : Dispatching)
      → All (λ t. pending_by_resource_matches pending t ≡ false → Q t) ts
      → All Q d.dispatchable
      → All Q (dispatch_each resource pending required ts d).dispatchable
  unfolding dispatch_each
  dispatch_each-All resource pending required [] d good all_good = all_good
  dispatch_each-All resource pending required (t ∷ ts) d good all_good =
      dispatch_each-All resource pending required ts _ good.1
        (dispatch_one-All resource pending required t d good.0 all_good)

  dispatch_partitions-All :
      (resource : ResourceTransitionInput) (pending : List OperationalPendingTransition)
      (live_instances : List InstanceId) (m : StateModelDefinition)
      (groups : Map PartitionId (List TransitionRequest)) (ps : List PartitionId) (d : Dispatching)
      → ((p : PartitionId)
          → All (λ t. pending_by_resource_matches pending t ≡ false → Q t) (vector_at groups p))
      → All Q d.dispatchable
      → All Q (dispatch_partitions resource pending live_instances m groups ps d).dispatchable
  unfolding dispatch_partitions
  dispatch_partitions-All resource pending live_instances m groups [] d good all_good = all_good
  dispatch_partitions-All resource pending live_instances m groups (p ∷ ps) d good all_good =
      dispatch_partitions-All resource pending live_instances m groups ps _ good
        (dispatch_each-All resource pending _ _ d (sort_by-All _ _ _ (good p)) all_good)

  dispatch_resource-All :
      (resource : ResourceTransitionInput) (pending : List OperationalPendingTransition)
      (live_instances : List InstanceId) (m : StateModelDefinition) (c : ThrottleController)
      (dispatched : List TransitionRequest)
      → All (λ t. pending_by_resource_matches pending t ≡ false → Q t) resource.selected_transitions
      → All Q dispatched
      → All Q (dispatch_resource resource pending live_instances m c dispatched).dispatchable
  unfolding dispatch_resource get
  dispatch_resource-All resource pending live_instances m c dispatched good all_good =
      dispatch_partitions-All resource pending live_instances m
        (group_by (λ t. t.partition) [] resource.selected_transitions)
        (sort_by (partition_priority resource (highest_priority_state m))
          (keys (group_by (λ t. t.partition) [] resource.selected_transitions)))
        (record { derived = resource.current_state; controller = c; dispatchable = dispatched })
        (λ p.
          subst (All (λ t. pending_by_resource_matches pending t ≡ false → Q t))
            (sym (vector_at-group_by (λ t. t.partition) resource.selected_transitions [] p))
            (filter-All _ _ resource.selected_transitions good))
        all_good

-- A transition that is filed under its resource is not in flight where nothing there matches it.
pub not_in_flight :
    (pending : List OperationalPendingTransition) (r : ResourceId) (t : TransitionRequest)
    → t.resource ≡ r
    → pending_by_resource_matches (vector_at (group_by (λ c. c.resource) [] pending) r) t
      ≡ is_in_flight pending t
unfolding pending_by_resource_matches get
not_in_flight pending r t own =
    ap (any (is_pending_match t)) (vector_at-group_by (λ c. c.resource) pending [] r)
    ∙ any-filter (is_pending_match t) (λ c. eqb c.resource r) pending
    ∙ rw own refl

module _ (resources : List ResourceTransitionInput)
    (pending : List OperationalPendingTransition) where
  -- Where a dispatched transition comes from.
  abbrev pub Origin : TransitionRequest → Type 0
  Origin t =
      (r : ResourceTransitionInput) × In r resources
      × In t r.selected_transitions
      × (t.resource ≡ r.resource)
      × (is_in_flight pending t ≡ false)

  dispatch_all-Origin :
      (live_instances : List InstanceId) (m : StateModelDefinition)
      (rs : List ResourceTransitionInput) (intermediate : Map ResourceId ReplicaStates)
      (c : ThrottleController) (dispatched : List TransitionRequest)
      {out : IntermediateThrottleResult}
      → dispatch_all
          (group_by (λ t. t.resource) [] pending)
          live_instances
          m
          intermediate
          c
          dispatched
          rs
        ≡ ok out
      → ((r : ResourceTransitionInput) → In r rs → In r resources)
      → All Origin dispatched
      → All Origin out.dispatchable_transitions
  unfolding dispatch_all
  dispatch_all-Origin live_instances m [] intermediate c dispatched h known all_good =
      rw (← ok-injective h) all_good
  dispatch_all-Origin live_instances m (r ∷ rs) intermediate c dispatched h known all_good =
      let (_, valid, h1) = >>=-eq-ok (validate_selected r m r.selected_transitions) _ h in
      let own = validate_selected-own r m r.selected_transitions valid in
      elim (List-cases r.selected_transitions) [
        | inl e ↦
            dispatch_all-Origin live_instances m rs _ _ _ (rw e at h1) (λ q i. known q (there i))
              all_good
        | inr (t, ts, e) ↦
            dispatch_all-Origin live_instances m rs _ _ _ (rw e at h1) (λ q i. known q (there i))
              (dispatch_resource-All Origin r _ live_instances m c dispatched
                (All-of_In _ r.selected_transitions (λ u i free. (
                  r,
                  known r (here refl),
                  i,
                  In-All _ i own,
                  sym (not_in_flight pending r.resource u (In-All _ i own)) ∙ free,
                )))
                all_good)
      ]

-- Every transition that a call dispatches is one of the transitions selected for a resource of the
-- call, it names that resource, and it is not in flight already.
pub dispatch_sound :
    (resources : List ResourceTransitionInput) (live_instances : List InstanceId)
    (pending : List OperationalPendingTransition) (configs : List StateTransitionThrottleConfig)
    (m : StateModelDefinition) {out : IntermediateThrottleResult}
    → compute_intermediate_and_throttle resources live_instances pending configs m ≡ ok out
    → All (Origin resources pending) out.dispatchable_transitions
unfolding compute_intermediate_and_throttle
dispatch_sound resources live_instances pending configs m h =
    let (known, _, h1) = >>=-eq-ok (index_resources [] resources) _ h in
    let (groups, checked, h2) =
      >>=-eq-ok (check_known known pending >> file_pending [] [] pending) _ h1 in
    let (_, _, filed) = >>=-eq-ok (check_known known pending) _ checked in
    dispatch_all-Origin resources pending live_instances m resources [] _ []
      (rw (file_pending-group_by pending [] [] filed) at h2) (λ r i. i) tt
