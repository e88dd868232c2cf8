-- ===== src/Controller/Throttle/Charged.antt =====
-- src/controller/message_throttle.rs: what the transitions in flight take from a quota before any
-- transition is dispatched.
use clustodian.Model.Identity.{InstanceId, PartitionId, ResourceId}
use clustodian.Model.State.{State}
use clustodian.Model.StateModel.{StateModelDefinition}
use clustodian.Controller.Throttle.{
  ResourceTransitionInput, OperationalPendingTransition, IntermediateThrottleResult,
  StateTransitionThrottleConfig,
}
use clustodian.Controller.Throttle.Quota.{ThrottleController, new_controller}
use clustodian.Controller.Throttle.Required.{rebalance_type, required_states}
use clustodian.Controller.Throttle.Gauge.{Gauge, counted, dispatch_all-Balanced}
use clustodian.Controller.Throttle.Charging.{
  is_charged, charge_one, charge_each, charge_partitions, charge_pending, charge_all,
}
use clustodian.Controller.Throttle.Checks.{
  file_pending, index_resources, check_known, PendingKey, pending_key,
}
use clustodian.Controller.Throttle.Stage.{compute_intermediate_and_throttle}
use clustodian.Base.Logic.{
  ℕ, Bool-cases, >>=-eq-ok, ok-injective, ok, ◌+◌, ◌-◌, ◌≤◌, ◌≡◌, sym, ap, ◌∙◌, inl, inr, Bool,
  ◌&&◌, some, List, ◌∷◌, arith, ◌>>◌, [],
}
use clustodian.Base.Lists.{count, contains, count-filter}
use clustodian.Base.Sort.{sort_by, count-sort_by}
use clustodian.Base.Map.{Map}
use clustodian.Base.Ord.{eqb, string_ord, nat_ord, pair_ord}
use clustodian.Base.Group.{group_by, vector_at, vector_at-group_by, total, total-group_by}
use clustodian.Controller.Throttle.Priority.{message_pending_priority}

-- Grouping under the resources that succeeds has filed every pending transition.
pub file_pending-group_by :
    (pending : List OperationalPendingTransition) (seen : List PendingKey)
    (groups : Map ResourceId (List OperationalPendingTransition))
    {r : Map ResourceId (List OperationalPendingTransition)}
    → file_pending seen groups pending ≡ ok r
    → r ≡ group_by (λ t. t.resource) groups pending
unfolding file_pending group_by
file_pending-group_by [] seen groups h = sym (ok-injective h)
file_pending-group_by (t ∷ pending) seen groups h =
    elim (Bool-cases (contains seen (pending_key t))) [
      | inl e ↦ absurd (cc (rw e at h))
      | inr e ↦ file_pending-group_by pending _ _ (rw e at h)
    ]

-- The transitions in flight of a resource that count as work.
abbrev pub charges :
    (ResourceId → InstanceId → Bool) → ResourceTransitionInput → OperationalPendingTransition → Bool
charges works r t = is_charged r t && works r.resource t.replica

-- All the work that is in flight: for each resource, its transitions in flight.
abbrev pub in_flight :
    (ResourceId → InstanceId → Bool)
    → List ResourceTransitionInput
    → List OperationalPendingTransition
    → ℕ
in_flight works [] pending = 0
in_flight works (r ∷ rs) pending =
    count (λ t. eqb t.resource r.resource && charges works r t) pending + in_flight works rs pending

module _ (g : Gauge) where
  read-charge_each :
      (r : ResourceTransitionInput) (required : Map State ℕ)
      (ts : List OperationalPendingTransition) (c : ThrottleController) (q : ℕ)
      → g.read c ≡ some q
      → g.read (charge_each r required ts c) ≡ some (q - count (charges g.counts r) ts)
  unfolding charge_each charge_one count
  read-charge_each r required [] c q left = left ∙ ap some (omega arith)
  read-charge_each r required (t ∷ ts) c q left = elim (Bool-cases (is_charged r t)) [
    | inl e ↦
        rw (charge_one, e)
          (read-charge_each r required ts _ _ (
              g.drops c (rebalance_type required r.current_state t.partition t.target_state)
                r.resource t.replica q left)
            ∙ ap some (omega arith))
    | inr e ↦ rw (charge_one, e) (read-charge_each r required ts c q left ∙ ap some (omega arith))
  ]

  read-charge_partitions :
      (r : ResourceTransitionInput) (live_instances : List InstanceId) (m : StateModelDefinition)
      (groups : Map PartitionId (List OperationalPendingTransition)) (c : ThrottleController)
      (q : ℕ)
      → g.read c ≡ some q
      → g.read (charge_partitions r live_instances m groups c)
        ≡ some (q - total (charges g.counts r) groups)
  unfolding charge_partitions
  read-charge_partitions r live_instances m [] c q left = left ∙ ap some (omega arith)
  read-charge_partitions r live_instances m ((p, ts) ∷ groups) c q left =
      read-charge_partitions r live_instances m groups _ _ (
        read-charge_each r (required_states r p live_instances m)
          (sort_by (message_pending_priority r m) ts) c q left)
      ∙ ap some
          (omega (arith, count-sort_by (message_pending_priority r m) (charges g.counts r) ts))

  read-charge_pending :
      (r : ResourceTransitionInput) (pending : List OperationalPendingTransition)
      (live_instances : List InstanceId) (m : StateModelDefinition) (c : ThrottleController) (q : ℕ)
      → g.read c ≡ some q
      → g.read (charge_pending r pending live_instances m c)
        ≡ some (q - count (charges g.counts r) pending)
  unfolding charge_pending
  read-charge_pending r pending live_instances m c q left =
      read-charge_partitions r live_instances m (group_by (λ t. t.partition) [] pending) c q left
      ∙ ap some
          (omega (arith, total-group_by (charges g.counts r) (λ t. t.partition) pending [] tt))

  read-charge_all :
      (pending : List OperationalPendingTransition) (live_instances : List InstanceId)
      (m : StateModelDefinition) (rs : List ResourceTransitionInput) (c : ThrottleController)
      (q : ℕ)
      → g.read c ≡ some q
      → g.read (charge_all (group_by (λ t. t.resource) [] pending) live_instances m rs c)
        ≡ some (q - in_flight g.counts rs pending)
  unfolding charge_all
  read-charge_all pending live_instances m [] c q left = left ∙ ap some (omega arith)
  read-charge_all pending live_instances m (r ∷ rs) c q left =
      read-charge_all pending live_instances m rs _ _ (
        read-charge_pending r (vector_at (group_by (λ t. t.resource) [] pending) r.resource)
          live_instances m c q left)
      ∙ ap some (omega (arith, count_own))
    where
      count_own :
          count (charges g.counts r) (vector_at (group_by (λ t. t.resource) [] pending) r.resource)
          ≡ count (λ t. eqb t.resource r.resource && charges g.counts r t) pending
      count_own =
          ap (count (charges g.counts r))
            (vector_at-group_by (λ t. t.resource) pending [] r.resource)
          ∙ count-filter (charges g.counts r) (λ t. eqb t.resource r.resource) pending

  -- A call dispatches no more of the work that the quota counts than the transitions in flight
  -- leave of it.
  pub dispatch_within :
      (resources : List ResourceTransitionInput) (live_instances : List InstanceId)
      (pending : List OperationalPendingTransition) (configs : List StateTransitionThrottleConfig)
      (m : StateModelDefinition) (n : ℕ) {out : IntermediateThrottleResult}
      → compute_intermediate_and_throttle resources live_instances pending configs m ≡ ok out
      → g.read (new_controller resources live_instances configs) ≡ some n
      → count (counted g) out.dispatchable_transitions ≤ n - in_flight g.counts resources pending
  unfolding compute_intermediate_and_throttle count
  dispatch_within resources live_instances pending configs m n h limit =
      let (known, _, h1) = >>=-eq-ok (index_resources [] resources) _ h in
      let (groups, checked, h2) =
        >>=-eq-ok (check_known known pending >> file_pending [] [] pending) _ h1 in
      let (_, _, grouped) = >>=-eq-ok (check_known known pending) _ checked in
      let filed = file_pending-group_by pending [] [] grouped in
      dispatch_all-Balanced g groups live_instances m resources []
        (charge_all groups live_instances m resources
          (new_controller resources live_instances configs))
        [] (n - in_flight g.counts resources pending) (n - in_flight g.counts resources pending) h2
        (rw filed (read-charge_all pending live_instances m resources _ n limit)) (omega arith)
