-- ===== src/Controller/Throttle/Free.antt =====
-- src/controller/message_throttle.rs: controllers without a quota.
use clustodian.Model.Identity.{InstanceId, PartitionId, ResourceId}
use clustodian.Model.State.{State}
use clustodian.Model.StateModel.{StateModelDefinition}
use clustodian.Controller.Throttle.{
  RebalanceType, rebalance_ord, ResourceTransitionInput, OperationalPendingTransition, any_balance,
}
use clustodian.Controller.Throttle.Quota.{
  Quotas, ThrottleController, should_throttle, charge, quota_exhausted, exhausted, is_zero,
  charge_quota, empty_quotas,
}
use clustodian.Controller.Throttle.Required.{required_states}
use clustodian.Controller.Throttle.Charging.{
  charge_one, charge_each, charge_partitions, charge_pending, charge_all, is_charged,
}
use clustodian.Base.Logic.{ℕ, Bool-cases, Option-cases, ◌≡◌, refl, inl, inr, false, ◌∷◌, [], List}
use clustodian.Base.Lists.{All, In-All}
use clustodian.Base.Map.{Map, get, get-In, modify, insert-All}
use clustodian.Base.Ord.{eqb, string_ord, nat_ord, pair_ord}
use clustodian.Base.Sort.{sort_by}
use clustodian.Base.Group.{group_by, vector_at}
use clustodian.Controller.Throttle.Priority.{message_pending_priority}

-- No quota is set.
abbrev Unset : Map ResourceId Quotas → Type 0
Unset m = All (λ p. p.1 ≡ []) m

abbrev pub Free : ThrottleController → Type 0
Free c = (c.cluster ≡ []) × Unset c.resources × Unset c.instances

exhausted-Unset :
    (ty : RebalanceType) (m : Map ResourceId Quotas) (k : ResourceId)
    → Unset m
    → exhausted ty (get m k) ≡ false
unfolding exhausted quota_exhausted is_zero get
exhausted-Unset ty m k h = elim (Option-cases (get m k)) [
  | inl e ↦ rw e refl
  | inr (q, e) ↦ rw (e, In-All (λ p. p.1 ≡ []) (get-In m k q e) h) refl
]

pub should_throttle-Free :
    (c : ThrottleController) (ty : RebalanceType) (r : ResourceId) (i : InstanceId)
    → Free c
    → should_throttle c ty r i ≡ false
unfolding should_throttle quota_exhausted is_zero get
should_throttle-Free c ty r i (cluster, resources, instances) =
    rw
      (
        should_throttle,
        cluster,
        exhausted-Unset ty c.resources r resources,
        exhausted-Unset ty c.instances i instances,
        quota_exhausted,
        get,
      )
      refl

charge_quota-nil : (ty : RebalanceType) → charge_quota ty [] ≡ []
unfolding charge_quota modify
charge_quota-nil ty = elim (Bool-cases (eqb ty any_balance)) [
  | inl e ↦ rw e refl
  | inr e ↦ rw e refl
]

modify-Unset :
    (ty : RebalanceType) (m : Map ResourceId Quotas) (k : ResourceId)
    → Unset m
    → Unset (modify (charge_quota ty) m k)
unfolding modify
modify-Unset ty [] k h = tt
modify-Unset ty ((j, q) ∷ m) k h = elim (Bool-cases (eqb j k)) [
  | inl e ↦ rw (modify, e) (rw h.0 (charge_quota-nil ty), h.1)
  | inr e ↦ rw (modify, e) (h.0, modify-Unset ty m k h.1)
]

pub charge-Free :
    (c : ThrottleController) (ty : RebalanceType) (r : ResourceId) (i : InstanceId)
    → Free c
    → Free (charge ty r i c)
unfolding charge
charge-Free c ty r i (cluster, resources, instances) = (
  rw cluster (charge_quota-nil ty),
  modify-Unset ty c.resources r resources,
  modify-Unset ty c.instances i instances,
)

charge_each-Free :
    (r : ResourceTransitionInput) (required : Map State ℕ) (ts : List OperationalPendingTransition)
    (c : ThrottleController)
    → Free c
    → Free (charge_each r required ts c)
unfolding charge_each charge_one
charge_each-Free r required [] c free = free
charge_each-Free r required (t ∷ ts) c free =
    charge_each-Free r required ts _ (elim (Bool-cases (is_charged r t)) [
      | inl e ↦ rw (charge_one, e) (charge-Free c _ r.resource t.replica free)
      | inr e ↦ rw (charge_one, e) free
    ])

charge_partitions-Free :
    (r : ResourceTransitionInput) (live_instances : List InstanceId) (m : StateModelDefinition)
    (groups : Map PartitionId (List OperationalPendingTransition)) (c : ThrottleController)
    → Free c
    → Free (charge_partitions r live_instances m groups c)
unfolding charge_partitions
charge_partitions-Free r live_instances m [] c free = free
charge_partitions-Free r live_instances m ((p, ts) ∷ groups) c free =
    let required = required_states r p live_instances m in
    let sorted = sort_by (message_pending_priority r m) ts in
    charge_partitions-Free r live_instances m groups (charge_each r required sorted c)
      (charge_each-Free r required sorted c free)

pub charge_all-Free :
    (filed : Map ResourceId (List OperationalPendingTransition)) (live_instances : List InstanceId)
    (m : StateModelDefinition) (rs : List ResourceTransitionInput) (c : ThrottleController)
    → Free c
    → Free (charge_all filed live_instances m rs c)
unfolding charge_all charge_pending
charge_all-Free filed live_instances m [] c free = free
charge_all-Free filed live_instances m (r ∷ rs) c free =
    let own = group_by (λ t. t.partition) [] (vector_at filed r.resource) in
    charge_all-Free filed live_instances m rs (charge_partitions r live_instances m own c)
      (charge_partitions-Free r live_instances m own c free)

pub empty_quotas-Unset :
    (ks : List ResourceId) (m : Map ResourceId Quotas) → Unset m → Unset (empty_quotas ks m)
unfolding empty_quotas get
empty_quotas-Unset [] m h = h
empty_quotas-Unset (k ∷ ks) m h = empty_quotas-Unset ks _ (
    insert-All (λ p. p.1 ≡ []) m k _
      (elim (Option-cases (get m k)) [
        | inl e ↦ rw e refl
        | inr (q, e) ↦ rw (e, In-All (λ p. p.1 ≡ []) (get-In m k q e) h) refl
      ])
      h)
