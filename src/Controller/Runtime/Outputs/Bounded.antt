-- ===== src/Controller/Runtime/Outputs/Bounded.antt =====
-- How many messages a cycle adds under a cluster-wide limit.
use clustodian.Model.Identity.{InstanceId, ResourceId, PartitionId}
use clustodian.Model.Replica.{ExternalView}
use clustodian.Model.StateModel.{StateModelDefinition}
use clustodian.Rebalance.Topology.{CrushTopology, CrushInstance, CrushError}
use clustodian.Transition.{TransitionRequest}
use clustodian.Controller.Throttle.{StateTransitionThrottleConfig}
use clustodian.Controller.Throttle.Limits.{last_limit, limits_cluster}
use clustodian.Controller.Throttle.Safety.{cluster_throttled}
use clustodian.Controller.Runtime.{
  CoordinationSnapshot, PublishedTransition, ReconcileMode, Json, same_replica,
}
use clustodian.Controller.Runtime.Pending.{
  retain_pending, is_retained, is_replacement, operational_pending_for_plans,
}
use clustodian.Controller.Runtime.Outputs.{throttles_for, compute_outputs_with_pending_policy}
use clustodian.Controller.Runtime.Publish.{
  push_message, publish_one, publish_all, cmp_published, message_of,
}
use clustodian.Controller.Runtime.Outputs.Cycle.{outputs-Cycle}
use clustodian.Controller.Runtime.Outputs.Fenced.{count-dedup}
use clustodian.Base.Logic.{
  ℕ, Bool-cases, Option-cases, Result, ok-injective, ok, ◌+◌, ◌≤◌, ◌≡◌, refl, sym, ◌∙◌, inl, inr,
  Bool, true, false, not, none, some, List, ◌∷◌, arith, [],
}
use clustodian.Base.Lists.{
  length, any, filter, count, All, In, count-append, filter-All, All-of_In, here, there,
}
use clustodian.Base.Sort.{sort_by, count-sort_by}
use clustodian.Base.Map.{Map, keys, get}
use clustodian.Base.Ord.{eqb_refl, string_ord, nat_ord, pair_ord}

-- The message is for a replica that had none before the cycle.
abbrev pub is_added : List PublishedTransition → PublishedTransition → Bool
is_added pending x = not (any (λ y. same_replica y x) pending)

same_replica_self : (x : PublishedTransition) → same_replica x x ≡ true
unfolding same_replica
same_replica_self x = rw (eqb_refl x.resource, eqb_refl x.partition, eqb_refl x.replica) refl

In-any :
    (test : PublishedTransition → Bool) {x : PublishedTransition} {xs : List PublishedTransition}
    → In x xs
    → test x ≡ true
    → any test xs ≡ true
unfolding any
In-any test (here {y} {ys} e) h = rw (← e, h) refl
In-any test (there {y} {ys} i) h = ground (arith, In-any test i h)

-- Among the members of a list that all fail a test none passes it.
count_none :
    (test : PublishedTransition → Bool) (xs : List PublishedTransition)
    → All (λ x. test x ≡ false) xs
    → count test xs ≡ 0
unfolding count
count_none test [] h = refl
count_none test (x ∷ xs) h = rw (h.0) (omega (arith, count_none test xs h.1))

count-push_message :
    (test : PublishedTransition → Bool) (next : List PublishedTransition)
    (message : PublishedTransition)
    → count test (push_message next message) ≤ count test next + 1
unfolding push_message count
count-push_message test next message =
    elim (Bool-cases (any (λ existing. same_replica existing message) next)) [
      | inl e ↦ rw (push_message, e) (omega arith)
      | inr e ↦ rw (push_message, e) (ground (arith, count-append test next (message ∷ [])))
    ]

count-publish_all :
    (test : PublishedTransition → Bool) (snapshot : CoordinationSnapshot)
    (original : List PublishedTransition) (ts : List TransitionRequest) (ordinal : ℕ)
    (next : List PublishedTransition)
    → count test (publish_all snapshot original ordinal ts next) ≤ count test next + length ts
unfolding publish_all publish_one
count-publish_all test snapshot original [] ordinal next = omega arith
count-publish_all test snapshot original (t ∷ ts) ordinal next =
    elim (Option-cases (get snapshot.participants.live_instances t.replica)) [
      | inl e ↦ rw e (omega (arith, count-publish_all test snapshot original ts (ordinal + 1) next))
      | inr (live, e) ↦
          (let message = message_of snapshot original t live.session_id ordinal in
            rw e (
              omega (
                arith,
                count-push_message test next message,
                count-publish_all test snapshot original ts (ordinal + 1)
                    (push_message next message),
              )))
    ]

kept_none :
    (keep : PublishedTransition → Bool) (pending : List PublishedTransition)
    → count (is_added pending) (filter keep pending) ≡ 0
kept_none keep pending = count_none (is_added pending) (filter keep pending) (
    filter-All (λ x. is_added pending x ≡ false) keep pending
      (All-of_In (λ x. is_added pending x ≡ false) pending
        (λ x i. rw (In-any (λ y. same_replica y x) i (same_replica_self x)) refl)))

-- Where the throttles that the store has set a cluster-wide limit for work of any class, a cycle
-- after the first publishes messages for at most that many replicas that had none.
pub outputs_bounded :
    (json : Json)
    (crush : ResourceId
      → List PartitionId
      → ℕ
      → List CrushInstance
      → List InstanceId
      → CrushTopology
      → Result CrushError (Map PartitionId (List InstanceId)))
    (m : StateModelDefinition) (snapshot : CoordinationSnapshot)
    (pending : List PublishedTransition) (mode : ReconcileMode) {view : ExternalView}
    {next : List PublishedTransition} {limits : List StateTransitionThrottleConfig} (n : ℕ)
    → compute_outputs_with_pending_policy json crush m snapshot pending mode ≡ ok (view, next)
    → throttles_for json snapshot mode ≡ ok limits
    → last_limit limits_cluster limits none ≡ some n
    → count (is_added pending) next ≤ n
unfolding retain_pending
outputs_bounded json crush m snapshot pending mode {limits} n h read limit =
    let c = outputs-Cycle json crush m snapshot pending mode h in
    let strict = is_replacement mode in
    let kept = retain_pending pending snapshot c.actual c.plans strict in
    let same_limits : c.limits ≡ limits = ok-injective (sym c.limits_ok ∙ read) in
    let within =
      cluster_throttled c.inputs (keys snapshot.participants.live_instances)
        (operational_pending_for_plans kept c.plans mode) c.limits m n c.throttle_ok
        (rw same_limits limit) in
    let all = publish_all snapshot pending 0 c.throttle.dispatchable_transitions kept in
    rw (← c.next_is) (
      omega (
        arith,
        within,
        count-dedup (is_added pending) (sort_by cmp_published all),
        count-sort_by cmp_published (is_added pending) all,
        count-publish_all (is_added pending) snapshot pending c.throttle.dispatchable_transitions 0
            kept,
        kept_none (is_retained snapshot c.actual c.plans strict) pending,
      ))
