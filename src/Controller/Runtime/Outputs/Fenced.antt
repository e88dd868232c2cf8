-- ===== src/Controller/Runtime/Outputs/Fenced.antt =====
-- What holds of the messages that a cycle publishes.
use clustodian.Model.Identity.{InstanceId, ResourceId, PartitionId}
use clustodian.Model.Replica.{ExternalView, CurrentState}
use clustodian.Model.Session.{LiveInstance}
use clustodian.Model.StateModel.{StateModelDefinition}
use clustodian.Rebalance.Topology.{CrushTopology, CrushInstance, CrushError}
use clustodian.Transition.{TransitionRequest}
use clustodian.Controller.Runtime.{
  CoordinationSnapshot, PublishedTransition, ReconcileMode, Json, same_replica, ResourcePlan,
}
use clustodian.Controller.Runtime.Pending.{retain_pending, is_retained, is_fenced, is_replacement}
use clustodian.Controller.Runtime.Outputs.{compute_outputs_with_pending_policy}
use clustodian.Controller.Runtime.Publish.{
  push_message, publish_one, publish_all, cmp_published, dedup, dedup_after, same_message,
  message_of,
}
use clustodian.Controller.Runtime.Outputs.Cycle.{outputs-Cycle}
use clustodian.Base.Logic.{
  ℕ, Bool-cases, Option-cases, ◌≤◌, ◌≡◌, refl, inl, inr, Bool, true, false, some, List, ◌∷◌, arith,
  [], Result, ok, ◌+◌, String,
}
use clustodian.Base.Lists.{
  any, count, All, count-append, filter, All-append, All-imp, filter_passes,
}
use clustodian.Base.Map.{Map, get}
use clustodian.Base.Ord.{string_ord, nat_ord, pair_ord, eqb, eqb_refl, eq_of_eqb}
use clustodian.Base.Sort.{sort_by, count-sort_by, sort_by-All}

-- A message is fenced by the session under which its instance is live.
abbrev pub Fenced : CoordinationSnapshot → PublishedTransition → Type 0
Fenced snapshot m =
    (live : LiveInstance) × (get snapshot.participants.live_instances m.replica ≡ some live)
    × (live.session_id ≡ m.target_session)

-- No replica has two messages.
abbrev pub OnePerReplica : List PublishedTransition → Type 0
OnePerReplica ms = (x : PublishedTransition) → count (λ y. same_replica y x) ms ≤ 1

retained-Fenced :
    (snapshot : CoordinationSnapshot) (actual : Map ResourceId CurrentState)
    (plans : List ResourcePlan) (strict : Bool) (m : PublishedTransition)
    → is_retained snapshot actual plans strict m ≡ true
    → Fenced snapshot m
unfolding is_retained is_fenced
retained-Fenced snapshot actual plans strict m h =
    elim (Option-cases (get snapshot.participants.live_instances m.replica)) [
      | inl e ↦ absurd (let k = rw (is_retained, e, is_fenced) at h in ground arith)
      | inr (live, e) ↦ (live, e, (let k = rw (is_retained, e, is_fenced) at h in ground arith))
    ]

dedup_after-All {κ} :
    (P : PublishedTransition → Type κ) (last : PublishedTransition) (ms : List PublishedTransition)
    → All P ms
    → All P (dedup_after last ms)
unfolding dedup_after
dedup_after-All P last [] h = tt
dedup_after-All P last (m ∷ ms) h = elim (Bool-cases (same_message m last)) [
  | inl e ↦ rw (dedup_after, e) (dedup_after-All P last ms h.1)
  | inr e ↦ rw (dedup_after, e) (h.0, dedup_after-All P m ms h.1)
]

dedup-All {κ} :
    (P : PublishedTransition → Type κ) (ms : List PublishedTransition) → All P ms → All P (dedup ms)
unfolding dedup
dedup-All P [] h = tt
dedup-All P (m ∷ ms) h = (h.0, dedup_after-All P m ms h.1)

count-dedup_after :
    (test : PublishedTransition → Bool) (last : PublishedTransition) (ms : List PublishedTransition)
    → count test (dedup_after last ms) ≤ count test ms
unfolding dedup_after count
count-dedup_after test last [] = omega arith
count-dedup_after test last (m ∷ ms) = elim (Bool-cases (same_message m last)) [
  | inl e ↦ rw (dedup_after, e) (omega (arith, count-dedup_after test last ms))
  | inr e ↦ rw (dedup_after, e) (omega (arith, count-dedup_after test m ms))
]

pub count-dedup :
    (test : PublishedTransition → Bool) (ms : List PublishedTransition)
    → count test (dedup ms) ≤ count test ms
unfolding dedup count
count-dedup test [] = omega arith
count-dedup test (m ∷ ms) = omega (arith, count-dedup_after test m ms)

eqb_trans : (a b c : String) → eqb a b ≡ true → eqb c b ≡ true → eqb a c ≡ true
eqb_trans a b c h k = rw (eq_of_eqb a b h, eq_of_eqb c b k) (eqb_refl b)

same_replica_trans :
    (x y z : PublishedTransition)
    → same_replica x y ≡ true
    → same_replica z y ≡ true
    → same_replica x z ≡ true
unfolding same_replica
same_replica_trans x y z h k = ground (
  arith,
  eqb_trans x.resource y.resource z.resource,
  eqb_trans x.partition y.partition z.partition,
  eqb_trans x.replica y.replica z.replica,
)

count-unless :
    (message x : PublishedTransition) (next : List PublishedTransition)
    → any (λ existing. same_replica existing message) next ≡ false
    → same_replica message x ≡ true
    → count (λ y. same_replica y x) next ≡ 0
unfolding any count
count-unless message x [] none_there same = refl
count-unless message x (y ∷ next) none_there same = elim (Bool-cases (same_replica y x)) [
  | inl e ↦ (let again = same_replica_trans y x message e same in absurd (ground arith))
  | inr e ↦ rw e (omega (arith, count-unless message x next (ground arith) same))
]

push_message-OnePerReplica :
    (next : List PublishedTransition) (message : PublishedTransition)
    → OnePerReplica next
    → OnePerReplica (push_message next message)
unfolding push_message count
push_message-OnePerReplica next message h x =
    elim (Bool-cases (any (λ existing. same_replica existing message) next)) [
      | inl e ↦ rw (push_message, e) (h x)
      | inr e ↦
          rw
            (
              push_message,
              e,
              count-append (λ y. same_replica y x) next (message ∷ []),
              count,
              count,
            )
            (elim (Bool-cases (same_replica message x)) [
              | inl same ↦ rw (same, count-unless message x next e same) (omega arith)
              | inr other ↦ rw other (omega (arith, h x))
            ])
    ]

publish_all-OnePerReplica :
    (snapshot : CoordinationSnapshot) (original : List PublishedTransition)
    (ts : List TransitionRequest) (ordinal : ℕ) (next : List PublishedTransition)
    → OnePerReplica next
    → OnePerReplica (publish_all snapshot original ordinal ts next)
unfolding publish_all publish_one
publish_all-OnePerReplica snapshot original [] ordinal next h = h
publish_all-OnePerReplica snapshot original (t ∷ ts) ordinal next h =
    publish_all-OnePerReplica snapshot original ts (ordinal + 1) _
      (elim (Option-cases (get snapshot.participants.live_instances t.replica)) [
        | inl e ↦ rw e h
        | inr (live, e) ↦ rw e (
            push_message-OnePerReplica next (message_of snapshot original t live.session_id ordinal)
              h)
      ])

push_message-All {κ} :
    (P : PublishedTransition → Type κ) (next : List PublishedTransition)
    (message : PublishedTransition)
    → P message
    → All P next
    → All P (push_message next message)
unfolding push_message
push_message-All P next message good h =
    elim (Bool-cases (any (λ existing. same_replica existing message) next)) [
      | inl e ↦ rw (push_message, e) h
      | inr e ↦ rw (push_message, e) (All-append P next (message ∷ []) h (good, tt))
    ]

publish_all-Fenced :
    (snapshot : CoordinationSnapshot) (original : List PublishedTransition)
    (ts : List TransitionRequest) (ordinal : ℕ) (next : List PublishedTransition)
    → All (Fenced snapshot) next
    → All (Fenced snapshot) (publish_all snapshot original ordinal ts next)
unfolding publish_all publish_one
publish_all-Fenced snapshot original [] ordinal next h = h
publish_all-Fenced snapshot original (t ∷ ts) ordinal next h =
    publish_all-Fenced snapshot original ts (ordinal + 1) _
      (elim (Option-cases (get snapshot.participants.live_instances t.replica)) [
        | inl e ↦ rw e h
        | inr (live, e) ↦ rw e (
            push_message-All (Fenced snapshot) next
              (message_of snapshot original t live.session_id ordinal) (live, e, refl) h)
      ])

count-filter_le :
    (test keep : PublishedTransition → Bool) (ms : List PublishedTransition)
    → count test (filter keep ms) ≤ count test ms
unfolding filter count
count-filter_le test keep [] = omega arith
count-filter_le test keep (m ∷ ms) = elim (Bool-cases (keep m)) [
  | inl e ↦ rw (e, filter, count) (omega (arith, count-filter_le test keep ms))
  | inr e ↦ rw (e, filter, count) (omega (arith, count-filter_le test keep ms))
]

module _ (json : Json)
    (crush : ResourceId
      → List PartitionId
      → ℕ
      → List CrushInstance
      → List InstanceId
      → CrushTopology
      → Result CrushError (Map PartitionId (List InstanceId)))
    (m : StateModelDefinition) where
  -- Every message that a cycle publishes, kept or new, is addressed to the session under which its
  -- instance is live in the snapshot.
  pub outputs-Fenced :
      (snapshot : CoordinationSnapshot) (pending : List PublishedTransition) (mode : ReconcileMode)
      {view : ExternalView} {next : List PublishedTransition}
      → compute_outputs_with_pending_policy json crush m snapshot pending mode ≡ ok (view, next)
      → All (Fenced snapshot) next
  unfolding retain_pending
  outputs-Fenced snapshot pending mode h =
      let c = outputs-Cycle json crush m snapshot pending mode h in
      let strict = is_replacement mode in
      let kept = retain_pending pending snapshot c.actual c.plans strict in
      rw (← c.next_is) (
        dedup-All (Fenced snapshot) _ (
          sort_by-All cmp_published (Fenced snapshot) _ (
            publish_all-Fenced snapshot pending c.throttle.dispatchable_transitions 0 kept (
              All-imp {P = λ x. is_retained snapshot c.actual c.plans strict x ≡ true}
                (retained-Fenced snapshot c.actual c.plans strict) kept
                (filter_passes (is_retained snapshot c.actual c.plans strict) pending)))))

  -- Where no replica has two messages before a cycle, none has two after it.
  pub outputs-OnePerReplica :
      (snapshot : CoordinationSnapshot) (pending : List PublishedTransition) (mode : ReconcileMode)
      {view : ExternalView} {next : List PublishedTransition}
      → compute_outputs_with_pending_policy json crush m snapshot pending mode ≡ ok (view, next)
      → OnePerReplica pending
      → OnePerReplica next
  unfolding retain_pending
  outputs-OnePerReplica snapshot pending mode h one x =
      let c = outputs-Cycle json crush m snapshot pending mode h in
      let strict = is_replacement mode in
      let kept = retain_pending pending snapshot c.actual c.plans strict in
      let all = publish_all snapshot pending 0 c.throttle.dispatchable_transitions kept in
      let kept_one : OnePerReplica kept = λ y. omega (
        arith,
        one y,
        count-filter_le (λ z. same_replica z y) (is_retained snapshot c.actual c.plans strict)
            pending,
      ) in
      let all_one =
        publish_all-OnePerReplica snapshot pending c.throttle.dispatchable_transitions 0 kept
          kept_one x in
      rw (← c.next_is) (
        omega (
          arith,
          all_one,
          count-dedup (λ y. same_replica y x) (sort_by cmp_published all),
          count-sort_by cmp_published (λ y. same_replica y x) all,
        ))
