-- ===== src/Controller/Runtime/Publish.antt =====
-- src/controller/runtime.rs: the messages that a cycle makes from dispatched transitions, and their\norder.
use Prim.Native.String.{◌++◌ as append, String}
use clustodian.Model.Session.{LiveInstance}
use clustodian.Transition.{TransitionRequest}
use clustodian.Controller.Runtime.{CoordinationSnapshot, PublishedTransition, same_replica}
use clustodian.Base.Decimal.{decimal}
use clustodian.Base.Map.{get}
use clustodian.Base.Lists.{any, find}
use clustodian.Base.Ord.{eqb, string_ord, then_with, nat_ord, pair_ord}
use clustodian.Base.Logic.{
  ℕ, if◌then◌else◌, ◌==◌, ◌+◌, compare, Ordering, Bool, ◌&&◌, Option, none, some, List, ◌∷◌, ◌++◌,
  [],
}

unfoldable pub same_transition : TransitionRequest → ℕ → PublishedTransition → Bool
same_transition t session existing =
    eqb existing.resource t.resource
    && eqb existing.partition t.partition
    && eqb existing.replica t.replica
    && existing.target_session == session
    && eqb existing.from t.source_state
    && eqb existing.to t.target_state
    && eqb existing.message_type "STATE_TRANSITION"

-- The identity of a message: that of the same transition before, or a new one.
unfoldable pub message_id_of :
    CoordinationSnapshot → List PublishedTransition → TransitionRequest → ℕ → ℕ → String
unfolding same_transition find decimal
message_id_of snapshot original t session ordinal =
    elim (find (same_transition t session) original) [
      | some existing ↦ existing.message_id
      | none ↦ append "m10:" (append (decimal snapshot.revision) (append ":" (decimal ordinal)))
    ]

unfoldable pub message_of :
    CoordinationSnapshot
    → List PublishedTransition
    → TransitionRequest
    → ℕ
    → ℕ
    → PublishedTransition
unfolding message_id_of
message_of snapshot original t session ordinal = record {
  resource = t.resource;
  partition = t.partition;
  replica = t.replica;
  target_session = session;
  from = t.source_state;
  to = t.target_state;
  message_type = "STATE_TRANSITION";
  message_id = message_id_of snapshot original t session ordinal;
}

-- A message is added unless one for the same replica is in flight.
unfoldable pub push_message :
    List PublishedTransition → PublishedTransition → List PublishedTransition
unfolding any same_replica
push_message next message =
    if any (λ existing. same_replica existing message) next then next else next ++ message ∷ []

unfoldable pub publish_one :
    CoordinationSnapshot
    → List PublishedTransition
    → TransitionRequest
    → ℕ
    → Option LiveInstance
    → List PublishedTransition
    → List PublishedTransition
unfolding push_message message_of
publish_one snapshot original t ordinal none next = next
publish_one snapshot original t ordinal (some live) next =
    push_message next (message_of snapshot original t live.session_id ordinal)

unfoldable pub publish_all :
    CoordinationSnapshot
    → List PublishedTransition
    → ℕ
    → List TransitionRequest
    → List PublishedTransition
    → List PublishedTransition
unfolding publish_one get
publish_all snapshot original ordinal [] next = next
publish_all snapshot original ordinal (t ∷ rest) next =
    publish_all snapshot original (ordinal + 1) rest (
      publish_one snapshot original t ordinal (get snapshot.participants.live_instances t.replica)
        next)

-- The derived `Ord` of messages.
unfoldable pub cmp_published : PublishedTransition → PublishedTransition → Ordering
cmp_published a b = then_with (string_ord.cmp a.resource b.resource) (
    then_with (string_ord.cmp a.partition b.partition) (
      then_with (string_ord.cmp a.replica b.replica) (
        then_with (compare a.target_session b.target_session) (
          then_with (string_ord.cmp a.from b.from) (
            then_with (string_ord.cmp a.to b.to) (
              then_with (string_ord.cmp a.message_type b.message_type)
                (string_ord.cmp a.message_id b.message_id)))))))

-- The derived equality.
unfoldable pub same_message : PublishedTransition → PublishedTransition → Bool
unfolding same_replica
same_message a b =
    same_replica a b
    && a.target_session == b.target_session
    && eqb a.from b.from
    && eqb a.to b.to
    && eqb a.message_type b.message_type
    && eqb a.message_id b.message_id

-- `dedup`: of equal neighbours the first stays.
unfoldable pub dedup_after :
    PublishedTransition → List PublishedTransition → List PublishedTransition
unfolding same_message
dedup_after last [] = []
dedup_after last (m ∷ rest) =
    let dropped = dedup_after last rest in
    let kept = dedup_after m rest in if same_message m last then dropped else m ∷ kept

unfoldable pub dedup : List PublishedTransition → List PublishedTransition
unfolding dedup_after
dedup [] = []
dedup (m ∷ rest) = m ∷ dedup_after m rest

-- No throttle is read at the start.
