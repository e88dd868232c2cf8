-- ===== src/Controller/Runtime/Pending.antt =====
-- src/controller/runtime.rs: the published messages that stay in flight, and the transitions that
-- they stand for.
use clustodian.Model.Identity.{PartitionId, ResourceId, is_empty_text}
use clustodian.Model.State.{State}
use clustodian.Model.Replica.{CurrentState, get_state}
use clustodian.Model.Ideal.{preference_list}
use clustodian.Model.Session.{LiveInstance}
use clustodian.Transition.{PendingTransition}
use clustodian.Controller.Throttle.{OperationalPendingTransition}
use clustodian.Controller.Runtime.{
  CoordinationSnapshot, PublishedTransition, ReconcileMode, startup, normal, session_replacement,
  ResourcePlan,
}
use clustodian.Base.Map.{Map, get, contains_key}
use clustodian.Base.Lists.{any, find, filter, contains}
use clustodian.Base.Ord.{eqb, string_ord, nat_ord, pair_ord}
use clustodian.Base.Logic.{
  if◌then◌else◌, ◌==◌, is_some, and_then, unwrap_or, Bool, true, false, not, ◌&&◌, ◌||◌, Option,
  none, some, List, ◌∷◌, map, [],
}

-- The message is for the session that its instance is live under.
unfoldable pub is_fenced : Option LiveInstance → PublishedTransition → Bool
is_fenced none m = false
is_fenced (some live) m = live.session_id == m.target_session

-- `None => true`, and otherwise the recorded state is the message's source.
unfoldable pub is_unmoved : Option State → PublishedTransition → Bool
unfolding eqb string_ord
is_unmoved none m = true
is_unmoved (some state) m = eqb state m.from

-- The checks against the plan of the message's resource.
unfoldable pub is_planned :
    Map ResourceId CurrentState → Bool → PublishedTransition → Option ResourcePlan → Bool
unfolding preference_list contains contains_key get get_state is_unmoved eqb string_ord
is_planned actual strict m none = false
is_planned actual strict m (some plan) =
    let preferred = preference_list plan.ideal m.partition in
    let current = get actual m.resource in
    let desired = contains (unwrap_or preferred []) m.replica in
    let removal = eqb m.to "OFFLINE" || eqb m.to "DROPPED" in
    if not (is_some preferred) && not (contains_key (unwrap_or current []) m.partition)
    then false
    else if strict && (if desired then removal else not removal)
    then false
    else is_unmoved (and_then current (λ states. get_state states m.partition m.replica)) m

-- The test of `retain_pending`.
unfoldable pub is_retained :
    CoordinationSnapshot
    → Map ResourceId CurrentState
    → List ResourcePlan
    → Bool
    → PublishedTransition
    → Bool
unfolding is_empty_text is_fenced is_planned get find eqb string_ord
is_retained snapshot actual plans strict m =
    not (is_empty_text m.replica)
    && is_fenced (get snapshot.participants.live_instances m.replica) m
    && not (is_empty_text m.resource)
    && not (is_empty_text m.partition)
    && is_planned actual strict m (find (λ plan. eqb plan.resource m.resource) plans)

unfoldable pub retain_pending :
    List PublishedTransition
    → CoordinationSnapshot
    → Map ResourceId CurrentState
    → List ResourcePlan
    → Bool
    → List PublishedTransition
unfolding filter is_retained
retain_pending pending snapshot actual plans strict =
    filter (is_retained snapshot actual plans strict) pending

unfoldable pub to_operational_pending : PublishedTransition → Option OperationalPendingTransition
unfolding is_empty_text
to_operational_pending m =
    if is_empty_text m.resource
      || is_empty_text m.partition
      || is_empty_text m.replica
      || is_empty_text m.from
      || is_empty_text m.to
    then none
    else some (record {
      resource = m.resource;
      partition = m.partition;
      replica = m.replica;
      source_state = m.from;
      target_state = m.to;
    })

unfoldable pub pending_partition_is_current_only : ResourcePlan → PartitionId → Bool
unfolding preference_list
pending_partition_is_current_only plan partition =
    not (is_some (preference_list plan.ideal partition))

unfoldable pub belongs_to : OperationalPendingTransition → ResourcePlan → Bool
unfolding preference_list contains pending_partition_is_current_only eqb string_ord
belongs_to t plan =
    eqb plan.resource t.resource
    && (contains (unwrap_or (preference_list plan.ideal t.partition) []) t.replica
        || pending_partition_is_current_only plan t.partition)

unfoldable pub is_replacement : ReconcileMode → Bool
is_replacement startup = false
is_replacement normal = false
is_replacement session_replacement = true

unfoldable pub operational_pending_for_plans :
    List PublishedTransition → List ResourcePlan → ReconcileMode → List OperationalPendingTransition
unfolding to_operational_pending belongs_to is_replacement any
operational_pending_for_plans [] plans mode = []
operational_pending_for_plans (m ∷ rest) plans mode =
    let others = operational_pending_for_plans rest plans mode in
    elim (to_operational_pending m) [
      | none ↦ others
      | some t ↦
          if not (is_replacement mode) || any (belongs_to t) plans then t ∷ others else others
    ]

unfoldable pub as_pending : OperationalPendingTransition → PendingTransition
as_pending t = record {
  partition = t.partition;
  replica = t.replica;
  source_state = t.source_state;
  target_state = t.target_state;
}

unfoldable pub pending_for_resource :
    ResourceId → List OperationalPendingTransition → List PendingTransition
unfolding as_pending filter eqb string_ord
pending_for_resource resource pending =
    map as_pending (filter (λ t. eqb t.resource resource) pending)
