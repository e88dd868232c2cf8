-- ===== src/Model/Session/Snapshots.antt =====
-- What expiration fences off, and what a snapshot shows.
use clustodian.Base.Map.{IsSorted, get_below, get-insert_self, get-insert_ne, Map, get}
use clustodian.Model.Session.Coherence.{new-Coherent, Coherent, store_session-other, allocated}
use clustodian.Model.Session.Steps.{
  opened_fresh, Run, live_session, run-Coherent, Opened, expire-Opened,
}
use clustodian.Base.Ord.{nat_ord, string_ord, pair_ord, eqb-cases, eqb, eqb_refl}
use clustodian.Model.State.{State}
use clustodian.Model.Identity.{PartitionId, ResourceId, InstanceId, SessionId}
use clustodian.Model.Session.{
  session_mismatch, LiveInstance, new, ActiveCurrentState, ParticipantSessionState, disconnect,
  require_live_session, expire_and_reconnect, go_live,
}
use clustodian.Model.Session.Records.{
  session_resources, snapshot, publish_current_state, collect_active,
}
use clustodian.Base.Logic.{
  ok, none, some, inr, ◌⊎◌, ◌≡◌, [], ◌∷◌, ◌==◌, unwrap_or, err, ◌<◌, refl, ◌∙◌, ◌≢◌, inl, false,
  Option, arith, >>=-eq-ok, ◌&&◌, true, if◌then◌else◌,
}

expired-known :
    (s : ParticipantSessionState) (i : InstanceId) (old : SessionId) {s' : ParticipantSessionState}
    {n : SessionId}
    → Coherent s
    → expire_and_reconnect s i old ≡ ok (s', n)
    → get s.known_sessions old ≡ some i
unfolding expire_and_reconnect
expired-known s i old c h =
    let (u, e, h1) = >>=-eq-ok (require_live_session s i old) _ h in
    let (live, e1, same) = live_session s i old e in rw (← same) (c.live_owned i live e1).1

-- Opening a session leaves the other records and the other instances.
Opened-others :
    (s : ParticipantSessionState) (i : InstanceId) (old : SessionId) {s' : ParticipantSessionState}
    {n : SessionId}
    → Opened s i s' n
    → n ≢ old
    → (session_resources s' i old ≡ session_resources s i old)
      × ((j : InstanceId) → i ≢ j → get s'.live_instances j ≡ get s.live_instances j)
unfolding go_live session_resources
Opened-others s i old {s'} {n} o apart =
    let (en, small, es) = allocated s i o.allocation in
    (
      rw (← o.result, ← es)
          (store_session-other s.current_states i i n old o.carried ∙ unequal (eqb-cases n old)),
      λ j ne. rw (← o.result, ← es) (get-insert_ne s.live_instances i _ j ne),
    )
  where
    unequal :
        ((eqb n old ≡ true) × (n ≡ old)) ⊎ ((eqb n old ≡ false) × (n ≢ old))
        → (if eqb i i && eqb n old then some o.carried else session_resources s i old)
          ≡ session_resources s i old
    unequal (inl (e, p)) = absurd (apart p)
    unequal (inr (e, p)) = rw (e, eqb_refl i) refl

mismatch :
    (s : ParticipantSessionState) (i : InstanceId) (old : SessionId) {n : SessionId}
    → get s.live_instances i ≡ some (record { instance_id = i; session_id = n })
    → (n == old) ≡ false
    → require_live_session s i old ≡ err (session_mismatch i n old)
unfolding require_live_session
mismatch s i old e apart = rw (require_live_session, e, apart) refl

-- After a call that expires a session, in a state that calls lead to from the new state, its holder
-- is fenced off: to publish under it and to disconnect it fail with the mismatch that names the new
-- session. Its records stay as they were, and so does the liveness of every other instance.
pub expired_session_fenced :
    (i : InstanceId) (old n : SessionId) (resource : ResourceId) (states : Map PartitionId State)
    {s s' : ParticipantSessionState}
    → Run new s
    → expire_and_reconnect s i old ≡ ok (s', n)
    → (publish_current_state s' i old resource states ≡ err (session_mismatch i n old))
      × (disconnect s' i old ≡ err (session_mismatch i n old))
      × (session_resources s' i old ≡ session_resources s i old)
      × ((j : InstanceId) → i ≢ j → get s'.live_instances j ≡ get s.live_instances j)
unfolding publish_current_state disconnect
expired_session_fenced i old n resource states {s} {s'} r h =
    let (fresh, owned, live_now) = opened_fresh i n r (inr (old, h)) in
    let c = run-Coherent r new-Coherent in
    let lt : old < n = fresh old i (expired-known s i old c h) in
    let apart : (n == old) ≡ false = ground arith in
    let refused = mismatch s' i old live_now apart in
    let others = Opened-others s i old (expire-Opened s i old h) (λ e. omega arith) in
    (rw refused refl, rw refused refl, others.0, others.1)

-- What a snapshot says of an instance: the session it is live under, with that session's records.
abbrev pub view_of :
    ParticipantSessionState → InstanceId → Option LiveInstance → Option ActiveCurrentState
view_of s i none = none
view_of s i (some live) = some (record {
  session_id = live.session_id;
  resources = unwrap_or (session_resources s i live.session_id) [];
})

-- The view of the instances of a list, over what was collected before.
abbrev view_over :
    ParticipantSessionState
    → InstanceId
    → Option ActiveCurrentState
    → Option LiveInstance
    → Option ActiveCurrentState
view_over s i before none = before
view_over s i before (some live) = view_of s i (some live)

collect_active-view :
    (s : ParticipantSessionState) (i : InstanceId) (list : Map InstanceId LiveInstance)
    (active : Map InstanceId ActiveCurrentState)
    → IsSorted list
    → get (collect_active s list active) i ≡ view_over s i (get active i) (get list i)
unfolding collect_active get
collect_active-view s i [] active h = refl
collect_active-view s i ((j, live) ∷ rest) active h = elim (eqb-cases j i) [
  | inl (e, p) ↦
      collect_active-view s i rest _ h.1
      ∙ rw (e, ← p, get_below rest j h.0) (get-insert_self active j _)
  | inr (e, n) ↦ collect_active-view s i rest _ h.1 ∙ rw (e, get-insert_ne active j _ i n) refl
]

-- In every state that calls lead to from the new state, a snapshot shows for each instance the
-- records of the session it is live under, never those of another session, and shows nothing for an
-- instance that is not live.
pub snapshot_shows_live :
    (i : InstanceId) {s : ParticipantSessionState}
    → Run new s
    → get (snapshot s).active_current_state i ≡ view_of s i (get s.live_instances i)
unfolding snapshot get
snapshot_shows_live i {s} r =
    collect_active-view s i s.live_instances [] (run-Coherent r new-Coherent).ordered
    ∙ seen (get s.live_instances i)
  where
    seen : (o : Option LiveInstance) → view_over s i none o ≡ view_of s i o
    seen none = refl
    seen (some live) = refl
