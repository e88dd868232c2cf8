-- ===== src/Controller/Throttle/Accepted.antt =====
-- src/controller/message_throttle.rs: the inputs that a call accepts.
use clustodian.Model.Identity.{ResourceId, InstanceId}
use clustodian.Model.StateModel.{StateModelDefinition}
use clustodian.Controller.Throttle.{
  ResourceTransitionInput, OperationalPendingTransition, StateTransitionThrottleConfig,
  IntermediateThrottleResult,
}
use clustodian.Controller.Throttle.Checks.{
  index_resources, check_known, file_pending, pending_key, PendingKey, is_drop_transition,
  has_preference, validate_selected,
}
use clustodian.Transition.{TransitionRequest}
use clustodian.Base.Logic.{
  Bool-cases, ok-injective, ok, ◌≡◌, refl, sym, ◌⊎◌, inl, inr, true, List, ◌∷◌, map, arith, [],
  List-cases, ◌>>◌, >>=-eq-ok, ◌∙◌, ◌↔◌,
}
use clustodian.Base.Lists.{All, contains, Distinct, All-imp}
use clustodian.Base.Map.{Map, get, contains_key, push_at}
use clustodian.Base.Ord.{eqb_refl, eqb-cases, string_ord, nat_ord, pair_ord, Ord}
use clustodian.Base.Group.{group_by}
use clustodian.Base.Set.{add, extend, Fresh, Fresh-add, add-Fresh, contains-extend}
use clustodian.Controller.Throttle.Stage.{compute_intermediate_and_throttle, dispatch_all}
use clustodian.Model.Replica.{ReplicaStates}
use clustodian.Controller.Throttle.Quota.{ThrottleController}

index_resources-ok :
    (rs : List ResourceTransitionInput) (seen : List ResourceId) {known : List ResourceId}
    → index_resources seen rs ≡ ok known
    → Fresh seen (map (λ r. r.resource) rs)
      × Distinct (map (λ r. r.resource) rs)
      × (known ≡ extend seen (map (λ r. r.resource) rs))
unfolding index_resources extend
index_resources-ok [] seen h = (tt, tt, sym (ok-injective h))
index_resources-ok (r ∷ rs) seen h = elim (Bool-cases (contains seen r.resource)) [
  | inl e ↦ absurd (cc (rw e at h))
  | inr e ↦
      (let (fresh, distinct, same) = index_resources-ok rs (add seen r.resource) (rw e at h) in
        let (new_it, fresh') = Fresh-add seen (map (λ r. r.resource) rs) r.resource fresh in
        ((e, fresh'), (new_it, distinct), same))
]

index_resources_accepts :
    (rs : List ResourceTransitionInput) (seen : List ResourceId)
    → Fresh seen (map (λ r. r.resource) rs)
    → Distinct (map (λ r. r.resource) rs)
    → index_resources seen rs ≡ ok (extend seen (map (λ r. r.resource) rs))
unfolding index_resources extend
index_resources_accepts [] seen fresh distinct = refl
index_resources_accepts (r ∷ rs) seen fresh distinct = rw (fresh.0) (
    index_resources_accepts rs (add seen r.resource)
      (add-Fresh seen (map (λ r. r.resource) rs) r.resource distinct.0 fresh.1) distinct.1)

check_known-ok :
    (known : List ResourceId) (ts : List OperationalPendingTransition)
    → check_known known ts ≡ ok tt
    → All (λ t. contains known t.resource ≡ true) ts
unfolding check_known
check_known-ok known [] h = tt
check_known-ok known (t ∷ ts) h = elim (Bool-cases (contains known t.resource)) [
  | inl e ↦ (e, check_known-ok known ts (rw e at h))
  | inr e ↦ absurd (cc (rw e at h))
]

check_known_accepts :
    (known : List ResourceId) (ts : List OperationalPendingTransition)
    → All (λ t. contains known t.resource ≡ true) ts
    → check_known known ts ≡ ok tt
unfolding check_known
check_known_accepts known [] h = refl
check_known_accepts known (t ∷ ts) h = rw (h.0) (check_known_accepts known ts h.1)

file_pending-ok :
    (ts : List OperationalPendingTransition) (seen : List PendingKey)
    (groups : Map ResourceId (List OperationalPendingTransition))
    {filed : Map ResourceId (List OperationalPendingTransition)}
    → file_pending seen groups ts ≡ ok filed
    → Fresh seen (map pending_key ts) × Distinct (map pending_key ts)
unfolding file_pending
file_pending-ok [] seen groups h = (tt, tt)
file_pending-ok (t ∷ ts) seen groups h = elim (Bool-cases (contains seen (pending_key t))) [
  | inl e ↦ absurd (cc (rw e at h))
  | inr e ↦
      (let (fresh, distinct) = file_pending-ok ts (add seen (pending_key t)) _ (rw e at h) in
        let (new_it, fresh') = Fresh-add seen (map pending_key ts) (pending_key t) fresh in
        ((e, fresh'), (new_it, distinct)))
]

file_pending_accepts :
    (ts : List OperationalPendingTransition) (seen : List PendingKey)
    (groups : Map ResourceId (List OperationalPendingTransition))
    → Fresh seen (map pending_key ts)
    → Distinct (map pending_key ts)
    → file_pending seen groups ts ≡ ok (group_by (λ t. t.resource) groups ts)
unfolding file_pending group_by
file_pending_accepts [] seen groups fresh distinct = refl
file_pending_accepts (t ∷ ts) seen groups fresh distinct = rw (fresh.0) (
    file_pending_accepts ts (add seen (pending_key t)) (push_at groups t.resource t)
      (add-Fresh seen (map pending_key ts) (pending_key t) distinct.0 fresh.1) distinct.1)

-- What is asked of a selected transition: it belongs to the resource, to one of its partitions, and
-- that partition has a preference list that is not empty, or the transition leads to a drop.
abbrev pub Fits : ResourceTransitionInput → StateModelDefinition → TransitionRequest → Type 0
Fits r m t =
    (t.resource ≡ r.resource)
    × (contains_key r.preference_lists t.partition ≡ true)
    × ((has_preference (get r.preference_lists t.partition) ≡ true)
        ⊎ (is_drop_transition t r m ≡ true))

validate_selected-Fits :
    (r : ResourceTransitionInput) (m : StateModelDefinition) (ts : List TransitionRequest)
    → validate_selected r m ts ≡ ok tt
    → All (Fits r m) ts
unfolding validate_selected
validate_selected-Fits r m [] h = tt
validate_selected-Fits r m (t ∷ ts) h = elim (eqb-cases t.resource r.resource) [
  | inl (e, p) ↦ ((p, ground arith, ground arith), validate_selected-Fits r m ts (ground arith))
  | inr (e, n) ↦ absurd (ground arith)
]

validate_selected_accepts :
    (r : ResourceTransitionInput) (m : StateModelDefinition) (ts : List TransitionRequest)
    → All (Fits r m) ts
    → validate_selected r m ts ≡ ok tt
unfolding validate_selected
validate_selected_accepts r m [] h = refl
validate_selected_accepts r m (t ∷ ts) ((own, known, listed), rest) =
    let next = validate_selected_accepts r m ts rest in
    rw (own, eqb_refl r.resource, known) (ground arith)

module _ (groups : Map ResourceId (List OperationalPendingTransition))
    (live_instances : List InstanceId) (m : StateModelDefinition) where
  dispatch_all-Fits :
      (rs : List ResourceTransitionInput) (intermediate : Map ResourceId ReplicaStates)
      (c : ThrottleController) (dispatched : List TransitionRequest)
      {out : IntermediateThrottleResult}
      → dispatch_all groups live_instances m intermediate c dispatched rs ≡ ok out
      → All (λ r. All (Fits r m) r.selected_transitions) rs
  unfolding dispatch_all
  dispatch_all-Fits [] intermediate c dispatched h = tt
  dispatch_all-Fits (r ∷ rs) intermediate c dispatched h =
      let (_, valid, h1) = >>=-eq-ok (validate_selected r m r.selected_transitions) _ h in
      (
        validate_selected-Fits r m r.selected_transitions valid,
        elim (List-cases r.selected_transitions) [
          | inl e ↦ dispatch_all-Fits rs _ _ _ (rw e at h1)
          | inr (t, ts, e) ↦ dispatch_all-Fits rs _ _ _ (rw e at h1)
        ],
      )

  dispatch_all_accepts :
      (rs : List ResourceTransitionInput) (intermediate : Map ResourceId ReplicaStates)
      (c : ThrottleController) (dispatched : List TransitionRequest)
      → All (λ r. All (Fits r m) r.selected_transitions) rs
      → (out : IntermediateThrottleResult) × (dispatch_all groups live_instances m intermediate c
            dispatched rs
          ≡ ok out)
  unfolding dispatch_all
  dispatch_all_accepts [] intermediate c dispatched h = (_, refl)
  dispatch_all_accepts (r ∷ rs) intermediate c dispatched (fits, rest) =
      rw (validate_selected_accepts r m r.selected_transitions fits)
        (elim (List-cases r.selected_transitions) [
          | inl e ↦ rw e (dispatch_all_accepts rs _ _ _ rest)
          | inr (t, ts, e) ↦ rw e (dispatch_all_accepts rs _ _ _ rest)
        ])

-- The inputs that a call accepts: no resource twice, no transition in flight of another resource,
-- none twice for the same replica, and every selected transition fits its resource.
abbrev pub Acceptable :
    List ResourceTransitionInput → List OperationalPendingTransition → StateModelDefinition → Type 0
Acceptable resources pending m =
    Distinct (map (λ r. r.resource) resources)
    × All (λ t. contains (map (λ r. r.resource) resources) t.resource ≡ true) pending
    × Distinct (map pending_key pending)
    × All (λ r. All (Fits r m) r.selected_transitions) resources

known-same : (ids : List ResourceId) (k : ResourceId) → contains (extend [] ids) k ≡ contains ids k
unfolding contains
known-same ids k = contains-extend [] ids k

no_key_seen {ℓ} : {A : Type ℓ} ⦃o : Ord A⦄ (ks : List A) → Fresh [] ks
unfolding contains
no_key_seen [] = tt
no_key_seen (k ∷ ks) = (refl, no_key_seen ks)

-- A call succeeds exactly on the inputs that are acceptable: it fails where a resource stands
-- twice, where a transition in flight is of another resource or stands twice for the same replica,
-- and where a selected transition is of another resource, or of a partition that the resource does
-- not have, or of one without preferences that it does not lead to a drop in. It fails on no other.
pub compute_accepts :
    (resources : List ResourceTransitionInput) (live_instances : List InstanceId)
    (pending : List OperationalPendingTransition) (configs : List StateTransitionThrottleConfig)
    (m : StateModelDefinition)
    → ((out : IntermediateThrottleResult) × (compute_intermediate_and_throttle resources
            live_instances pending configs m
          ≡ ok out))
      ↔ Acceptable resources pending m
unfolding compute_intermediate_and_throttle
compute_accepts resources live_instances pending configs m = (there_to, back)
  where
    there_to :
        ((out : IntermediateThrottleResult) × (compute_intermediate_and_throttle resources
              live_instances pending configs m
            ≡ ok out))
        → Acceptable resources pending m
    there_to (out, h) =
        let (known, indexed, h1) = >>=-eq-ok (index_resources [] resources) _ h in
        let (groups, checked, h2) =
          >>=-eq-ok (check_known known pending >> file_pending [] [] pending) _ h1 in
        let (_, all_known, filed) = >>=-eq-ok (check_known known pending) _ checked in
        let (_, distinct, same) = index_resources-ok resources [] indexed in
        (
          distinct,
          All-imp
              (λ t k.
                sym (known-same (map (λ r. r.resource) resources) t.resource) ∙ (rw same at k))
              pending (check_known-ok known pending all_known),
          (file_pending-ok pending [] [] filed).1,
          dispatch_all-Fits groups live_instances m resources _ _ _ h2,
        )

    back :
        Acceptable resources pending m
        → (out : IntermediateThrottleResult) × (compute_intermediate_and_throttle resources
              live_instances pending configs m
            ≡ ok out)
    back (distinct, all_known, keys_distinct, fits) =
        rw
          (
            index_resources_accepts resources [] (no_key_seen _) distinct,
            check_known_accepts (extend [] (map (λ r. r.resource) resources)) pending (
                All-imp (λ t k. known-same (map (λ r. r.resource) resources) t.resource ∙ k) pending
                  all_known),
            file_pending_accepts pending [] [] (no_key_seen _) keys_distinct,
          )
          (dispatch_all_accepts _ live_instances m resources _ _ _ fits)
