-- ===== src/Participant/Forgetting.antt =====
-- src/participant.rs: forgetting the messages of popped revisions, against a frontier that forgets
-- none.
use clustodian.Participant.{
  CompletionState, new_completion, observe_frontier, observe, complete, is_observed,
}
use clustodian.Participant.Settled.{
  unsettled, settled, last_key, is_observed-split, Agree, pop_completed-left, pop_completed-popped,
  pop_completed-done,
}
use clustodian.Base.Logic.{
  if◌then◌else◌, Bool-cases, is_some, unwrap_or, ℕ, String, ◌≡◌, refl, sym, ap, ◌∙◌, inl, inr, true,
  ◌||◌, Option, none, List, ◌∷◌, arith, [], false, not, ◌&&◌,
}
use clustodian.Base.Lists.{any, contains}
use clustodian.Base.Map.{Map, get, insert}
use clustodian.Base.Ord.{eqb, order_cases, string_ord, nat_ord, pair_ord}
use clustodian.Base.Set.{add, contains-add, extend, contains-extend}

-- `complete` without the forgetting: the longest complete prefix goes, its last revision is
-- answered, and every completed message is kept.
abbrev pub complete_keeping : CompletionState → String → CompletionState × Option ℕ
complete_keeping a message_id =
    let completed = add a.completed message_id in
    let popped = last_key (settled completed a.revisions) none in
    (
      record {
        revisions = unsettled completed a.revisions;
        completed = completed;
        frontier = if is_some popped then popped else a.frontier;
      },
      popped,
    )

-- The states after the same calls, with the forgetting and without, where a message that is
-- complete already is observed again only while an earlier revision still shows it.
pub data Together : CompletionState → CompletionState → Type 0 where
  both_started : Together new_completion new_completion
  both_observed :
      {s a : CompletionState} (revision : ℕ) (message_ids : List String)
      → ((m : String)
          → contains message_ids m ≡ true
          → contains a.completed m ≡ true
          → is_observed a.revisions m ≡ true)
      → Together s a
      → Together (observe_frontier s revision message_ids) (observe_frontier a revision message_ids)
  both_completed :
      {s a : CompletionState} (message_id : String)
      → Together s a
      → Together (complete s message_id).0 (complete_keeping a message_id).0

-- The two agree on what the revisions show, and the one that forgets has no message beyond.
abbrev Simulates : CompletionState → CompletionState → Type 0
Simulates s a =
    (s.revisions ≡ a.revisions)
    × (s.frontier ≡ a.frontier)
    × Agree s.revisions s.completed a.completed
    × ((m : String) → contains s.completed m ≡ true → contains a.completed m ≡ true)

complete-Agree :
    (s a : CompletionState) (message_id : String)
    → Agree s.revisions s.completed a.completed
    → Agree s.revisions (add a.completed message_id) (add s.completed message_id)
complete-Agree s a message_id h m o =
    contains-add a.completed message_id m
    ∙ (rw (sym (h m o)) (sym (contains-add s.completed message_id m)))

complete-answers :
    (s a : CompletionState) (message_id : String)
    → Simulates s a
    → (complete s message_id).1 ≡ (complete_keeping a message_id).1
unfolding complete
complete-answers s a message_id (same, _, agree, _) =
    pop_completed-popped s.revisions (add a.completed message_id) (add s.completed message_id) none
      (complete-Agree s a message_id agree)
    ∙ rw same refl

complete-Simulates :
    (s a : CompletionState) (message_id : String)
    → Simulates s a
    → Simulates (complete s message_id).0 (complete_keeping a message_id).0
unfolding complete
complete-Simulates s a message_id (same, level, agree, within) =
    let c = add a.completed message_id in
    let d = add s.completed message_id in
    let eqs = complete-Agree s a message_id agree in
    let left = pop_completed-left s.revisions c d none eqs in
    let popped = pop_completed-popped s.revisions c d none eqs in
    let kept = pop_completed-done s.revisions c d none in
    (
      left ∙ rw same refl,
      rw (popped, same, level) refl,
      λ m o.
          let shown = is_observed-split c s.revisions m in
          let seen = sym (ap (λ r. is_observed r m) left) ∙ o in
          let both = eqs m (ground arith) in let k = kept m eqs in ground arith,
      λ m h.
          let k = kept m eqs in
          let old = contains-add s.completed message_id m in
          let new = contains-add a.completed message_id m in let w = within m in ground arith,
    )

is_observed-get :
    (m : Map ℕ (List String)) (k : ℕ) (x : String)
    → contains (unwrap_or (get m k) []) x ≡ true
    → is_observed m x ≡ true
unfolding is_observed any get contains
is_observed-get [] k x h = absurd cc
is_observed-get ((j, v) ∷ m) k x h = elim (Bool-cases (eqb j k)) [
  | inl e ↦ let first = rw e at h in ground arith
  | inr e ↦ let rest = is_observed-get m k x (rw e at h) in ground arith
]

is_observed-insert :
    (m : Map ℕ (List String)) (k : ℕ) (v : List String) (x : String)
    → is_observed (insert m k v) x ≡ true
    → (is_observed m x || contains v x) ≡ true
unfolding is_observed any insert
is_observed-insert [] k v x h = ground arith
is_observed-insert ((j, w) ∷ m) k v x h = elim (order_cases k j) [
  | inl e ↦ let g = rw (e, insert) at h in ground arith
  | inr (inl (e, _)) ↦ let g = rw (e, insert) at h in ground arith
  | inr (inr (e, _)) ↦
      let g = rw (e, insert) at h in let rest = is_observed-insert m k v x in ground arith
]

observe-Agree :
    (s a : CompletionState) (revision : ℕ) (message_ids : List String)
    → ((m : String)
        → contains message_ids m ≡ true
        → contains a.completed m ≡ true
        → is_observed a.revisions m ≡ true)
    → Simulates s a
    → Agree (observe s revision message_ids).revisions s.completed a.completed
unfolding observe
observe-Agree s a revision message_ids known (same, _, agree, within) m o =
    let before = unwrap_or (get s.revisions revision) [] in
    let shown = is_observed-insert s.revisions revision (extend before message_ids) m o in
    let parts = contains-extend before message_ids m in
    let earlier = is_observed-get s.revisions revision m in
    let again = known m in
    let there_too = ap (λ r. is_observed r m) same in
    let now = agree m in let w = within m in ground arith

observe-Simulates :
    (s a : CompletionState) (revision : ℕ) (message_ids : List String)
    → ((m : String)
        → contains message_ids m ≡ true
        → contains a.completed m ≡ true
        → is_observed a.revisions m ≡ true)
    → Simulates s a
    → Simulates (observe_frontier s revision message_ids) (observe_frontier a revision message_ids)
unfolding observe_frontier observe
observe-Simulates s a revision [] known h = h
observe-Simulates s a revision (m ∷ message_ids) known h =
    (rw h.0 refl, h.1, observe-Agree s a revision (m ∷ message_ids) known h, h.3)

Together-Simulates : {s a : CompletionState} → Together s a → Simulates s a
Together-Simulates both_started = (refl, refl, λ m o. refl, λ m h. h)
Together-Simulates (both_observed {s} {a} revision message_ids known t) =
    observe-Simulates s a revision message_ids known (Together-Simulates t)
Together-Simulates (both_completed {s} {a} message_id t) =
    complete-Simulates s a message_id (Together-Simulates t)

-- After the same calls, in which a message that is complete already is observed again only while an
-- earlier revision still shows it, the frontier that forgets messages and one that keeps them all
-- hold the same revisions and the same frontier, what the one that forgets holds complete the other
-- does too, and both answer the next `complete` alike.
pub forgetting_refines :
    (s a : CompletionState) (message_id : String)
    → Together s a
    → (s.revisions ≡ a.revisions)
      × (s.frontier ≡ a.frontier)
      × ((m : String) → (contains s.completed m && not (contains a.completed m)) ≡ false)
      × ((complete s message_id).1 ≡ (complete_keeping a message_id).1)
forgetting_refines s a message_id t =
    let h = Together-Simulates t in
    (h.0, h.1, λ m. let within = h.3 m in ground arith, complete-answers s a message_id h)
