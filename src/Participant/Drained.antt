-- ===== src/Participant/Drained.antt =====
-- Completing every message that a participant's queue still shows, one after the other.
use clustodian.Participant.{CompletionState, complete, is_observed, all_completed}
use clustodian.Participant.Settled.{unsettled, is_observed-split, complete_exact}
use clustodian.Base.Logic.{ℕ, String, ◌≡◌, refl, ap, ◌∙◌, true, false, ◌||◌, List, ◌∷◌, arith, []}
use clustodian.Base.Lists.{is_empty, any, contains}
use clustodian.Base.Map.{Map}
use clustodian.Base.Ord.{eqb_refl, string_ord, nat_ord, pair_ord}
use clustodian.Base.Set.{add, contains-add}

-- The state after the messages are completed in this order.
abbrev pub complete_all : CompletionState → List String → CompletionState
complete_all s [] = s
complete_all s (message_id ∷ message_ids) = complete_all (complete s message_id).0 message_ids

all_completed-of :
    (c message_ids : List String)
    → ((m : String) → contains message_ids m ≡ true → contains c m ≡ true)
    → all_completed c message_ids ≡ true
unfolding all_completed contains
all_completed-of c [] h = refl
all_completed-of c (m ∷ message_ids) h =
    rw
      (
        h m (rw (contains, eqb_refl m) refl),
        all_completed-of c message_ids (λ n i. h n (unfold contains in ground arith)),
      )
      refl

unsettled_none :
    (c : List String) (revisions : Map ℕ (List String))
    → ((m : String) → is_observed revisions m ≡ true → contains c m ≡ true)
    → unsettled c revisions ≡ []
unfolding is_observed any
unsettled_none c [] h = refl
unsettled_none c (entry ∷ entries) h =
    rw (all_completed-of c entry.1 (λ m i. h m (ground arith)))
      (unsettled_none c entries (λ m i. h m (unfold is_observed in unfold any in ground arith)))

-- Where every message that the revisions show is complete already or among the messages that are
-- completed, of which there is at least one, no revision is left at the end, whatever the order.
pub complete_all-drains :
    (message_ids : List String) (s : CompletionState)
    → is_empty message_ids ≡ false
    → ((m : String)
        → is_observed s.revisions m ≡ true
        → (contains s.completed m || contains message_ids m) ≡ true)
    → (complete_all s message_ids).revisions ≡ []
unfolding contains
complete_all-drains [] s e h = absurd cc
complete_all-drains (a ∷ []) s e h =
    (complete_exact s a).0
    ∙ unsettled_none (add s.completed a) s.revisions
        (λ m o. let old = h m o in let new = contains-add s.completed a m in ground arith)
complete_all-drains (a ∷ b ∷ rest) s e h =
    let (left, _, done) = complete_exact s a in
    complete_all-drains (b ∷ rest) (complete s a).0 refl (λ m o.
      let split = is_observed-split (add s.completed a) s.revisions m in
      let same = ap (λ r. is_observed r m) left in
      let old = h m (ground arith) in
      let kept = done m in let new = contains-add s.completed a m in ground arith)
