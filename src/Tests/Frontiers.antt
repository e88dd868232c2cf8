-- ===== src/Tests/Frontiers.antt =====
-- The completion frontier of two revisions that show a common message.
use clustodian.Participant.{
  CompletionState, new_completion, observe_frontier, complete, is_observed, observe, pop_completed,
  forget, all_completed,
}
use clustodian.Participant.Settled.{complete_exact, unsettled, settled, last_key}
use clustodian.Participant.Forgetting.{
  Together, both_started, both_observed, both_completed, complete_keeping, forgetting_refines,
}
use clustodian.Transition.{TransitionMessage}
use clustodian.Participant.Schedule.{schedule}
use clustodian.Participant.Schedule.Exclusive.{Exclusive, schedule-Exclusive}
use clustodian.Participant.Drained.{complete_all, complete_all-drains}
use clustodian.Participant.Rising.{
  Reached, started, observed, completed_one, complete_rises, IsLater,
}
use clustodian.Base.Logic.{
  ◌<◌, String, ◌≡◌, refl, ap, subst, true, not, ◌&&◌, ◌||◌, none, some, ◌∷◌, arith, [], List, false,
}
use clustodian.Base.Lists.{All, contains, any, filter}
use clustodian.Base.Set.{add, extend, discard}
use clustodian.Base.Ord.{string_ord, nat_ord, pair_ord, eqb}
use clustodian.Base.Map.{get, insert, Map}

abbrev overlapping : CompletionState
overlapping = record {
  revisions = (1, "shared" ∷ []) ∷ (2, "later" ∷ "shared" ∷ []) ∷ [];
  completed = [];
  frontier = none;
}

abbrev one_popped : CompletionState
one_popped = record {
  revisions = (2, "later" ∷ "shared" ∷ []) ∷ [];
  completed = "shared" ∷ [];
  frontier = some 1;
}

abbrev both_popped : CompletionState
both_popped = record { revisions = []; completed = []; frontier = some 2 }

observed_both :
    observe_frontier (observe_frontier new_completion 1 ("shared" ∷ [])) 2 ("shared" ∷ "later" ∷ [])
    ≡ overlapping
unfolding observe_frontier observe insert extend get add nat_ord eqb string_ord
observed_both = refl

shared_completed : complete overlapping "shared" ≡ (one_popped, some 1)
unfolding complete pop_completed forget all_completed is_observed discard add contains any filter
    eqb insert string_ord
shared_completed = refl

later_completed : complete one_popped "later" ≡ (both_popped, some 2)
unfolding complete pop_completed forget all_completed is_observed discard add contains any filter
    eqb insert string_ord
later_completed = refl

overlapping-Reached : Reached overlapping
unfolding observe_frontier
overlapping-Reached =
    subst Reached observed_both
      (observed 2 ("shared" ∷ "later" ∷ []) tt (observed 1 ("shared" ∷ []) tt started))

one_popped-Reached : Reached one_popped
one_popped-Reached =
    subst Reached (ap (λ p. p.0) shared_completed) (completed_one "shared" overlapping-Reached)

complete_exact_example :
    ((complete overlapping "shared").0.revisions
      ≡ unsettled (add overlapping.completed "shared") overlapping.revisions)
    × ((complete overlapping "shared").1
        ≡ last_key (settled (add overlapping.completed "shared") overlapping.revisions) none)
    × ((m : String)
        → contains (complete overlapping "shared").0.completed m ≡ (
            contains (add overlapping.completed "shared") m
            && (not (
                  is_observed
                    (settled (add overlapping.completed "shared") overlapping.revisions)
                    m)
                || is_observed (complete overlapping "shared").0.revisions m)))
complete_exact_example = complete_exact overlapping "shared"

shown_once :
    (m : String)
    → is_observed one_popped.revisions m ≡ true
    → (contains one_popped.completed m || contains ("later" ∷ []) m) ≡ true
unfolding is_observed contains any
shown_once m o = ground arith

complete_all-drains_example : (complete_all one_popped ("later" ∷ [])).revisions ≡ []
complete_all-drains_example = complete_all-drains ("later" ∷ []) one_popped refl shown_once

complete_rises_example :
    IsLater one_popped.frontier 2
    × ((complete one_popped "later").0.frontier ≡ some 2)
    × All (λ entry. 2 < entry.0) (complete one_popped "later").0.revisions
complete_rises_example =
    complete_rises one_popped "later" 2 one_popped-Reached (ap (λ p. p.1) later_completed)

-- The messages that the two revisions show, none of them complete before.
none_known :
    (message_ids : List String) (a : CompletionState)
    → a.completed ≡ []
    → (m : String) → contains message_ids m ≡ true
    → contains a.completed m ≡ true
    → is_observed a.revisions m ≡ true
unfolding contains
none_known message_ids a e m i c = absurd (let d = rw e at c in cc)

overlapping-Together : Together overlapping overlapping
unfolding observe_frontier observe
overlapping-Together =
    subst (λ s. Together s s) observed_both
      (both_observed 2 ("shared" ∷ "later" ∷ [])
        (none_known ("shared" ∷ "later" ∷ []) (observe_frontier new_completion 1 ("shared" ∷ []))
          refl)
        (both_observed 1 ("shared" ∷ []) (none_known ("shared" ∷ []) new_completion refl)
          both_started))

abbrev kept_one : CompletionState
kept_one = (complete_keeping overlapping "shared").0

one_popped-Together : Together one_popped kept_one
one_popped-Together =
    subst (λ s. Together s kept_one) (ap (λ p. p.0) shared_completed)
      (both_completed "shared" overlapping-Together)

forgetting_refines_example :
    (one_popped.revisions ≡ kept_one.revisions)
    × (one_popped.frontier ≡ kept_one.frontier)
    × ((m : String)
        → (contains one_popped.completed m && not (contains kept_one.completed m)) ≡ false)
    × ((complete one_popped "later").1 ≡ (complete_keeping kept_one "later").1)
forgetting_refines_example = forgetting_refines one_popped kept_one "later" one_popped-Together

abbrev first_attempt : TransitionMessage
first_attempt = record {
  message_id = "m1";
  resource = "orders";
  partition = "p0";
  replica = "n1";
  target_session = 7;
  from = "OFFLINE";
  to = "STANDBY";
  message_type = "STATE_TRANSITION";
}

abbrev second_attempt : TransitionMessage
second_attempt = record first_attempt { message_id = "m2" }

abbrev other_partition : TransitionMessage
other_partition = record first_attempt { message_id = "m3"; partition = "p1" }

abbrev running : Map String String
running = ("orders/p0", "m1") ∷ []

abbrev queue : List TransitionMessage
queue = first_attempt ∷ second_attempt ∷ other_partition ∷ []

queue_scheduled : schedule "n1" queue running ≡ record {
  in_flight = ("orders/p0", "m1") ∷ ("orders/p1", "m3") ∷ [];
  observed_ids = "m1" ∷ "m3" ∷ [];
  scheduled = (other_partition, "orders/p1") ∷ [];
}
unfolding schedule string_ord
queue_scheduled = refl

schedule-Exclusive_example : Exclusive running (schedule "n1" queue running)
schedule-Exclusive_example = schedule-Exclusive "n1" queue running
