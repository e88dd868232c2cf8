-- ===== src/Participant.antt =====
-- src/participant.rs: the completion frontier, which tells how far a participant has worked through
-- the revisions of its message queue. A revision is the i64 number of the store, read as a natural
-- number, since the store constructs positive ones only. The loop pops the first entry of the map,
-- so it follows the list of entries.
pub mod Settled
pub mod Drained
pub mod Rising
pub mod Forgetting
pub mod Schedule
use clustodian.Base.Logic.{
  if◌then◌else◌, is_some, unwrap_or, ℕ, String, Bool, true, ◌&&◌, Option, none, some, List, ◌∷◌,
  ◌>>=◌, [],
}
use clustodian.Base.Lists.{is_empty, any, contains}
use clustodian.Base.Map.{Map, get, insert}
use clustodian.Base.Set.{add, extend, discard}
use clustodian.Base.Ord.{string_ord, nat_ord, pair_ord}

-- The messages that each revision showed, the ones that are complete, and the last revision popped.
pub record CompletionState : Type 0 where
  pub revisions : Map ℕ (List String)
  pub completed : List String
  pub frontier : Option ℕ

abbrev pub new_completion : CompletionState
new_completion = record { revisions = []; completed = []; frontier = none }

unfoldable pub observe : CompletionState → ℕ → List String → CompletionState
unfolding get insert extend
observe s revision message_ids = record s {
  revisions =
      insert s.revisions revision (extend (unwrap_or (get s.revisions revision) []) message_ids);
}

-- The frontier's own `observe`, which leaves a revision without messages out.
unfoldable pub observe_frontier : CompletionState → ℕ → List String → CompletionState
unfolding observe
observe_frontier s revision message_ids =
    if is_empty message_ids then s else observe s revision message_ids

-- Every message of an entry is complete.
unfoldable pub all_completed : List String → List String → Bool
unfolding contains
all_completed completed [] = true
all_completed completed (message_id ∷ message_ids) =
    contains completed message_id && all_completed completed message_ids

-- Some entry shows the message.
unfoldable pub is_observed : Map ℕ (List String) → String → Bool
unfolding any contains
is_observed revisions message_id = any (λ entry. contains entry.1 message_id) revisions

-- The messages of a popped entry are forgotten, unless a later entry shows them.
unfoldable pub forget : List String → Map ℕ (List String) → List String → List String
unfolding is_observed discard
forget completed revisions [] = completed
forget completed revisions (message_id ∷ message_ids) =
    forget (if is_observed revisions message_id then completed else discard completed message_id)
      revisions message_ids

-- What the loop carries: the entries that are left, the completed messages, and the revision of
-- the entry popped last.
pub record Popping : Type 0 where
  left : Map ℕ (List String)
  done : List String
  popped : Option ℕ

unfoldable pub pop_completed : Map ℕ (List String) → List String → Option ℕ → Popping
unfolding all_completed forget
pop_completed [] completed frontier = record { left = []; done = completed; popped = frontier }
pop_completed ((revision, message_ids) ∷ revisions) completed frontier =
    let rest = pop_completed revisions (forget completed revisions message_ids) (some revision) in
    if all_completed completed message_ids
    then rest
    else record { left = (revision, message_ids) ∷ revisions; done = completed; popped = frontier }

unfoldable pub complete : CompletionState → String → CompletionState × Option ℕ
unfolding pop_completed add
complete s message_id =
    let popping = pop_completed s.revisions (add s.completed message_id) none in
    (
      record {
        revisions = popping.left;
        completed = popping.done;
        frontier = if is_some popping.popped then popping.popped else s.frontier;
      },
      popping.popped,
    )
