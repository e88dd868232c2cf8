-- ===== src/Participant/Settled.antt =====
-- What `complete` of src/participant.rs does to the revisions of the queue, against the revisions'
-- longest complete prefix.
use clustodian.Participant.{
  CompletionState, complete, pop_completed, forget, is_observed, all_completed,
}
use clustodian.Base.Logic.{
  if◌then◌else◌, Bool-cases, ℕ, String, ◌≡◌, refl, sym, ap, ◌∙◌, inl, inr, true, not, ◌&&◌, ◌||◌,
  Option, some, List, ◌∷◌, arith, [], none,
}
use clustodian.Base.Lists.{any, contains}
use clustodian.Base.Map.{Map}
use clustodian.Base.Ord.{eqb-cases, string_ord, nat_ord, pair_ord, eqb_refl}
use clustodian.Base.Set.{discard, contains-discard, add}

-- What is left after the longest prefix of complete entries.
abbrev pub unsettled : List String → Map ℕ (List String) → Map ℕ (List String)
unsettled completed [] = []
unsettled completed (entry ∷ entries) =
    if all_completed completed entry.1 then unsettled completed entries else entry ∷ entries

-- The longest prefix of complete entries.
abbrev pub settled : List String → Map ℕ (List String) → Map ℕ (List String)
settled completed [] = []
settled completed (entry ∷ entries) =
    if all_completed completed entry.1 then entry ∷ settled completed entries else []

-- The last key, `otherwise` where there is none.
abbrev pub last_key : Map ℕ (List String) → Option ℕ → Option ℕ
last_key [] otherwise = otherwise
last_key (entry ∷ entries) otherwise = last_key entries (some entry.0)

contains-forget :
    (message_ids completed : List String) (revisions : Map ℕ (List String)) (m : String)
    → contains (forget completed revisions message_ids) m
      ≡ (contains completed m && (not (contains message_ids m) || is_observed revisions m))
unfolding forget contains
contains-forget [] completed revisions m = ground arith
contains-forget (message_id ∷ message_ids) completed revisions m =
    elim (Bool-cases (is_observed revisions message_id)) [
      | inl e ↦
          rw (e, forget)
            (contains-forget message_ids completed revisions m ∙ elim (eqb-cases message_id m) [
              | inl (_, p) ↦ let seen = ap (is_observed revisions) (sym p) ∙ e in ground arith
              | inr (f, _) ↦ ground arith
            ])
      | inr e ↦
          rw (e, forget)
            (contains-forget message_ids (discard completed message_id) revisions m
              ∙ let gone = contains-discard completed message_id m in
                elim (eqb-cases message_id m) [
                  | inl (f, p) ↦ let seen = ap (is_observed revisions) (sym p) ∙ e in ground arith
                  | inr (f, _) ↦ ground arith
                ])
    ]

-- The two lists of completed messages agree on what the entries show.
abbrev pub Agree : Map ℕ (List String) → List String → List String → Type 0
Agree revisions c d = (m : String) → is_observed revisions m ≡ true → contains c m ≡ contains d m

all_completed-agree :
    (message_ids c d : List String)
    → ((m : String) → contains message_ids m ≡ true → contains c m ≡ contains d m)
    → all_completed c message_ids ≡ all_completed d message_ids
unfolding all_completed contains
all_completed-agree [] c d h = refl
all_completed-agree (m ∷ message_ids) c d h =
    let first = h m (rw (contains, eqb_refl m) refl) in
    let rest = all_completed-agree message_ids c d (λ n i. h n (unfold contains in ground arith)) in
    rw (rest, first) refl

pub is_observed-split :
    (c : List String) (revisions : Map ℕ (List String)) (m : String)
    → is_observed revisions m
      ≡ (is_observed (settled c revisions) m || is_observed (unsettled c revisions) m)
unfolding is_observed any
is_observed-split c [] m = refl
is_observed-split c (entry ∷ entries) m = ground (arith, is_observed-split c entries m)

head-Agree :
    (entry : ℕ × List String) (entries : Map ℕ (List String)) (c d : List String)
    → Agree (entry ∷ entries) c d
    → all_completed c entry.1 ≡ all_completed d entry.1
head-Agree entry entries c d h =
    all_completed-agree entry.1 c d (λ m i. h m (unfold is_observed in unfold any in ground arith))

-- Entries that agree do so once the messages of the first are forgotten.
tail-Agree :
    (entry : ℕ × List String) (entries : Map ℕ (List String)) (c d : List String)
    → Agree (entry ∷ entries) c d
    → Agree entries c (forget d entries entry.1)
tail-Agree entry entries c d h m o =
    let kept = contains-forget entry.1 d entries m in
    let all_of = h m (unfold is_observed in unfold any in ground arith) in ground arith

-- The loop takes the longest prefix of entries that are complete at its start: what it forgets on
-- its way is shown by no entry that is left.
pub pop_completed-left :
    (revisions : Map ℕ (List String)) (c d : List String) (frontier : Option ℕ)
    → Agree revisions c d
    → (pop_completed revisions d frontier).left ≡ unsettled c revisions
unfolding pop_completed
pop_completed-left [] c d frontier h = refl
pop_completed-left (entry ∷ entries) c d frontier h =
    let same = head-Agree entry entries c d h in
    let rest =
      pop_completed-left entries c (forget d entries entry.1) (some entry.0)
        (tail-Agree entry entries c d h) in
    elim (Bool-cases (all_completed d entry.1)) [
      | inl e ↦ rw (e, same ∙ e) rest
      | inr e ↦ rw (e, same ∙ e) refl
    ]

pub pop_completed-popped :
    (revisions : Map ℕ (List String)) (c d : List String) (frontier : Option ℕ)
    → Agree revisions c d
    → (pop_completed revisions d frontier).popped ≡ last_key (settled c revisions) frontier
unfolding pop_completed
pop_completed-popped [] c d frontier h = refl
pop_completed-popped (entry ∷ entries) c d frontier h =
    let same = head-Agree entry entries c d h in
    let rest =
      pop_completed-popped entries c (forget d entries entry.1) (some entry.0)
        (tail-Agree entry entries c d h) in
    elim (Bool-cases (all_completed d entry.1)) [
      | inl e ↦ rw (e, same ∙ e) rest
      | inr e ↦ rw (e, same ∙ e) refl
    ]

pub pop_completed-done :
    (revisions : Map ℕ (List String)) (c d : List String) (frontier : Option ℕ) (m : String)
    → Agree revisions c d
    → contains (pop_completed revisions d frontier).done m ≡ (
        contains d m
        && (not (is_observed (settled c revisions) m) || is_observed (unsettled c revisions) m))
unfolding pop_completed is_observed any
pop_completed-done [] c d frontier m h = ground arith
pop_completed-done (entry ∷ entries) c d frontier m h =
    let same = head-Agree entry entries c d h in
    let rest =
      pop_completed-done entries c (forget d entries entry.1) (some entry.0) m
        (tail-Agree entry entries c d h) in
    let kept = contains-forget entry.1 d entries m in
    let shown = is_observed-split c entries m in
    elim (Bool-cases (all_completed d entry.1)) [
      | inl e ↦ rw (e, same ∙ e) (ground arith)
      | inr e ↦ rw (e, same ∙ e) (ground arith)
    ]

-- `complete` takes off the longest prefix of revisions whose messages are complete with the new
-- one, answers the last of them, and forgets the messages of the prefix that no revision shows any
-- more, and only those.
pub complete_exact :
    (s : CompletionState) (message_id : String)
    → let completed = add s.completed message_id in
      let after = (complete s message_id).0 in
      (after.revisions ≡ unsettled completed s.revisions)
      × ((complete s message_id).1 ≡ last_key (settled completed s.revisions) none)
      × ((m : String)
          → contains after.completed m ≡ (
              contains completed m
              && (not (is_observed (settled completed s.revisions) m)
                  || is_observed after.revisions m)))
unfolding complete
complete_exact s message_id =
    let completed = add s.completed message_id in
    let agree : Agree s.revisions completed completed = λ m i. refl in
    let left = pop_completed-left s.revisions completed completed none agree in
    (
      left,
      pop_completed-popped s.revisions completed completed none agree,
      λ m. pop_completed-done s.revisions completed completed none m agree ∙ rw left refl,
    )
