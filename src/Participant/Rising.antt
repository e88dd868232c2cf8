-- ===== src/Participant/Rising.antt =====
-- The revisions that `complete` answers rise, where the store's revisions do.
use Prim.Native.Nat.Ordering.{lt}
use clustodian.Participant.{
  CompletionState, new_completion, observe_frontier, observe, complete, all_completed,
}
use clustodian.Participant.Settled.{unsettled, settled, last_key, complete_exact}
use clustodian.Base.Logic.{
  Bool-cases, ℕ, ◌≤◌, ◌<◌, String, ◌≡◌, refl, inl, inr, Option, none, some, List, ◌∷◌, arith, [],
  sym, ◌⊎◌,
}
use clustodian.Base.Lists.{All, All-imp}
use clustodian.Base.Map.{Map, insert, IsSorted, insert-IsSorted}
use clustodian.Base.Ord.{order_cases, string_ord, nat_ord, pair_ord}
use clustodian.Base.Set.{add}

-- The number is below every key, the absent one too.
abbrev IsBelow : Option ℕ → Map ℕ (List String) → Type 0
IsBelow none revisions = Unit
IsBelow (some f) revisions = All (λ entry. f < entry.0) revisions

-- The revision comes after the frontier.
abbrev pub IsLater : Option ℕ → ℕ → Type 0
IsLater none revision = Unit
IsLater (some f) revision = f < revision

-- The states of a frontier whose calls observe revisions above the last one that was popped.
pub data Reached : CompletionState → Type 0 where
  started : Reached new_completion
  observed :
      {s : CompletionState} (revision : ℕ) (message_ids : List String)
      → IsLater s.frontier revision
      → Reached s
      → Reached (observe_frontier s revision message_ids)
  completed_one :
      {s : CompletionState} (message_id : String) → Reached s → Reached (complete s message_id).0

unsettled-All {κ} :
    (P : ℕ × List String → Type κ) (c : List String) (revisions : Map ℕ (List String))
    → All P revisions
    → All P (unsettled c revisions)
unsettled-All P c [] h = tt
unsettled-All P c (entry ∷ entries) h = elim (Bool-cases (all_completed c entry.1)) [
  | inl e ↦ rw e (unsettled-All P c entries h.1)
  | inr e ↦ rw e h
]

unsettled-IsSorted :
    (c : List String) (revisions : Map ℕ (List String))
    → IsSorted revisions
    → IsSorted (unsettled c revisions)
unsettled-IsSorted c [] h = tt
unsettled-IsSorted c (entry ∷ entries) h = elim (Bool-cases (all_completed c entry.1)) [
  | inl e ↦ rw e (unsettled-IsSorted c entries h.1)
  | inr e ↦ rw e h
]

lt_of : (j k : ℕ) → nat_ord.cmp j k ≡ lt → j < k
unfolding nat_ord
lt_of j k h = ground arith

-- The last key of the complete prefix is below what is left.
last_key-IsBelow :
    (c : List String) (revisions : Map ℕ (List String)) (b : ℕ)
    → IsSorted revisions
    → All (λ entry. b < entry.0) revisions
    → (r : ℕ) × (last_key (settled c revisions) (some b) ≡ some r)
      × (b ≤ r)
      × All (λ entry. r < entry.0) (unsettled c revisions)
last_key-IsBelow c [] b s h = (b, refl, omega arith, tt)
last_key-IsBelow c (entry ∷ entries) b s h = elim (Bool-cases (all_completed c entry.1)) [
  | inl e ↦
      let above = All-imp (λ q l. lt_of entry.0 q.0 l) entries s.0 in
      let (r, found, least, left) = last_key-IsBelow c entries entry.0 s.1 above in
      let first = h.0 in (r, rw e found, omega arith, rw e left)
  | inr e ↦ (b, rw e refl, omega arith, rw e h)
]

insert-All {κ} :
    (P : ℕ → Type κ) (m : Map ℕ (List String)) (k : ℕ) (v : List String)
    → P k
    → All (λ q. P q.0) m
    → All (λ q. P q.0) (insert m k v)
unfolding insert
insert-All P [] k v h a = (h, tt)
insert-All P ((j, w) ∷ m) k v h a = elim (order_cases k j) [
  | inl e ↦ rw (insert, e) (h, a)
  | inr (inl (e, p)) ↦ rw (insert, e) (h, a.1)
  | inr (inr (e, f)) ↦ rw (insert, e) (a.0, insert-All P m k v h a.1)
]

later :
    (entry : ℕ × List String) (entries : Map ℕ (List String)) (f : Option ℕ) (r : ℕ)
    → entry.0 ≤ r
    → IsBelow f (entry ∷ entries)
    → IsLater f r
later entry entries none r l h = tt
later entry entries (some f) r l h = let first = h.0 in omega arith

-- Either no entry is popped, or the last one comes after the frontier and before what is left.
popped-cases :
    (c : List String) (revisions : Map ℕ (List String)) (f : Option ℕ)
    → IsSorted revisions
    → IsBelow f revisions
    → (last_key (settled c revisions) none ≡ none)
      ⊎ ((r : ℕ) × (last_key (settled c revisions) none ≡ some r)
          × IsLater f r
          × All (λ entry. r < entry.0) (unsettled c revisions))
popped-cases c [] f s h = inl refl
popped-cases c (entry ∷ entries) f s h = elim (Bool-cases (all_completed c entry.1)) [
  | inl e ↦
      let above = All-imp (λ q l. lt_of entry.0 q.0 l) entries s.0 in
      let (r, found, least, left) = last_key-IsBelow c entries entry.0 s.1 above in
      inr (r, rw e found, later entry entries f r least h, rw e left)
  | inr e ↦ inl (rw e refl)
]

IsBelow-unsettled :
    (c : List String) (revisions : Map ℕ (List String)) (f : Option ℕ)
    → IsBelow f revisions
    → IsBelow f (unsettled c revisions)
IsBelow-unsettled c revisions none h = tt
IsBelow-unsettled c revisions (some f) h = unsettled-All (λ entry. f < entry.0) c revisions h

-- The entries rise, and the frontier is below them.
abbrev IsAhead : CompletionState → Type 0
IsAhead s = IsSorted s.revisions × IsBelow s.frontier s.revisions

complete-IsAhead :
    (s : CompletionState) (message_id : String) → IsAhead s → IsAhead (complete s message_id).0
unfolding complete
complete-IsAhead s message_id h =
    let c = add s.completed message_id in
    let (left, popped, _) = complete_exact s message_id in
    elim (popped-cases c s.revisions s.frontier h.0 h.1) [
      | inl none_popped ↦ (
        rw left (unsettled-IsSorted c s.revisions h.0),
        rw (left, popped, none_popped) (IsBelow-unsettled c s.revisions s.frontier h.1),
      )
      | inr (r, found, _, ahead) ↦
          (rw left (unsettled-IsSorted c s.revisions h.0), rw (left, popped, found) ahead)
    ]

observe-IsBelow :
    (f : Option ℕ) (m : Map ℕ (List String)) (revision : ℕ) (v : List String)
    → IsLater f revision
    → IsBelow f m
    → IsBelow f (insert m revision v)
observe-IsBelow none m revision v l h = tt
observe-IsBelow (some f) m revision v l h = insert-All (λ k. f < k) m revision v l h

observe_frontier-IsAhead :
    (s : CompletionState) (revision : ℕ) (message_ids : List String)
    → IsLater s.frontier revision
    → IsAhead s
    → IsAhead (observe_frontier s revision message_ids)
unfolding observe_frontier observe
observe_frontier-IsAhead s revision [] l h = h
observe_frontier-IsAhead s revision (m ∷ message_ids) l h = (
  insert-IsSorted s.revisions revision _ h.0,
  observe-IsBelow s.frontier s.revisions revision _ l h.1,
)

Reached-IsAhead : {s : CompletionState} → Reached s → IsAhead s
Reached-IsAhead started = (tt, tt)
Reached-IsAhead (observed {s} revision message_ids l h) =
    observe_frontier-IsAhead s revision message_ids l (Reached-IsAhead h)
Reached-IsAhead (completed_one {s} message_id h) = complete-IsAhead s message_id (Reached-IsAhead h)

-- In a state that calls reach, of which each `observe` names a revision after the last one popped,
-- a revision that `complete` answers comes after the frontier, becomes the frontier, and comes
-- before every revision that is left.
pub complete_rises :
    (s : CompletionState) (message_id : String) (r : ℕ)
    → Reached s
    → (complete s message_id).1 ≡ some r
    → IsLater s.frontier r
      × ((complete s message_id).0.frontier ≡ some r)
      × All (λ entry. r < entry.0) (complete s message_id).0.revisions
unfolding complete
complete_rises s message_id r reached e =
    let c = add s.completed message_id in
    let (left, popped, _) = complete_exact s message_id in
    let ahead = Reached-IsAhead reached in
    elim (popped-cases c s.revisions s.frontier ahead.0 ahead.1) [
      | inl none_popped ↦ absurd cc
      | inr (q, found, after, rest) ↦
          let same : q ≡ r = cc in (rw (sym same) after, rw e refl, rw (left, sym same) rest)
    ]
