-- ===== src/Controller/Selection/Greedy.antt =====
-- The greedy choice keeps every bounded state within its bound.
use clustodian.Model.State.{State}
use clustodian.Transition.{TransitionRequest}
use clustodian.Controller.Selection.{Selecting, is_full, select_group, select_groups, select_one}
use clustodian.Controller.Selection.Counting.{increase_state_count}
use clustodian.Controller.Selection.Counts.{tally, one_if, tally-increase}
use clustodian.Base.Logic.{
  Bool-cases, ℕ, ◌+◌, ◌≤◌, ◌≡◌, refl, ◌⊎◌, inl, inr, Bool, true, false, some, List, ◌∷◌, ◌++◌,
  arith, [],
}
use clustodian.Base.Lists.{count, count-append}
use clustodian.Base.Map.{Map, get, contains_key}
use clustodian.Base.Ord.{eqb, string_ord, nat_ord, pair_ord, eqb-cases}

-- The candidates that enter a state.
abbrev pub entering : State → TransitionRequest → Bool
entering s r = eqb r.target_state s

module _ (bounds : Map State ℕ) (s : State) (bound base : ℕ)
    (known : get bounds s ≡ some bound) where
  -- `base` replicas were there before; the counts are right, and whoever enters finds room.
  pub record Fits (sel : Selecting) : Type 0 where
    pub counted : tally sel.state_counts s ≡ base + count (entering s) sel.selected
    pub room :
        (count (entering s) sel.selected ≡ 0) ⊎ (base + count (entering s) sel.selected ≤ bound)

  bounded : contains_key bounds s ≡ true
  unfolding contains_key
  bounded = rw known refl

  room_of_free :
      (counts : Map State ℕ) (t : State)
      → is_full bounds counts t ≡ false
      → t ≡ s
      → tally counts s + 1 ≤ bound
  unfolding is_full
  room_of_free counts t free p =
      let here : is_full bounds counts s ≡ false = rw p at free in ground arith

  count-snoc :
      (selected : List TransitionRequest) (c : TransitionRequest)
      → count (entering s) (selected ++ c ∷ [])
        ≡ count (entering s) selected + one_if (eqb c.target_state s)
  unfolding count
  count-snoc selected c = omega (arith, count-append (entering s) selected (c ∷ []))

  admit-Fits :
      (sel : Selecting) (c : TransitionRequest)
      → is_full bounds sel.state_counts c.target_state ≡ false
      → Fits sel
      → Fits (record {
        state_counts = increase_state_count bounds c.target_state sel.state_counts;
        selected = sel.selected ++ c ∷ [];
      })
  admit-Fits sel c free h = elim (eqb-cases c.target_state s) [
    | inl (e, p) ↦ ground (
      arith,
      count-snoc sel.selected c,
      tally-increase bounds s bounded c.target_state sel.state_counts,
      room_of_free sel.state_counts c.target_state free p,
    )
    | inr (e, n) ↦ ground (
      arith,
      count-snoc sel.selected c,
      tally-increase bounds s bounded c.target_state sel.state_counts,
    )
  ]

  select_one-Fits :
      (sel : Selecting) (c : TransitionRequest) → Fits sel → Fits (select_one bounds sel c)
  unfolding select_one
  select_one-Fits sel c h = elim (Bool-cases (is_full bounds sel.state_counts c.target_state)) [
    | inl full ↦ rw full h
    | inr free ↦ rw free (admit-Fits sel c free h)
  ]

  select_group-Fits :
      (group : List TransitionRequest) (sel : Selecting)
      → Fits sel
      → Fits (select_group bounds sel group)
  unfolding select_group
  select_group-Fits [] sel h = h
  select_group-Fits (c ∷ group) sel h =
      select_group-Fits group (select_one bounds sel c) (select_one-Fits sel c h)

  pub select_groups-Fits :
      (groups : Map ℕ (List TransitionRequest)) (sel : Selecting)
      → Fits sel
      → Fits (select_groups bounds sel groups)
  unfolding select_groups
  select_groups-Fits [] sel h = h
  select_groups-Fits ((priority, group) ∷ groups) sel h =
      select_groups-Fits groups _ (select_group-Fits group sel h)
