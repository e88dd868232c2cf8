-- ===== src/Model/StateModel/Positions.antt =====
-- Positions of states, and paths between states against paths between positions.
use clustodian.Model.State.{State, Transition}
use clustodian.Model.StateModel.Table.{index_of}
use clustodian.Model.StateModel.Paths.{Steps, stay, go}
use clustodian.Model.StateModel.Shortest.{EdgeAt}
use clustodian.Base.Logic.{
  ℕ, suc, ◌<◌, ◌≡◌, refl, sym, ap, ◌∙◌, inl, inr, true, some, List, ◌∷◌, arith, [],
}
use clustodian.Base.Lists.{length, get_elem?, position, All, In, In-All, contains}
use clustodian.Base.Ord.{eqb, eqb-cases, string_ord, nat_ord, pair_ord}

position_found :
    (xs : List State) (a : State)
    → contains xs a ≡ true
    → (i : ℕ) × (position (λ s. eqb s a) xs ≡ some i) × (get_elem? xs i ≡ some a) × (i < length xs)
unfolding position contains
position_found [] a h = absurd cc
position_found (x ∷ xs) a h = elim (eqb-cases x a) [
  | inl (e, p) ↦ (0, rw e refl, rw p refl, omega arith)
  | inr (e, n) ↦
      let (i, q, g, lt) = position_found xs a (ground arith) in
      (suc i, rw (e, q) refl, g, omega arith)
]

pub index_of_known :
    (xs : List State) (a : State)
    → contains xs a ≡ true
    → (get_elem? xs (index_of xs a) ≡ some a) × (index_of xs a < length xs)
unfolding index_of
index_of_known xs a h = let (i, q, g, lt) = position_found xs a h in (rw q g, rw q lt)

pub index_of_inj :
    (xs : List State) (a b : State)
    → contains xs a ≡ true
    → contains xs b ≡ true
    → index_of xs a ≡ index_of xs b
    → a ≡ b
index_of_inj xs a b ha hb e =
    let ga = (index_of_known xs a ha).0 in
    let gb = (index_of_known xs b hb).0 in let ga' = rw e at ga in cc

-- A path of `d` declared transitions from a state to the goal `b`.
pub data Reaches (ts : List Transition) (b : State) : State → ℕ → Type 0 where
  at_goal : {a : State} → a ≡ b → Reaches ts b a 0
  take :
      {a : State} {d : ℕ} (t : Transition)
      → In t ts
      → t.source ≡ a
      → Reaches ts b t.target d
      → Reaches ts b a (suc d)

-- The transitions are between states of the model.
abbrev pub Known : List State → List Transition → Type 0
Known states ts =
    All (λ t. (contains states t.source ≡ true) × (contains states t.target ≡ true)) ts

module _ (states : List State) (ts : List Transition) where
  pub Reaches-Steps :
      {b a : State} {d : ℕ}
      → Reaches ts b a d
      → Steps (EdgeAt states ts) (index_of states b) (index_of states a) d
  Reaches-Steps (at_goal e) = stay (ap (index_of states) e)
  Reaches-Steps (take t m e r) = go (t, m, ap (index_of states) e, refl) (Reaches-Steps r)

  pub edge_small :
      Known states ts → (x y : ℕ) → EdgeAt states ts x y → (x < length states) × (y < length states)
  edge_small known x y (t, m, p, q) =
      let k =
        In-All (λ t. (contains states t.source ≡ true) × (contains states t.target ≡ true)) m
          known in
      (
        rw (← p) (index_of_known states t.source k.0).1,
        rw (← q) (index_of_known states t.target k.1).1,
      )

  pub Steps-Reaches :
      Known states ts
      → (b a : State) {d i : ℕ} → contains states a ≡ true
      → contains states b ≡ true
      → i ≡ index_of states a
      → Steps (EdgeAt states ts) (index_of states b) i d
      → Reaches ts b a d
  Steps-Reaches known b a ha hb e (stay p) = at_goal (index_of_inj states a b ha hb (sym e ∙ p))
  Steps-Reaches known b a ha hb e (go (t, m, p, q) r) =
      let k =
        In-All (λ t. (contains states t.source ≡ true) × (contains states t.target ≡ true)) m
          known in
      take t m (index_of_inj states t.source a k.0 ha (p ∙ e))
        (Steps-Reaches known b t.target k.1 hb (sym q) r)
