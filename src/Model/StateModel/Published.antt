-- ===== src/Model/StateModel/Published.antt =====
-- The published map says what the table of next hops says, state by state.
use clustodian.Model.State.{State, Transition}
use clustodian.Model.StateModel.Table.{
  Matrix, row_targets, publish_rows, shortest_paths, build_transition_table, put_hop,
}
use clustodian.Base.Logic.{
  unwrap_or, ℕ, zero, suc, ◌+◌, ◌≡◌, refl, ◌≢◌, true, false, Option, none, some, List, ◌∷◌, arith,
  [], ap, ◌∙◌, ◌⊎◌, inl, inr, and_then,
}
use clustodian.Base.Lists.{get_elem?, contains, Distinct}
use clustodian.Base.Map.{Map, get, get-insert_self, get-insert_ne}
use clustodian.Base.Ord.{eqb_refl, string_ord, nat_ord, pair_ord, eqb, eqb-cases}

-- The name of a state by its position, as the published map gives it.
abbrev pub name_at : List State → ℕ → State
name_at states i = unwrap_or (get_elem? states i) ""

pub contains-get_elem? :
    (xs : List State) (i : ℕ) (a : State) → get_elem? xs i ≡ some a → contains xs a ≡ true
unfolding contains
contains-get_elem? [] i a e = absurd cc
contains-get_elem? (x ∷ xs) zero a e = ground (arith, eqb_refl a)
contains-get_elem? (x ∷ xs) (suc i) a e = ground (arith, contains-get_elem? xs i a e)

apart :
    (xs : List State) (j : ℕ) (s b : State)
    → contains xs s ≡ false
    → get_elem? xs j ≡ some b
    → s ≢ b
apart xs j s b n e same = let there_it = contains-get_elem? xs j b e in let n' = rw same at n in cc

-- The hop that one cell publishes for its column's state, over what was there.
abbrev pub cell : List State → Option ℕ → Option State → Option State
cell states (some h) before = some (name_at states h)
cell states none before = before

module _ (states : List State) (row : ℕ → Option ℕ) (from : ℕ) where
  put_hop_other :
      (to : ℕ) (s : State) (o : Option ℕ) (targets : Map State State) (b : State)
      → s ≢ b
      → get (put_hop states from to s o targets) b ≡ get targets b
  unfolding put_hop
  put_hop_other to s none targets b n = refl
  put_hop_other to s (some hop) targets b n =
      ground (arith, get-insert_ne targets s (name_at states hop) b n)

  put_hop_self :
      (to : ℕ) (s : State) (o : Option ℕ) (targets : Map State State)
      → from ≢ to
      → get (put_hop states from to s o targets) s ≡ cell states o (get targets s)
  unfolding put_hop
  put_hop_self to s none targets n = refl
  put_hop_self to s (some hop) targets n =
      ground (arith, get-insert_self targets s (name_at states hop))

  put_hop_diagonal :
      (to : ℕ) (s : State) (o : Option ℕ) (targets : Map State State)
      → from ≡ to
      → put_hop states from to s o targets ≡ targets
  unfolding put_hop
  put_hop_diagonal to s none targets n = refl
  put_hop_diagonal to s (some hop) targets n = ground arith

  row_absent :
      (rest : List State) (to : ℕ) (targets : Map State State) (b : State)
      → contains rest b ≡ false
      → get (row_targets states row from to rest targets) b ≡ get targets b
  unfolding row_targets contains
  row_absent [] to targets b n = refl
  row_absent (s ∷ rest) to targets b n =
      row_absent rest (to + 1) (put_hop states from to s (row to) targets) b (ground arith)
      ∙ put_hop_other to s (row to) targets b (λ e. differs (eqb-cases s b) e)
    where
      differs : ((eqb s b ≡ true) × (s ≡ b)) ⊎ ((eqb s b ≡ false) × (s ≢ b)) → s ≢ b
      differs (inl (e, p)) = absurd (ground arith)
      differs (inr (e, p)) = p

  -- The hop published toward another state.
  pub row_present :
      (rest : List State) (to j k : ℕ) (targets : Map State State) (b : State)
      → get_elem? rest j ≡ some b
      → Distinct rest
      → to + j ≡ k
      → from ≢ k
      → get targets b ≡ none
      → get (row_targets states row from to rest targets) b ≡ cell states (row k) none
  unfolding row_targets
  row_present [] to j k targets b e d z n g = absurd cc
  row_present (s ∷ rest) to zero k targets b e d z n g =
      let same : s ≡ b = ground arith in
      let here_it : to ≡ k = omega arith in
      rw (← same, ← here_it)
        (row_absent rest (to + 1) (put_hop states from to s (row to) targets) s d.0
          ∙ put_hop_self to s (row to) targets (ground arith)
          ∙ ap (cell states (row to)) (rw (← same) at g))
  row_present (s ∷ rest) to (suc j) k targets b e d z n g =
      row_present rest (to + 1) j k (put_hop states from to s (row to) targets) b e d.1
        (omega arith) n (put_hop_other to s (row to) targets b (apart rest j s b d.0 e) ∙ g)

  -- No hop is published toward the row's own state.
  pub row_diagonal :
      (rest : List State) (to j : ℕ) (targets : Map State State) (b : State)
      → get_elem? rest j ≡ some b
      → Distinct rest
      → to + j ≡ from
      → get (row_targets states row from to rest targets) b ≡ get targets b
  unfolding row_targets
  row_diagonal [] to j targets b e d z = absurd cc
  row_diagonal (s ∷ rest) to zero targets b e d z =
      let same : s ≡ b = ground arith in
      rw (← same) (
        row_absent rest (to + 1) (put_hop states from to s (row to) targets) s d.0
        ∙ ap (λ m. get m s) (put_hop_diagonal to s (row to) targets (omega arith)))
  row_diagonal (s ∷ rest) to (suc j) targets b e d z =
      row_diagonal rest (to + 1) j (put_hop states from to s (row to) targets) b e d.1 (omega arith)
      ∙ put_hop_other to s (row to) targets b (apart rest j s b d.0 e)

module _ (states : List State) (next : Matrix) where
  publish_absent :
      (rest : List State) (from : ℕ) (table : Map State (Map State State)) (a : State)
      → contains rest a ≡ false
      → get (publish_rows states next from rest table) a ≡ get table a
  unfolding publish_rows contains
  publish_absent [] from table a n = refl
  publish_absent (s ∷ rest) from table a n =
      publish_absent rest (from + 1) _ a (ground arith)
      ∙ get-insert_ne table s (row_targets states (next from) from 0 states []) a
          (differs (eqb-cases s a))
    where
      differs : ((eqb s a ≡ true) × (s ≡ a)) ⊎ ((eqb s a ≡ false) × (s ≢ a)) → s ≢ a
      differs (inl (e, p)) = absurd (ground arith)
      differs (inr (e, p)) = p

  publish_present :
      (rest : List State) (from i k : ℕ) (table : Map State (Map State State)) (a : State)
      → get_elem? rest i ≡ some a
      → Distinct rest
      → from + i ≡ k
      → get (publish_rows states next from rest table) a
        ≡ some (row_targets states (next k) k 0 states [])
  unfolding publish_rows
  publish_present [] from i k table a e d z = absurd cc
  publish_present (s ∷ rest) from zero k table a e d z =
      let same : s ≡ a = ground arith in
      let here_it : from ≡ k = omega arith in
      rw (← same, ← here_it)
        (publish_absent rest (from + 1) _ s d.0
          ∙ get-insert_self table s (row_targets states (next from) from 0 states []))
  publish_present (s ∷ rest) from (suc i) k table a e d z =
      publish_present rest (from + 1) i k _ a e d.1 (omega arith)

-- The published hop from one state toward another.
abbrev pub published : List State → List Transition → State → State → Option State
published states transitions a b =
    and_then (get (build_transition_table states transitions) a) (λ targets. get targets b)

module _ (states : List State) (transitions : List Transition) (distinct : Distinct states) where
  -- Between the states at two positions it is the hop of the tables.
  pub published_hop :
      (i j : ℕ) (a b : State)
      → get_elem? states i ≡ some a
      → get_elem? states j ≡ some b
      → i ≢ j
      → published states transitions a b
        ≡ cell states ((shortest_paths states transitions).next i j) none
  unfolding build_transition_table get
  published_hop i j a b ea eb ne =
      rw
        (publish_present states (shortest_paths states transitions).next states 0 i i [] a ea
          distinct (omega arith))
        (row_present states ((shortest_paths states transitions).next i) i states 0 j j [] b eb
          distinct (omega arith) ne refl)

  -- Toward the state itself there is none.
  pub published_self :
      (i : ℕ) (a : State) → get_elem? states i ≡ some a → published states transitions a a ≡ none
  unfolding build_transition_table get
  published_self i a e =
      rw
        (publish_present states (shortest_paths states transitions).next states 0 i i [] a e
          distinct (omega arith))
        (row_diagonal states ((shortest_paths states transitions).next i) i states 0 i [] a e
          distinct (omega arith))

  -- A state that is not of the model has no row.
  pub published_unknown :
      (a b : State) → contains states a ≡ false → published states transitions a b ≡ none
  unfolding build_transition_table get
  published_unknown a b n =
      rw (publish_absent states (shortest_paths states transitions).next states 0 [] a n) refl
