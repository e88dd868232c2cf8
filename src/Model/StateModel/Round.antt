-- ===== src/Model/StateModel/Round.antt =====
-- One round of the Floyd-Warshall loops: what it keeps, and the paths that it finds.
use clustodian.Model.StateModel.Table.{Matrix, write, Tables, relax, relax_round, relax_row}
use clustodian.Base.Logic.{ℕ, ◌≤◌, ◌≡◌, Option, none, some, arith, usize_max, ◌+◌, ◌<◌, ◌∙◌, refl}
use clustodian.Base.Ord.{string_ord, nat_ord, pair_ord}
use clustodian.Base.Loop.{for_range_each}

-- The distance is known, and is at most `w`.
abbrev pub Within : Option ℕ → ℕ → Type 0
Within none w = ⊥
Within (some d) w = d ≤ w

-- The distance is unknown, or at most `w`.
abbrev pub AtMost : Option ℕ → ℕ → Type 0
AtMost none w = Unit
AtMost (some d) w = d ≤ w

pub AtMost-double : (o : Option ℕ) (b : ℕ) → AtMost o b → AtMost o (b + b)
AtMost-double none b h = tt
AtMost-double (some d) b h = omega arith

pub Within-le : (o : Option ℕ) (v w : ℕ) → v ≤ w → Within o v → Within o w
Within-le none v w le h = h
Within-le (some d) v w le h = omega arith

pub Within-some : (o : Option ℕ) (w : ℕ) → Within o w → (d : ℕ) × (o ≡ some d) × (d ≤ w)
Within-some none w h = absurd h
Within-some (some d) w h = (d, refl, h)

-- No distance of the second matrix is larger than in the first.
abbrev pub Shrinks : Matrix → Matrix → Type 0
Shrinks d e = (i j w : ℕ) → Within (d i j) w → Within (e i j) w

abbrev pub Bounded : ℕ → Matrix → Type 0
Bounded b d = (i j : ℕ) → AtMost (d i j) b

pub relax-Shrinks : (k x y : ℕ) (t : Tables) → Shrinks t.distances (relax k x y t).distances
unfolding relax write
relax-Shrinks k x y t i j w h = ground arith

relax_column : (k x y : ℕ) (t : Tables) (i : ℕ) → (relax k x y t).distances i k ≡ t.distances i k
unfolding relax write
relax_column k x y t i = ground arith

relax_line : (k x y : ℕ) (t : Tables) (j : ℕ) → (relax k x y t).distances k j ≡ t.distances k j
unfolding relax write
relax_line k x y t j = ground arith

-- The paths through `k` that the matrix `start` has, for one pair of ends.
abbrev pub Finds : ℕ → Matrix → ℕ → ℕ → Matrix → Type 0
Finds k start i j d =
    (a b : ℕ) → Within (start i k) a → Within (start k j) b → Within (d i j) (a + b)

-- What holds throughout the round of `k` that began at the matrix `start`, whose distances are at
-- most `b`.
pub record InRound (k b : ℕ) (start : Matrix) (t : Tables) : Type 0 where
  pub column : (i : ℕ) → t.distances i k ≡ start i k
  pub line : (j : ℕ) → t.distances k j ≡ start k j
  pub bounded : Bounded (b + b) t.distances
  pub shrinks : Shrinks start t.distances

module _ (k b : ℕ) (start : Matrix) (small : Bounded b start) (room : b + b < usize_max) where
  Bounded-write :
      (x y : ℕ) (t : Tables) → InRound k b start t → Bounded (b + b) (relax k x y t).distances
  unfolding relax write
  Bounded-write x y t h i j =
      ground (arith, h.bounded i j, h.column x, h.line y, small x k, small k y)

  relax-InRound : (x y : ℕ) (t : Tables) → InRound k b start t → InRound k b start (relax k x y t)
  relax-InRound x y t h = record {
    column = λ i. relax_column k x y t i ∙ h.column i;
    line = λ j. relax_line k x y t j ∙ h.line j;
    bounded = Bounded-write x y t h;
    shrinks = λ i j w s. relax-Shrinks k x y t i j w (h.shrinks i j w s);
  }

  relax-Finds :
      (x y : ℕ) (t : Tables) → InRound k b start t → Finds k start x y (relax k x y t).distances
  unfolding relax write
  relax-Finds x y t h a c p q = ground (arith, h.column x, h.line y, small x k, small k y)

  Finds_later :
      (x y i j : ℕ) (t : Tables)
      → Finds k start i j t.distances
      → Finds k start i j (relax k x y t).distances
  Finds_later x y i j t f a c p q = relax-Shrinks k x y t i j (a + c) (f a c p q)

  row :
      (n x : ℕ) (t : Tables)
      → InRound k b start t
      → InRound k b start (relax_row n k x t)
        × ((y : ℕ) → y < n → Finds k start x y (relax_row n k x t).distances)
  unfolding relax_row
  row n x t h =
      for_range_each (InRound k b start) (λ y u. Finds k start x y u.distances) (relax k x) n
        (λ y u lt v. (relax-InRound x y u v, relax-Finds x y u v))
        (λ y z u lt v f. Finds_later x y x z u f) t h

  row_later :
      (n x i j : ℕ) (t : Tables)
      → InRound k b start t
      → Finds k start i j t.distances
      → Finds k start i j (relax_row n k x t).distances
  unfolding relax_row
  row_later n x i j t h f =
      (for_range_each (λ u. InRound k b start u × Finds k start i j u.distances) (λ y u. Unit {0})
        (relax k x) n (λ y u lt v. ((relax-InRound x y u v.0, Finds_later x y i j u v.1), tt))
        (λ y z u lt v f. tt) t (h, f)).0.1

  -- After the round, every path through `k` that was there is taken into account.
  pub round_finds :
      (n : ℕ) (t : Tables)
      → InRound k b start t
      → InRound k b start (relax_round n k t)
        × ((x : ℕ) → x < n → (y : ℕ) → y < n → Finds k start x y (relax_round n k t).distances)
  unfolding relax_round
  round_finds n t h =
      for_range_each (InRound k b start) (λ x u. (y : ℕ) → y < n → Finds k start x y u.distances)
        (relax_row n k) n (λ x u lt v. row n x u v)
        (λ x z u lt v f y below. row_later n x z y u v (f y below)) t h
