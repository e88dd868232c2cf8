-- ===== src/Model/StateModel/Paths.antt =====
-- Paths over an edge relation on numbered states, and that the rounds find the shortest ones.
use clustodian.Model.StateModel.Table.{Matrix, Tables, relax_round}
use clustodian.Model.StateModel.Round.{
  Within, Bounded, Finds, InRound, round_finds, AtMost-double, Within-le,
}
use clustodian.Base.Logic.{
  usize_max, ℕ, suc, ◌+◌, ◌≤◌, ◌<◌, ◌≡◌, refl, ◌⊎◌, inl, inr, zero-add, suc-add, arith, ℕ_discrete,
  zero, ◌*◌,
}
use clustodian.Base.Ord.{string_ord, nat_ord, pair_ord}

module _ (Edge : ℕ → ℕ → Type 0) where
  -- A path of `d` edges.
  pub data Steps (j : ℕ) : ℕ → ℕ → Type 0 where
    stay : {i : ℕ} → i ≡ j → Steps j i 0
    go : {i h d : ℕ} → Edge i h → Steps j h d → Steps j i (suc d)

  pub Steps-trans : {k j i a b : ℕ} → Steps k i a → Steps j k b → Steps j i (a + b)
  Steps-trans {b} (stay e) q = rw e (rw zero-add q)
  Steps-trans {b} (go {d} e p) q = rw suc-add (go e (Steps-trans p q))

  -- A path of `w` edges at most, whose inner states are below `k`.
  pub data Via (k : ℕ) : ℕ → ℕ → ℕ → Type 0 where
    edge : {i j w : ℕ} → Edge i j → 0 < w → Via k i j w
    join : {i j w : ℕ} (m a b : ℕ) → m < k → Via k i m a → Via k m j b → a + b ≤ w → Via k i j w

  pub Via-le : {k i j v w : ℕ} → Via k i j v → v ≤ w → Via k i j w
  Via-le (edge e p) h = edge e (omega arith)
  Via-le (join m a b lt p q le) h = join m a b lt p q (omega arith)

  -- A path over states below `k + 1` avoids `k`, or passes it once.
  abbrev pub Splits : ℕ → ℕ → ℕ → ℕ → Type 0
  Splits k i j w = Via k i j w ⊎ ((a : ℕ) × (b : ℕ) × Via k i k a × Via k k j b × (a + b ≤ w))

  pub Via-Splits : {k i j w : ℕ} → Via (suc k) i j w → Splits k i j w
  Via-Splits (edge e p) = inl (edge e p)
  Via-Splits {k} {i} {j} {w} (join m a b lt p q le) =
      splits (ℕ_discrete m k) (Via-Splits p) (Via-Splits q)
    where
      splits : Dec (m ≡ k) → Splits k i m a → Splits k m j b → Splits k i j w
      splits (yes e) (inl p') (inl q') = inr (a, b, rw e at p', rw e at q', le)
      splits (yes e) (inl p') (inr (c, d, _, q', le')) = inr (a, d, rw e at p', q', omega arith)
      splits (yes e) (inr (c, d, p', _, le')) (inl q') = inr (c, b, p', rw e at q', omega arith)
      splits (yes e) (inr (c, d, p', _, le')) (inr (c', d', _, q', le'')) =
          inr (c, d', p', q', omega arith)
      splits (no n) (inl p') (inl q') = inl (join m a b (omega arith) p' q' le)
      splits (no n) (inl p') (inr (c, d, q', r', le')) =
          inr (a + c, d, join m a c (omega arith) p' q' (omega arith), r', omega arith)
      splits (no n) (inr (c, d, p', r', le')) (inl q') =
          inr (c, d + b, p', join m d b (omega arith) r' q' (omega arith), omega arith)
      splits (no n) (inr (c, d, p', _, le')) (inr (c', d', _, q', le'')) =
          inr (c, d', p', q', omega arith)

  -- A path of at least one edge, over states below `n`.
  pub Steps-Via :
      (n : ℕ) {j i h d : ℕ}
      → ((x y : ℕ) → Edge x y → x < n)
      → Edge i h
      → Steps j h d
      → Via n i j (suc d)
  Steps-Via n small e (stay s) = edge (rw s at e) (omega arith)
  Steps-Via n {i} small e (go {i = h} {d} f p) =
      join h 1 (suc d) (small h _ f) (edge e (omega arith)) (Steps-Via n small f p) (omega arith)

  -- Every path over states below `k` is at least as long as the distance that is known.
  abbrev pub Done : ℕ → ℕ → Matrix → Type 0
  Done n k d = (i j w : ℕ) → i < n → j < n → Via k i j w → Within (d i j) w

  pub round-Done :
      (n k b : ℕ) (t : Tables)
      → k < n
      → Bounded b t.distances
      → b + b < usize_max
      → Done n k t.distances
      → Done n (suc k) (relax_round n k t).distances
  round-Done n k b t below small room done i j w lti ltj p = elim (Via-Splits p) [
    | inl q ↦ found.0.shrinks i j w (done i j w lti ltj q)
    | inr (c, d, q, r, le) ↦
        Within-le _ (c + d) w le
          (found.1 i lti j ltj c d (done i k c lti below q) (done k j d below ltj r))
  ]
    where
      found :
          InRound k b t.distances (relax_round n k t)
          × ((x : ℕ)
              → x < n
              → (y : ℕ) → y < n
              → Finds k t.distances x y (relax_round n k t).distances)
      found = round_finds k b t.distances small room n t (record {
        column = λ i. refl;
        line = λ j. refl;
        bounded = λ i j. AtMost-double (t.distances i j) b (small i j);
        shrinks = λ i j w h. h;
      })

abbrev pub doubled : ℕ → ℕ
doubled zero = 1
doubled (suc k) = 2 * doubled k

pub doubled-le : (k n : ℕ) → k ≤ n → doubled k ≤ doubled n
doubled-le zero zero h = omega arith
doubled-le zero (suc n) h = omega (arith, doubled-le zero n (omega arith))
doubled-le (suc k) zero h = elim h [ ]
doubled-le (suc k) (suc n) h = omega (arith, doubled-le k n (omega arith))
