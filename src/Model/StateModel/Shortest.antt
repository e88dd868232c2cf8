-- ===== src/Model/StateModel/Shortest.antt =====
-- The finished tables hold shortest distances, and the hops that start shortest paths.
use clustodian.Model.State.{State, Transition}
use clustodian.Model.StateModel.Table.{
  write, Tables, index_of, set_diagonal, set_edge, set_edges, relax, relax_row, relax_round,
  shortest_paths,
}
use clustodian.Model.StateModel.Round.{Within, Bounded, round_finds, AtMost-double, Within-le}
use clustodian.Model.StateModel.Paths.{Done, round-Done, doubled, doubled-le, stay, edge, join}
use clustodian.Model.StateModel.Hops.{Sound, Linked, relax-Sound, relax-Linked}
use clustodian.Base.Loop.{for_range_inv, for_range}
use clustodian.Base.Logic.{
  ℕ, ◌≡◌, List, arith, ◌==◌, Bool-cases, ◌+◌, ◌≤◌, ◌<◌, refl, inl, inr, ◌&&◌, none, ◌∷◌, [],
  usize_max, suc, add-one,
}
use clustodian.Base.Lists.{In, length, here, there}
use clustodian.Base.Ord.{string_ord, nat_ord, pair_ord}

-- A declared transition, between the positions of its two states.
abbrev pub EdgeAt : List State → List Transition → ℕ → ℕ → Type 0
EdgeAt states transitions i j =
    (t : Transition) × In t transitions
    × (index_of states t.source ≡ i)
    × (index_of states t.target ≡ j)

-- What relaxing any cell keeps, a whole round keeps.
round_keeps {ℓ} :
    (P : Tables → Type ℓ) (n k : ℕ)
    → ((x y : ℕ) (t : Tables) → P t → P (relax k x y t))
    → (t : Tables) → P t
    → P (relax_round n k t)
unfolding relax_round relax_row
round_keeps P n k keep t h =
    for_range_inv (λ i. P) (relax_row n k) n
      (λ x u lt v.
        for_range_inv (λ i. P) (relax k x) n (λ y w lt' v'. keep x y w v') n 0 u (omega arith) v)
      n 0 t (omega arith) h

module _ (states : List State) (transitions : List Transition) where
  abbrev pub Edge : ℕ → ℕ → Type 0
  Edge = EdgeAt states transitions

  -- The tables before the rounds.
  record Ready (t : Tables) : Type 0 where
    pub sound : Sound Edge t
    pub linked : Linked Edge t
    bounded : Bounded 1 t.distances

  set_diagonal-Ready : (i : ℕ) (t : Tables) → Ready t → Ready (set_diagonal i t)
  unfolding set_diagonal write
  set_diagonal-Ready i t r = record {
    sound = λ a b d e. elim (Bool-cases (a == i && b == i)) [
      | inl hit ↦ inl (ground arith, ground arith)
      | inr miss ↦ rw miss (r.sound a b d (rw miss at e))
    ];
    linked = λ a b e. ground (arith, r.linked a b);
    bounded = λ a b. ground (arith, r.bounded a b);
  }

  set_edge-Ready :
      (t : Tables) (e : Transition) → In e transitions → Ready t → Ready (set_edge states t e)
  unfolding set_edge write
  set_edge-Ready t e m r = record {
    sound = λ a b d h. elim (Bool-cases (a == from && b == to)) [
      | inl hit ↦
          inr (to, 0, rw hit refl, (e, m, ground arith, refl), stay (ground arith), ground arith)
      | inr miss ↦ rw miss (r.sound a b d (rw miss at h))
    ];
    linked = λ a b h. ground (arith, r.linked a b);
    bounded = λ a b. ground (arith, r.bounded a b);
  }
    where
      from : ℕ
      from = index_of states e.source

      to : ℕ
      to = index_of states e.target

  set_edges-Ready :
      (es : List Transition) (t : Tables)
      → ((e : Transition) → In e es → In e transitions)
      → Ready t
      → Ready (set_edges states t es)
  unfolding set_edges
  set_edges-Ready [] t m r = r
  set_edges-Ready (e ∷ es) t m r =
      set_edges-Ready es (set_edge states t e) (λ f i. m f (there i))
        (set_edge-Ready t e (m e (here refl)) r)

  set_edge-Within :
      (t : Tables) (e : Transition) (i j : ℕ)
      → Within (t.distances i j) 1
      → Within ((set_edge states t e).distances i j) 1
  unfolding set_edge write
  set_edge-Within t e i j h = ground arith

  set_edges-Within :
      (es : List Transition) (t : Tables) (i j : ℕ)
      → Within (t.distances i j) 1
      → Within ((set_edges states t es).distances i j) 1
  unfolding set_edges
  set_edges-Within [] t i j h = h
  set_edges-Within (e ∷ es) t i j h =
      set_edges-Within es (set_edge states t e) i j (set_edge-Within t e i j h)

  set_edge_writes :
      (t : Tables) (e : Transition)
      → Within
          ((set_edge states t e).distances (index_of states e.source) (index_of states e.target))
          1
  unfolding set_edge write
  set_edge_writes t e = ground arith

  edges_known :
      (es : List Transition) (t : Tables) (e : Transition)
      → In e es
      → Within
          ((set_edges states t es).distances (index_of states e.source) (index_of states e.target))
          1
  unfolding set_edges
  edges_known [] t e m = elim m [ ]
  edges_known (f ∷ es) t e (here p) =
      rw p (set_edges-Within es (set_edge states t f) _ _ (set_edge_writes t f))
  edges_known (f ∷ es) t e (there m) = edges_known es (set_edge states t f) e m

  -- The tables after the first `k` rounds.
  pub record AfterRounds (n k : ℕ) (t : Tables) : Type 0 where
    pub sound : Sound Edge t
    pub linked : Linked Edge t
    pub bounded : Bounded (doubled k) t.distances
    pub done : Done Edge n k t.distances

  start : Tables
  start =
      set_edges states
        (for_range (length states) 0 set_diagonal
          (record { distances = λ i j. none; next = λ i j. none }))
        transitions

  start-Ready : Ready start
  unfolding start
  start-Ready =
      set_edges-Ready transitions _ (λ e m. m)
        (for_range_inv (λ k. Ready) set_diagonal (length states)
          (λ k t lt r. set_diagonal-Ready k t r) (length states) 0 _ (omega arith)
          (record { sound = λ i j d e. absurd cc; linked = λ i j e. refl; bounded = λ i j. tt }))

  no_inner : (n : ℕ) → Done Edge n 0 start.distances
  unfolding start
  no_inner n i j w lti ltj (edge (e, m, a, b) pos) =
      rw (← a, ← b) (Within-le _ 1 w (omega arith) (edges_known transitions _ e m))
  no_inner n i j w lti ltj (join m a b lt p q le) = absurd (omega arith)

  doubled_step : (k : ℕ) → doubled k + doubled k ≡ doubled (k + 1)
  doubled_step k = rw add-one (omega arith)

  small_enough : (n k : ℕ) → n ≤ 62 → k < n → doubled k + doubled k < usize_max
  small_enough n k le lt = omega (arith, doubled-le (suc k) 62 (omega arith))

  -- With 62 states at most no distance overflows, and the rounds find every shortest path.
  round_step :
      (n k : ℕ) (t : Tables)
      → n ≤ 62
      → k < n
      → AfterRounds n k t
      → AfterRounds n (k + 1) (relax_round n k t)
  round_step n k t le lt r = record {
    sound = round_keeps (Sound Edge) n k (relax-Sound Edge k) t r.sound;
    linked = round_keeps (Linked Edge) n k (relax-Linked Edge k) t r.linked;
    bounded = λ i j. rw (← doubled_step k) (
        (round_finds k (doubled k) t.distances r.bounded (small_enough n k le lt) n t (record {
          column = λ i. refl;
          line = λ j. refl;
          bounded = λ i j. AtMost-double (t.distances i j) (doubled k) (r.bounded i j);
          shrinks = λ i j w h. h;
        })).0.bounded
          i j);
    done =
        rw add-one (round-Done Edge n k (doubled k) t lt r.bounded (small_enough n k le lt) r.done);
  }

  pub finished :
      length states ≤ 62
      → AfterRounds (length states) (length states) (shortest_paths states transitions)
  unfolding shortest_paths start
  finished le =
      for_range_inv (AfterRounds (length states)) (relax_round (length states)) (length states)
        (λ k t lt r. round_step (length states) k t le lt r) (length states) 0 _ (omega arith)
        (record {
          sound = start-Ready.sound;
          linked = start-Ready.linked;
          bounded = start-Ready.bounded;
          done = no_inner (length states);
        })
