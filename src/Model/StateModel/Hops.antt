-- ===== src/Model/StateModel/Hops.antt =====
-- The next hops of the table are edges, and each starts a path of the length that is recorded.
use clustodian.Model.StateModel.Table.{write, Tables, relax}
use clustodian.Model.StateModel.Paths.{Steps, stay, go, Steps-trans}
use clustodian.Base.Logic.{
  usize_max, unwrap_or, ℕ, suc, ◌+◌, ◌<◌, ◌≡◌, sym, ◌∙◌, ◌⊎◌, inl, inr, none, some, ltb, Bool-cases,
  Option-cases, arith, ℕ_discrete,
}
use clustodian.Base.Ord.{string_ord, nat_ord, pair_ord}

-- What one relaxation makes of a cell: it stays, or takes the path through `k`.
relax_cases :
    (k x y : ℕ) (t : Tables) (i j : ℕ)
    → (((relax k x y t).distances i j ≡ t.distances i j) × ((relax k x y t).next i j ≡ t.next i j))
      ⊎ ((l : ℕ) × (r : ℕ) × (i ≡ x)
          × (j ≡ y)
          × (t.distances x k ≡ some l)
          × (t.distances k y ≡ some r)
          × (l + r < unwrap_or (t.distances x y) usize_max)
          × ((relax k x y t).distances i j ≡ some (l + r))
          × ((relax k x y t).next i j ≡ t.next x k))
unfolding relax write
relax_cases k x y t i j = elim (Option-cases (t.distances x k)) [
  | inl e ↦ inl (ground arith)
  | inr (l, e) ↦ elim (Option-cases (t.distances k y)) [
    | inl f ↦ inl (ground arith)
    | inr (r, f) ↦ elim (ℕ_discrete i x) [
      | no n ↦ inl (ground arith)
      | yes p ↦ elim (ℕ_discrete j y) [
        | no n ↦ inl (ground arith)
        | yes q ↦ elim (Bool-cases (ltb (l + r) (unwrap_or (t.distances x y) usize_max))) [
          | inl b ↦ inr (l, r, p, q, e, f, ground arith, ground arith, ground arith)
          | inr b ↦ inl (ground arith)
        ]
      ]
    ]
  ]
]

module _ (Edge : ℕ → ℕ → Type 0) where
  -- A state is its own goal, or the next hop is an edge, and leads to the goal in one step less.
  abbrev pub Hop : Tables → ℕ → ℕ → ℕ → Type 0
  Hop t i j d =
      ((i ≡ j) × (d ≡ 0))
      ⊎ ((h : ℕ) × (rest : ℕ) × (t.next i j ≡ some h)
          × Edge i h
          × Steps Edge j h rest
          × (d ≡ suc rest))

  abbrev pub Sound : Tables → Type 0
  Sound t = (i j d : ℕ) → t.distances i j ≡ some d → Hop t i j d

  -- A hop is recorded only where a distance is.
  abbrev pub Linked : Tables → Type 0
  Linked t = (i j : ℕ) → t.distances i j ≡ none → t.next i j ≡ none

  pub Hop-Steps : (t : Tables) (i j d : ℕ) → Hop t i j d → Steps Edge j i d
  Hop-Steps t i j d (inl (e, z)) = rw z (stay e)
  Hop-Steps t i j d (inr (h, rest, n, e, p, z)) = rw z (go e p)

  pub relax-Sound : (k x y : ℕ) (t : Tables) → Sound t → Sound (relax k x y t)
  relax-Sound k x y t s i j d e = elim (relax_cases k x y t i j) [
    | inl (de, ne) ↦ rw ne (s i j d (sym de ∙ e))
    | inr (l, r, ex, ey, xk, ky, lt, de, ne) ↦ elim (s x k l xk) [
      | inl (same, z) ↦ absurd (ground arith)
      | inr (h, rest, n, f, p, z) ↦ inr (
        h,
        rest + r,
        ne ∙ n,
        rw ex f,
        rw ey (Steps-trans Edge p (Hop-Steps t k y r (s k y r ky))),
        ground arith,
      )
    ]
  ]

  pub relax-Linked : (k x y : ℕ) (t : Tables) → Linked t → Linked (relax k x y t)
  relax-Linked k x y t s i j e = elim (relax_cases k x y t i j) [
    | inl (de, ne) ↦ ne ∙ s i j (sym de ∙ e)
    | inr (l, r, ex, ey, xk, ky, lt, de, ne) ↦ absurd cc
  ]
