-- ===== src/Base/Group.antt =====
-- Maps of vectors, filled by `entry(key).or_default().push(value)`.
use clustodian.Base.Logic.{
  Bool, if◌then◌else◌, Bool-cases, unwrap_or, ℕ, ◌+◌, ◌≡◌, refl, ◌∙◌, inl, inr, List, ◌∷◌, ◌++◌,
  arith, [], sym, false,
}
use clustodian.Base.Ord.{Ord, eqb, eqb-cases, order_cases, eqb_refl, eqb_of_lt}
use clustodian.Base.Map.{
  Map, push_at, get, insert, get-push_at, IsSorted, insert-IsSorted, get_below, keys,
}
use clustodian.Base.Lists.{
  filter, count, count-append, All-imp, append_nil, append_assoc, sum, sum_cong, All-map, All,
}

module _ {ℓ κ} {K : Type ℓ} {V : Type κ} ⦃o : Ord K⦄ where
  unfoldable pub group_by : (V → K) → Map K (List V) → List V → Map K (List V)
  unfolding push_at
  group_by key groups [] = groups
  group_by key groups (x ∷ xs) = group_by key (push_at groups (key x) x) xs

  -- The vector under a key, empty where the key is absent.
  abbrev pub vector_at : Map K (List V) → K → List V
  vector_at groups k = unwrap_or (get groups k) []

  pub vector_at-push_at :
      (groups : Map K (List V)) (k : K) (v : V) (j : K)
      → vector_at (push_at groups k v) j
        ≡ (if eqb k j then vector_at groups j ++ v ∷ [] else vector_at groups j)
  vector_at-push_at groups k v j = elim (eqb-cases k j) [
    | inl (e, p) ↦ rw (get-push_at groups k v j, e) (rw p refl)
    | inr (e, n) ↦ rw (get-push_at groups k v j, e) refl
  ]

  -- Grouping files the members in their order.
  pub vector_at-group_by :
      (key : V → K) (xs : List V) (groups : Map K (List V)) (k : K)
      → vector_at (group_by key groups xs) k ≡ vector_at groups k ++ filter (λ x. eqb (key x) k) xs
  unfolding group_by filter
  vector_at-group_by key [] groups k = sym (append_nil (vector_at groups k))
  vector_at-group_by key (x ∷ xs) groups k =
      vector_at-group_by key xs (push_at groups (key x) x) k ∙ elim (Bool-cases (eqb (key x) k)) [
        | inl e ↦
            rw (vector_at-push_at groups (key x) x k, e, filter)
              (append_assoc (vector_at groups k) (x ∷ []) _)
        | inr e ↦ rw (vector_at-push_at groups (key x) x k, e, filter) refl
      ]

  pub group_by-IsSorted :
      (key : V → K) (xs : List V) (groups : Map K (List V))
      → IsSorted groups
      → IsSorted (group_by key groups xs)
  unfolding group_by push_at
  group_by-IsSorted key [] groups h = h
  group_by-IsSorted key (x ∷ xs) groups h =
      group_by-IsSorted key xs (push_at groups (key x) x) (insert-IsSorted groups (key x) _ h)

  -- The members of all vectors that pass a test.
  abbrev pub total : (V → Bool) → Map K (List V) → ℕ
  total test [] = 0
  total test ((k, vs) ∷ groups) = count test vs + total test groups

  total-insert :
      (test : V → Bool) (groups : Map K (List V)) (k : K) (vs : List V)
      → IsSorted groups
      → total test (insert groups k vs) + count test (vector_at groups k)
        ≡ total test groups + count test vs
  unfolding insert get count
  total-insert test [] k vs h = omega arith
  total-insert test ((j, ws) ∷ groups) k vs h = elim (order_cases k j) [
    | inl e ↦
        rw
          (
            insert,
            e,
            get_below ((j, ws) ∷ groups) k (e, All-imp (λ q c. o.chains k j q.0 e c) groups h.0),
          )
          (omega arith)
    | inr (inl (e, p)) ↦ rw (insert, e, p, eqb_refl j, get) (omega arith)
    | inr (inr (e, f)) ↦
        rw (insert, e, eqb_of_lt j k f, get) (omega (arith, total-insert test groups k vs h.1))
  ]

  total-push_at :
      (test : V → Bool) (groups : Map K (List V)) (k : K) (v : V)
      → IsSorted groups
      → total test (push_at groups k v) ≡ total test groups + (if test v then 1 else 0)
  unfolding push_at count
  total-push_at test groups k v h = omega (
    arith,
    total-insert test groups k (vector_at groups k ++ v ∷ []) h,
    count-append test (vector_at groups k) (v ∷ []),
  )

  pub total-group_by :
      (test : V → Bool) (key : V → K) (xs : List V) (groups : Map K (List V))
      → IsSorted groups
      → total test (group_by key groups xs) ≡ total test groups + count test xs
  unfolding group_by count push_at
  total-group_by test key [] groups h = omega arith
  total-group_by test key (x ∷ xs) groups h = omega (
    arith,
    total-group_by test key xs (push_at groups (key x) x) (insert-IsSorted groups (key x) _ h),
    total-push_at test groups (key x) x h,
  )

  -- Walking the keys meets every vector once.
  pub sum-keys :
      (test : V → Bool) (groups : Map K (List V))
      → IsSorted groups
      → sum (λ k. count test (vector_at groups k)) (keys groups) ≡ total test groups
  unfolding get
  sum-keys test [] h = refl
  sum-keys test ((k, vs) ∷ groups) h =
      let above : All (λ p. eqb k p.0 ≡ false) groups =
        All-imp {A = K × List V} (λ p lower. eqb_of_lt k p.0 lower) groups h.0 in
      let rest =
        sum_cong (λ j. count test (vector_at ((k, vs) ∷ groups) j))
          (λ j. count test (vector_at groups j)) (keys groups)
          (All-map _ (λ p. p.0) groups
            (All-imp {A = K × List V} {P = λ p. eqb k p.0 ≡ false} (λ p e. rw e refl) groups
              above)) in
      rw (eqb_refl k) (omega (arith, rest, sum-keys test groups h.1))
