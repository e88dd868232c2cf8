-- ===== src/Base/Sort.antt =====
-- `sort_by`: a stable sort, as insertion from the back. `le a b` says that `b` does not compare
-- below `a`. For a comparison that is no total order the standard library promises no order and may
-- panic; the orders here are total on the values that the source sorts, apart from messages to
-- different states that the model does not name, which all compare as equal.
use Prim.Native.Nat.Ordering.{gt}
use clustodian.Base.Logic.{
  Bool, true, false, List, [], ◌∷◌, ◌≡◌, ◌+◌, refl, arith, if◌then◌else◌, Ordering, Bool-cases, inl,
  inr, ℕ,
}
use clustodian.Base.Lists.{count, All, sum}

abbrev pub not_above {ℓ} : {A : Type ℓ} → (A → A → Ordering) → A → A → Bool
not_above cmp a b = elim (cmp a b) [ gt ↦ false | _ ↦ true ]

module _ {ℓ} {A : Type ℓ} (cmp : A → A → Ordering) where
  unfoldable pub insert_by : A → List A → List A
  insert_by x [] = x ∷ []
  insert_by x (y ∷ ys) = if not_above cmp x y then x ∷ y ∷ ys else y ∷ insert_by x ys

  unfoldable pub sort_by : List A → List A
  unfolding insert_by
  sort_by [] = []
  sort_by (x ∷ xs) = insert_by x (sort_by xs)

  count-insert_by :
      (test : A → Bool) (x : A) (ys : List A)
      → count test (insert_by x ys) ≡ (if test x then 1 else 0) + count test ys
  unfolding insert_by count
  count-insert_by test x [] = ground arith
  count-insert_by test x (y ∷ ys) = elim (Bool-cases (not_above cmp x y)) [
    | inl e ↦ rw (insert_by, e, count) (ground arith)
    | inr e ↦ rw (insert_by, e, count) (ground (arith, count-insert_by test x ys))
  ]

  -- Sorting keeps how often each thing occurs.
  pub count-sort_by : (test : A → Bool) (xs : List A) → count test (sort_by xs) ≡ count test xs
  unfolding sort_by count
  count-sort_by test [] = refl
  count-sort_by test (x ∷ xs) =
      let rest = count-sort_by test xs in
      let here_it = count-insert_by test x (sort_by xs) in ground arith

  insert_by-All {κ} :
      (P : A → Type κ) (x : A) (ys : List A) → P x → All P ys → All P (insert_by x ys)
  unfolding insert_by
  insert_by-All P x [] hx h = (hx, tt)
  insert_by-All P x (y ∷ ys) hx h = elim (Bool-cases (not_above cmp x y)) [
    | inl e ↦ rw (insert_by, e) (hx, h)
    | inr e ↦ rw (insert_by, e) (h.0, insert_by-All P x ys hx h.1)
  ]

  pub sort_by-All {κ} : (P : A → Type κ) (xs : List A) → All P xs → All P (sort_by xs)
  unfolding sort_by
  sort_by-All P [] h = tt
  sort_by-All P (x ∷ xs) h = insert_by-All P x (sort_by xs) h.0 (sort_by-All P xs h.1)

  sum-insert_by : (f : A → ℕ) (x : A) (ys : List A) → sum f (insert_by x ys) ≡ f x + sum f ys
  unfolding insert_by
  sum-insert_by f x [] = refl
  sum-insert_by f x (y ∷ ys) = elim (Bool-cases (not_above cmp x y)) [
    | inl e ↦ rw (insert_by, e) refl
    | inr e ↦ rw (insert_by, e) (omega (arith, sum-insert_by f x ys))
  ]

  pub sum-sort_by : (f : A → ℕ) (xs : List A) → sum f (sort_by xs) ≡ sum f xs
  unfolding sort_by
  sum-sort_by f [] = refl
  sum-sort_by f (x ∷ xs) = omega (arith, sum-insert_by f x (sort_by xs), sum-sort_by f xs)
