-- ===== src/Base/Lists.antt =====
-- Lists measured by native numbers, with the membership and counting that the proofs share.
use clustodian.Base.Logic.{
  ℕ, suc, ◌+◌, ◌≤◌, ◌≡◌, refl, sym, inl, inr, Bool, true, false, ◌||◌, Option, none, some, List, [],
  ◌∷◌, ◌++◌, arith, if◌then◌else◌, zero, Bool-cases, ◌&&◌, ◌∙◌, ap, map,
}
use clustodian.Base.Ord.{Ord, eqb, eqb_refl, eqb-cases}

module _ {ℓ} {A : Type ℓ} where
  abbrev pub length : List A → ℕ
  length [] = 0
  length (x ∷ xs) = suc (length xs)

  pub length-append : (xs ys : List A) → length (xs ++ ys) ≡ length xs + length ys
  length-append [] ys = omega arith
  length-append (x ∷ xs) ys = omega (arith, length-append xs ys)

  abbrev pub get_elem? : List A → ℕ → Option A
  get_elem? [] i = none
  get_elem? (x ∷ xs) zero = some x
  get_elem? (x ∷ xs) (suc i) = get_elem? xs i

  abbrev pub is_empty : List A → Bool
  is_empty [] = true
  is_empty (x ∷ xs) = false

  -- `iter().any(test)`.
  unfoldable pub any : (A → Bool) → List A → Bool
  any test [] = false
  any test (x ∷ xs) = test x || any test xs

  -- `iter().find(test)`.
  unfoldable pub find : (A → Bool) → List A → Option A
  find test [] = none
  find test (x ∷ xs) = if test x then some x else find test xs

  -- `iter().filter(test)`.
  unfoldable pub filter : (A → Bool) → List A → List A
  filter test [] = []
  filter test (x ∷ xs) = if test x then x ∷ filter test xs else filter test xs

  -- `iter().position(test)`.
  unfoldable pub position : (A → Bool) → List A → Option ℕ
  position test [] = none
  position test (x ∷ xs) =
      if test x then some 0 else (elim (position test xs) [ none ↦ none | some i ↦ some (suc i) ])

  -- `iter().filter(test).count()`.
  unfoldable pub count : (A → Bool) → List A → ℕ
  count test [] = 0
  count test (x ∷ xs) = (if test x then 1 else 0) + count test xs

  -- Every element satisfies `P`.
  abbrev pub All {κ} : (A → Type κ) → List A → Type κ
  All P [] = Unit
  All P (x ∷ xs) = P x × All P xs

  pub All-append {κ} : (P : A → Type κ) (xs ys : List A) → All P xs → All P ys → All P (xs ++ ys)
  All-append P [] ys h k = k
  All-append P (x ∷ xs) ys h k = (h.0, All-append P xs ys h.1 k)

  pub All-imp {κ μ} :
      {P : A → Type κ} {Q : A → Type μ}
      → ((x : A) → P x → Q x)
      → (xs : List A) → All P xs
      → All Q xs
  All-imp f [] h = tt
  All-imp f (x ∷ xs) h = (f x h.0, All-imp f xs h.1)

  -- A place in a list, with the element that stands there.
  pub data In (x : A) : List A → Type ℓ where
    here : {y : A} {ys : List A} → x ≡ y → In x (y ∷ ys)
    there : {y : A} {ys : List A} → In x ys → In x (y ∷ ys)

  pub In-All {κ} : (P : A → Type κ) {x : A} {xs : List A} → In x xs → All P xs → P x
  In-All P (here e) h = rw e h.0
  In-All P (there m) h = In-All P m h.1

  pub In-append_left : {x : A} {xs : List A} (ys : List A) → In x xs → In x (xs ++ ys)
  In-append_left ys (here e) = here e
  In-append_left ys (there m) = there (In-append_left ys m)

  pub In-append_right : {x : A} (xs : List A) {ys : List A} → In x ys → In x (xs ++ ys)
  In-append_right [] m = m
  In-append_right (y ∷ xs) m = there (In-append_right xs m)

  pub count-append :
      (test : A → Bool) (xs ys : List A) → count test (xs ++ ys) ≡ count test xs + count test ys
  unfolding count
  count-append test [] ys = omega arith
  count-append test (x ∷ xs) ys = omega (arith, count-append test xs ys)

  pub count-le-length : (test : A → Bool) (xs : List A) → count test xs ≤ length xs
  unfolding count
  count-le-length test [] = omega arith
  count-le-length test (x ∷ xs) = ground (arith, count-le-length test xs)

module _ {ℓ} {A : Type ℓ} ⦃o : Ord A⦄ where
  -- `contains`, on a vector or a set.
  unfoldable pub contains : List A → A → Bool
  contains [] a = false
  contains (x ∷ xs) a = eqb x a || contains xs a

  -- No element occurs twice.
  abbrev pub Distinct : List A → Type 0
  Distinct [] = Unit
  Distinct (x ∷ xs) = (contains xs x ≡ false) × Distinct xs

  pub In-contains : {x : A} {xs : List A} → In x xs → contains xs x ≡ true
  unfolding contains
  In-contains (here {y} {ys} e) = rw (e, eqb_refl y) refl
  In-contains {x} (there {y} {ys} m) = ground (arith, In-contains m)

  pub contains-In : (xs : List A) (a : A) → contains xs a ≡ true → In a xs
  unfolding contains
  contains-In [] a h = absurd cc
  contains-In (x ∷ xs) a h = elim (eqb-cases x a) [
    | inl (_, e) ↦ here (sym e)
    | inr (n, _) ↦ there (contains-In xs a (ground arith))
  ]

  pub contains-append :
      (xs ys : List A) (a : A) → contains (xs ++ ys) a ≡ (contains xs a || contains ys a)
  unfolding contains
  contains-append [] ys a = refl
  contains-append (x ∷ xs) ys a = ground (arith, contains-append xs ys a)

module _ {ℓ} {A : Type ℓ} ⦃o : Ord A⦄ where
  pub contains-filter :
      (test : A → Bool) (xs : List A) (a : A)
      → contains (filter test xs) a ≡ (contains xs a && test a)
  unfolding contains filter
  contains-filter test [] a = refl
  contains-filter test (x ∷ xs) a = elim (Bool-cases (test x)) [
    | inl e ↦ rw (e, contains) (ground (arith, contains-filter test xs a, eqb-cases x a))
    | inr e ↦ rw (e, contains) (contains-filter test xs a ∙ ground (arith, eqb-cases x a))
  ]

  pub filter-Distinct : (test : A → Bool) (xs : List A) → Distinct xs → Distinct (filter test xs)
  unfolding filter
  filter-Distinct test [] d = tt
  filter-Distinct test (x ∷ xs) d = elim (Bool-cases (test x)) [
    | inl e ↦ rw (e, filter) (contains-filter test xs x ∙ rw d.0 refl, filter-Distinct test xs d.1)
    | inr e ↦ rw (e, filter) (filter-Distinct test xs d.1)
  ]

module _ {ℓ} {A : Type ℓ} where
  pub filter-All {κ} :
      (P : A → Type κ) (test : A → Bool) (xs : List A) → All P xs → All P (filter test xs)
  unfolding filter
  filter-All P test [] h = tt
  filter-All P test (x ∷ xs) h = elim (Bool-cases (test x)) [
    | inl e ↦ rw (e, filter) (h.0, filter-All P test xs h.1)
    | inr e ↦ rw (e, filter) (filter-All P test xs h.1)
  ]

  -- The members that are kept pass the test.
  pub filter_passes : (test : A → Bool) (xs : List A) → All (λ x. test x ≡ true) (filter test xs)
  unfolding filter
  filter_passes test [] = tt
  filter_passes test (x ∷ xs) = elim (Bool-cases (test x)) [
    | inl e ↦ rw (e, filter) (e, filter_passes test xs)
    | inr e ↦ rw (e, filter) (filter_passes test xs)
  ]

  pub count-filter :
      (test keep : A → Bool) (xs : List A)
      → count test (filter keep xs) ≡ count (λ x. keep x && test x) xs
  unfolding filter count
  count-filter test keep [] = refl
  count-filter test keep (x ∷ xs) = elim (Bool-cases (keep x)) [
    | inl e ↦
        rw (e, filter, count) (ap (λ n. (if test x then 1 else 0) + n) (count-filter test keep xs))
    | inr e ↦ rw (e, filter, count) (omega (arith, count-filter test keep xs))
  ]

  pub append_nil : (xs : List A) → xs ++ [] ≡ xs
  append_nil [] = refl
  append_nil (x ∷ xs) = ap (λ ys. x ∷ ys) (append_nil xs)

  pub append_assoc : (xs ys zs : List A) → (xs ++ ys) ++ zs ≡ xs ++ (ys ++ zs)
  append_assoc [] ys zs = refl
  append_assoc (x ∷ xs) ys zs = ap (λ ws. x ∷ ws) (append_assoc xs ys zs)

  pub count_all : (xs : List A) → count (λ x. true) xs ≡ length xs
  unfolding count
  count_all [] = refl
  count_all (x ∷ xs) = omega (arith, count_all xs)

  pub any-filter :
      (test keep : A → Bool) (xs : List A)
      → any test (filter keep xs) ≡ any (λ x. keep x && test x) xs
  unfolding filter any
  any-filter test keep [] = refl
  any-filter test keep (x ∷ xs) = elim (Bool-cases (keep x)) [
    | inl e ↦ rw (e, filter, any) (ap (λ b. test x || b) (any-filter test keep xs))
    | inr e ↦ rw (e, filter, any) (any-filter test keep xs)
  ]

  -- What follows from membership holds of every member.
  pub All-of_In {κ} : (P : A → Type κ) (xs : List A) → ((x : A) → In x xs → P x) → All P xs
  All-of_In P [] f = tt
  All-of_In P (x ∷ xs) f = (f x (here refl), All-of_In P xs (λ y i. f y (there i)))

module _ {ℓ} {A : Type ℓ} where
  -- The sum of a measure.
  abbrev pub sum : (A → ℕ) → List A → ℕ
  sum f [] = 0
  sum f (x ∷ xs) = f x + sum f xs

  pub sum_cong : (f g : A → ℕ) (xs : List A) → All (λ x. f x ≡ g x) xs → sum f xs ≡ sum g xs
  sum_cong f g [] h = refl
  sum_cong f g (x ∷ xs) h = omega (arith, h.0, sum_cong f g xs h.1)

  pub count_cong :
      (f g : A → Bool) (xs : List A) → All (λ x. f x ≡ g x) xs → count f xs ≡ count g xs
  unfolding count
  count_cong f g [] h = refl
  count_cong f g (x ∷ xs) h = rw (h.0) (omega (arith, count_cong f g xs h.1))

  pub All-map {κ μ} :
      {B : Type κ} (P : B → Type μ) (f : A → B) (xs : List A)
      → All (λ x. P (f x)) xs
      → All P (map f xs)
  All-map P f [] h = tt
  All-map P f (x ∷ xs) h = (h.0, All-map P f xs h.1)
