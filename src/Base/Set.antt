-- ===== src/Base/Set.antt =====
-- `BTreeSet`: the elements in their order, each once.
use Prim.Native.Nat.Ordering.{lt, eq, gt}
use clustodian.Base.Logic.{
  ◌≡◌, refl, Bool, true, ◌||◌, List, [], ◌∷◌, arith, false, sym, ◌∙◌, inl, inr, ◌≤◌, ◌+◌,
  Bool-cases, if◌then◌else◌, not, ◌&&◌,
}
use clustodian.Base.Ord.{Ord, eqb, eqb_of_lt, order_cases, eqb-sym, eqb_refl}
use clustodian.Base.Lists.{contains, Distinct, All, All-imp, length, filter, contains-filter}

or-false : (a : Bool) → (a || false) ≡ a
or-false true = refl
or-false false = refl

or-swap : (a b c : Bool) → ((a || b) || c) ≡ (b || (a || c))
or-swap true true c = refl
or-swap true false c = refl
or-swap false true c = refl
or-swap false false c = refl

module _ {ℓ} {A : Type ℓ} ⦃o : Ord A⦄ where
  unfoldable pub add : List A → A → List A
  add [] a = a ∷ []
  add (x ∷ xs) a = elim (o.cmp a x) [ lt ↦ a ∷ x ∷ xs | eq ↦ x ∷ xs | gt ↦ x ∷ add xs a ]

  -- `extend`, one element after the other.
  unfoldable pub extend : List A → List A → List A
  unfolding add
  extend s [] = s
  extend s (x ∷ xs) = extend (add s x) xs

  -- `collect` into a set.
  unfoldable pub collect : List A → List A
  unfolding extend
  collect xs = extend [] xs

  pub contains-add : (s : List A) (a b : A) → contains (add s a) b ≡ (eqb a b || contains s b)
  unfolding add contains eqb
  contains-add [] a b = refl
  contains-add (x ∷ xs) a b =
      ground
        (arith, contains-add xs a b, o.only_self a x, o.only_self x b, o.only_self a b, o.self_eq a)

  pub contains-extend :
      (s xs : List A) (b : A) → contains (extend s xs) b ≡ (contains s b || contains xs b)
  unfolding extend
  contains-extend s [] b = unfold contains in sym (or-false (contains s b))
  contains-extend s (x ∷ xs) b =
      contains-extend (add s x) xs b
      ∙ (rw (contains-add s x b)
          (unfold contains in or-swap (eqb x b) (contains s b) (contains xs b)))

  -- The elements rise along the list, as in every set that is built by `add`.
  abbrev pub IsOrdered : List A → Type ℓ
  IsOrdered [] = Unit
  IsOrdered (x ∷ xs) = All (λ y. o.cmp x y ≡ lt) xs × IsOrdered xs

  add-above :
      (b : A) (s : List A) (a : A)
      → o.cmp b a ≡ lt
      → All (λ y. o.cmp b y ≡ lt) s
      → All (λ y. o.cmp b y ≡ lt) (add s a)
  unfolding add
  add-above b [] a h k = (h, tt)
  add-above b (x ∷ s) a h k = ground (arith, add-above b s a h)

  pub add-IsOrdered : (s : List A) (a : A) → IsOrdered s → IsOrdered (add s a)
  unfolding add
  add-IsOrdered [] a h = (tt, tt)
  add-IsOrdered (x ∷ s) a h = elim (order_cases a x) [
    | inl e ↦ rw (e, add) ((e, All-imp (λ y c. o.chains a x y e c) s h.0), (h.0, h.1))
    | inr (inl (e, p)) ↦ rw (e, add) (h.0, h.1)
    | inr (inr (e, f)) ↦ rw (e, add) (add-above x s a f h.0, add-IsOrdered s a h.1)
  ]

  pub extend-IsOrdered : (xs s : List A) → IsOrdered s → IsOrdered (extend s xs)
  unfolding extend
  extend-IsOrdered [] s h = h
  extend-IsOrdered (x ∷ xs) s h = extend-IsOrdered xs (add s x) (add-IsOrdered s x h)

  contains_below : (a : A) (s : List A) → All (λ y. o.cmp a y ≡ lt) s → contains s a ≡ false
  unfolding contains
  contains_below a [] h = refl
  contains_below a (x ∷ s) h =
      ground (arith, contains_below a s h.1, eqb_of_lt a x h.0, eqb-sym a x)

  pub IsOrdered-Distinct : (s : List A) → IsOrdered s → Distinct s
  IsOrdered-Distinct [] h = tt
  IsOrdered-Distinct (x ∷ s) h = (contains_below x s h.0, IsOrdered-Distinct s h.1)

  pub length-add :
      (s : List A) (a : A)
      → IsOrdered s
      → length (add s a) ≡ (if contains s a then length s else length s + 1)
  unfolding add contains
  length-add [] a h = refl
  length-add (x ∷ s) a h = elim (order_cases a x) [
    | inl e ↦
        rw (add, e)
          (ground (
            arith,
            eqb_of_lt a x e,
            eqb-sym a x,
            contains_below a s (All-imp (λ y c. o.chains a x y e c) s h.0),
          ))
    | inr (inl (e, p)) ↦ rw (add, e) (ground (arith, eqb_refl x))
    | inr (inr (e, f)) ↦ rw (add, e) (ground (arith, length-add s a h.1, eqb_of_lt x a f))
  ]

  -- Elements that were not in the set, and are not the one that was added.
  fresh_add :
      (s xs : List A) (x : A)
      → All (λ y. contains (add s x) y ≡ false) xs
      → All (λ y. contains s y ≡ false) xs × (contains xs x ≡ false)
  unfolding contains
  fresh_add s [] x h = (tt, refl)
  fresh_add s (y ∷ xs) x h =
      let (old, apart) = fresh_add s xs x h.1 in
      let grown = rw (contains-add s x y) at h.0 in
      let flip = eqb-sym x y in ((ground arith, old), ground arith)

  length-extend :
      (xs s : List A)
      → IsOrdered s
      → (length (extend s xs) ≤ length s + length xs)
        × (length (extend s xs) ≡ length s + length xs
            → Distinct xs × All (λ y. contains s y ≡ false) xs)
  unfolding extend
  length-extend [] s h = (omega arith, λ e. (tt, tt))
  length-extend (x ∷ xs) s h =
      let (most, full) = length-extend xs (add s x) (add-IsOrdered s x h) in
      let size = length-add s x h in
      elim (Bool-cases (contains s x)) [
        | inl there_it ↦ let size' = rw there_it at size in (omega arith, λ e. absurd (omega arith))
        | inr new_it ↦
            let size' = rw new_it at size in
            (
              omega arith,
              λ e.
                  let (distinct, fresh) = full (omega arith) in
                  let (old, apart) = fresh_add s xs x fresh in ((apart, distinct), (new_it, old)),
            )
      ]

  -- A list that loses nothing when it is collected into a set has no duplicates.
  pub collect-Distinct : (xs : List A) → length (collect xs) ≡ length xs → Distinct xs
  unfolding collect
  collect-Distinct xs e = ((length-extend xs [] tt).1 (omega arith)).0

module _ {ℓ} {A : Type ℓ} ⦃o : Ord A⦄ where
  -- The keys that a set does not hold yet.
  abbrev pub Fresh : List A → List A → Type 0
  Fresh seen ks = All (λ k. contains seen k ≡ false) ks

  -- Adding a key leaves the others fresh exactly where they differ from it.
  pub Fresh-add :
      (seen ks : List A) (a : A) → Fresh (add seen a) ks → (contains ks a ≡ false) × Fresh seen ks
  unfolding contains
  Fresh-add seen [] a h = (refl, tt)
  Fresh-add seen (k ∷ ks) a h =
      let rest = Fresh-add seen ks a h.1 in
      let first = contains-add seen a k in
      let turned = eqb-sym a k in (ground arith, (ground arith, rest.1))

  pub add-Fresh :
      (seen ks : List A) (a : A) → contains ks a ≡ false → Fresh seen ks → Fresh (add seen a) ks
  unfolding contains
  add-Fresh seen [] a n h = tt
  add-Fresh seen (k ∷ ks) a n h =
      let first = contains-add seen a k in
      let turned = eqb-sym a k in (ground arith, add-Fresh seen ks a (ground arith) h.1)

module _ {ℓ} {A : Type ℓ} ⦃o : Ord A⦄ where
  -- `remove`, on a set.
  unfoldable pub discard : List A → A → List A
  unfolding filter eqb
  discard s a = filter (λ x. not (eqb x a)) s

  pub contains-discard :
      (s : List A) (a b : A) → contains (discard s a) b ≡ (contains s b && not (eqb a b))
  unfolding discard
  contains-discard s a b = contains-filter (λ x. not (eqb x a)) s b ∙ rw (eqb-sym a b) refl
