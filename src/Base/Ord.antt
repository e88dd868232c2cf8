-- ===== src/Base/Ord.antt =====
-- The trait `Ord` with the laws that it asks of `cmp`, and its instances for the source's keys:
-- strings (compared by code points, which is the order of their UTF-8 bytes), numbers and tuples.
use Prim.Native.String.{compare as compare_text}
use Prim.Native.String.compare.{nil-nil, nil-cons, cons-nil, cons-cons}
use Prim.Native.Nat.Ordering.{lt, eq, gt}
use text.Mathlib.TextEquality.{path_by_compare}
use text.Mathlib.TextPositions.{compare_refl}
use clustodian.Base.Logic.{
  ℕ, compare, Ordering, String, ◌≡◌, sym, ◌∙◌, ◌≢◌, ◌⊎◌, Bool, true, false, arith,
}

-- `Ordering::reverse`.
abbrev pub reversed : Ordering → Ordering
reversed lt = gt
reversed eq = eq
reversed gt = lt

-- `Ordering::then_with`.
abbrev pub then_with : Ordering → Ordering → Ordering
then_with lt second = lt
then_with eq second = second
then_with gt second = gt

pub record Ord {ℓ} (K : Type ℓ) : Type ℓ where
  pub cmp : K → K → Ordering
  pub self_eq : (k : K) → cmp k k ≡ eq
  pub only_self : (j k : K) → cmp j k ≡ eq → j ≡ k
  pub swaps : (j k : K) → cmp k j ≡ reversed (cmp j k)
  pub chains : (i j k : K) → cmp i j ≡ lt → cmp j k ≡ lt → cmp i k ≡ lt

module _ {ℓ} {K : Type ℓ} ⦃o : Ord K⦄ where
  -- `a == b`.
  unfoldable pub eqb : K → K → Bool
  eqb a b = elim (o.cmp a b) [ eq ↦ true | _ ↦ false ]

  pub eqb_refl : (a : K) → eqb a a ≡ true
  unfolding eqb
  eqb_refl a = rw (o.self_eq a, eqb)

  pub eq_of_eqb : (a b : K) → eqb a b ≡ true → a ≡ b
  unfolding eqb
  eq_of_eqb a b h = o.only_self a b (ground arith)

  -- A comparison, decided, with what it means.
  pub eqb-cases : (a b : K) → ((eqb a b ≡ true) × (a ≡ b)) ⊎ ((eqb a b ≡ false) × (a ≢ b))
  unfolding eqb
  eqb-cases a b = ground (arith, o.only_self a b, o.self_eq a)

  pub eqb_of_lt : (j k : K) → o.cmp j k ≡ lt → eqb j k ≡ false
  unfolding eqb
  eqb_of_lt j k h = rw (h, eqb)

  pub order_cases :
      (j k : K)
      → (o.cmp j k ≡ lt) ⊎ ((o.cmp j k ≡ eq) × (j ≡ k)) ⊎ ((o.cmp j k ≡ gt) × (o.cmp k j ≡ lt))
  order_cases j k = ground (arith, o.swaps j k, o.only_self j k)

  pub eqb-sym : (a b : K) → eqb a b ≡ eqb b a
  unfolding eqb
  eqb-sym a b = ground (arith, o.swaps a b)

pub nat-only : (j k : ℕ) → compare j k ≡ eq → j ≡ k
nat-only j k h = ground arith

pub nat_self : (k : ℕ) → compare k k ≡ eq
nat_self k = ground arith

pub nat-swaps : (j k : ℕ) → compare k j ≡ reversed (compare j k)
nat-swaps j k = ground arith

pub nat-chains : (i j k : ℕ) → compare i j ≡ lt → compare j k ≡ lt → compare i k ≡ lt
nat-chains i j k p q = ground arith

instance unfoldable pub nat_ord : Ord ℕ
nat_ord = record {
  cmp = compare;
  self_eq = nat_self;
  only_self = nat-only;
  swaps = nat-swaps;
  chains = nat-chains;
}

pub text-swaps : (s t : String) → compare_text t s ≡ reversed (compare_text s t)
text-swaps String.[] String.[] = rw nil-nil
text-swaps String.[] (String.◌∷◌ d t) = rw (nil-cons d t) (cons-nil d t)
text-swaps (String.◌∷◌ c s) String.[] = rw (cons-nil c s) (nil-cons c s)
text-swaps (String.◌∷◌ c s) (String.◌∷◌ d t) =
    rw (cons-cons c d s t, cons-cons d c t s) (ground (arith, text-swaps s t))

none_below : (s : String) → compare_text s String.[] ≢ lt
none_below String.[] h = cc (sym h ∙ nil-nil)
none_below (String.◌∷◌ c s) h = cc (sym h ∙ cons-nil c s)

pub text-chains :
    (s t u : String) → compare_text s t ≡ lt → compare_text t u ≡ lt → compare_text s u ≡ lt
text-chains s t String.[] h k = absurd (none_below t k)
text-chains s String.[] (String.◌∷◌ e u) h k = absurd (none_below s h)
text-chains String.[] (String.◌∷◌ d t) (String.◌∷◌ e u) h k = nil-cons e u
text-chains (String.◌∷◌ c s) (String.◌∷◌ d t) (String.◌∷◌ e u) h k = rw (cons-cons c e s u) (
    let p = sym (cons-cons c d s t) ∙ h in
    let q = sym (cons-cons d e t u) ∙ k in ground (arith, text-chains s t u))

instance unfoldable pub string_ord : Ord String
string_ord = record {
  cmp = compare_text;
  self_eq = compare_refl;
  only_self = path_by_compare;
  swaps = text-swaps;
  chains = text-chains;
}

-- Tuples compare by their first parts, and by their second where those are equal.
module _ {ℓ κ} {A : Type ℓ} {B : Type κ} ⦃first : Ord A⦄ ⦃second : Ord B⦄ where
  abbrev pub cmp_pair : A × B → A × B → Ordering
  cmp_pair p q = then_with (first.cmp p.0 q.0) (second.cmp p.1 q.1)

  pub pair-chains : (p q r : A × B) → cmp_pair p q ≡ lt → cmp_pair q r ≡ lt → cmp_pair p r ≡ lt
  pair-chains p q r = grind (
    arith,
    first.only_self p.0 q.0,
    first.only_self q.0 r.0,
    first.chains p.0 q.0 r.0,
    second.chains p.1 q.1 r.1,
  )

  pub pair-swaps : (p q : A × B) → cmp_pair q p ≡ reversed (cmp_pair p q)
  pair-swaps p q = ground (arith, first.swaps p.0 q.0, second.swaps p.1 q.1)

  pub pair-only : (p q : A × B) → cmp_pair p q ≡ eq → p ≡ q
  pair-only p q = ground (arith, first.only_self p.0 q.0, second.only_self p.1 q.1)

  pub pair_self : (p : A × B) → cmp_pair p p ≡ eq
  pair_self p = simp (first.self_eq, second.self_eq)

  instance unfoldable pub pair_ord : Ord (A × B)
  pair_ord = record {
    cmp = cmp_pair;
    self_eq = pair_self;
    only_self = pair-only;
    swaps = pair-swaps;
    chains = pair-chains;
  }
