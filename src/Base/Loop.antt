-- ===== src/Base/Loop.antt =====
-- Counted loops: `for k in i..i + n`.
use clustodian.Base.Logic.{ℕ, zero, suc, ◌+◌, ◌<◌, ◌≡◌, arith, ℕ_discrete}

-- `count` rounds of `act`, the first of them with the index `first`.
unfoldable pub for_range {κ} : {Acc : Type κ} (count first : ℕ) → (ℕ → Acc → Acc) → Acc → Acc
for_range zero first act acc = acc
for_range (suc count) first act acc =
    let acc' = act first acc in for_range count (first + 1) act acc'

-- An invariant that knows the index, kept by each round below the loop's end.
pub for_range_inv {κ ℓ} :
    {Acc : Type κ} (Holds : ℕ → Acc → Type ℓ) (act : ℕ → Acc → Acc) (end : ℕ)
    → ((at : ℕ) (acc : Acc) → at < end → Holds at acc → Holds (at + 1) (act at acc))
    → (count first : ℕ) (acc : Acc) → first + count ≡ end
    → Holds first acc
    → Holds end (for_range count first act acc)
unfolding for_range
for_range_inv Holds act end keep zero first acc total held =
    let done : end ≡ first = omega arith in rw done held
for_range_inv Holds act end keep (suc count) first acc total held =
    for_range_inv Holds act end keep count (first + 1) (act first acc) (omega arith)
      (keep first acc (omega arith) held)

-- What each round establishes for its index, and the later rounds keep, holds of every index.
pub for_range_each {ℓ κ μ} :
    {S : Type ℓ} (P : S → Type κ) (Q : ℕ → S → Type μ) (body : ℕ → S → S) (n : ℕ)
    → ((k : ℕ) (s : S) → k < n → P s → P (body k s) × Q k (body k s))
    → ((k x : ℕ) (s : S) → k < n → P s → Q x s → Q x (body k s))
    → (s : S) → P s
    → P (for_range n 0 body s) × ((x : ℕ) → x < n → Q x (for_range n 0 body s))
for_range_each {S} P Q body n make keep s h =
    for_range_inv (λ k t. P t × ((x : ℕ) → x < k → Q x t)) body n step n 0 s (omega arith)
      (h, λ x lt. absurd (omega arith))
  where
    step :
        (k : ℕ) (t : S)
        → k < n
        → P t × ((x : ℕ) → x < k → Q x t)
        → P (body k t) × ((x : ℕ) → x < k + 1 → Q x (body k t))
    step k t lt (p, q) = (
      (make k t lt p).0,
      λ x below. elim (ℕ_discrete x k) [
        | yes e ↦ rw e (make k t lt p).1
        | no ne ↦ keep k x t lt p (q x (omega arith))
      ],
    )
