-- ===== src/Base/Decimal.antt =====
-- Numbers as decimal text.
use native.Mathlib.Omega.{pow_step}
use Prim.Native.Char.{Char}
use clustodian.Base.Logic.{
  ℕ, String, List, if◌then◌else◌, ltb, Bool-cases, zero, suc, ◌+◌, ◌*◌, ◌/◌, ◌%◌, ◌^◌, ◌<◌, ◌≡◌,
  inl, inr, ◌∷◌, arith, [], ◌==◌,
}

-- The digits, the last one first, with at most `fuel` of them.
unfoldable pub digits : ℕ → ℕ → List ℕ
digits zero n = []
digits (suc fuel) n = let rest = digits fuel (n / 10) in (n % 10) ∷ (if ltb n 10 then [] else rest)

-- The number that digits stand for, the last one first.
abbrev pub number : List ℕ → ℕ
number [] = 0
number (d ∷ ds) = d + 10 * number ds

-- As many digits as the number needs stand for it.
pub number-digits : (fuel n : ℕ) → n < 10 ^ fuel → number (digits fuel n) ≡ n
unfolding digits
number-digits zero n h = omega arith
number-digits (suc fuel) n h = elim (Bool-cases (ltb n 10)) [
  | inl e ↦ rw (digits, e) (ground arith)
  | inr e ↦
      rw (digits, e)
        (let rest =
            number-digits fuel (n / 10) (let step = pow_step 10 fuel in omega (arith, step, h)) in
          omega (arith, rest))
]

unfoldable pub digit : ℕ → Char
digit n =
    if n == 0
    then "0"
    else if n == 1
    then "1"
    else if n == 2
    then "2"
    else if n == 3
    then "3"
    else if n == 4
    then "4"
    else if n == 5
    then "5"
    else if n == 6
    then "6"
    else if n == 7
    then "7"
    else if n == 8
    then "8"
    else "9"

-- The digits before a text, the last digit first.
unfoldable pub write_digits : List ℕ → String → String
unfolding digit
write_digits [] tail = tail
write_digits (d ∷ ds) tail = write_digits ds (String.◌∷◌ (digit d) tail)

-- `impl Display` of a number of at most 64 bits, which has at most 20 digits.
unfoldable pub decimal : ℕ → String
unfolding digits write_digits
decimal n = write_digits (digits 20 n) ""
