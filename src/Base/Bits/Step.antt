-- ===== src/Base/Bits/Step.antt =====
-- What `|` and `&` do to the lowest binary digit and to the rest, and induction by halving.
use Prim.Native.Nat.{
  ℕ, zero, suc, ◌+◌, ◌-◌, ◌*◌, ◌/◌, ◌%◌, ◌≤◌, min, max, digits, bit_and, bit_or, bit_and-bitwise,
  bit_or-bitwise,
}
use mathlib.Core.Path.{◌≡◌, refl, ◌∙◌, ap}
use native.Mathlib.Nat.{zero-add, suc-add}
use native.Mathlib.Omega.{arith}

-- A property of zero that passes from the half of a number to the number holds everywhere.
module _ (P : ℕ → Type 0) (base : P 0) (step : (n : ℕ) → P (suc n / 2) → P (suc n)) where
  halving_below : (bound k : ℕ) → k ≤ bound → P k
  halving_below bound zero le = base
  halving_below zero (suc k) le = absurd (omega arith)
  halving_below (suc bound) (suc k) le = step k (halving_below bound (suc k / 2) (omega arith))

  pub halving : (k : ℕ) → P k
  halving k = halving_below k k (omega arith)

-- The native operations count the digits down from the first operand. More rounds than that
-- change nothing.
module _ (z : ℕ → ℕ) (f : ℕ → ℕ → ℕ) where
  digits_one_more : (n a b : ℕ) → a ≤ n → digits z f (suc n) a b ≡ digits z f n a b
  digits_one_more zero zero b le = refl
  digits_one_more zero (suc a) b le = absurd (omega arith)
  digits_one_more (suc n) zero b le = refl
  digits_one_more (suc n) (suc a) b le =
      ap (λ (d : ℕ). d * 2 + f (suc a % 2) (b % 2))
        (digits_one_more n (suc a / 2) (b / 2) (omega arith))

  digits_more : (k a b : ℕ) → digits z f (k + a) a b ≡ digits z f a a b
  digits_more zero a b = rw zero-add
  digits_more (suc k) a b =
      rw suc-add (digits_one_more (k + a) a b (omega arith) ∙ digits_more k a b)

  lowest_digit :
      (a b : ℕ)
      → digits z f (suc a) (suc a) b
        ≡ digits z f (suc a / 2) (suc a / 2) (b / 2) * 2 + f (suc a % 2) (b % 2)
  lowest_digit a b =
      let e : a ≡ (a - suc a / 2) + suc a / 2 = omega arith in
      let h : digits z f a (suc a / 2) (b / 2) ≡ digits z f (suc a / 2) (suc a / 2) (b / 2) =
        ap (λ (n : ℕ). digits z f n (suc a / 2) (b / 2)) e
        ∙ digits_more (a - suc a / 2) (suc a / 2) (b / 2) in
      ap (λ (d : ℕ). d * 2 + f (suc a % 2) (b % 2)) h

-- An operation works digit by digit when it works on the halves and on the lowest digits apart.
abbrev pub IsDigitwise : (op digit : ℕ → ℕ → ℕ) → Type 0
IsDigitwise op digit =
    (x y : ℕ) → (op x y / 2 ≡ op (x / 2) (y / 2)) × (op x y % 2 ≡ digit (x % 2) (y % 2))

pub zero-bit_and : (y : ℕ) → bit_and 0 y ≡ 0
zero-bit_and = bit_and-bitwise 0

pub zero-bit_or : (y : ℕ) → bit_or 0 y ≡ y
zero-bit_or = bit_or-bitwise 0

pub bit_or-IsDigitwise : IsDigitwise bit_or max
bit_or-IsDigitwise zero y =
    (omega (arith, zero-bit_or y, zero-bit_or (y / 2)), omega (arith, zero-bit_or y))
bit_or-IsDigitwise (suc x) y =
    let sum : bit_or (suc x) y ≡ bit_or (suc x / 2) (y / 2) * 2 + max (suc x % 2) (y % 2) =
      simp bit_or-bitwise (lowest_digit (λ d. d) max x y) in
    (omega arith, omega arith)

pub bit_and-IsDigitwise : IsDigitwise bit_and min
bit_and-IsDigitwise zero y =
    (omega (arith, zero-bit_and y, zero-bit_and (y / 2)), omega (arith, zero-bit_and y))
bit_and-IsDigitwise (suc x) y =
    let sum : bit_and (suc x) y ≡ bit_and (suc x / 2) (y / 2) * 2 + min (suc x % 2) (y % 2) =
      simp bit_and-bitwise (lowest_digit (λ d. 0) min x y) in
    (omega arith, omega arith)
