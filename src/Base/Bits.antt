-- ===== src/Base/Bits.antt =====
-- The laws of `|` and `&` on bit patterns of every width.
mod Step
use Step.{bit_or-IsDigitwise, bit_and-IsDigitwise, halving}
pub use Step.{zero-bit_or, zero-bit_and}
use Prim.Native.Nat.{ℕ, zero, suc, ◌+◌, ◌*◌, ◌<◌, ◌/◌, ◌%◌, ◌^◌, ◌≤◌, min, max, bit_and, bit_or}
use mathlib.Core.Path.{◌≡◌, refl, sym, ap, ◌∙◌}
use mathlib.Core.Logic.{◌≢◌}
use native.Mathlib.Nat.{pow-suc, one-le-pow}
use native.Mathlib.Omega.{arith}
use pposix.Base.Tests.{◌==◌, if◌then◌else◌}

pub bit_and-zero : (a : ℕ) → bit_and a 0 ≡ 0
bit_and-zero =
    halving (λ a. bit_and a 0 ≡ 0) refl
      (λ a half. omega (arith, bit_and-IsDigitwise (suc a) 0, half))

pub bit_and_comm : (a b : ℕ) → bit_and a b ≡ bit_and b a
bit_and_comm =
    halving (λ a. (b : ℕ) → bit_and a b ≡ bit_and b a) (λ b. zero-bit_and b ∙ sym (bit_and-zero b))
      (λ a half b.
        omega (arith, bit_and-IsDigitwise (suc a) b, bit_and-IsDigitwise b (suc a), half (b / 2)))

pub bit_or-zero : (a : ℕ) → bit_or a 0 ≡ a
bit_or-zero =
    halving (λ a. bit_or a 0 ≡ a) refl (λ a half. omega (arith, bit_or-IsDigitwise (suc a) 0, half))

pub bit_or_comm : (a b : ℕ) → bit_or a b ≡ bit_or b a
bit_or_comm =
    halving (λ a. (b : ℕ) → bit_or a b ≡ bit_or b a) (λ b. zero-bit_or b ∙ sym (bit_or-zero b))
      (λ a half b.
        omega (arith, bit_or-IsDigitwise (suc a) b, bit_or-IsDigitwise b (suc a), half (b / 2)))

pub bit_or_idem : (a : ℕ) → bit_or a a ≡ a
bit_or_idem =
    halving (λ a. bit_or a a ≡ a) refl
      (λ a half. omega (arith, bit_or-IsDigitwise (suc a) (suc a), half))

pub bit_or_assoc : (a b c : ℕ) → bit_or (bit_or a b) c ≡ bit_or a (bit_or b c)
bit_or_assoc =
    halving (λ a. (b c : ℕ) → bit_or (bit_or a b) c ≡ bit_or a (bit_or b c))
      (λ b c. simp zero-bit_or)
      (λ a half b c. ground (
        arith,
        bit_or-IsDigitwise (bit_or (suc a) b) c,
        bit_or-IsDigitwise (suc a) b,
        bit_or-IsDigitwise (suc a) (bit_or b c),
        bit_or-IsDigitwise b c,
        half (b / 2) (c / 2),
      ))

-- `&` distributes over `|`.
pub bit_and-bit_or : (a b c : ℕ) → bit_and (bit_or a b) c ≡ bit_or (bit_and a c) (bit_and b c)
bit_and-bit_or a b c =
    halving (λ c. (a b : ℕ) → bit_and (bit_or a b) c ≡ bit_or (bit_and a c) (bit_and b c))
      (λ a b. simp bit_and-zero)
      (λ c half a b. ground (
        arith,
        bit_and-IsDigitwise (bit_or a b) (suc c),
        bit_or-IsDigitwise a b,
        bit_or-IsDigitwise (bit_and a (suc c)) (bit_and b (suc c)),
        bit_and-IsDigitwise a (suc c),
        bit_and-IsDigitwise b (suc c),
        half (a / 2) (b / 2),
      ))
      c a b

-- `|` clears no bit, so it is zero only of zeroes.
pub le-bit_or : (a b : ℕ) → a ≤ bit_or a b
le-bit_or =
    halving (λ a. (b : ℕ) → a ≤ bit_or a b) (λ b. omega arith)
      (λ a half b. omega (arith, bit_or-IsDigitwise (suc a) b, half (b / 2)))

pub bit_or-eq-zero : (a b : ℕ) → bit_or a b ≡ 0 → (a ≡ 0) × (b ≡ 0)
bit_or-eq-zero a b h = omega (arith, le-bit_or a b, le-bit_or b a, bit_or_comm a b)

-- Two single bits share a bit only if they are the same.
pub bit_and-pow : (p q : ℕ) → bit_and (2 ^ p) (2 ^ q) ≡ (if p == q then 2 ^ p else 0)
bit_and-pow zero zero = refl
bit_and-pow zero (suc q) =
    ground
      (arith, bit_and-IsDigitwise (2 ^ 0) (2 ^ suc q), pow-suc 2 q, zero-bit_and (2 ^ suc q / 2))
bit_and-pow (suc p) zero =
    ground
      (arith, bit_and-IsDigitwise (2 ^ suc p) (2 ^ 0), pow-suc 2 p, bit_and-zero (2 ^ suc p / 2))
bit_and-pow (suc p) (suc q) =
    ground (
      arith,
      bit_and-IsDigitwise (2 ^ suc p) (2 ^ suc q),
      pow-suc 2 p,
      pow-suc 2 q,
      bit_and-pow p q,
    )

pub pow-ne-zero : (p : ℕ) → 2 ^ p ≢ 0
pow-ne-zero p = omega (arith, one-le-pow p 2)

double-bit_or : (p c : ℕ) → bit_or p (2 * c) ≡ 2 * bit_or (p / 2) c + p % 2
double-bit_or p c =
    let half : (2 * c) / 2 ≡ c = omega arith in
    let rest : bit_or p (2 * c) / 2 ≡ bit_or (p / 2) c =
      (bit_or-IsDigitwise p (2 * c)).0 ∙ ap (bit_or (p / 2)) half in
    omega (arith, (bit_or-IsDigitwise p (2 * c)).1)

-- Three bits and bits above them.
pub bit_or-below_eight : (p c : ℕ) → p < 8 → bit_or p (8 * c) ≡ p + 8 * c
bit_or-below_eight p c below =
    let nothing : p / 2 / 2 / 2 ≡ 0 = omega arith in
    let none_left : bit_or (p / 2 / 2 / 2) c ≡ c = rw nothing (zero-bit_or c) in
    let eight : 8 * c ≡ 2 * (2 * (2 * c)) = omega arith in
    rw eight (
      omega (
        arith,
        none_left,
        double-bit_or p (2 * (2 * c)),
        double-bit_or (p / 2) (2 * c),
        double-bit_or (p / 2 / 2) c,
      ))
