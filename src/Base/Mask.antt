-- ===== src/Base/Mask.antt =====
-- Masks: the bits that two patterns share, read as a truth value the way C reads an `&`.
use Prim.Native.Nat.{ℕ, ◌^◌, bit_and, bit_or}
use mathlib.Core.Path.{◌≡◌}
use mathlib.Core.Logic.{inl, inr}
use mathlib.Core.Bool.{Bool, true, false, ◌||◌}
use native.Mathlib.Omega.{arith}
use pposix.Base.Tests.{◌==◌, if◌then◌else◌, Bool-cases}
use pposix.Base.Bits.{
  bit_and-bit_or, bit_and-pow, bit_and-zero, bit_or-eq-zero, pow-ne-zero, zero-bit_and, zero-bit_or,
}

-- A number in a boolean context.
abbrev pub to_bool : ℕ → Bool
to_bool n = if n == 0 then false else true

-- Do the two patterns share a bit?
abbrev pub shares : ℕ → ℕ → Bool
shares a b = to_bool (bit_and a b)

to_bool-bit_or : (a b : ℕ) → to_bool (bit_or a b) ≡ (to_bool a || to_bool b)
to_bool-bit_or a b = elim (Bool-cases (bit_or a b == 0)) [
  | inl h ↦ let z : (a ≡ 0) × (b ≡ 0) = bit_or-eq-zero a b (ground arith) in rw h (ground arith)
  | inr h ↦ rw h (ground (arith, zero-bit_or b))
]

-- A union shares a bit with `c` exactly when one of its parts does.
pub shares-bit_or : (a b c : ℕ) → shares (bit_or a b) c ≡ (shares a c || shares b c)
shares-bit_or a b c = rw bit_and-bit_or (to_bool-bit_or (bit_and a c) (bit_and b c))

pub shares-pow : (p q : ℕ) → shares (2 ^ p) (2 ^ q) ≡ (p == q)
shares-pow p q = ground (arith, bit_and-pow p q, pow-ne-zero p)

pub zero-shares : (a : ℕ) → shares 0 a ≡ false
zero-shares a = rw zero-bit_and

pub shares-zero : (a : ℕ) → shares a 0 ≡ false
shares-zero a = rw bit_and-zero
