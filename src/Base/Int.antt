-- ===== src/Base/Int.antt =====
-- Signed integers over the native numbers, as the return values and error numbers of C calls.
use Prim.Native.Nat.{ℕ, suc, ◌-◌, ◌^◌, ◌%◌}
use mathlib.Core.Path.{◌≡◌}
use mathlib.Core.Logic.{◌↔◌}
use mathlib.Core.Bool.{Bool, true, false}
use native.Mathlib.Omega.{arith}
use pposix.Base.Tests.{◌==◌, ltb, if◌then◌else◌}

-- `negsuc n` is -(n + 1).
pub data ℤ : Type 0 where
  pos : ℕ → ℤ
  negsuc : ℕ → ℤ

infix 50 ◌==ℤ◌
abbrev pub ◌==ℤ◌ : ℤ → ℤ → Bool
◌==ℤ◌ (pos a) (pos b) = a == b
◌==ℤ◌ (pos a) (negsuc b) = false
◌==ℤ◌ (negsuc a) (pos b) = false
◌==ℤ◌ (negsuc a) (negsuc b) = a == b

abbrev pub minus_one : ℤ
minus_one = negsuc 0

pub ==ℤ_iff : (a b : ℤ) → ((a ==ℤ b) ≡ true) ↔ (a ≡ b)
==ℤ_iff (pos a) (pos b) = ground arith
==ℤ_iff (pos a) (negsuc b) = ground arith
==ℤ_iff (negsuc a) (pos b) = ground arith
==ℤ_iff (negsuc a) (negsuc b) = ground arith

-- A signed value as a 64-bit `size_t`.
abbrev pub to_size : ℤ → ℕ
to_size (pos n) = n
to_size (negsuc n) = 2 ^ 64 - suc n

-- A `size_t` as a 32-bit `int`.
abbrev pub to_int : ℕ → ℤ
to_int n =
    if ltb (n % 2 ^ 32) (2 ^ 31) then pos (n % 2 ^ 32) else negsuc (2 ^ 32 - suc (n % 2 ^ 32))

-- A signed value as a 32-bit `int`.
abbrev pub narrow : ℤ → ℤ
narrow (pos n) = to_int n
narrow (negsuc n) = to_int (2 ^ 32 - suc (n % 2 ^ 32))
