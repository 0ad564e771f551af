-- ===== src/EnumFlag.antt =====
-- `underlying_v`, `exclusive_enum_flag`, `enum_flag` and its `operator|` of
-- include/pposix/util.hpp. An enumeration is an interface: values that stand for bit patterns.
pub mod Laws
pub mod Older
use Prim.Native.String.{String}
use pposix.Base.{ℕ, ◌≡◌, Bool, bit_and, bit_or, to_bool}

-- A C++ enumeration with a fixed underlying type: `static_cast` either way.
pub record IsEnum (E : Type 0) : Type 0 where
  pub to_underlying : E → ℕ
  pub of_underlying : ℕ → E
  pub to-of_underlying : (n : ℕ) → to_underlying (of_underlying n) ≡ n

-- `enum_flag<Enum, Flags>`: a type with one value, told apart by its template argument.
pub record EnumFlag (E : Type 0) : Type 0 where
  pub flags : E

-- `exclusive_enum_flag<Enum, Value>`, which has no `operator|`.
pub record ExclusiveEnumFlag (E : Type 0) : Type 0 where
  pub value : E

-- A call whose template has a `static_assert`: refused with the message, or compiled.
pub data Checked {ℓ} (A : Type ℓ) : Type ℓ where
  refused : String → Checked A
  compiled : A → Checked A

module _ {E : Type 0} ⦃enum : IsEnum E⦄ where
  unfoldable pub underlying_v : E → ℕ
  underlying_v e = enum.to_underlying e

  -- The `operator|` that each flag enumeration of the library defines.
  unfoldable pub enum_or : E → E → E
  unfolding underlying_v
  enum_or lhs rhs = enum.of_underlying (bit_or (underlying_v lhs) (underlying_v rhs))

  -- `has(Enum)`: the `&` of the patterns, in a boolean context.
  unfoldable pub has : EnumFlag E → E → Bool
  unfolding underlying_v
  has f value = to_bool (bit_and (underlying_v f.flags) (underlying_v value))

  -- `has(enum_flag<Enum, Constant>)`
  unfoldable pub has_flag : EnumFlag E → EnumFlag E → Bool
  unfolding underlying_v
  has_flag f constant = to_bool (bit_and (underlying_v f.flags) (underlying_v constant.flags))

  unfoldable pub flag_or : EnumFlag E → EnumFlag E → EnumFlag E
  unfolding underlying_v
  flag_or lhs rhs = record {
    flags = enum.of_underlying (bit_or (underlying_v lhs.flags) (underlying_v rhs.flags));
  }
