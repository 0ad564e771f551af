-- ===== src/EnumFlag/Older.antt =====
-- include/pposix/enum_flag.hpp: an older `enum_flag`, whose `operator|` is that of the enumeration.
use pposix.Base.{◌==◌, ◌≡◌, refl, Bool}
use pposix.EnumFlag.{IsEnum, EnumFlag, underlying_v, enum_or, flag_or}

-- `enum_flag<Enum, Value>`
pub record OlderEnumFlag (E : Type 0) : Type 0 where
  pub value : E

module _ {E : Type 0} ⦃enum : IsEnum E⦄ where
  -- `operator==(Enum)`
  unfoldable pub equals_enum : OlderEnumFlag E → E → Bool
  unfolding underlying_v
  equals_enum f e = underlying_v e == underlying_v f.value

  -- `operator==(enum_flag<Enum, OtherValue>)`
  unfoldable pub equals_flag : OlderEnumFlag E → OlderEnumFlag E → Bool
  unfolding underlying_v
  equals_flag f other = underlying_v f.value == underlying_v other.value

-- `operator|`, with the one of the enumeration
unfoldable pub older_flag_or :
    {E : Type 0} → (E → E → E) → OlderEnumFlag E → OlderEnumFlag E → OlderEnumFlag E
older_flag_or enum_operator_or f other = record { value = enum_operator_or f.value other.value }

-- With the `operator|` that every flag enumeration of the library defines, the older `|` holds the
-- same pattern as the one of include/pposix/util.hpp.
older_flag_or-flag_or :
    {E : Type 0} ⦃enum : IsEnum E⦄ (a b : EnumFlag E)
    → (older_flag_or enum_or (record { value = a.flags }) (record { value = b.flags })).value
      ≡ (flag_or a b).flags
unfolding older_flag_or enum_or flag_or
older_flag_or-flag_or a b = refl
