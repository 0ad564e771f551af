-- ===== src/Stat/Literals.antt =====
-- What a permission literal stands for.
use pposix.Base.{
  ℕ, ◌≡◌, sym, ◌∙◌, ap, List, [], ◌∷◌, Bool, true, false, ◌||◌, ◌==◌, if◌then◌else◌, any, arith,
  bit_or,
}
use pposix.Base.Bits.{bit_or_assoc, bit_or_comm, bit_or_idem, bit_or-zero, zero-bit_or}
use pposix.Stat.{
  StatMacro, Permission, permission, user_read, user_write, user_execute, group_read, group_write,
  group_execute, other_read, other_write, other_execute, permission_value, permission_or,
  char_to_permission, str_to_permission, user_literal, group_literal, other_literal,
}

abbrev pub is_r : ℕ → Bool
is_r c = c == b'R' || c == b'r'

abbrev pub is_w : ℕ → Bool
is_w c = c == b'W' || c == b'w'

abbrev pub is_x : ℕ → Bool
is_x c = c == b'X' || c == b'x'

abbrev when : Bool → ℕ → ℕ
when b n = if b then n else 0

-- The permissions that the letters of a text ask for, as a set.
abbrev pub asked : (read write execute : Permission) → List ℕ → Permission
asked read write execute cs = permission (
    bit_or (when (any is_r cs) read.bits)
      (bit_or (when (any is_w cs) write.bits) (when (any is_x cs) execute.bits)))

when-or : (b a : Bool) (n : ℕ) → when (b || a) n ≡ bit_or (when b n) (when a n)
when-or false a n = sym (zero-bit_or (when a n))
when-or true true n = sym (bit_or_idem n)
when-or true false n = sym (bit_or-zero n)

bit_or_medial : (a b c d : ℕ) → bit_or (bit_or a b) (bit_or c d) ≡ bit_or (bit_or a c) (bit_or b d)
bit_or_medial a b c d = ground (
  arith,
  bit_or_assoc a b (bit_or c d),
  bit_or_assoc a c (bit_or b d),
  bit_or_assoc b c d,
  bit_or_assoc c b d,
  bit_or_comm b c,
)

module _ (read write execute : Permission) where
  -- One letter is in one class at most.
  char_to-when :
      (c : ℕ)
      → (char_to_permission read write execute c).bits
        ≡ bit_or
            (when (is_r c) read.bits)
            (bit_or (when (is_w c) write.bits) (when (is_x c) execute.bits))
  unfolding char_to_permission
  char_to-when c = ground (
    arith,
    bit_or-zero read.bits,
    bit_or-zero write.bits,
    zero-bit_or write.bits,
    zero-bit_or execute.bits,
  )

  -- One more letter adds what it asks for.
  asked-cons :
      (c : ℕ) (cs : List ℕ)
      → (asked read write execute (c ∷ cs)).bits
        ≡ bit_or (char_to_permission read write execute c).bits (asked read write execute cs).bits
  asked-cons c cs =
      rw (char_to-when c, when-or (is_r c), when-or (is_w c), when-or (is_x c))
        (ap (bit_or (bit_or (when (is_r c) read.bits) (when (any is_r cs) read.bits))) (
            bit_or_medial (when (is_w c) write.bits) (when (any is_w cs) write.bits)
              (when (is_x c) execute.bits) (when (any is_x cs) execute.bits))
          ∙ bit_or_medial (when (is_r c) read.bits) (when (any is_r cs) read.bits)
              (bit_or (when (is_w c) write.bits) (when (is_x c) execute.bits))
              (bit_or (when (any is_w cs) write.bits) (when (any is_x cs) execute.bits)))

  gathered :
      (cs : List ℕ) (p : Permission)
      → str_to_permission (char_to_permission read write execute) cs p
        ≡ permission (bit_or p.bits (asked read write execute cs).bits)
  unfolding str_to_permission permission_or
  gathered [] p = ap permission (sym (bit_or-zero p.bits))
  gathered (c ∷ cs) p =
      gathered cs (permission_or p (char_to_permission read write execute c))
      ∙ ap permission (
          bit_or_assoc p.bits (char_to_permission read write execute c).bits
            (asked read write execute cs).bits
          ∙ ap (bit_or p.bits) (sym (asked-cons c cs)))

  -- The loop over a literal gathers, from nothing, one permission for each of the letters r, w and
  -- x that occur in the text in either case, and ignores order, repetition and other characters.
  pub str_to_permission-asked :
      (cs : List ℕ)
      → str_to_permission (char_to_permission read write execute) cs (permission 0)
        ≡ asked read write execute cs
  str_to_permission-asked cs =
      gathered cs (permission 0) ∙ ap permission (zero-bit_or (asked read write execute cs).bits)

module _ (m : StatMacro → ℕ) where
  -- Each of the three literals is the union, in its own class of users, of the permission to read if
  -- an `r` or `R` is among its characters, to write for `w` or `W` and to execute for `x` or `X`,
  -- whatever the order and however often.
  pub literals_lem :
      (cs : List ℕ)
      → (user_literal m cs
          ≡ asked
              (permission_value m user_read)
              (permission_value m user_write)
              (permission_value m user_execute)
              cs)
        × (group_literal m cs
            ≡ asked
                (permission_value m group_read)
                (permission_value m group_write)
                (permission_value m group_execute)
                cs)
        × (other_literal m cs
            ≡ asked
                (permission_value m other_read)
                (permission_value m other_write)
                (permission_value m other_execute)
                cs)
  unfolding user_literal group_literal other_literal
  literals_lem cs = (
    str_to_permission-asked _ _ _ cs,
    str_to_permission-asked _ _ _ cs,
    str_to_permission-asked _ _ _ cs,
  )
