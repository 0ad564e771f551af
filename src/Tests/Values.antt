-- ===== src/Tests/Values.antt =====
-- Results, flags, permissions and spans.
use pposix.Base.{ℕ, pos, ◌≡◌, refl, [], ◌∷◌, true, arith, ◌⊎◌}
use pposix.Errno.{make_errno_code}
use pposix.Result.{Result, err}
use pposix.EnumFlag.{has}
use pposix.EnumFlag.Laws.{join, has-join}
use pposix.Fcntl.{OpenFlag, open_flag, open_flag_enum}
use pposix.Fcntl.Commands.{
  fcntl_macro_shared, fcntl_macro, get_file_rw_hint, set_file_rw_hint, FcntlCmdName,
}
use pposix.Stat.{
  permission, StatMacro, s_irusr, s_iwusr, s_ixusr, user_literal, group_literal, other_literal,
  permission_value,
}
use pposix.Stat.Literals.{literals_lem}
use pposix.Span.Bytes.{byte_span_of, byte_span_subspan, byte_span_IsSpan, byte_cspan_IsSpan}
use pposix.Span.Laws.{elements, view, IsWellFormed}
use pposix.Span.Slices.{view-byte_span_subspan}

abbrev missing : Result ℕ
missing = err (make_errno_code (pos 2))

has-join_example : has (join OpenFlag (6 ∷ 7 ∷ 6 ∷ [])) (open_flag 128) ≡ true
has-join_example = has-join OpenFlag (6 ∷ 7 ∷ 6 ∷ []) 7

fcntl_macro_shared_example :
    (◌≡◌ {A = FcntlCmdName} set_file_rw_hint get_file_rw_hint
      × (get_file_rw_hint ≡ set_file_rw_hint))
    ⊎ ((set_file_rw_hint ≡ set_file_rw_hint) × (get_file_rw_hint ≡ get_file_rw_hint))
unfolding fcntl_macro
fcntl_macro_shared_example = fcntl_macro_shared set_file_rw_hint get_file_rw_hint (λ e. cc) refl

-- 0400, 0200 and 0100
abbrev stat_macros : StatMacro → ℕ
stat_macros s_irusr = 256
stat_macros s_iwusr = 128
stat_macros s_ixusr = 64
stat_macros other = 0

literals_lem_example :
    (user_literal stat_macros (b'x' ∷ b'R' ∷ b'?' ∷ b'r' ∷ []) ≡ permission 320)
    × (group_literal stat_macros (b'x' ∷ b'R' ∷ b'?' ∷ b'r' ∷ []) ≡ permission 0)
    × (other_literal stat_macros (b'x' ∷ b'R' ∷ b'?' ∷ b'r' ∷ []) ≡ permission 0)
unfolding permission_value
literals_lem_example = literals_lem stat_macros (b'x' ∷ b'R' ∷ b'?' ∷ b'r' ∷ [])

view-byte_span_subspan_example :
    (view (byte_span_subspan (byte_span_of 100 8) 3 2) ≡ 103 ∷ 104 ∷ [])
    × IsWellFormed (byte_span_subspan (byte_span_of 100 8) 3 2)
unfolding elements
view-byte_span_subspan_example =
    view-byte_span_subspan (byte_span_of 100 8) 3 2 (λ e. absurd (omega arith))
