-- ===== src/Confstr.antt =====
-- include/pposix/confstr.hpp and src/confstr.cpp.
pub mod Names
pub mod Laws
pub mod RoundTrip
use pposix.Base.{ℕ, ℤ, pos}
use pposix.Errno.{Sys, is_error, ◌>>=◌, ◌>>◌, pure, current_errno_code}
use pposix.Errno.Context.{scoped}
use pposix.Result.{Result, ok, err}
use pposix.Base.{if◌then◌else◌}
use pposix.Span.Chars.{CharSpan, char_span_of}
use Names.{ConfstrName, ConfstrMacro, confstr_macro}

-- `::confstr(name, buffer, size)` returns a `size_t`.
module _ {K : Type 0} (m : ConfstrMacro → ℤ) (os_confstr : ℤ → ℕ → ℕ → Sys K ℕ) where
  confstr_length_body : ConfstrName → Sys K (Result ℕ)
  unfolding current_errno_code
  confstr_length_body name = do
    length ← os_confstr (m (confstr_macro name)) 0 0
    error ← current_errno_code
    if is_error error then pure (err error) else pure (ok length)

  unfoldable pub confstr_length : ConfstrName → Sys K (Result ℕ)
  unfolding confstr_length_body
  confstr_length name = scoped (λ context. confstr_length_body name)

  confstr_body : ConfstrName → CharSpan → Sys K (Result CharSpan)
  unfolding current_errno_code
  confstr_body name name_buffer = do
    length ← os_confstr (m (confstr_macro name)) name_buffer.buffer_ name_buffer.length_
    error ← current_errno_code
    if is_error error then pure (err error) else pure (ok (char_span_of name_buffer.buffer_ length))

  unfoldable pub confstr : ConfstrName → CharSpan → Sys K (Result CharSpan)
  unfolding confstr_body
  confstr name name_buffer = scoped (λ context. confstr_body name name_buffer)
