-- ===== src/Confstr/Laws.antt =====
-- The outcome of `confstr_length` and `confstr`, and where the returned span lies.
use native.Mathlib.Nat.{add-zero}
use pposix.Base.{ℕ, ℤ, pos, ◌==ℤ◌, ◌≤◌, ◌<◌, ◌≡◌, ◌≢◌, refl, arith, if◌then◌else◌}
use pposix.Errno.{World, Sys, make_errno_code}
use pposix.Errno.Context.{scoped_lem}
use pposix.Result.{ok, err}
use pposix.Span.Chars.{CharSpan, char_span_of, char_span_end, char_span_subspan}
use pposix.Confstr.{confstr_length, confstr}
use pposix.Confstr.Names.{ConfstrName, ConfstrMacro, confstr_macro}

module _ {K : Type 0} (m : ConfstrMacro → ℤ) (os_confstr : ℤ → ℕ → ℕ → Sys K ℕ) where
  -- The call that the wrappers make, with `errno` clear.
  abbrev pub asked : ConfstrName → ℕ → ℕ → World K → ℕ × World K
  asked name buffer size w =
      os_confstr (m (confstr_macro name)) buffer size (record w { errno = pos 0 })

  pub confstr_length_lem :
      (name : ConfstrName) (w : World K)
      → let called = asked name 0 0 w in
        confstr_length m os_confstr name w ≡ (
          if called.1.errno ==ℤ pos 0 then ok called.0 else err (make_errno_code called.1.errno),
          record { errno = w.errno; kernel = called.1.kernel },
        )
  unfolding confstr_length
  confstr_length_lem name w = rw scoped_lem (ground arith)

  pub confstr_lem :
      (name : ConfstrName) (b : CharSpan) (w : World K)
      → let called = asked name b.buffer_ b.length_ w in
        confstr m os_confstr name b w ≡ (
          if called.1.errno ==ℤ pos 0
              then ok (char_span_of b.buffer_ called.0)
              else err (make_errno_code called.1.errno),
          record { errno = w.errno; kernel = called.1.kernel },
        )
  unfolding confstr
  confstr_lem name b w = rw scoped_lem (ground arith)

  -- A buffer that holds the whole string comes back as its own prefix.
  pub confstr_prefix :
      (name : ConfstrName) (b : CharSpan) (w : World K)
      → let called = asked name b.buffer_ b.length_ w in
        called.1.errno ≡ pos 0
        → 0 < b.length_
        → called.0 ≤ b.length_
        → (confstr m os_confstr name b w).0 ≡ ok (char_span_subspan b 0 called.0)
  unfolding char_span_subspan
  confstr_prefix name b w clear some_room fits =
      rw (confstr_lem name b w, clear) (ground (arith, add-zero b.buffer_))

  -- When the string does not fit, `::confstr` returns the length that it needs and leaves `errno`
  -- alone; the span that `confstr` then returns starts at the buffer and goes past its end.
  pub confstr_overrun :
      (name : ConfstrName) (b : CharSpan) (w : World K)
      → let called = asked name b.buffer_ b.length_ w in
        called.1.errno ≡ pos 0
        → b.buffer_ ≢ 0
        → b.length_ < called.0
        → (t : CharSpan) × ((confstr m os_confstr name b w).0 ≡ ok t)
          × (t.buffer_ ≡ b.buffer_)
          × (char_span_end b < char_span_end t)
  unfolding char_span_end
  confstr_overrun name b w clear not_null short = (
    char_span_of b.buffer_ (asked name b.buffer_ b.length_ w).0,
    rw (confstr_lem name b w, clear) refl,
    refl,
    ground arith,
  )
