-- ===== src/Confstr/RoundTrip.antt =====
-- `confstr_length` followed by `confstr`, on a system that keeps the strings.
use native.Mathlib.Nat.{add-zero}
use pposix.Base.{
  ℕ, suc, ℤ, pos, ◌+◌, ◌==ℤ◌, ◌==◌, true, false, ==ℤ_iff, ◌≤◌, ◌≡◌, ◌≢◌, refl, ap₂, arith, List, [],
  ◌∷◌, map, length, get_elem?, some,
}
use pposix.Errno.{World, Sys}
use pposix.Result.{ok}
use pposix.Span.Chars.{CharSpan, char_span_of, char_span_IsSpan}
use pposix.Span.Laws.{view, elements}
use pposix.Confstr.{confstr_length, confstr}
use pposix.Confstr.Laws.{asked, confstr_length_lem, confstr_lem}
use pposix.Confstr.Names.{ConfstrName, ConfstrMacro, confstr_macro}

-- What <unistd.h> says of `::confstr` for the settings that have a value. A string is its characters
-- with the null character at its end, and `char_at` is what memory holds at an address.
pub record KeepsStrings {K : Type 0} (os_confstr : ℤ → ℕ → ℕ → Sys K ℕ) (string_of : ℤ → List ℕ)
    (char_at : K → ℕ → ℕ) : Type 0 where
  -- It returns the length that the string needs, and leaves `errno` alone.
  pub returns_length :
      (n : ℤ) (buffer size : ℕ) (w : World K)
      → (os_confstr n buffer size w).0 ≡ length (string_of n)
  pub keeps_errno :
      (n : ℤ) (buffer size : ℕ) (w : World K) → (os_confstr n buffer size w).1.errno ≡ w.errno
  -- A buffer that is large enough receives the string.
  pub writes_string :
      (n : ℤ) (buffer size i c : ℕ) (w : World K)
      → length (string_of n) ≤ size
      → get_elem? (string_of n) i ≡ some c
      → char_at (os_confstr n buffer size w).1.kernel (buffer + i) ≡ c

-- Elements of one byte that hold the characters of a list, read in order.
read_elements :
    (f : ℕ → ℕ) (xs : List ℕ) (p : ℕ)
    → ((i c : ℕ) → get_elem? xs i ≡ some c → f (p + i) ≡ c)
    → map f (elements 1 p (length xs)) ≡ xs
unfolding elements
read_elements f [] p h = refl
read_elements f (x ∷ xs) p h =
    let first : f p ≡ x = rw (← add-zero p) (h 0 x refl) in
    ap₂ ◌∷◌ first (
      read_elements f xs (p + 1)
        λ i c e. let next : p + suc i ≡ (p + 1) + i = omega arith in rw (← next) (h (suc i) c e))

module _ {K : Type 0} (m : ConfstrMacro → ℤ) (os_confstr : ℤ → ℕ → ℕ → Sys K ℕ)
    (string_of : ℤ → List ℕ) (char_at : K → ℕ → ℕ)
    (keeps : KeepsStrings os_confstr string_of char_at) where
  clear :
      (name : ConfstrName) (buffer size : ℕ) (w : World K)
      → ((asked m os_confstr name buffer size w).1.errno ==ℤ pos 0) ≡ true
  clear name buffer size w =
      (==ℤ_iff _ _).1
        (keeps.keeps_errno (m (confstr_macro name)) buffer size (record w { errno = pos 0 }))

  counted_lem :
      (name : ConfstrName) (w : World K)
      → confstr_length m os_confstr name w ≡ (
        ok (length (string_of (m (confstr_macro name)))),
        record { errno = w.errno; kernel = (asked m os_confstr name 0 0 w).1.kernel },
      )
  counted_lem name w =
      rw (confstr_length_lem m os_confstr name w, clear name 0 0 w, keeps.returns_length) refl

  got_lem :
      (name : ConfstrName) (b : CharSpan) (w : World K)
      → confstr m os_confstr name b w ≡ (
        ok (char_span_of b.buffer_ (length (string_of (m (confstr_macro name))))),
        record {
          errno = w.errno;
          kernel = (asked m os_confstr name b.buffer_ b.length_ w).1.kernel;
        },
      )
  got_lem name b w =
      rw (confstr_lem m os_confstr name b w, clear name b.buffer_ b.length_ w, keeps.returns_length)
        refl

  read_lem :
      (name : ConfstrName) (p size : ℕ) (w : World K)
      → length (string_of (m (confstr_macro name))) ≤ size
      → map
          (char_at (asked m os_confstr name p size w).1.kernel)
          (elements 1 p (length (string_of (m (confstr_macro name)))))
        ≡ string_of (m (confstr_macro name))
  read_lem name p size w fits =
      read_elements (char_at (asked m os_confstr name p size w).1.kernel)
        (string_of (m (confstr_macro name))) p
        λ i c e.
          keeps.writes_string (m (confstr_macro name)) p size i c (record w { errno = pos 0 }) fits
            e

  -- On a system that keeps the strings, `confstr_length` returns the length of the string of a
  -- setting, its null character included; and `confstr`, given a buffer of that length or more,
  -- then returns the span of that length at the start of the buffer, whose characters are the
  -- string. Both leave the errno of the caller.
  pub confstr-confstr_length :
      (name : ConfstrName) (p more : ℕ) (w : World K)
      → p ≢ 0
      → let s = string_of (m (confstr_macro name)) in
        let counted = confstr_length m os_confstr name w in
        let got = confstr m os_confstr name (char_span_of p (length s + more)) counted.1 in
        (counted.0 ≡ ok (length s))
        × (counted.1.errno ≡ w.errno)
        × (got.0 ≡ ok (char_span_of p (length s)))
        × (got.1.errno ≡ w.errno)
        × (map (char_at got.1.kernel) (view (char_span_of p (length s))) ≡ s)
  confstr-confstr_length name p more w not_null =
      let s = string_of (m (confstr_macro name)) in
      let some_buffer : (p == 0) ≡ false = ground arith in
      let read =
        read_lem name p (length s + more) (confstr_length m os_confstr name w).1 (omega arith) in
      rw
        (
          got_lem name (char_span_of p (length s + more)) (confstr_length m os_confstr name w).1,
          some_buffer,
        )
        (
          rw (counted_lem name w) refl,
          rw (counted_lem name w) refl,
          refl,
          rw (counted_lem name w) refl,
          read,
        )
