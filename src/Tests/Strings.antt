-- ===== src/Tests/Strings.antt =====
-- `confstr` over a system with one string, and iteration over spans.
use pposix.Base.{
  ℕ, zero, suc, ℤ, pos, ◌+◌, ◌≤◌, ◌≡◌, refl, List, [], ◌∷◌, map, get_elem?, some, if◌then◌else◌,
  leb, ◌==◌, arith,
}
use pposix.Confstr.{confstr, confstr_length}
use pposix.Confstr.Names.{path, ConfstrMacro}
use pposix.Confstr.RoundTrip.{KeepsStrings, confstr-confstr_length}
use pposix.Errno.{World, Sys}
use pposix.Result.{ok}
use pposix.Span.Chars.{char_span_of, char_span_IsSpan}
use pposix.Span.Laws.{view, elements}
use pposix.Span.Generic.{span_of, span_subspan, span_begin, span_end}
use pposix.Span.Iteration.{span_type, visit, iteration_lem}

-- The kernel is its memory.
abbrev Memory : Type 0
Memory = ℕ → ℕ

-- "/b" and its null character, for every setting.
abbrev string : ℤ → List ℕ
string n = 47 ∷ 98 ∷ 0 ∷ []

-- The string at an address, over what was there.
abbrev written : Memory → ℕ → Memory
written k p a = if a == p then 47 else if a == p + 1 then 98 else if a == p + 2 then 0 else k a

abbrev memory_confstr : ℤ → ℕ → ℕ → Sys Memory ℕ
memory_confstr n buffer size w =
    (3, if leb 3 size then record w { kernel = written w.kernel buffer } else w)

abbrev char_at : Memory → ℕ → ℕ
char_at k a = k a

memory_writes :
    (n : ℤ) (buffer size i c : ℕ) (w : World Memory)
    → 3 ≤ size
    → get_elem? (string n) i ≡ some c
    → char_at (memory_confstr n buffer size w).1.kernel (buffer + i) ≡ c
memory_writes n buffer size zero c w fits e = ground arith
memory_writes n buffer size (suc zero) c w fits e = ground arith
memory_writes n buffer size (suc (suc zero)) c w fits e = ground arith
memory_writes n buffer size (suc (suc (suc i))) c w fits e = cc

memory_errno :
    (n : ℤ) (buffer size : ℕ) (w : World Memory)
    → (memory_confstr n buffer size w).1.errno ≡ w.errno
memory_errno n buffer size w = ground arith

keeps : KeepsStrings memory_confstr string char_at
keeps = record {
  returns_length = λ n buffer size w. refl;
  keeps_errno = memory_errno;
  writes_string = memory_writes;
}

abbrev macros : ConfstrMacro → ℤ
macros other = pos 0

abbrev at_start : World Memory
at_start = record { errno = pos 7; kernel = λ a. 63 }

confstr-confstr_length_example :
    let counted = confstr_length macros memory_confstr path at_start in
    let got = confstr macros memory_confstr path (char_span_of 4096 8) counted.1 in
    (counted.0 ≡ ok 3)
    × (counted.1.errno ≡ pos 7)
    × (got.0 ≡ ok (char_span_of 4096 3))
    × (got.1.errno ≡ pos 7)
    × (map (char_at got.1.kernel) (view (char_span_of 4096 3)) ≡ 47 ∷ 98 ∷ 0 ∷ [])
confstr-confstr_length_example =
    confstr-confstr_length macros memory_confstr string char_at keeps path 4096 5 at_start
      (omega arith)

-- Elements of four bytes: five of them, and the two from the second on.
iteration_lem_example :
    (visit 4 6 (span_begin (span_of 100 5)) (span_end 4 (span_of 100 5))
      ≡ some (100 ∷ 104 ∷ 108 ∷ 112 ∷ 116 ∷ []))
    × (visit 4 6
          (span_begin (span_subspan 4 (span_of 100 5) 1 2))
          (span_end 4 (span_subspan 4 (span_of 100 5) 1 2))
        ≡ some (104 ∷ 108 ∷ []))
unfolding elements span_subspan
iteration_lem_example =
    iteration_lem 4 span_type (span_of 100 5) 1 2 6 (omega arith) (λ e. absurd (omega arith))
