-- ===== src/Span/Iteration.antt =====
-- Iteration from `begin()` to `end()`, for the six span types of include/pposix/span.hpp,
-- byte_span.hpp and char_span.hpp.
use pposix.Base.{
  ℕ, zero, suc, ◌+◌, ◌*◌, ◌<◌, ◌≡◌, List, [], ◌∷◌, Option, none, some, arith, ◌==◌, ltb, false, ap,
  ◌∙◌, if◌then◌else◌, take, drop,
}
use pposix.Span.{IsSpan}
use mathlib.Core.Option
use pposix.Span.Bytes.{ByteCspan, ByteSpan, byte_cspan_IsSpan, byte_span_IsSpan}
use pposix.Span.Chars.{CharCspan, CharSpan, char_cspan_IsSpan, char_span_IsSpan}
use pposix.Span.Generic.{Cspan, Span, cspan_IsSpan, span_IsSpan}
use pposix.Span.Laws.{IsWellFormed, view, fits, elements, view-subspan}

pub data SpanType : Type 0 where
  cspan_type span_type byte_cspan_type byte_span_type char_cspan_type char_span_type : SpanType

abbrev pub Carrier : SpanType → Type 0
Carrier cspan_type = Cspan
Carrier span_type = Span
Carrier byte_cspan_type = ByteCspan
Carrier byte_span_type = ByteSpan
Carrier char_cspan_type = CharCspan
Carrier char_span_type = CharSpan

-- The generic types have elements of `size` bytes.
abbrev pub type_IsSpan : ℕ → (t : SpanType) → IsSpan (Carrier t)
type_IsSpan size cspan_type = cspan_IsSpan size
type_IsSpan size span_type = span_IsSpan size
type_IsSpan size byte_cspan_type = byte_cspan_IsSpan
type_IsSpan size byte_span_type = byte_span_IsSpan
type_IsSpan size char_cspan_type = char_cspan_IsSpan
type_IsSpan size char_span_type = char_span_IsSpan

-- `for (p = first; p != last; ++p)` over elements of `size` bytes, with the addresses that it visits;
-- `none` means that the fuel ran out.
unfoldable pub visit : (size fuel first last : ℕ) → Option (List ℕ)
visit size zero first last = if first == last then some [] else none
visit size (suc fuel) first last =
    let rest = visit size fuel (first + size) last in
    if first == last then some [] else Option.map (◌∷◌ first) rest

-- A pointer to an element is not the end.
before_end : (size n p : ℕ) → 0 < size → (p == p + suc n * size) ≡ false
before_end size n p pos =
    let e : p + suc n * size ≡ (p + size) + n * size = grind arith in rw e (ground arith)

-- With as much fuel as there are elements the loop ends and visits each once, in order; with less
-- it runs out.
visit_lem :
    (size n p fuel : ℕ)
    → 0 < size
    → visit size fuel p (p + n * size) ≡ (if ltb fuel n then none else some (elements size p n))
unfolding visit elements
visit_lem size zero p zero pos = ground arith
visit_lem size zero p (suc fuel) pos = ground arith
visit_lem size (suc n) p zero pos = rw (before_end size n p pos) (ground arith)
visit_lem size (suc n) p (suc fuel) pos =
    let e : p + suc n * size ≡ (p + size) + n * size = grind arith in
    rw (before_end size n p pos) (rw (e, visit_lem size n (p + size) fuel pos) (ground arith))

size_pos : (size : ℕ) (t : SpanType) → 0 < size → 0 < (type_IsSpan size t).size
size_pos size cspan_type pos = pos
size_pos size span_type pos = pos
size_pos size byte_cspan_type pos = omega arith
size_pos size byte_span_type pos = omega arith
size_pos size char_cspan_type pos = omega arith
size_pos size char_span_type pos = omega arith

-- The loop over a span of any type.
loop_lem :
    (size : ℕ) (t : SpanType) (s : Carrier t) (fuel : ℕ)
    → 0 < size
    → let span = type_IsSpan size t in
      visit span.size fuel (span.begin_of s) (span.end_of s)
      ≡ (if ltb fuel (span.length_of s) then none else some (view ⦃span = span⦄ s))
loop_lem size t s fuel pos =
    let span = type_IsSpan size t in
    rw (span.begin_of_lem s, span.end_of_lem s)
      (visit_lem span.size (span.length_of s) (span.data_of s) fuel (size_pos size t pos))

-- For each of the six span types, with elements of at least one byte, a loop from `begin()` to
-- `end()` of a span, or of a sub-span of it, ends after as many rounds as the span has elements, and
-- not before. It visits the elements in order: those of the sub-span are the slice of those of the
-- span, or none when the slice does not fit. The span must be null only if it is empty.
pub iteration_lem :
    (size : ℕ) (t : SpanType) (s : Carrier t) (offset count fuel : ℕ)
    → 0 < size
    → IsWellFormed ⦃span = type_IsSpan size t⦄ s
    → let span = type_IsSpan size t in
      let part = span.subspan s offset count in
      (visit span.size fuel (span.begin_of s) (span.end_of s)
        ≡ (if ltb fuel (span.length_of s) then none else some (view ⦃span = span⦄ s)))
      × (visit span.size fuel (span.begin_of part) (span.end_of part) ≡ (
          if ltb fuel (span.length_of part)
          then none
          else some (
              if fits ⦃span = span⦄ s offset count
              then take count (drop offset (view ⦃span = span⦄ s))
              else [])))
iteration_lem size t s offset count fuel pos wf =
    let span = type_IsSpan size t in
    let part = span.subspan s offset count in
    (
      loop_lem size t s fuel pos,
      loop_lem size t part fuel pos
          ∙ ap (λ (xs : List ℕ). if ltb fuel (span.length_of part) then none else some xs)
              (view-subspan ⦃span = span⦄ s offset count wf).0,
    )
