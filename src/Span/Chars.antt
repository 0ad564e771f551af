-- ===== src/Span/Chars.antt =====
-- include/pposix/char_span.hpp: views of characters, whose elements have one byte.
use native.Mathlib.Nat.{mul-one}
use pposix.Base.{ℕ, ◌+◌, ◌-◌, ◌*◌, ◌≡◌, refl, Bool, ◌||◌, ltb, leb, ◌==◌, if◌then◌else◌}
use pposix.Span.{IsSpan}

pub record CharCspan : Type 0 where
  pub buffer_ : ℕ
  pub length_ : ℕ

-- `char_cspan()`
abbrev pub char_cspan : CharCspan
char_cspan = record { buffer_ = 0; length_ = 0 }

-- `char_cspan(char const *buffer, std::size_t length)`
abbrev pub char_cspan_of : ℕ → ℕ → CharCspan
char_cspan_of buffer length = record {
  buffer_ = buffer;
  length_ = if buffer == 0 then 0 else length;
}

-- From an array or a `std::array`: where its elements are, and how many.
unfoldable pub char_cspan_of_array : ℕ → ℕ → CharCspan
char_cspan_of_array buffer length = record { buffer_ = buffer; length_ = length }

-- `data()`, `length()` and `begin()`
abbrev pub char_cspan_data : CharCspan → ℕ
char_cspan_data s = s.buffer_

abbrev pub char_cspan_length : CharCspan → ℕ
char_cspan_length s = s.length_

abbrev pub char_cspan_begin : CharCspan → ℕ
char_cspan_begin s = s.buffer_

unfoldable pub char_cspan_empty : CharCspan → Bool
char_cspan_empty s = s.length_ == 0

unfoldable pub char_cspan_end : CharCspan → ℕ
char_cspan_end s = s.buffer_ + s.length_

unfoldable pub char_cspan_subspan : CharCspan → ℕ → ℕ → CharCspan
char_cspan_subspan s offset count =
    if leb s.length_ offset || ltb (s.length_ - offset) count
    then char_cspan
    else char_cspan_of (s.buffer_ + offset) count

pub record CharSpan : Type 0 where
  pub buffer_ : ℕ
  pub length_ : ℕ

-- `char_span()`
abbrev pub char_span : CharSpan
char_span = record { buffer_ = 0; length_ = 0 }

-- `char_span(char *buffer, std::size_t length)`
abbrev pub char_span_of : ℕ → ℕ → CharSpan
char_span_of buffer length = record {
  buffer_ = buffer;
  length_ = if buffer == 0 then 0 else length;
}

unfoldable pub char_span_of_array : ℕ → ℕ → CharSpan
char_span_of_array buffer length = record { buffer_ = buffer; length_ = length }

-- `data()`, `length()` and `begin()`
abbrev pub char_span_data : CharSpan → ℕ
char_span_data s = s.buffer_

abbrev pub char_span_length : CharSpan → ℕ
char_span_length s = s.length_

abbrev pub char_span_begin : CharSpan → ℕ
char_span_begin s = s.buffer_

unfoldable pub char_span_empty : CharSpan → Bool
char_span_empty s = s.length_ == 0

unfoldable pub char_span_end : CharSpan → ℕ
char_span_end s = s.buffer_ + s.length_

-- `operator char_cspan()`
unfoldable pub to_char_cspan : CharSpan → CharCspan
to_char_cspan s = char_cspan_of (char_span_data s) (char_span_length s)

unfoldable pub char_span_subspan : CharSpan → ℕ → ℕ → CharSpan
char_span_subspan s offset count =
    if leb s.length_ offset || ltb (s.length_ - offset) count
    then char_span
    else char_span_of (s.buffer_ + offset) count

pub char_cspan_subspan_lem :
    (s : CharCspan) (offset count : ℕ)
    → char_cspan_subspan s offset count ≡ (
        if leb s.length_ offset || ltb (s.length_ - offset) count
        then char_cspan
        else char_cspan_of (s.buffer_ + offset * 1) count)
unfolding char_cspan_subspan
char_cspan_subspan_lem s offset count = simp mul-one

pub char_cspan_end_lem : (s : CharCspan) → char_cspan_end s ≡ s.buffer_ + s.length_ * 1
unfolding char_cspan_end
char_cspan_end_lem s = simp mul-one

instance abbrev pub char_cspan_IsSpan : IsSpan CharCspan
char_cspan_IsSpan = record {
  size = 1;
  data_of = char_cspan_data;
  length_of = char_cspan_length;
  begin_of = char_cspan_begin;
  end_of = char_cspan_end;
  default_span = char_cspan;
  of_pointer = char_cspan_of;
  subspan = char_cspan_subspan;
  begin_of_lem = λ s. refl;
  end_of_lem = char_cspan_end_lem;
  data-default = refl;
  length-default = refl;
  data-of_pointer = λ p n. refl;
  length-of_pointer = λ p n. refl;
  subspan_lem = char_cspan_subspan_lem;
}

pub char_span_subspan_lem :
    (s : CharSpan) (offset count : ℕ)
    → char_span_subspan s offset count ≡ (
        if leb s.length_ offset || ltb (s.length_ - offset) count
        then char_span
        else char_span_of (s.buffer_ + offset * 1) count)
unfolding char_span_subspan
char_span_subspan_lem s offset count = simp mul-one

pub char_span_end_lem : (s : CharSpan) → char_span_end s ≡ s.buffer_ + s.length_ * 1
unfolding char_span_end
char_span_end_lem s = simp mul-one

instance abbrev pub char_span_IsSpan : IsSpan CharSpan
char_span_IsSpan = record {
  size = 1;
  data_of = char_span_data;
  length_of = char_span_length;
  begin_of = char_span_begin;
  end_of = char_span_end;
  default_span = char_span;
  of_pointer = char_span_of;
  subspan = char_span_subspan;
  begin_of_lem = λ s. refl;
  end_of_lem = char_span_end_lem;
  data-default = refl;
  length-default = refl;
  data-of_pointer = λ p n. refl;
  length-of_pointer = λ p n. refl;
  subspan_lem = char_span_subspan_lem;
}
