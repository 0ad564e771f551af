-- ===== src/Span/Generic.antt =====
-- include/pposix/span.hpp: `cspan<T>` and `span<T>`, for elements of `size` bytes.
use pposix.Base.{ℕ, ◌+◌, ◌-◌, ◌*◌, ◌≡◌, refl, Bool, ◌||◌, ltb, leb, ◌==◌, if◌then◌else◌}
use pposix.Span.{IsSpan}

pub record Cspan : Type 0 where
  pub buffer_ : ℕ
  pub length_ : ℕ

-- `cspan()`
abbrev pub cspan : Cspan
cspan = record { buffer_ = 0; length_ = 0 }

-- `cspan(T const *buffer, std::size_t length)`
abbrev pub cspan_of : ℕ → ℕ → Cspan
cspan_of buffer length = record { buffer_ = buffer; length_ = if buffer == 0 then 0 else length }

-- From an array, a `std::array` or a vector: where its elements are, and how many.
unfoldable pub cspan_of_array : ℕ → ℕ → Cspan
cspan_of_array buffer length = record { buffer_ = buffer; length_ = length }

-- `data()`, `length()` and `begin()`
abbrev pub cspan_data : Cspan → ℕ
cspan_data s = s.buffer_

abbrev pub cspan_length : Cspan → ℕ
cspan_length s = s.length_

abbrev pub cspan_begin : Cspan → ℕ
cspan_begin s = s.buffer_

unfoldable pub cspan_empty : Cspan → Bool
cspan_empty s = s.length_ == 0

pub record Span : Type 0 where
  pub buffer_ : ℕ
  pub length_ : ℕ

-- `span()`
abbrev pub span : Span
span = record { buffer_ = 0; length_ = 0 }

-- `span(T *buffer, std::size_t length)`
abbrev pub span_of : ℕ → ℕ → Span
span_of buffer length = record { buffer_ = buffer; length_ = if buffer == 0 then 0 else length }

unfoldable pub span_of_array : ℕ → ℕ → Span
span_of_array buffer length = record { buffer_ = buffer; length_ = length }

-- `data()`, `length()` and `begin()`
abbrev pub span_data : Span → ℕ
span_data s = s.buffer_

abbrev pub span_length : Span → ℕ
span_length s = s.length_

abbrev pub span_begin : Span → ℕ
span_begin s = s.buffer_

unfoldable pub span_empty : Span → Bool
span_empty s = s.length_ == 0

-- `operator cspan<T>()`
unfoldable pub to_cspan : Span → Cspan
to_cspan s = cspan_of (span_data s) (span_length s)

module _ (size : ℕ) where
  unfoldable pub cspan_end : Cspan → ℕ
  cspan_end s = s.buffer_ + s.length_ * size

  unfoldable pub cspan_subspan : Cspan → ℕ → ℕ → Cspan
  cspan_subspan s offset count =
      if leb s.length_ offset || ltb (s.length_ - offset) count
      then cspan
      else cspan_of (s.buffer_ + offset * size) count

  unfoldable pub span_end : Span → ℕ
  span_end s = s.buffer_ + s.length_ * size

  unfoldable pub span_subspan : Span → ℕ → ℕ → Span
  span_subspan s offset count =
      if leb s.length_ offset || ltb (s.length_ - offset) count
      then span
      else span_of (s.buffer_ + offset * size) count

  pub cspan_subspan_lem :
      (s : Cspan) (offset count : ℕ)
      → cspan_subspan s offset count ≡ (
          if leb s.length_ offset || ltb (s.length_ - offset) count
          then cspan
          else cspan_of (s.buffer_ + offset * size) count)
  unfolding cspan_subspan
  cspan_subspan_lem s offset count = refl

  pub cspan_end_lem : (s : Cspan) → cspan_end s ≡ s.buffer_ + s.length_ * size
  unfolding cspan_end
  cspan_end_lem s = refl

  abbrev pub cspan_IsSpan : IsSpan Cspan
  cspan_IsSpan = record {
    size = size;
    data_of = cspan_data;
    length_of = cspan_length;
    begin_of = cspan_begin;
    end_of = cspan_end;
    default_span = cspan;
    of_pointer = cspan_of;
    subspan = cspan_subspan;
    begin_of_lem = λ s. refl;
    end_of_lem = cspan_end_lem;
    data-default = refl;
    length-default = refl;
    data-of_pointer = λ p n. refl;
    length-of_pointer = λ p n. refl;
    subspan_lem = cspan_subspan_lem;
  }

  pub span_subspan_lem :
      (s : Span) (offset count : ℕ)
      → span_subspan s offset count ≡ (
          if leb s.length_ offset || ltb (s.length_ - offset) count
          then span
          else span_of (s.buffer_ + offset * size) count)
  unfolding span_subspan
  span_subspan_lem s offset count = refl

  pub span_end_lem : (s : Span) → span_end s ≡ s.buffer_ + s.length_ * size
  unfolding span_end
  span_end_lem s = refl

  abbrev pub span_IsSpan : IsSpan Span
  span_IsSpan = record {
    size = size;
    data_of = span_data;
    length_of = span_length;
    begin_of = span_begin;
    end_of = span_end;
    default_span = span;
    of_pointer = span_of;
    subspan = span_subspan;
    begin_of_lem = λ s. refl;
    end_of_lem = span_end_lem;
    data-default = refl;
    length-default = refl;
    data-of_pointer = λ p n. refl;
    length-of_pointer = λ p n. refl;
    subspan_lem = span_subspan_lem;
  }
