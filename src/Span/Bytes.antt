-- ===== src/Span/Bytes.antt =====
-- include/pposix/byte_span.hpp: views of bytes, whose elements have one byte.
use native.Mathlib.Nat.{mul-one}
use pposix.Base.{ℕ, ◌+◌, ◌-◌, ◌*◌, ◌≡◌, refl, Bool, ◌||◌, ltb, leb, ◌==◌, if◌then◌else◌}
use pposix.Span.{IsSpan}

pub record ByteCspan : Type 0 where
  pub buffer_ : ℕ
  pub length_ : ℕ

-- `byte_cspan()`
abbrev pub byte_cspan : ByteCspan
byte_cspan = record { buffer_ = 0; length_ = 0 }

-- `byte_cspan(std::byte const *buffer, std::size_t length)`
abbrev pub byte_cspan_of : ℕ → ℕ → ByteCspan
byte_cspan_of buffer length = record {
  buffer_ = buffer;
  length_ = if buffer == 0 then 0 else length;
}

-- From an array or a `std::array`: where its elements are, and how many.
unfoldable pub byte_cspan_of_array : ℕ → ℕ → ByteCspan
byte_cspan_of_array buffer length = record { buffer_ = buffer; length_ = length }

-- `data()`, `length()` and `begin()`
abbrev pub byte_cspan_data : ByteCspan → ℕ
byte_cspan_data s = s.buffer_

abbrev pub byte_cspan_length : ByteCspan → ℕ
byte_cspan_length s = s.length_

abbrev pub byte_cspan_begin : ByteCspan → ℕ
byte_cspan_begin s = s.buffer_

unfoldable pub byte_cspan_empty : ByteCspan → Bool
byte_cspan_empty s = s.length_ == 0

unfoldable pub byte_cspan_end : ByteCspan → ℕ
byte_cspan_end s = s.buffer_ + s.length_

unfoldable pub byte_cspan_subspan : ByteCspan → ℕ → ℕ → ByteCspan
byte_cspan_subspan s offset count =
    if leb s.length_ offset || ltb (s.length_ - offset) count
    then byte_cspan
    else byte_cspan_of (s.buffer_ + offset) count

pub record ByteSpan : Type 0 where
  pub buffer_ : ℕ
  pub length_ : ℕ

-- `byte_span()`
abbrev pub byte_span : ByteSpan
byte_span = record { buffer_ = 0; length_ = 0 }

-- `byte_span(std::byte *buffer, std::size_t length)`
abbrev pub byte_span_of : ℕ → ℕ → ByteSpan
byte_span_of buffer length = record {
  buffer_ = buffer;
  length_ = if buffer == 0 then 0 else length;
}

unfoldable pub byte_span_of_array : ℕ → ℕ → ByteSpan
byte_span_of_array buffer length = record { buffer_ = buffer; length_ = length }

-- `data()`, `length()` and `begin()`
abbrev pub byte_span_data : ByteSpan → ℕ
byte_span_data s = s.buffer_

abbrev pub byte_span_length : ByteSpan → ℕ
byte_span_length s = s.length_

abbrev pub byte_span_begin : ByteSpan → ℕ
byte_span_begin s = s.buffer_

unfoldable pub byte_span_empty : ByteSpan → Bool
byte_span_empty s = s.length_ == 0

unfoldable pub byte_span_end : ByteSpan → ℕ
byte_span_end s = s.buffer_ + s.length_

-- `operator byte_cspan()`
unfoldable pub to_byte_cspan : ByteSpan → ByteCspan
to_byte_cspan s = byte_cspan_of (byte_span_data s) (byte_span_length s)

unfoldable pub byte_span_subspan : ByteSpan → ℕ → ℕ → ByteSpan
byte_span_subspan s offset count =
    if leb s.length_ offset || ltb (s.length_ - offset) count
    then byte_span
    else byte_span_of (s.buffer_ + offset) count

pub byte_cspan_subspan_lem :
    (s : ByteCspan) (offset count : ℕ)
    → byte_cspan_subspan s offset count ≡ (
        if leb s.length_ offset || ltb (s.length_ - offset) count
        then byte_cspan
        else byte_cspan_of (s.buffer_ + offset * 1) count)
unfolding byte_cspan_subspan
byte_cspan_subspan_lem s offset count = simp mul-one

pub byte_cspan_end_lem : (s : ByteCspan) → byte_cspan_end s ≡ s.buffer_ + s.length_ * 1
unfolding byte_cspan_end
byte_cspan_end_lem s = simp mul-one

instance abbrev pub byte_cspan_IsSpan : IsSpan ByteCspan
byte_cspan_IsSpan = record {
  size = 1;
  data_of = byte_cspan_data;
  length_of = byte_cspan_length;
  begin_of = byte_cspan_begin;
  end_of = byte_cspan_end;
  default_span = byte_cspan;
  of_pointer = byte_cspan_of;
  subspan = byte_cspan_subspan;
  begin_of_lem = λ s. refl;
  end_of_lem = byte_cspan_end_lem;
  data-default = refl;
  length-default = refl;
  data-of_pointer = λ p n. refl;
  length-of_pointer = λ p n. refl;
  subspan_lem = byte_cspan_subspan_lem;
}

pub byte_span_subspan_lem :
    (s : ByteSpan) (offset count : ℕ)
    → byte_span_subspan s offset count ≡ (
        if leb s.length_ offset || ltb (s.length_ - offset) count
        then byte_span
        else byte_span_of (s.buffer_ + offset * 1) count)
unfolding byte_span_subspan
byte_span_subspan_lem s offset count = simp mul-one

pub byte_span_end_lem : (s : ByteSpan) → byte_span_end s ≡ s.buffer_ + s.length_ * 1
unfolding byte_span_end
byte_span_end_lem s = simp mul-one

instance abbrev pub byte_span_IsSpan : IsSpan ByteSpan
byte_span_IsSpan = record {
  size = 1;
  data_of = byte_span_data;
  length_of = byte_span_length;
  begin_of = byte_span_begin;
  end_of = byte_span_end;
  default_span = byte_span;
  of_pointer = byte_span_of;
  subspan = byte_span_subspan;
  begin_of_lem = λ s. refl;
  end_of_lem = byte_span_end_lem;
  data-default = refl;
  length-default = refl;
  data-of_pointer = λ p n. refl;
  length-of_pointer = λ p n. refl;
  subspan_lem = byte_span_subspan_lem;
}
