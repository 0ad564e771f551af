-- ===== src/Span.antt =====
-- The views of a buffer. `IsSpan` is what include/pposix/span.hpp, byte_span.hpp and char_span.hpp
-- have in common; the types of each header fill it, and the laws are proved for all of them.
-- An address is a number, 0 for the null pointer, and an element has `size` bytes.
pub mod Laws
pub mod Generic
pub mod Bytes
pub mod Chars
pub mod AnyView
pub mod Slices
pub mod Iteration
use pposix.Base.{ℕ, ◌+◌, ◌-◌, ◌*◌, ◌≡◌, Bool, ◌||◌, ltb, leb, ◌==◌, if◌then◌else◌}

pub record IsSpan (S : Type 0) : Type 0 where
  pub size : ℕ
  pub data_of : S → ℕ
  pub length_of : S → ℕ
  pub begin_of : S → ℕ
  pub end_of : S → ℕ
  pub default_span : S
  pub of_pointer : ℕ → ℕ → S
  pub subspan : S → ℕ → ℕ → S
  pub begin_of_lem : (s : S) → begin_of s ≡ data_of s
  pub end_of_lem : (s : S) → end_of s ≡ data_of s + length_of s * size
  pub data-default : data_of default_span ≡ 0
  pub length-default : length_of default_span ≡ 0
  pub data-of_pointer : (p n : ℕ) → data_of (of_pointer p n) ≡ p
  pub length-of_pointer : (p n : ℕ) → length_of (of_pointer p n) ≡ (if p == 0 then 0 else n)
  pub subspan_lem :
      (s : S) (offset count : ℕ)
      → subspan s offset count ≡ (
          if leb (length_of s) offset || ltb (length_of s - offset) count
          then default_span
          else of_pointer (data_of s + offset * size) count)
