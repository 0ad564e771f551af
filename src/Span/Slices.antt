-- ===== src/Span/Slices.antt =====
-- The laws of spans for the types of the headers, and the conversions between their views.
use pposix.Base.{ℕ, ◌+◌, ◌≡◌, refl, [], ◌==◌, if◌then◌else◌, take, drop, Bool-cases, inl, inr}
use pposix.Span.Generic.{Span, span, span_subspan, span_IsSpan}
use pposix.Span.Bytes.{
  ByteSpan, byte_span_subspan, to_byte_cspan, byte_span_IsSpan, byte_cspan_IsSpan,
}
use pposix.Span.AnyView.{
  AnyView, as_bytes, as_writeable_bytes, to_any_cview, any_cview_of, any_cview_as_bytes,
}
use pposix.Span.Laws.{IsWellFormed, view, fits, both_fit, elements, view-subspan, subspan-subspan}

-- The bytes of a sub-span of a `byte_span` are the slice of its bytes if the slice starts inside
-- the span and does not go past its end, and none otherwise; and the sub-span is null only if it
-- is empty. The span must be null only if it is empty.
pub view-byte_span_subspan :
    (s : ByteSpan) (offset count : ℕ)
    → IsWellFormed s
    → (view (byte_span_subspan s offset count)
        ≡ (if fits s offset count then take count (drop offset (view s)) else []))
      × IsWellFormed (byte_span_subspan s offset count)
view-byte_span_subspan s offset count wf = view-subspan s offset count wf

-- For elements of any size, a sub-span of a sub-span of a `span<T>` is the sub-span at the sum of
-- the offsets when both slices fit, and the default span otherwise.
pub span_subspan_subspan :
    (size : ℕ) (s : Span) (o c o' c' : ℕ)
    → IsWellFormed ⦃span = span_IsSpan size⦄ s
    → span_subspan size (span_subspan size s o c) o' c' ≡ (
        if both_fit ⦃span = span_IsSpan size⦄ s o c o' c'
        then span_subspan size s (o + o') c'
        else span)
span_subspan_subspan size s o c o' c' wf = subspan-subspan ⦃span = span_IsSpan size⦄ s o c o' c' wf

-- The bytes of an `any_view` are the same by every way: read-only, by way of `any_cview`, and
-- writeable with a conversion; and they are none if the view is null, whatever its length.
pub as_bytes_agree :
    (v : AnyView)
    → (any_cview_as_bytes (to_any_cview v) ≡ as_bytes v)
      × (to_byte_cspan (as_writeable_bytes v) ≡ as_bytes v)
      × (view (as_bytes v) ≡ (if v.data_ == 0 then [] else elements 1 v.data_ v.len_))
unfolding any_cview_as_bytes to_any_cview as_bytes to_byte_cspan as_writeable_bytes any_cview_of
    elements
as_bytes_agree v = elim (Bool-cases (v.data_ == 0)) [
  | inl h ↦ rw h (refl, refl, refl)
  | inr h ↦ rw h (refl, refl, refl)
]
