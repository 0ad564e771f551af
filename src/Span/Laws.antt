-- ===== src/Span/Laws.antt =====
-- A span is a list of element addresses, and `subspan` is a slice of it.
use pposix.Base.{
  ℕ, zero, suc, ◌+◌, ◌-◌, ◌*◌, ◌≤◌, ◌≡◌, ◌≢◌, refl, sym, ap, ◌∙◌, Bool, true, false, ◌&&◌, List, [],
  ◌∷◌, arith, ltb, leb, if◌then◌else◌, Bool-cases, inl, inr, take, drop,
}
use pposix.Span.{IsSpan}

-- The addresses of `n` elements of `size` bytes from an address on.
unfoldable pub elements : (size p n : ℕ) → List ℕ
elements size p zero = []
elements size p (suc n) = p ∷ elements size (p + size) n

drop-elements : (size p n k : ℕ) → drop k (elements size p n) ≡ elements size (p + k * size) (n - k)
unfolding elements
drop-elements size p n zero =
    let e : p + 0 * size ≡ p = omega arith in let f : n - 0 ≡ n = omega arith in rw (e, f)
drop-elements size p zero (suc k) = let f : 0 - suc k ≡ 0 = omega arith in rw f
drop-elements size p (suc n) (suc k) =
    let e : (p + size) + k * size ≡ p + suc k * size = grind arith in
    let f : n - k ≡ suc n - suc k = omega arith in drop-elements size (p + size) n k ∙ rw (e, f)

take-elements : (size p n k : ℕ) → k ≤ n → take k (elements size p n) ≡ elements size p k
unfolding elements
take-elements size p n zero h = refl
take-elements size p zero (suc k) h = absurd (omega arith)
take-elements size p (suc n) (suc k) h =
    ap (◌∷◌ p) (take-elements size (p + size) n k (omega arith))

module _ {S : Type 0} ⦃span : IsSpan S⦄ where
  open span use {size, data_of, length_of, default_span, of_pointer, subspan}

  -- A null span has no elements. Every constructor that is given a buffer sees to it.
  abbrev pub IsWellFormed : S → Type 0
  IsWellFormed s = data_of s ≡ 0 → length_of s ≡ 0

  -- What the span shows.
  abbrev pub view : S → List ℕ
  view s = elements size (data_of s) (length_of s)

  -- Does the slice lie in the span?
  abbrev pub fits : S → ℕ → ℕ → Bool
  fits s offset count = ltb offset (length_of s) && leb count (length_of s - offset)

  subspan_fits :
      (s : S) (o c : ℕ) → fits s o c ≡ true → subspan s o c ≡ of_pointer (data_of s + o * size) c
  subspan_fits s o c h = ground (arith, span.subspan_lem s o c)

  subspan_misfit : (s : S) (o c : ℕ) → fits s o c ≡ false → subspan s o c ≡ default_span
  subspan_misfit s o c h = ground (arith, span.subspan_lem s o c)

  -- The first element of a slice that fits has an address.
  not_null : (s : S) (o c : ℕ) → IsWellFormed s → fits s o c ≡ true → data_of s + o * size ≢ 0
  not_null s o c wf h e = ground (arith, wf (omega arith))

  length-subspan :
      (s : S) (o c : ℕ) → IsWellFormed s → fits s o c ≡ true → length_of (subspan s o c) ≡ c
  length-subspan s o c wf h =
      rw (subspan_fits s o c h)
        (ground (arith, span.length-of_pointer (data_of s + o * size) c, not_null s o c wf h))

  view-fits :
      (s : S) (o c : ℕ)
      → IsWellFormed s
      → fits s o c ≡ true
      → view (subspan s o c) ≡ take c (drop o (view s))
  view-fits s o c wf h =
      rw (length-subspan s o c wf h, subspan_fits s o c h, span.data-of_pointer, drop-elements)
        (sym (take-elements size (data_of s + o * size) (length_of s - o) c (ground arith)))

  -- The view of a sub-span is the slice of the view if the slice starts inside the span and does
  -- not go past its end, and is empty otherwise; and the sub-span is well formed.
  pub view-subspan :
      (s : S) (offset count : ℕ)
      → IsWellFormed s
      → (view (subspan s offset count)
          ≡ (if fits s offset count then take count (drop offset (view s)) else []))
        × IsWellFormed (subspan s offset count)
  unfolding elements
  view-subspan s offset count wf = elim (Bool-cases (fits s offset count)) [
    | inl h ↦ (
      rw h (view-fits s offset count wf h),
      λ e. absurd (
          not_null s offset count wf h (
            sym (span.data-of_pointer (data_of s + offset * size) count)
            ∙ ap data_of (sym (subspan_fits s offset count h))
            ∙ e)),
    )
    | inr h ↦
        rw (h, subspan_misfit s offset count h, span.data-default, span.length-default)
          (refl, λ e. refl)
  ]

  data-subspan :
      (s : S) (o c : ℕ) → fits s o c ≡ true → data_of (subspan s o c) ≡ data_of s + o * size
  data-subspan s o c h = rw (subspan_fits s o c h) (span.data-of_pointer (data_of s + o * size) c)

  -- Both slices fit.
  abbrev pub both_fit : S → (o c o' c' : ℕ) → Bool
  both_fit s o c o' c' = fits s o c && (ltb o' c && leb c' (c - o'))

  subspan_within :
      (s : S) (o c o' c' : ℕ)
      → IsWellFormed s
      → fits s o c ≡ true
      → (ltb o' c && leb c' (c - o')) ≡ true
      → subspan (subspan s o c) o' c' ≡ subspan s (o + o') c'
  subspan_within s o c o' c' wf h k =
      let inner : fits (subspan s o c) o' c' ≡ true = rw (length-subspan s o c wf h) k in
      let outer : fits s (o + o') c' ≡ true = ground arith in
      let e : (data_of s + o * size) + o' * size ≡ data_of s + (o + o') * size = grind arith in
      rw (subspan_fits (subspan s o c) o' c' inner, data-subspan s o c h, e)
        (sym (subspan_fits s (o + o') c' outer))

  -- A sub-span of a sub-span is a sub-span of the span, at the sum of the offsets, when both slices
  -- fit; otherwise it is empty.
  pub subspan-subspan :
      (s : S) (o c o' c' : ℕ)
      → IsWellFormed s
      → subspan (subspan s o c) o' c'
        ≡ (if both_fit s o c o' c' then subspan s (o + o') c' else default_span)
  subspan-subspan s o c o' c' wf = elim (Bool-cases (fits s o c)) [
    | inl h ↦ elim (Bool-cases (ltb o' c && leb c' (c - o'))) [
      | inl k ↦ rw h (rw k (subspan_within s o c o' c' wf h k))
      | inr k ↦
          rw h (rw k (subspan_misfit (subspan s o c) o' c' (rw (length-subspan s o c wf h) k)))
    ]
    | inr h ↦
        rw (h, subspan_misfit s o c h)
          (ground (arith, span.subspan_lem default_span o' c', span.length-default))
  ]
