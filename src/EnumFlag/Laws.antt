-- ===== src/EnumFlag/Laws.antt =====
-- What `has` sees in flags that were joined by `|`.
use pposix.Base.{
  bit_or, ℕ, ◌^◌, ◌≡◌, ◌∙◌, ap₂, true, false, not, ◌&&◌, ◌||◌, ap, sym, refl, ==_iff, Bool-cases,
  inl, inr, arith, if◌then◌else◌, List, [], ◌∷◌, ◌==◌, any, shares, shares-bit_or, shares-pow,
  shares-zero, zero-shares,
}
use pposix.Base.Bits.{bit_or_idem, bit_or-zero, pow-ne-zero}
use mathlib.Core.Bool.{true≢false}
use pposix.EnumFlag.{IsEnum, EnumFlag, underlying_v, has, has_flag, flag_or}

module _ {E : Type 0} ⦃enum : IsEnum E⦄ where
  pub has-flag_or : (f g : EnumFlag E) (e : E) → has (flag_or f g) e ≡ (has f e || has g e)
  unfolding has flag_or
  has-flag_or f g e = rw enum.to-of_underlying (
      shares-bit_or (enum.to_underlying f.flags) (enum.to_underlying g.flags)
        (enum.to_underlying e))

  -- A flag whose bit pattern is zero is never found, whatever it was joined with.
  pub has-zero : (f : EnumFlag E) (e : E) → underlying_v e ≡ 0 → has f e ≡ false
  unfolding has
  has-zero f e h = rw h (shares-zero (enum.to_underlying f.flags))

-- A list with something other than `e` has it at a place.
other_lem :
    (e : ℕ) (ps : List ℕ)
    → any (λ p. not (p == e)) ps ≡ true
    → (p : ℕ) × ((p == e) ≡ false) × (any (λ q. q == p) ps ≡ true)
other_lem e [] h = absurd (true≢false (sym h))
other_lem e (p ∷ ps) h = elim (Bool-cases (p == e)) [
  | inl same ↦
      let (q, ne, there) = other_lem e ps (rw same at h) in (q, ne, rw there (ground arith))
  | inr differs ↦ (p, differs, rw ((==_iff p p).1 refl) refl)
]

module _ (E : Type 0) ⦃enum : IsEnum E⦄ where
  -- The flag with the one bit at a position.
  abbrev pub single : ℕ → EnumFlag E
  single p = record { flags = enum.of_underlying (2 ^ p) }

  -- The union of the bits at the given positions.
  pub join : List ℕ → EnumFlag E
  join [] = record { flags = enum.of_underlying 0 }
  join (p ∷ ps) = flag_or (single p) (join ps)

  has-single : (p q : ℕ) → has (single p) (enum.of_underlying (2 ^ q)) ≡ (p == q)
  unfolding has
  has-single p q =
      rw (enum.to-of_underlying (2 ^ p), enum.to-of_underlying (2 ^ q)) (shares-pow p q)

  has-empty : (e : E) → has (join []) e ≡ false
  unfolding has join
  has-empty e = rw (enum.to-of_underlying 0) (zero-shares (enum.to_underlying e))

  has-cons :
      (p : ℕ) (ps : List ℕ) (e : E) → has (join (p ∷ ps)) e ≡ (has (single p) e || has (join ps) e)
  unfolding join
  has-cons p ps e = has-flag_or (single p) (join ps) e

  -- Flags joined from single bits are a set: `has` finds a single bit exactly when it is one of
  -- those that were joined, in whatever order and however often.
  pub has-join :
      (ps : List ℕ) (q : ℕ) → has (join ps) (enum.of_underlying (2 ^ q)) ≡ any (λ p. p == q) ps
  has-join [] q = has-empty (enum.of_underlying (2 ^ q))
  has-join (p ∷ ps) q =
      has-cons p ps (enum.of_underlying (2 ^ q)) ∙ ap₂ ◌||◌ (has-single p q) (has-join ps q)

  has-underlying :
      (q : ℕ) (ps : List ℕ) → shares (underlying_v (join ps).flags) (2 ^ q) ≡ any (λ p. p == q) ps
  unfolding has
  has-underlying q ps = rw (enum.to-of_underlying (2 ^ q)) at (has-join ps q)

  -- The same for a constant with one bit.
  pub has_flag-join :
      (constant : EnumFlag E) (q : ℕ)
      → underlying_v constant.flags ≡ 2 ^ q
      → (ps : List ℕ) → has_flag (join ps) constant ≡ any (λ p. p == q) ps
  unfolding has_flag
  has_flag-join constant q one_bit ps = rw one_bit (has-underlying q ps)

  -- Flags with another bit are not the one at `e`.
  join-ne-single :
      (e : ℕ) (ps : List ℕ) (p : ℕ)
      → (p == e) ≡ false
      → any (λ q. q == p) ps ≡ true
      → (underlying_v (join ps).flags == 2 ^ e) ≡ false
  unfolding has
  join-ne-single e ps p ne h = elim (Bool-cases (underlying_v (join ps).flags == 2 ^ e)) [
    | inl same ↦
        let at_e : underlying_v (join ps).flags ≡ 2 ^ e = (==_iff _ _).0 same in
        let alike : (e == p) ≡ true =
          sym (shares-pow e p) ∙ ap (λ b. shares b (2 ^ p)) (sym at_e) ∙ has-underlying p ps ∙ h in
        ground arith
    | inr differs ↦ differs
  ]

  underlying-empty : underlying_v (join []).flags ≡ 0
  unfolding join underlying_v
  underlying-empty = enum.to-of_underlying 0

  underlying-cons :
      (p : ℕ) (ps : List ℕ)
      → underlying_v (join (p ∷ ps)).flags ≡ bit_or (2 ^ p) (underlying_v (join ps).flags)
  unfolding join flag_or underlying_v
  underlying-cons p ps =
      enum.to-of_underlying _
      ∙ ap (λ n. bit_or n (enum.to_underlying (join ps).flags)) (enum.to-of_underlying (2 ^ p))

  -- Flags with no other bit are the one at `e`, or nothing.
  join-alone :
      (e : ℕ) (ps : List ℕ)
      → any (λ p. not (p == e)) ps ≡ false
      → underlying_v (join ps).flags ≡ (if any (λ p. p == e) ps then 2 ^ e else 0)
  join-alone e [] h = underlying-empty
  join-alone e (p ∷ ps) h = elim (Bool-cases (p == e)) [
    | inl same ↦
        let is_e : p ≡ e = (==_iff p e).0 same in
        let rest = join-alone e ps (rw same at h) in
        elim (Bool-cases (any (λ q. q == e) ps)) [
          | inl more ↦
              underlying-cons p ps
              ∙ rw (rest, more, is_e, (==_iff e e).1 refl) (bit_or_idem (2 ^ e))
          | inr last ↦
              underlying-cons p ps
              ∙ rw (rest, last, is_e, (==_iff e e).1 refl) (bit_or-zero (2 ^ e))
        ]
    | inr differs ↦ absurd (true≢false (rw differs at h))
  ]

  -- Flags joined from single bits are the one at `e` exactly when it is among them and nothing else
  -- is.
  pub join-eq-single :
      (e : ℕ) (ps : List ℕ)
      → (underlying_v (join ps).flags == 2 ^ e)
        ≡ (any (λ p. p == e) ps && not (any (λ p. not (p == e)) ps))
  join-eq-single e ps = elim (Bool-cases (any (λ p. not (p == e)) ps)) [
    | inl others ↦
        let (p, ne, there) = other_lem e ps others in
        rw (others, join-ne-single e ps p ne there) (ground arith)
    | inr alone ↦ elim (Bool-cases (any (λ p. p == e) ps)) [
      | inl found ↦ rw (alone, join-alone e ps alone, found, (==_iff (2 ^ e) (2 ^ e)).1 refl) refl
      | inr nothing ↦ rw (alone, join-alone e ps alone, nothing) (ground (arith, pow-ne-zero e))
    ]
  ]
