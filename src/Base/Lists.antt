-- ===== src/Base/Lists.antt =====
-- Lists measured and indexed by native numbers, and counting by a test.
use Prim.Native.Nat.{ℕ, zero, suc, ◌+◌}
use mathlib.Core.Path.{◌≡◌, refl, ap, ◌∙◌}
use mathlib.Core.Logic.{◌≢◌, inl, inr}
use mathlib.Core.Bool.{Bool, false, ◌||◌}
use mathlib.Core.Option.{Option, none, some}
use mathlib.Core.List.{List, [], ◌∷◌, map}
use native.Mathlib.Omega.{arith}
use pposix.Base.Tests.{if◌then◌else◌, ◌==◌, Bool-cases}

abbrev pub tally : Bool → ℕ
tally b = if b then 1 else 0

module _ {ℓ} {A : Type ℓ} where
  abbrev pub length : List A → ℕ
  length [] = 0
  length (x ∷ xs) = suc (length xs)

  abbrev pub get_elem? : List A → ℕ → Option A
  get_elem? [] i = none
  get_elem? (x ∷ xs) zero = some x
  get_elem? (x ∷ xs) (suc i) = get_elem? xs i

  -- A write out of range changes nothing.
  abbrev pub set : List A → ℕ → A → List A
  set [] i v = []
  set (x ∷ xs) zero v = v ∷ xs
  set (x ∷ xs) (suc i) v = x ∷ set xs i v

  abbrev pub erase_idx : List A → ℕ → List A
  erase_idx [] i = []
  erase_idx (x ∷ xs) zero = xs
  erase_idx (x ∷ xs) (suc i) = x ∷ erase_idx xs i

  -- Is there an element that passes the test?
  abbrev pub any : (A → Bool) → List A → Bool
  any p [] = false
  any p (x ∷ xs) = p x || any p xs

  -- How many elements pass the test?
  abbrev pub count : (A → Bool) → List A → ℕ
  count p [] = 0
  count p (x ∷ xs) = tally (p x) + count p xs

module _ {ℓ} {A : Type ℓ} (p : A → Bool) where
  pub count-set :
      (xs : List A) (i : ℕ) (x y : A)
      → get_elem? xs i ≡ some x
      → count p (set xs i y) + tally (p x) ≡ count p xs + tally (p y)
  count-set [] i x y h = cc
  count-set (z ∷ xs) zero x y h = ground arith
  count-set (z ∷ xs) (suc i) x y h = omega (arith, count-set xs i x y h)

  pub count-erase_idx :
      (xs : List A) (i : ℕ) (x : A)
      → get_elem? xs i ≡ some x
      → count p (erase_idx xs i) + tally (p x) ≡ count p xs
  count-erase_idx [] i x h = cc
  count-erase_idx (z ∷ xs) zero x h = ground arith
  count-erase_idx (z ∷ xs) (suc i) x h = omega (arith, count-erase_idx xs i x h)

module _ {ℓ} {A : Type ℓ} where
  pub get_elem?-set_self :
      (xs : List A) (i : ℕ) {x : A} (y : A)
      → get_elem? xs i ≡ some x
      → get_elem? (set xs i y) i ≡ some y
  get_elem?-set_self [] i y h = cc
  get_elem?-set_self (z ∷ xs) zero y h = refl
  get_elem?-set_self (z ∷ xs) (suc i) y h = get_elem?-set_self xs i y h

  pub get_elem?-set_ne :
      (xs : List A) (i j : ℕ) (y : A) → i ≢ j → get_elem? (set xs i y) j ≡ get_elem? xs j
  get_elem?-set_ne [] i j y h = refl
  get_elem?-set_ne (z ∷ xs) zero zero y h = absurd (h refl)
  get_elem?-set_ne (z ∷ xs) zero (suc j) y h = refl
  get_elem?-set_ne (z ∷ xs) (suc i) zero y h = refl
  get_elem?-set_ne (z ∷ xs) (suc i) (suc j) y h = get_elem?-set_ne xs i j y (λ e. h (ap suc e))

module _ {ℓ} {A : Type ℓ} where
  abbrev pub take : ℕ → List A → List A
  take zero xs = []
  take (suc n) [] = []
  take (suc n) (x ∷ xs) = x ∷ take n xs

  abbrev pub drop : ℕ → List A → List A
  drop zero xs = xs
  drop (suc n) [] = []
  drop (suc n) (x ∷ xs) = drop n xs

  abbrev pub replicate : ℕ → A → List A
  replicate zero x = []
  replicate (suc n) x = x ∷ replicate n x

module _ {ℓ κ} {A : Type ℓ} {B : Type κ} (f : A → B) where
  pub get_elem?-map-none :
      (xs : List A) (i : ℕ) → get_elem? xs i ≡ none → get_elem? (map f xs) i ≡ none
  get_elem?-map-none [] i h = refl
  get_elem?-map-none (x ∷ xs) zero h = cc
  get_elem?-map-none (x ∷ xs) (suc i) h = get_elem?-map-none xs i h

  pub get_elem?-map-some :
      (xs : List A) (i : ℕ) {x : A} → get_elem? xs i ≡ some x → get_elem? (map f xs) i ≡ some (f x)
  get_elem?-map-some [] i h = cc
  get_elem?-map-some (y ∷ xs) zero h = cc
  get_elem?-map-some (y ∷ xs) (suc i) h = get_elem?-map-some xs i h

  pub map-set : (xs : List A) (i : ℕ) (x : A) → map f (set xs i x) ≡ set (map f xs) i (f x)
  map-set [] i x = refl
  map-set (y ∷ xs) zero x = refl
  map-set (y ∷ xs) (suc i) x = ap (◌∷◌ (f y)) (map-set xs i x)

  pub map-erase_idx : (xs : List A) (i : ℕ) → map f (erase_idx xs i) ≡ erase_idx (map f xs) i
  map-erase_idx [] i = refl
  map-erase_idx (y ∷ xs) zero = refl
  map-erase_idx (y ∷ xs) (suc i) = ap (◌∷◌ (f y)) (map-erase_idx xs i)

  pub length-map : (xs : List A) → length (map f xs) ≡ length xs
  length-map [] = refl
  length-map (x ∷ xs) = ap suc (length-map xs)

-- Two writes that exchange what a test sees keep the count, also at one place.
pub count-set-set {ℓ} :
    {A : Type ℓ} (p : A → Bool) (xs : List A) (i j : ℕ) (x y x' y' : A)
    → get_elem? xs i ≡ some x
    → get_elem? xs j ≡ some y
    → p x' ≡ p y
    → p y' ≡ p x
    → count p (set (set xs i x') j y') ≡ count p xs
count-set-set p xs i j x y x' y' ei ej first second = elim (Bool-cases (i == j)) [
  | inl same ↦
      let e : i ≡ j = ground arith in
      rw (← e) (
        ground (
          arith,
          count-set p (set xs i x') i x' y' (get_elem?-set_self xs i x' ei),
          count-set p xs i x x' ei,
        ))
  | inr differ ↦ ground (
    arith,
    count-set p (set xs i x') j y y' (get_elem?-set_ne xs i j x' (λ e. ground arith) ∙ ej),
    count-set p xs i x x' ei,
  )
]
