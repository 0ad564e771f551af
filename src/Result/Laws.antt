-- ===== src/Result/Laws.antt =====
-- The accessors of a result agree with each other, and `result_map` is a map.
use pposix.Base.{◌≡◌, refl, ◌⊎◌, inl, inr, true, false, none, some}
use pposix.Result.{
  Result, ok, err, Access, returned, bad_result_access, error, value, assign_value, has_error,
  has_value, dereference, result_map,
}

abbrev pub Throws {ℓ} : {A : Type ℓ} → Access A → Type 0
Throws (returned _) = ⊥
Throws (bad_result_access _) = Unit

-- Of `value()` and `error()` exactly one returns and the other throws, and `has_value()` and
-- `has_error()` say which; where `value()` returns, so does `operator*`, with the same value, and a
-- write through the reference is read back.
pub accessors_agree {ℓ} :
    {A : Type ℓ} (r : Result A)
    → ((a : A) × (has_value r ≡ true)
        × (has_error r ≡ false)
        × (value r ≡ returned a)
        × (dereference r ≡ some a)
        × Throws (error r)
        × ((b : A) → (s : Result A) × (assign_value r b ≡ returned s) × (value s ≡ returned b)))
      ⊎ ((has_value r ≡ false)
          × (has_error r ≡ true)
          × Throws (value r)
          × (dereference r ≡ none)
          × ((b : A) → Throws (assign_value r b)))
unfolding error value assign_value has_value dereference
accessors_agree (ok a) = inl (a, refl, refl, refl, refl, tt, λ b. (ok b, refl, refl))
accessors_agree (err e) = inr (refl, refl, tt, refl, λ b. tt)

-- Mapping twice is mapping by the composition, the error code passes through both, and the mapped
-- result has a value exactly when the first one has.
pub result_map-result_map {ℓ κ μ} :
    {A : Type ℓ} {B : Type κ} {C : Type μ} (f : A → B) (g : B → C) (r : Result A)
    → (result_map (result_map r f) g ≡ result_map r (λ a. g (f a)))
      × (has_value (result_map r f) ≡ has_value r)
      × (error (result_map (result_map r f) g) ≡ error r)
unfolding result_map has_value error
result_map-result_map f g (ok a) = (refl, refl, refl)
result_map-result_map f g (err e) = (refl, refl, refl)
