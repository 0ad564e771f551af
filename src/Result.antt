-- ===== src/Result.antt =====
-- include/pposix/result.hpp: a value or an error code, its accessors that throw, and
-- `result_map`.
pub mod Laws
use Prim.Native.String.{String}
use pposix.Base.{Bool, true, false, not, if◌then◌else◌, Option, none, some}
use pposix.EnumFlag.{Checked, refused, compiled}
use pposix.Errno.{ErrorCode}

-- The alternatives of `std::variant<T, std::error_code>`.
pub data Result {ℓ} (A : Type ℓ) : Type ℓ where
  ok : A → Result A
  err : ErrorCode → Result A

-- What an accessor does: return, or throw a `bad_result_access`.
pub data Access {ℓ} (A : Type ℓ) : Type ℓ where
  returned : A → Access A
  bad_result_access : String → Access A

-- A visitor: what it does with a value and with an error code.
pub record Visitor {ℓ κ} (A : Type ℓ) (R : Type κ) : Type (ℓ ⊔ κ) where
  pub on_value : A → R
  pub on_error : ErrorCode → R

-- `std::visit`
abbrev pub visit {ℓ κ} : {A : Type ℓ} {R : Type κ} → Visitor A R → Result A → R
visit v (ok a) = v.on_value a
visit v (err e) = v.on_error e

module _ {ℓ} {A : Type ℓ} where
  abbrev pub get_error_visitor : Visitor A (Access ErrorCode)
  get_error_visitor = record {
    on_value =
        λ a. bad_result_access "pposix::result error was accessed when it contained a value.";
    on_error = λ e. returned e;
  }

  abbrev pub get_immutable_value_visitor : Visitor A (Access A)
  get_immutable_value_visitor = record {
    on_value = λ a. returned a;
    on_error =
        λ e. bad_result_access "pposix::result value was accessed when it contained an error.";
  }

  -- The reference to the value, as what a write through it makes of the result.
  abbrev pub get_mutable_value_visitor : Visitor A (Access (A → Result A))
  get_mutable_value_visitor = record {
    on_value = λ a. returned (λ b. ok b);
    on_error =
        λ e. bad_result_access "pposix::result value was accessed when it contained an error.";
  }

  abbrev pub is_error_visitor : Visitor A Bool
  is_error_visitor = record { on_value = λ a. false; on_error = λ e. true }

  unfoldable pub error : Result A → Access ErrorCode
  error r = visit get_error_visitor r

  unfoldable pub value : Result A → Access A
  value r = visit get_immutable_value_visitor r

  -- `r.value() = b`: a write through the reference that the other overload returns.
  unfoldable pub assign_value : Result A → A → Access (Result A)
  assign_value r b = elim (visit get_mutable_value_visitor r) [
    | returned write ↦ returned (write b)
    | bad_result_access what ↦ bad_result_access what
  ]

  unfoldable pub has_error : Result A → Bool
  has_error r = visit is_error_visitor r

  unfoldable pub has_value : Result A → Bool
  unfolding has_error
  has_value r = not (has_error r)

  -- `explicit operator bool`
  unfoldable pub to_bool : Result A → Bool
  unfolding has_value
  to_bool r = has_value r

  -- The pointers that `std::get_if` returns; `none` is the null pointer.
  unfoldable pub result_get_error_unsafe : Result A → Option ErrorCode
  result_get_error_unsafe (ok _) = none
  result_get_error_unsafe (err e) = some e

  unfoldable pub result_get_value_unsafe : Result A → Option A
  result_get_value_unsafe (ok a) = some a
  result_get_value_unsafe (err _) = none

  -- `operator*`; `none` is the dereference of a null pointer, which is undefined.
  unfoldable pub dereference : Result A → Option A
  unfolding result_get_value_unsafe
  dereference r = result_get_value_unsafe r

-- The `static_assert` of `result_map`, which has no message, around a function that uses it: is the
-- function that is handed to `result_map` `noexcept`?
unfoldable pub assert_noexcept {ℓ} : {A : Type ℓ} → (is_noexcept : Bool) → A → Checked A
assert_noexcept is_noexcept use_of_map = if is_noexcept then compiled use_of_map else refused ""

-- The body of `result_map`, once that assertion holds.
module _ {ℓ κ} {T : Type ℓ} {U : Type κ} where
  unfoldable pub result_map : Result T → (T → U) → Result U
  result_map (ok a) func = ok (func a)
  result_map (err e) func = err e
