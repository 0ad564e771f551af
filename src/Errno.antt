-- ===== src/Errno.antt =====
-- include/pposix/errno.hpp and src/errno.cpp, and the state that every wrapper works on: the
-- thread's `errno` and the kernel behind the system calls, which the model leaves abstract.
pub mod Context
use pposix.Base.{ℕ, Bool, not, ℤ, pos, ◌==ℤ◌}

pub record World (K : Type 0) : Type 0 where
  pub errno : ℤ
  pub kernel : K

-- A call reads and changes the world, and returns a value.
abbrev pub Sys : Type 0 → Type 0 → Type 0
Sys K A = World K → A × World K

module _ {K : Type 0} where
  infixl 5 ◌>>=◌ ◌>>◌
  abbrev pub ◌>>=◌ : {A B : Type 0} → Sys K A → (A → Sys K B) → Sys K B
  ◌>>=◌ m f w = f (m w).0 (m w).1

  abbrev pub ◌>>◌ : {A B : Type 0} → Sys K A → Sys K B → Sys K B
  ◌>>◌ m k w = k (m w).1

  abbrev pub pure : {A : Type 0} → A → Sys K A
  pure a w = (a, w)

-- `std::errc`, an enumeration of `int`s.
abbrev pub Errc : Type 0
Errc = ℤ

pub data Category : Type 0 where
  system_category generic_category : Category

-- `std::error_code`
pub record ErrorCode : Type 0 where
  pub value : ℤ
  pub category : Category

-- `std::error_code{}`
abbrev pub no_error : ErrorCode
no_error = record { value = pos 0; category = system_category }

-- `explicit operator bool` of `std::error_code`
abbrev pub is_error : ErrorCode → Bool
is_error e = not (e.value ==ℤ pos 0)

module _ {K : Type 0} where
  unfoldable pub get_errno : Sys K Errc
  get_errno w = (w.errno, w)

  unfoldable pub set_errno : Errc → Sys K (Unit {0})
  set_errno err w = (tt, record w { errno = err })

unfoldable pub make_errno_code : Errc → ErrorCode
make_errno_code err = record { value = err; category = system_category }

module _ {K : Type 0} where
  unfoldable pub current_errno_code : Sys K ErrorCode
  unfolding get_errno make_errno_code
  current_errno_code = do e ← get_errno; pure (make_errno_code e)
