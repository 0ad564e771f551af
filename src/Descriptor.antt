-- ===== src/Descriptor.antt =====
-- include/pposix/descriptor.hpp: an owner of one handle. `GetNull`, the `==` of handles and
-- `ClosePolicy` are template arguments, here the fields of `Traits`.
pub mod Laws
pub mod Ledger
pub mod Ownership
pub mod Finish
use pposix.Base.{◌≡◌, ◌↔◌, Bool, true, not, if◌then◌else◌}
use pposix.Result.{Result, ok, err}
use pposix.Errno.{World, Sys, ErrorCode, is_error, ◌>>=◌, ◌>>◌, pure}

pub record Traits (K D : Type 0) : Type 0 where
  pub get_null : D
  pub same : D → D → Bool
  pub same_iff : (a b : D) → (same a b ≡ true) ↔ (a ≡ b)
  pub close_policy : D → Sys K ErrorCode

pub record Descriptor (D : Type 0) : Type 0 where
  pub raw_descriptor_ : D

-- `explicit descriptor(Descriptor)`
unfoldable pub of_raw : {D : Type 0} → D → Descriptor D
of_raw d = record { raw_descriptor_ = d }

module _ {D : Type 0} where
  unfoldable pub raw : Descriptor D → D
  raw d = d.raw_descriptor_

  -- Move assignment swaps the two handles: the new `*this`, then `other`.
  unfoldable pub move_assign : Descriptor D → Descriptor D → Descriptor D × Descriptor D
  move_assign this other = (
    record this { raw_descriptor_ = other.raw_descriptor_ },
    record other { raw_descriptor_ = this.raw_descriptor_ },
  )

-- `descriptor_constant<FdWrapper, UnderlyingFd, Fd>`: the null handle from a number and its wrapper.
unfoldable pub descriptor_constant : {W U : Type 0} → (U → W) → U → W
descriptor_constant wrapper fd = wrapper fd

module _ {K D : Type 0} (T : Traits K D) where
  open T use {get_null, same, close_policy}

  -- The default constructor, and the one from `null_d`.
  unfoldable pub null_descriptor : Descriptor D
  null_descriptor = record { raw_descriptor_ = get_null }

  -- The move constructor swaps with a handle that starts null: the new object, then `other`.
  unfoldable pub move_construct : Descriptor D → Descriptor D × Descriptor D
  move_construct other = (
    record { raw_descriptor_ = other.raw_descriptor_ },
    record other { raw_descriptor_ = get_null },
  )

  unfoldable pub empty : Descriptor D → Bool
  empty d = same d.raw_descriptor_ get_null

  -- `explicit operator bool`
  unfoldable pub to_bool : Descriptor D → Bool
  unfolding empty
  to_bool d = not (empty d)

  -- The handle, and the descriptor without it.
  unfoldable pub release : Descriptor D → D × Descriptor D
  release d = (d.raw_descriptor_, record d { raw_descriptor_ = get_null })

  unfoldable pub close : Descriptor D → Sys K (ErrorCode × Descriptor D)
  unfolding raw
  close d = do
    error ← close_policy (raw d)
    pure (error, if is_error error then d else record d { raw_descriptor_ = get_null })

  -- The destructor closes, and drops the error and the object.
  unfoldable pub destroy : Descriptor D → Sys K (Unit {0})
  unfolding close
  destroy d = do closed ← close d; pure tt

  -- An owner that a function returns as the value of a `result` is a temporary: it is moved into
  -- the result and destroyed, when it holds the null handle.
  unfoldable pub into_result : {A : Type 0} → Result A → Sys K (Result A)
  unfolding destroy null_descriptor
  into_result (ok a) = do closed ← destroy null_descriptor; pure (ok a)
  into_result (err e) = pure (err e)
