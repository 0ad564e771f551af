-- ===== src/Mqueue/Open.antt =====
-- `mq::unsafe_open`, the four overloads of `mq::open`, `mq::unlink`, `mq::getattr` and
-- `mq::setattr` of include/pposix/rt/mqueue.hpp and src/rt/mqueue.cpp.
use Prim.Native.String.{String}
use pposix.Base.{ℕ, ℤ, minus_one, pos, ◌==ℤ◌, ◌==◌, not, if◌then◌else◌, bit_or}
use pposix.Errno.{Sys, ErrorCode, ◌>>=◌, pure, current_errno_code}
use pposix.Call.{common_call}
use pposix.Descriptor.{raw, into_result}
use pposix.EnumFlag.{
  EnumFlag, ExclusiveEnumFlag, Checked, refused, compiled, has_flag, underlying_v,
}
use pposix.Mqueue.{
  MqApi, MqMacro, MqMode, mq_mode_enum, MqOption, mq_option_enum, MqOptionName, mq_option_value,
  mq_excl, MqCreateQueue, MqCurrentAttr, mq_current_attr, Mq, mq, null_mqd_t, unique_mq_d,
  zero_attr,
}
use pposix.Result.{Result, ok, err}

-- The messages of the `static_assert`s.
abbrev excl_without_create : String
excl_without_create =
    "The mq_excl flag can only be used with the mq_open(name, mode, flags, mq_create_queue) overload."

abbrev excl_in_setattr : String
excl_in_setattr = "mq_excl cannot be used with mq_setattr, since it's only relevant with mq_open."

-- The outcome of `::mq_open`, in all of the opening functions.
module _ {K : Type 0} (os : MqApi K) where
  abbrev pub opening : Sys K ℤ → Sys K (Result Mq)
  opening call = do
    res ← call
    if res ==ℤ null_mqd_t
        then (do e ← current_errno_code; pure (err e))
        else into_result (unique_mq_d os) (ok (mq res))

  unfoldable pub unsafe_open : ℕ → MqMode → MqOption → Sys K (Result Mq)
  unfolding current_errno_code mq underlying_v into_result unique_mq_d
  unsafe_open name mode option =
      opening (os.mq_open name (bit_or (underlying_v mode) (underlying_v option)))

  -- `open(name, mode)`
  unfoldable pub open_mq : ℕ → ExclusiveEnumFlag MqMode → Sys K (Result Mq)
  unfolding current_errno_code mq underlying_v into_result unique_mq_d
  open_mq name mode = opening (os.mq_open name (underlying_v mode.value))

  -- `open(name, mode, attributes)`
  unfoldable pub open_create : ℕ → ExclusiveEnumFlag MqMode → MqCreateQueue → Sys K (Result Mq)
  unfolding current_errno_code mq underlying_v into_result unique_mq_d
  open_create name mode attributes =
      opening (os.mq_open_attr name (underlying_v mode.value) attributes.attributes_)

  -- `open(name, mode, flags, create_queue)`
  unfoldable pub open_create_options :
      ℕ → ExclusiveEnumFlag MqMode → EnumFlag MqOption → MqCreateQueue → Sys K (Result Mq)
  unfolding current_errno_code mq underlying_v into_result unique_mq_d
  open_create_options name mode flags create_queue = opening (
      os.mq_open_attr name (bit_or (underlying_v mode.value) (underlying_v flags.flags))
        create_queue.attributes_)

  unfoldable pub unlink : ℕ → Sys K ErrorCode
  unfolding common_call
  unlink name = common_call (os.mq_unlink name)

  unfoldable pub getattr : Mq → Sys K (Result MqCurrentAttr)
  unfolding current_errno_code mq_current_attr raw
  getattr q = do
    (result, attributes) ← os.mq_getattr (raw q.mq_d_) zero_attr
    if result ==ℤ minus_one
        then (do e ← current_errno_code; pure (err e))
        else pure (ok (mq_current_attr attributes))

  module _ (m : MqMacro → ℕ) where
    -- `open(name, mode, flag)`
    unfoldable pub open_option :
        ℕ → ExclusiveEnumFlag MqMode → EnumFlag MqOption → Checked (Sys K (Result Mq))
    unfolding current_errno_code mq underlying_v into_result unique_mq_d mq_option_value
    open_option name mode flag =
        if not (underlying_v flag.flags == underlying_v (mq_option_value m MqOptionName.excl))
        then compiled
            (opening (os.mq_open name (bit_or (underlying_v mode.value) (underlying_v flag.flags))))
        else refused excl_without_create

    unfoldable pub setattr : Mq → EnumFlag MqOption → Checked (Sys K (Result MqCurrentAttr))
    unfolding current_errno_code mq_current_attr raw underlying_v has_flag
    setattr q option =
        if not (has_flag option (mq_excl m))
        then compiled (do
          (res, current_attributes) ←
              os.mq_setattr (raw q.mq_d_)
                (record zero_attr { mq_flags = pos (underlying_v option.flags) }) zero_attr
          if res ==ℤ minus_one
              then (do e ← current_errno_code; pure (err e))
              else pure (ok (mq_current_attr current_attributes)))
        else refused excl_in_setattr
