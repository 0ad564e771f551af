-- ===== src/Mqueue.antt =====
-- include/pposix/rt/mqueue.hpp and src/rt/mqueue.cpp: POSIX message queues. The calls of
-- <mqueue.h> are the fields of `MqApi`; what a call writes through a pointer is returned beside its
-- result.
pub mod Open
pub mod Transfer
pub mod Notify
pub mod Laws
pub mod Exchange
pub mod Registration
pub mod Interleaving
use pposix.Base.{ℕ, ℤ, minus_one, pos, ◌==ℤ◌, ==ℤ_iff, ◌≡◌, refl, Option}
use pposix.Errno.{Sys, ErrorCode, no_error}
use pposix.Call.{common_call}
use pposix.Descriptor.{Traits, Descriptor, of_raw, null_descriptor, destroy as destroy_descriptor}
use pposix.EnumFlag.{IsEnum, EnumFlag, ExclusiveEnumFlag}
use pposix.Signal.{Timespec, Sigevent}
use pposix.Span.Bytes.{ByteSpan}

-- `::mq_attr`
pub record MqAttr : Type 0 where
  pub mq_flags : ℤ
  pub mq_maxmsg : ℤ
  pub mq_msgsize : ℤ
  pub mq_curmsgs : ℤ

-- `::mq_attr{}`
abbrev pub zero_attr : MqAttr
zero_attr = record { mq_flags = pos 0; mq_maxmsg = pos 0; mq_msgsize = pos 0; mq_curmsgs = pos 0 }

-- `mq_open_attr` is `mq_open` with a pointer to attributes as the argument after the flags. The
-- last argument of the receiving calls is the priority that they overwrite.
pub record MqApi (K : Type 0) : Type 0 where
  pub mq_open : ℕ → ℕ → Sys K ℤ
  pub mq_open_attr : ℕ → ℕ → MqAttr → Sys K ℤ
  pub mq_close : ℤ → Sys K ℤ
  pub mq_unlink : ℕ → Sys K ℤ
  pub mq_getattr : ℤ → MqAttr → Sys K (ℤ × MqAttr)
  pub mq_setattr : ℤ → MqAttr → MqAttr → Sys K (ℤ × MqAttr)
  pub mq_receive : ℤ → ℕ → ℕ → ℕ → Sys K (ℤ × ℕ)
  pub mq_timedreceive : ℤ → ℕ → ℕ → ℕ → Timespec → Sys K (ℤ × ℕ)
  pub mq_send : ℤ → ℕ → ℕ → ℕ → Sys K ℤ
  pub mq_timedsend : ℤ → ℕ → ℕ → ℕ → Timespec → Sys K ℤ
  pub mq_notify : ℤ → Option Sigevent → Sys K ℤ

-- NULL_MQD_T
abbrev pub null_mqd_t : ℤ
null_mqd_t = minus_one

-- `detail::mq_null_descriptor`
abbrev pub mq_null_descriptor : ℤ
mq_null_descriptor = null_mqd_t

-- `capi::mq_mode`
pub record MqMode : Type 0 where
  pub bits : ℕ

abbrev mq_mode : ℕ → MqMode
mq_mode n = record { bits = n }

instance abbrev pub mq_mode_enum : IsEnum MqMode
mq_mode_enum = record {
  to_underlying = λ a. a.bits;
  of_underlying = mq_mode;
  to-of_underlying = λ n. refl;
}

pub data MqModeName : Type 0 where
  read_only write_only read_write : MqModeName

-- `capi::mq_option`
pub record MqOption : Type 0 where
  pub bits : ℕ

abbrev mq_option : ℕ → MqOption
mq_option n = record { bits = n }

instance abbrev pub mq_option_enum : IsEnum MqOption
mq_option_enum = record {
  to_underlying = λ a. a.bits;
  of_underlying = mq_option;
  to-of_underlying = λ n. refl;
}

pub data MqOptionName : Type 0 where
  create excl non_blocking : MqOptionName

-- The macros of <fcntl.h> that message queues use.
pub data MqMacro : Type 0 where
  o_rdonly o_wronly o_rdwr o_creat o_excl o_nonblock : MqMacro

unfoldable pub mq_mode_value : (MqMacro → ℕ) → MqModeName → MqMode
mq_mode_value m read_only = mq_mode (m o_rdonly)
mq_mode_value m write_only = mq_mode (m o_wronly)
mq_mode_value m read_write = mq_mode (m o_rdwr)

-- The constants `read_only`, `write_only` and `read_write` of type `mq_mode_flag`.
unfoldable pub mq_mode_constant : (MqMacro → ℕ) → MqModeName → ExclusiveEnumFlag MqMode
unfolding mq_mode_value
mq_mode_constant m mode = record { value = mq_mode_value m mode }

unfoldable pub mq_option_value : (MqMacro → ℕ) → MqOptionName → MqOption
mq_option_value m create = mq_option (m o_creat)
mq_option_value m excl = mq_option (m o_excl)
mq_option_value m non_blocking = mq_option (m o_nonblock)

-- The constant `mq_excl`
unfoldable pub mq_excl : (MqMacro → ℕ) → EnumFlag MqOption
unfolding mq_option_value
mq_excl m = record { flags = mq_option_value m excl }

-- The constant `mq_non_blocking`
unfoldable pub mq_non_blocking : (MqMacro → ℕ) → EnumFlag MqOption
unfolding mq_option_value
mq_non_blocking m = record { flags = mq_option_value m non_blocking }

-- `mq_create_queue`, whose constructor sets two fields of zeroed attributes.
pub record MqCreateQueue : Type 0 where
  pub attributes_ : MqAttr

unfoldable pub mq_create_queue : ℤ → ℤ → MqCreateQueue
mq_create_queue max_message_count max_message_size = record {
  attributes_ = record zero_attr { mq_maxmsg = max_message_count; mq_msgsize = max_message_size };
}

-- `mq_current_attr` and its three accessors
pub record MqCurrentAttr : Type 0 where
  pub attributes_ : MqAttr

unfoldable pub mq_current_attr : MqAttr → MqCurrentAttr
mq_current_attr attributes = record { attributes_ = attributes }

unfoldable pub current_message_count : MqCurrentAttr → ℤ
current_message_count a = a.attributes_.mq_curmsgs

unfoldable pub max_message_count : MqCurrentAttr → ℤ
max_message_count a = a.attributes_.mq_maxmsg

unfoldable pub max_message_size : MqCurrentAttr → ℤ
max_message_size a = a.attributes_.mq_msgsize

-- `mq_message_priority`, an enumeration of `unsigned`s.
pub record MqMessagePriority : Type 0 where
  pub value : ℕ

pub record MqMessage : Type 0 where
  pub priority_ : MqMessagePriority
  pub message_ : ByteSpan

unfoldable pub mq_message : MqMessagePriority → ByteSpan → MqMessage
mq_message priority message = record { priority_ = priority; message_ = message }

module _ {K : Type 0} (os : MqApi K) where
  unfoldable pub close_mq_d : ℤ → Sys K ErrorCode
  unfolding common_call
  close_mq_d mq_descriptor = common_call (os.mq_close mq_descriptor)

  -- The template arguments of `unique_mq_d`.
  unfoldable pub unique_mq_d : Traits K ℤ
  unique_mq_d = record {
    get_null = mq_null_descriptor;
    same = ◌==ℤ◌;
    same_iff = ==ℤ_iff;
    close_policy = close_mq_d;
  }

-- `mq`
pub record Mq : Type 0 where
  pub mq_d_ : Descriptor ℤ

-- `explicit mq(::mqd_t)`
unfoldable pub mq : ℤ → Mq
unfolding of_raw
mq mq_d = record { mq_d_ = of_raw mq_d }

-- The destructor that the compiler writes: that of `mq_d_`.
unfoldable pub destroy : {K : Type 0} → MqApi K → Mq → Sys K (Unit {0})
unfolding destroy_descriptor
destroy os q = destroy_descriptor (unique_mq_d os) q.mq_d_
