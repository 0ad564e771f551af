-- ===== src/Mqueue/Transfer.antt =====
-- The messages of include/pposix/rt/mqueue.hpp and src/rt/mqueue.cpp: `receive`, `timed_receive`,
-- `unsafe_send`, `send`, `unsafe_timed_send` and `timed_send`.
use Prim.Native.String.{String}
use pposix.Base.{ℕ, ℤ, minus_one, to_size, ◌==ℤ◌, ◌==◌, Bool, ltb, if◌then◌else◌}
use pposix.Errno.{Sys, ErrorCode, ◌>>=◌, pure, current_errno_code}
use pposix.Call.{common_call}
use pposix.Descriptor.{raw}
use pposix.EnumFlag.{Checked, refused, compiled}
use pposix.Mqueue.{MqApi, Mq, MqMessagePriority, MqMessage, mq_message}
use pposix.Result.{Result, ok, err}
use pposix.Signal.{Timespec}
use pposix.Span.Bytes.{ByteSpan, ByteCspan, byte_span_of}

abbrev pub priority : ℕ → MqMessagePriority
priority n = record { value = n }

-- `mq_static_message_priority<Priority>`, and its comparisons with a priority.
pub record MqStaticMessagePriority : Type 0 where
  pub priority_ : MqMessagePriority

unfoldable pub static_priority_equals : MqStaticMessagePriority → MqMessagePriority → Bool
static_priority_equals lhs rhs = lhs.priority_.value == rhs.value

unfoldable pub priority_equals_static : MqMessagePriority → MqStaticMessagePriority → Bool
priority_equals_static lhs rhs = rhs.priority_.value == lhs.value

-- The message of the `static_assert`s of `send` and `timed_send`.
abbrev priority_too_large : String
priority_too_large =
    "The message queue send priority cannot be greater than or equal to mq_message_priority::max (aka _POSIX_MQ_PRIO_MAX)"

-- What both receiving functions make of the outcome of the call.
abbrev pub received : {K : Type 0} → ByteSpan → Sys K (ℤ × ℕ) → Sys K (Result MqMessage)
received buffer call = do
  (num_message_bytes, prio) ← call
  if num_message_bytes ==ℤ minus_one
      then (do e ← current_errno_code; pure (err e))
      else pure (
          ok (mq_message (priority prio) (byte_span_of buffer.buffer_ (to_size num_message_bytes))))

module _ {K : Type 0} (os : MqApi K) where
  unfoldable pub receive : Mq → ByteSpan → Sys K (Result MqMessage)
  unfolding current_errno_code mq_message raw
  receive q message_buffer =
      received message_buffer
        (os.mq_receive (raw q.mq_d_) message_buffer.buffer_ message_buffer.length_ 0)

  unfoldable pub timed_receive : Mq → ByteSpan → Timespec → Sys K (Result MqMessage)
  unfolding current_errno_code mq_message raw
  timed_receive q message absolute_time =
      received message
        (os.mq_timedreceive (raw q.mq_d_) message.buffer_ message.length_ 0 absolute_time)

  unfoldable pub unsafe_send : Mq → ByteCspan → MqMessagePriority → Sys K ErrorCode
  unfolding common_call raw
  unsafe_send q message prio =
      common_call (os.mq_send (raw q.mq_d_) message.buffer_ message.length_ prio.value)

  unfoldable pub unsafe_timed_send : Mq → ByteCspan → MqMessagePriority → Timespec → Sys K ErrorCode
  unfolding common_call raw
  unsafe_timed_send q message prio absolute_time =
      common_call
        (os.mq_timedsend (raw q.mq_d_) message.buffer_ message.length_ prio.value absolute_time)

  -- `prio_max` is _POSIX_MQ_PRIO_MAX; the priority is a template argument.
  module _ (prio_max : ℕ) where
    unfoldable pub send : Mq → ByteCspan → MqMessagePriority → Checked (Sys K ErrorCode)
    unfolding unsafe_send
    send q message prio =
        if ltb prio.value prio_max
        then compiled (unsafe_send q message prio)
        else refused priority_too_large

    unfoldable pub timed_send :
        Mq → ByteCspan → MqMessagePriority → Timespec → Checked (Sys K ErrorCode)
    unfolding unsafe_timed_send
    timed_send q message prio absolute_time =
        if ltb prio.value prio_max
        then compiled (unsafe_timed_send q message prio absolute_time)
        else refused priority_too_large
