-- ===== src/Mqueue/Notify.antt =====
-- The notifications of include/pposix/rt/mqueue.hpp and src/rt/mqueue.cpp.
use pposix.Base.{ℕ, ℤ, none, some}
use pposix.Errno.{Sys, ErrorCode}
use pposix.Call.{common_call}
use pposix.Descriptor.{raw}
use pposix.Mqueue.{MqApi, Mq}
use pposix.Signal.{
  SigNotify, SigNumber, SigevMacro, Sigevent, no_signal, sigevent_int, sigevent_pointer,
}

pub record MqNotifySignal : Type 0 where
  pub event_ : Sigevent

module _ (m : SigevMacro → ℤ) where
  -- `mq_notify_signal` with an `int`
  unfoldable pub mq_notify_signal_int : SigNumber → ℕ → ℤ → MqNotifySignal
  unfolding sigevent_int
  mq_notify_signal_int sig handler value = record {
    event_ = sigevent_int m SigNotify.signal sig handler value;
  }

  -- `mq_notify_signal` with a `void*`
  unfoldable pub mq_notify_signal_pointer : SigNumber → ℕ → ℕ → MqNotifySignal
  unfolding sigevent_pointer
  mq_notify_signal_pointer sig handler value = record {
    event_ = sigevent_pointer m SigNotify.signal sig handler value;
  }

module _ {K : Type 0} (os : MqApi K) where
  unfoldable pub unsafe_notify : Mq → Sigevent → Sys K ErrorCode
  unfolding common_call raw
  unsafe_notify q sigevent = common_call (os.mq_notify (raw q.mq_d_) (some sigevent))

  -- `notify(mq_deregister_notification)`, which passes a null event.
  unfoldable pub notify_deregister : Mq → Sys K ErrorCode
  unfolding common_call raw
  notify_deregister q = common_call (os.mq_notify (raw q.mq_d_) none)

  -- `notify(mq_notify_none)`
  unfoldable pub notify_none : (SigevMacro → ℤ) → Mq → Sys K ErrorCode
  unfolding unsafe_notify sigevent_pointer
  notify_none m q = unsafe_notify q (sigevent_pointer m SigNotify.none no_signal 0 0)

  -- `notify(mq_notify_signal)`
  unfoldable pub notify_signal : Mq → MqNotifySignal → Sys K ErrorCode
  unfolding unsafe_notify
  notify_signal q n = unsafe_notify q n.event_
