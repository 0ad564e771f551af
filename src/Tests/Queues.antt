-- ===== src/Tests/Queues.antt =====
-- Message queues over a small kernel with one queue, at address 16, that holds one message.
use pposix.Base.{
  ℕ, ℤ, pos, minus_one, ltb, ◌≡◌, refl, [], ◌∷◌, true, false, arith, if◌then◌else◌, Bool-cases, inl,
  inr,
}
use pposix.Errno.{World, Sys}
use pposix.EnumFlag.{EnumFlag, ExclusiveEnumFlag}
use pposix.EnumFlag.Laws.{join}
use pposix.File.Laws.{is_compiled}
use pposix.Mqueue.{
  MqApi, MqMacro, o_creat, o_excl, o_nonblock, MqMode, MqOption, mq_option_enum, mq,
  mq_create_queue,
}
use pposix.Mqueue.Open.{
  unsafe_open, open_mq, open_create, open_create_options, setattr, open_option,
}
use pposix.Mqueue.Transfer.{receive, timed_receive}
use pposix.Mqueue.Laws.{
  open_mq_lem, IsOpening, open_create_lem, excl_checks, receive_lem, IsPrefixOf, IsReceipt,
}
use pposix.Signal.{timespec_of_seconds}
use pposix.Span.Bytes.{ByteSpan, byte_span_of}
use pposix.Tests.Kernel.{Kernel, kernel, world, kernel_open, kernel_close}

-- EMSGSIZE
abbrev emsgsize : ℤ
emsgsize = pos 90

-- The message has five bytes and priority 7; a shorter buffer is refused.
abbrev kernel_receive : ℕ → ℕ → Sys Kernel (ℤ × ℕ)
kernel_receive length prio w =
    if ltb length 5 then ((minus_one, prio), record w { errno = emsgsize }) else ((pos 5, 7), w)

abbrev mq_api : MqApi Kernel
mq_api = record {
  mq_open = λ name flags. kernel_open name;
  mq_open_attr = λ name flags attributes. kernel_open name;
  mq_close = kernel_close;
  mq_unlink = λ name w. (pos 0, w);
  mq_getattr = λ fd attributes w. ((pos 0, attributes), w);
  mq_setattr = λ fd new old w. ((pos 0, old), w);
  mq_receive = λ fd buffer length prio. kernel_receive length prio;
  mq_timedreceive = λ fd buffer length prio until. kernel_receive length prio;
  mq_send = λ fd buffer length prio w. (pos 0, w);
  mq_timedsend = λ fd buffer length prio until w. (pos 0, w);
  mq_notify = λ fd event w. (pos 0, w);
}

abbrev mq_macros : MqMacro → ℕ
mq_macros o_creat = 64
mq_macros o_excl = 128
mq_macros o_nonblock = 2048
mq_macros other = 0

abbrev reading : ExclusiveEnumFlag MqMode
reading = record { value = record { bits = 0 } }

abbrev waiting : EnumFlag MqOption
waiting = record { flags = record { bits = 2048 } }

open_create_lem_example :
    (open_create mq_api 20 reading (mq_create_queue (pos 10) (pos 64)) ≡ open_mq mq_api 20 reading)
    × (open_create_options mq_api 20 reading waiting (mq_create_queue (pos 10) (pos 64))
        ≡ unsafe_open mq_api 20 reading.value waiting.flags)
open_create_lem_example =
    open_create_lem mq_api mq_macros (λ name flags no_creat. refl) 20 reading waiting
      (mq_create_queue (pos 10) (pos 64)) refl refl

-- O_EXCL is bit 7 and O_NONBLOCK bit 11.
excl_checks_example :
    (is_compiled (setattr mq_api mq_macros (mq (pos 3)) (join MqOption (7 ∷ 11 ∷ []))) ≡ false)
    × (is_compiled (open_option mq_api mq_macros 16 reading (join MqOption (7 ∷ 11 ∷ []))) ≡ true)
excl_checks_example = excl_checks mq_api mq_macros 7 refl (mq (pos 3)) 16 reading (7 ∷ 11 ∷ [])

receipt :
    (length prio : ℕ) (w : World Kernel)
    → IsReceipt mq_api length (kernel_receive length prio w).0.0
receipt length prio w = elim (Bool-cases (ltb length 5)) [
  | inl short ↦ inl (rw short refl)
  | inr long ↦ inr (5, rw long refl, ground arith)
]

abbrev at_start : World Kernel
at_start = world (pos 0) (kernel (pos 3 ∷ []) 0)

abbrev buffer : ByteSpan
buffer = byte_span_of 4096 64

receive_lem_example :
    IsPrefixOf mq_api buffer ((pos 5, 7), at_start) (receive mq_api (mq (pos 3)) buffer at_start)
    × IsPrefixOf mq_api buffer
        ((pos 5, 7), at_start)
        (timed_receive mq_api (mq (pos 3)) buffer (timespec_of_seconds (pos 1)) at_start)
receive_lem_example =
    receive_lem mq_api (λ fd address length prio. receipt length prio)
      (λ fd address length prio until. receipt length prio) (mq (pos 3)) buffer
      (timespec_of_seconds (pos 1)) at_start

open_mq_lem_example :
    IsOpening mq_api (pos 3, at_start) (open_mq mq_api 16 reading at_start)
    × IsOpening mq_api
        (pos 3, at_start)
        (unsafe_open mq_api 16 reading.value waiting.flags at_start)
open_mq_lem_example = open_mq_lem mq_api 16 reading waiting.flags at_start
