-- ===== src/Tests/Notices.antt =====
-- A message queue, number 3, in a small kernel that keeps who is registered with it.
use pposix.Base.{
  ℤ, pos, minus_one, ◌+◌, ◌≡◌, refl, ◌≢◌, ◌⊎◌, inl, inr, Option, none, some, List, [], ◌∷◌, count,
}
use pposix.Errno.{World, Sys, make_errno_code}
use pposix.Mqueue.{MqApi, mq}
use pposix.Mqueue.Notify.{mq_notify_signal_int}
use pposix.Mqueue.Registration.{
  Registration, nobody, this_process, another, Event, Walk, is_granted, is_end, registered, asked,
  answers, Meanwhile, tells, passes, leaves, given_up,
}
use pposix.Mqueue.Registration.Runs.{
  KeepsRegistration, mq_notify_none, mq_notify_signal, mq_deregister_notification, Turn, calls,
  meanwhile, run, requested, notify_lem,
}
use pposix.Signal.{SigevMacro, sigev_none, sigev_signal, sigev_thread, Sigevent, SigNumber}

record NoticeKernel : Type 0 where
  registration : Registration

-- EBUSY
abbrev ebusy : ℤ
ebusy = pos 16

abbrev ask : Registration → Sigevent → Sys NoticeKernel ℤ
ask nobody e w = (pos 0, record w { kernel = record { registration = this_process e } })
ask (this_process old) e w = (minus_one, record w { errno = ebusy })
ask another e w = (minus_one, record w { errno = ebusy })

abbrev mq_notify : Option Sigevent → Sys NoticeKernel ℤ
mq_notify none w =
    (pos 0, record w { kernel = record { registration = given_up w.kernel.registration } })
mq_notify (some e) w = ask w.kernel.registration e w

abbrev mq_api : MqApi NoticeKernel
mq_api = record {
  mq_open = λ name flags w. (pos 3, w);
  mq_open_attr = λ name flags attributes w. (pos 3, w);
  mq_close = λ fd w. (pos 0, w);
  mq_unlink = λ name w. (pos 0, w);
  mq_getattr = λ fd attributes w. ((pos 0, attributes), w);
  mq_setattr = λ fd new old w. ((pos 0, old), w);
  mq_receive = λ fd buffer length prio w. ((pos 0, 0), w);
  mq_timedreceive = λ fd buffer length prio until w. ((pos 0, 0), w);
  mq_send = λ fd buffer length prio w. (pos 0, w);
  mq_timedsend = λ fd buffer length prio until w. (pos 0, w);
  mq_notify = λ fd. mq_notify;
}

ask_cases :
    (r : Registration) (e : Sigevent) (n : ℤ)
    → let w : World NoticeKernel = record { errno = n; kernel = record { registration = r } } in
      let asked_for = ask r e w in
      ((r ≡ nobody) × (asked_for.1.kernel.registration ≡ this_process e) × (asked_for.0 ≡ pos 0))
      ⊎ ((r ≢ nobody)
          × (asked_for.1.kernel.registration ≡ r)
          × (asked_for.0 ≡ minus_one)
          × (asked_for.1.errno ≡ ebusy))
ask_cases nobody e n = inl (refl, refl, refl)
ask_cases (this_process old) e n = inr (λ h. cc, refl, refl, refl)
ask_cases another e n = inr (λ h. cc, refl, refl, refl)

abbrev keeps : KeepsRegistration mq_api (pos 3) ebusy
keeps = record {
  registration = λ k. k.registration;
  ask = λ e w. ask_cases w.kernel.registration e w.errno;
  give_up = λ w. (refl, refl);
}

-- A message comes to the queue: who is registered is told, and is registered no more.
abbrev message : NoticeKernel → NoticeKernel
message k = record { registration = nobody }

message_comes : (r : Registration) → Meanwhile r nobody
message_comes nobody = inr passes
message_comes (this_process e) = inl (tells e refl)
message_comes another = inr (leaves refl)

-- Linux's values.
abbrev macros : SigevMacro → ℤ
macros sigev_signal = pos 0
macros sigev_none = pos 1
macros sigev_thread = pos 2

-- SIGUSR1
abbrev sigusr1 : SigNumber
sigusr1 = record { number = pos 10 }

-- The second call comes too early, the last gives the registration up.
abbrev turns : List (Turn {K = NoticeKernel} (λ k. k.registration))
turns =
    calls (mq_notify_signal (mq_notify_signal_int macros sigusr1 0 (pos 7)))
    ∷ calls mq_notify_none
    ∷ meanwhile message (λ k. message_comes k.registration)
    ∷ calls mq_notify_none
    ∷ calls mq_deregister_notification
    ∷ []

abbrev at_start : World NoticeKernel
at_start = record { errno = pos 0; kernel = record { registration = nobody } }

notify_lem_example :
    let (codes, last) = run mq_api macros (mq (pos 3)) turns at_start in
    (path : List Event) × Walk nobody path last.kernel.registration
    × (codes ≡ answers (make_errno_code ebusy) path)
    × (requested mq_api macros turns ≡ asked path)
    × (count is_granted path ≡ count is_end path + registered last.kernel.registration)
notify_lem_example = notify_lem mq_api macros (pos 3) ebusy keeps turns at_start refl
