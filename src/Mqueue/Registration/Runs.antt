-- ===== src/Mqueue/Registration/Runs.antt =====
-- Sequences of `mq::notify` of src/rt/mqueue.cpp, with what happens at the queue between the calls.
use pposix.Base.{
  ℤ, pos, minus_one, ◌+◌, ◌≡◌, ◌≢◌, refl, ◌∙◌, ap, sym, ◌⊎◌, inl, inr, none, some, List, [], ◌∷◌,
  count, arith,
}
use pposix.Call.{common_call_world, common_call_error}
use pposix.Descriptor.{raw, of_raw}
use pposix.Errno.{World, Sys, ErrorCode, make_errno_code, ◌>>=◌, pure}
use pposix.Mqueue.{MqApi, Mq, mq}
use pposix.Mqueue.Notify.{
  MqNotifySignal, unsafe_notify, notify_deregister, notify_none, notify_signal,
}
use pposix.Signal.{
  SigevMacro, SigNotify, Sigevent, sigevent_pointer, sigev_none, no_signal, sival_ptr,
}
use pposix.Mqueue.Registration.{
  Registration, nobody, this_process, Event, granted, refused, told, elsewhere, Step, grants,
  refuses, Walk, stop, step, is_granted, is_end, registered, Walk-balance, asked, answers,
  Meanwhile, given_up, giving_up,
}

-- What <mqueue.h> says of `mq_notify` on the queue `fd`.
pub record KeepsRegistration {K : Type 0} (os : MqApi K) (fd ebusy : ℤ) : Type 0 where
  pub registration : K → Registration
  pub ask :
      (e : Sigevent) (w : World K)
      → let r = os.mq_notify fd (some e) w in
        ((registration w.kernel ≡ nobody)
          × (registration r.1.kernel ≡ this_process e)
          × (r.0 ≡ pos 0))
        ⊎ ((registration w.kernel ≢ nobody)
            × (registration r.1.kernel ≡ registration w.kernel)
            × (r.0 ≡ minus_one)
            × (r.1.errno ≡ ebusy))
  pub give_up :
      (w : World K)
      → let r = os.mq_notify fd none w in
        (r.0 ≡ pos 0) × (registration r.1.kernel ≡ given_up (registration w.kernel))

-- The argument of `mq::notify`, whose type chooses the overload.
pub data Notification : Type 0 where
  mq_deregister_notification mq_notify_none : Notification
  mq_notify_signal : MqNotifySignal → Notification

-- A call of this process, or what happens at the queue without one.
pub data Turn {K : Type 0} (registration : K → Registration) : Type 0 where
  calls : Notification → Turn registration
  meanwhile :
      (f : K → K) → ((k : K) → Meanwhile (registration k) (registration (f k))) → Turn registration

module _ {K : Type 0} (os : MqApi K) (m : SigevMacro → ℤ) where
  -- `mq::notify`
  unfoldable pub notify : Mq → Notification → Sys K ErrorCode
  unfolding notify_deregister notify_none notify_signal
  notify q mq_deregister_notification = notify_deregister os q
  notify q mq_notify_none = notify_none os m q
  notify q (mq_notify_signal n) = notify_signal os q n

  module _ {registration : K → Registration} where
    unfoldable pub run : Mq → List (Turn registration) → Sys K (List ErrorCode)
    unfolding notify
    run q [] = pure []
    run q (calls n ∷ turns) = do code ← notify q n; codes ← run q turns; pure (code ∷ codes)
    run q (meanwhile f happens ∷ turns) = λ w. run q turns (record w { kernel = f w.kernel })

    -- The events that the calls of `notify` are to ask for: of kind SIGEV_NONE, or the signal's.
    pub requested : List (Turn registration) → List Sigevent
    requested [] = []
    requested (calls mq_deregister_notification ∷ turns) = requested turns
    requested (calls mq_notify_none ∷ turns) =
        record {
          sigev_notify = m sigev_none;
          sigev_signo = pos 0;
          sigev_value = sival_ptr 0;
          sigev_notify_function = 0;
          sigev_notify_attributes = 0;
        }
        ∷ requested turns
    requested (calls (mq_notify_signal n) ∷ turns) = n.event_ ∷ requested turns
    requested (meanwhile f happens ∷ turns) = requested turns

module _ {K : Type 0} (os : MqApi K) (m : SigevMacro → ℤ) (fd ebusy : ℤ)
    (kept : KeepsRegistration os fd ebusy) where
  open kept use {registration}

  abbrev busy : ErrorCode
  busy = make_errno_code ebusy

  -- A call that answers with a code is one event, and asks for what `request` puts in front.
  abbrev IsEvent : Registration → ErrorCode × World K → (List Sigevent → List Sigevent) → Type 0
  IsEvent r (code, w) request =
      (a : Event) × Step r a (registration w.kernel)
      × ((path : List Event) → answers busy (a ∷ path) ≡ code ∷ answers busy path)
      × ((path : List Event) → asked (a ∷ path) ≡ request (asked path))

  ask_lem :
      (e : Sigevent) (w : World K)
      → IsEvent (registration w.kernel) (unsafe_notify os (mq fd) e w) (◌∷◌ e)
  unfolding unsafe_notify mq of_raw raw asked answers
  ask_lem e w =
      let call = os.mq_notify fd (some e) in
      elim (kept.ask e w) [
        | inl (free, after, fine) ↦ (
          granted e,
          rw (common_call_world call w, after) (grants e free),
          λ path. rw (common_call_error call w, fine) refl,
          λ path. refl,
        )
        | inr (taken, after, failed, number) ↦ (
          refused e,
          rw (common_call_world call w, after) (refuses e taken),
          λ path. rw (common_call_error call w, failed, number) refl,
          λ path. refl,
        )
      ]

  give_up_lem :
      (w : World K) → IsEvent (registration w.kernel) (notify_deregister os (mq fd) w) (λ es. es)
  unfolding notify_deregister mq of_raw raw asked answers
  give_up_lem w =
      let call = os.mq_notify fd none in
      let (fine, after) = kept.give_up w in
      let (a, one, codes, asks) = giving_up busy (registration w.kernel) in
      (
        a,
        rw (common_call_world call w, after) one,
        λ path. rw (common_call_error call w, fine) (codes path),
        asks,
      )

  notify-IsEvent :
      (n : Notification) (w : World K) (turns : List (Turn registration))
      → let r = notify os m (mq fd) n w in
        (request : List Sigevent → List Sigevent) × IsEvent (registration w.kernel) r request
        × (requested os m (calls n ∷ turns) ≡ request (requested os m turns))
  unfolding notify notify_none notify_signal requested sigevent_pointer
  notify-IsEvent mq_deregister_notification w turns = (λ es. es, give_up_lem w, refl)
  notify-IsEvent mq_notify_none w turns =
      let event = sigevent_pointer m SigNotify.none no_signal 0 0 in
      (◌∷◌ event, ask_lem event w, refl)
  notify-IsEvent (mq_notify_signal n) w turns = (◌∷◌ n.event_, ask_lem n.event_ w, refl)

  IsRun : Registration → List (Turn registration) → List ErrorCode × World K → Type 0
  IsRun r turns (codes, w) =
      (path : List Event) × Walk r path (registration w.kernel)
      × (codes ≡ answers busy path)
      × (requested os m turns ≡ asked path)

  run_lem :
      (turns : List (Turn registration)) (w : World K)
      → IsRun (registration w.kernel) turns (run os m (mq fd) turns w)
  unfolding IsRun run requested asked answers
  run_lem [] w = ([], stop, refl, refl)
  run_lem (calls n ∷ turns) w =
      let (request, event, same) = notify-IsEvent n w turns in
      let (a, one, codes, asks) = event in
      let (path, rest, more, others) = run_lem turns (notify os m (mq fd) n w).1 in
      (
        a ∷ path,
        step one rest,
        ap (◌∷◌ (notify os m (mq fd) n w).0) more ∙ sym (codes path),
        same ∙ ap request others ∙ sym (asks path),
      )
  run_lem (meanwhile f happens ∷ turns) w =
      let (path, rest, more, others) = run_lem turns (record w { kernel = f w.kernel }) in
      elim (happens w.kernel) [
        | inl is_told ↦ (told ∷ path, step is_told rest, more, others)
        | inr other ↦ (elsewhere ∷ path, step other rest, more, others)
      ]

  -- From a queue with which nobody is registered, and whose registration the kernel keeps as
  -- `KeepsRegistration` says: calls of `notify`, with anything at the queue between
  -- them, are a path of steps: the calls ask for exactly the events of the notifications that they are
  -- given, and answer with no error where the path grants and with EBUSY where it refuses. This process
  -- is granted its registration as often as the registration ends, by a message or by giving it up,
  -- and once more if it is registered at the end: it is told at most once for each grant.
  pub notify_lem :
      (turns : List (Turn registration)) (w : World K)
      → registration w.kernel ≡ nobody
      → let (codes, last) = run os m (mq fd) turns w in
        (path : List Event) × Walk nobody path (registration last.kernel)
        × (codes ≡ answers busy path)
        × (requested os m turns ≡ asked path)
        × (count is_granted path ≡ count is_end path + registered (registration last.kernel))
  unfolding IsRun
  notify_lem turns w free =
      let (path, whole, codes, asks) = run_lem turns w in
      let from_nobody : Walk nobody path (registration (run os m (mq fd) turns w).1.kernel) =
        rw (← free) whole in
      (path, from_nobody, codes, asks, omega (arith, Walk-balance from_nobody))
