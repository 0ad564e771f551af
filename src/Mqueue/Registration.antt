-- ===== src/Mqueue/Registration.antt =====
-- The registration of a queue for notification, as <mqueue.h> describes it: who is told of a message.
pub mod Runs
use pposix.Base.{
  ℕ, ℤ, pos, minus_one, ◌+◌, ◌==ℤ◌, ◌≡◌, ◌≢◌, refl, ◌∙◌, ap, ap₂, sym, ◌⊎◌, inl, inr, Bool, true,
  false, Option, none, some, List, [], ◌∷◌, count, arith, if◌then◌else◌,
}
use pposix.Call.{common_call, common_call_world, common_call_error}
use pposix.Descriptor.{raw, of_raw}
use pposix.Errno.{World, Sys, ErrorCode, no_error, make_errno_code, ◌>>=◌, pure}
use pposix.Mqueue.{MqApi, Mq, mq}
use pposix.Mqueue.Notify.{
  MqNotifySignal, unsafe_notify, notify_deregister, notify_none, notify_signal,
}
use pposix.Signal.{
  SigevMacro, SigNotify, Sigevent, sigevent_pointer, sigev_none, no_signal, sival_ptr,
}

-- At most one process is registered with a queue.
pub data Registration : Type 0 where
  nobody : Registration
  this_process : Sigevent → Registration
  another : Registration

-- What can happen: this process asks to be told, and is granted or refused it; it gives its
-- registration up, or has none to give up; it is told of a message; or something happens that does not
-- concern it.
pub data Event : Type 0 where
  granted refused : Sigevent → Event
  gives_up nothing_to_give_up told elsewhere : Event

pub data Step (r : Registration) : Event → Registration → Type 0 where
  grants : (e : Sigevent) → r ≡ nobody → Step r (granted e) (this_process e)
  refuses : (e : Sigevent) → r ≢ nobody → Step r (refused e) r
  frees : (e : Sigevent) → r ≡ this_process e → Step r gives_up nobody
  stays : ((e : Sigevent) → r ≢ this_process e) → Step r nothing_to_give_up r
  tells : (e : Sigevent) → r ≡ this_process e → Step r told nobody
  passes : Step r elsewhere r
  joins : r ≡ nobody → Step r elsewhere another
  leaves : r ≡ another → Step r elsewhere nobody

pub data Walk : Registration → List Event → Registration → Type 0 where
  stop : {r : Registration} → Walk r [] r
  step :
      {r s t : Registration} {a : Event} {path : List Event}
      → Step r a s
      → Walk s path t
      → Walk r (a ∷ path) t

abbrev pub is_granted : Event → Bool
is_granted (granted e) = true
is_granted other = false

-- The registration of this process ends.
abbrev pub is_end : Event → Bool
is_end gives_up = true
is_end told = true
is_end other = false

abbrev pub registered : Registration → ℕ
registered (this_process e) = 1
registered other = 0

step_balance :
    {r s : Registration} {a : Event}
    → Step r a s
    → registered r + (if is_granted a then 1 else 0) ≡ (if is_end a then 1 else 0) + registered s
step_balance (grants e h) = rw h refl
step_balance (refuses e h) = omega arith
step_balance (frees e h) = rw h refl
step_balance (stays h) = omega arith
step_balance (tells e h) = rw h refl
step_balance passes = omega arith
step_balance (joins h) = rw h refl
step_balance (leaves h) = rw h refl

-- As often as it is granted the process is told or gives up, up to the registration that it still has.
pub Walk-balance :
    {r s : Registration} {path : List Event}
    → Walk r path s
    → registered r + count is_granted path ≡ count is_end path + registered s
Walk-balance stop = omega arith
Walk-balance (step one rest) = omega (arith, step_balance one, Walk-balance rest)

-- The events of this process's requests.
unfoldable pub asked : List Event → List Sigevent
asked [] = []
asked (granted e ∷ path) = e ∷ asked path
asked (refused e ∷ path) = e ∷ asked path
asked (gives_up ∷ path) = asked path
asked (nothing_to_give_up ∷ path) = asked path
asked (told ∷ path) = asked path
asked (elsewhere ∷ path) = asked path

-- What its calls answer; `busy` is the code of EBUSY.
unfoldable pub answers : ErrorCode → List Event → List ErrorCode
answers busy [] = []
answers busy (granted e ∷ path) = no_error ∷ answers busy path
answers busy (refused e ∷ path) = busy ∷ answers busy path
answers busy (gives_up ∷ path) = no_error ∷ answers busy path
answers busy (nothing_to_give_up ∷ path) = no_error ∷ answers busy path
answers busy (told ∷ path) = answers busy path
answers busy (elsewhere ∷ path) = answers busy path

-- Without a call of this process.
abbrev pub Meanwhile : Registration → Registration → Type 0
Meanwhile r s = Step r told s ⊎ Step r elsewhere s

abbrev pub given_up : Registration → Registration
given_up (this_process e) = nobody
given_up other = other

pub giving_up :
    (busy : ErrorCode) (r : Registration)
    → (a : Event) × Step r a (given_up r)
      × ((path : List Event) → answers busy (a ∷ path) ≡ no_error ∷ answers busy path)
      × ((path : List Event) → asked (a ∷ path) ≡ asked path)
unfolding answers asked
giving_up busy nobody = (nothing_to_give_up, stays (λ e h. cc), λ path. refl, λ path. refl)
giving_up busy (this_process e) = (gives_up, frees e refl, λ path. refl, λ path. refl)
giving_up busy another = (nothing_to_give_up, stays (λ e h. cc), λ path. refl, λ path. refl)
