-- ===== src/Mqueue/Interleaving.antt =====
-- Sends and receives in any order on a queue that never waits: `unsafe_send`, `unsafe_timed_send`,
-- `receive` and `timed_receive` with their errors, and the queue of messages by itself.
pub mod Refinement
use pposix.Base.{
  ℕ, ℤ, pos, minus_one, ◌==ℤ◌, ◌==◌, ◌≤◌, ◌<◌, ◌≡◌, ◌≢◌, refl, ◌∙◌, ap, ap₂, Bool, true, false,
  Option, none, some, List, [], ◌∷◌, length, not, ltb, arith, if◌then◌else◌, ◌⊎◌, inl, inr,
}
use pposix.Call.{common_call, common_call_world, common_call_answers}
use pposix.Descriptor.{raw, of_raw}
use pposix.Errno.{World, Sys, ErrorCode, no_error, make_errno_code, current_errno_code, ◌>>=◌, pure}
use pposix.Mqueue.{MqApi, Mq, mq, MqMessage, mq_message}
use pposix.Mqueue.Exchange.{Message, enqueue, received_lem}
use pposix.Mqueue.Transfer.{
  priority, received, receive, timed_receive, unsafe_send, unsafe_timed_send,
}
use pposix.Result.{Result, ok, err, result_map}
use pposix.Signal.{Timespec, IsTime}
use pposix.Span.Bytes.{ByteSpan, ByteCspan}

-- A request to a queue: to put a message in, or to get one into room for so many bytes.
pub data Request : Type 0 where
  puts : (count : ℕ) → Message → Request
  gets : (room : ℕ) → Request

-- What the request comes to.
pub data Outcome : Type 0 where
  sent : ErrorCode → Outcome
  taken : Result Message → Outcome

-- The error numbers of <errno.h> that <mqueue.h> names for a queue with O_NONBLOCK.
pub record QueueErrors : Type 0 where
  pub eagain : ℤ
  pub emsgsize : ℤ
  pub einval : ℤ

-- `prio_max` is the system's MQ_PRIO_MAX, which a priority must be below.
module _ (errors : QueueErrors) (capacity msgsize prio_max : ℕ) where
  open errors use {eagain, emsgsize, einval}

  -- The error number, 0 for none, and the messages left. The priority is looked at first.
  abbrev pub put : ℕ → Message → List Message → ℤ × List Message
  put count m q =
      if not (ltb m.0 prio_max)
      then (einval, q)
      else if ltb msgsize count
      then (emsgsize, q)
      else if ltb (length q) capacity
      then (pos 0, enqueue m q)
      else (eagain, q)

  abbrev pub first_of : List Message → Result Message × List Message
  first_of [] = (err (make_errno_code eagain), [])
  first_of (m ∷ q) = (ok m, q)

  abbrev pub get : ℕ → List Message → Result Message × List Message
  get room q = if ltb room msgsize then (err (make_errno_code emsgsize), q) else first_of q

  unfoldable pub serve_one : Request → List Message → Outcome × List Message
  serve_one (puts count m) q = let (error, q') = put count m q in (sent (make_errno_code error), q')
  serve_one (gets room) q = let (result, q') = get room q in (taken result, q')

  -- The queue by itself: requests in order, with what they come to.
  unfoldable pub serve : List Request → List Message → List Outcome × List Message
  unfolding serve_one
  serve [] q = ([], q)
  serve (request ∷ rest) q =
      let (outcome, q') = serve_one request q in
      let (outcomes, last) = serve rest q' in (outcome ∷ outcomes, last)

-- A call, timed when it has a time.
pub data Transfer : Type 0 where
  sends : ByteCspan → (prio : ℕ) → Option Timespec → Transfer
  receives : ByteSpan → Option Timespec → Transfer

-- A time that is given is one.
abbrev pub IsUntil : Option Timespec → Type 0
IsUntil none = Unit
IsUntil (some until) = IsTime until

-- The bytes are those of the process, which `Mapped` says, no receive is given a null buffer, and a
-- time that is given is one.
module _ (Mapped : (address count : ℕ) → Type 0) where
  abbrev pub IsReal : Transfer → Type 0
  IsReal (sends message prio until) = Mapped message.buffer_ message.length_ × IsUntil until
  IsReal (receives buffer until) =
      (buffer.buffer_ ≢ 0) × Mapped buffer.buffer_ buffer.length_ × IsUntil until

  abbrev pub AreReal : List Transfer → Type 0
  AreReal [] = Unit
  AreReal (t ∷ ts) = IsReal t × AreReal ts

module _ {K : Type 0} (os : MqApi K) (bytes : K → (address count : ℕ) → List ℕ) where
  abbrev sending : Mq → ByteCspan → ℕ → Option Timespec → Sys K ErrorCode
  sending q message prio none = unsafe_send os q message (priority prio)
  sending q message prio (some until) = unsafe_timed_send os q message (priority prio) until

  abbrev receiving : Mq → ByteSpan → Option Timespec → Sys K (Result MqMessage)
  receiving q buffer none = receive os q buffer
  receiving q buffer (some until) = timed_receive os q buffer until

  -- One call; a message that is received is read where its span shows it.
  unfoldable pub transfer : Mq → Transfer → Sys K Outcome
  unfolding unsafe_send unsafe_timed_send receive timed_receive result_map
  transfer q (sends message prio until) w =
      let (code, w') = sending q message prio until w in (sent code, w')
  transfer q (receives buffer until) w =
      let (r, w') = receiving q buffer until w in
      (
        taken (
            result_map r
              (λ m. (m.priority_.value, bytes w'.kernel m.message_.buffer_ m.message_.length_))),
        w',
      )

  unfoldable pub transfers : Mq → List Transfer → Sys K (List Outcome)
  unfolding transfer
  transfers q [] = pure []
  transfers q (t ∷ ts) = do
    outcome ← transfer q t
    outcomes ← transfers q ts
    pure (outcome ∷ outcomes)

  -- The request that a call is, with the bytes that the process has when it is made.
  abbrev pub request : World K → Transfer → Request
  request w (sends message prio until) =
      puts message.length_ (prio, bytes w.kernel message.buffer_ message.length_)
  request w (receives buffer until) = gets buffer.length_

  unfoldable pub requests : Mq → List Transfer → World K → List Request
  requests q [] w = []
  requests q (t ∷ ts) w = request w t ∷ requests q ts (transfer q t w).1
