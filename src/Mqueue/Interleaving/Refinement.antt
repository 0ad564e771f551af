-- ===== src/Mqueue/Interleaving/Refinement.antt =====
-- The calls of src/rt/mqueue.cpp that send and receive implement the queue of messages.
use pposix.Base.{
  ℕ, ℤ, pos, minus_one, ◌≡◌, ◌≢◌, refl, ap, ap₂, none, some, List, [], ◌∷◌, length, ◌⊎◌,
}
use pposix.Call.{common_call, common_call_world, common_call_answers}
use pposix.Descriptor.{raw, of_raw}
use pposix.Errno.{World, Sys, make_errno_code, current_errno_code}
use pposix.Mqueue.{MqApi, mq, MqMessage, mq_message}
use pposix.Mqueue.Exchange.{Message, received_lem}
use pposix.Mqueue.Transfer.{received, receive, timed_receive, unsafe_send, unsafe_timed_send}
use pposix.Result.{Result, ok, err, result_map}
use pposix.Signal.{Timespec, IsTime}
use pposix.Span.Bytes.{ByteSpan}
use pposix.Mqueue.Interleaving.{
  sent, taken, QueueErrors, put, get, serve_one, serve, Transfer, sends, receives, IsReal, AreReal,
  transfer, transfers, request, requests,
}

module _ {K : Type 0} (os : MqApi K) (bytes : K → (address count : ℕ) → List ℕ)
    (errors : QueueErrors) (Mapped : (address count : ℕ) → Type 0)
    (fd capacity msgsize prio_max : ℕ) where
  -- A call that puts answers with 0 or with -1 and the error number, and leaves a queue.
  abbrev pub IsPut : (K → List Message) → ℤ × List Message → ℤ × World K → Type 0
  IsPut queued (error, q) r =
      (queued r.1.kernel ≡ q)
      × (((error ≡ pos 0) × (r.0 ≡ pos 0)) ⊎ ((r.0 ≡ minus_one) × (r.1.errno ≡ error)))

  -- A call that gets answers with the length and the priority of a message and leaves its bytes at
  -- the address, or with -1 and the error number.
  abbrev pub IsGot :
      (K → List Message)
      → (address : ℕ) → Result Message × List Message
      → (ℤ × ℕ) × World K
      → Type 0
  IsGot queued address (ok m, q) r =
      (queued r.1.kernel ≡ q)
      × (r.0 ≡ (pos (length m.1), m.0))
      × (bytes r.1.kernel address (length m.1) ≡ m.1)
  IsGot queued address (err code, q) r =
      (queued r.1.kernel ≡ q) × (r.0.0 ≡ minus_one) × (make_errno_code r.1.errno ≡ code)

  -- What <mqueue.h> says of the queue `fd`, opened with O_NONBLOCK for reading and writing, which
  -- holds `capacity` messages of at most `msgsize` bytes, on a system whose priorities are below
  -- `prio_max`, called with memory of the process. A time makes no difference to a call that does not
  -- wait, if it is one.
  pub record ServesQueue : Type 0 where
    pub queued : K → List Message
    pub send :
        (address count prio : ℕ) (w : World K)
        → Mapped address count
        → IsPut queued
            (put errors capacity msgsize prio_max count
              (prio, bytes w.kernel address count)
              (queued w.kernel))
            (os.mq_send (pos fd) address count prio w)
    pub timed_send :
        (address count prio : ℕ) (until : Timespec) (w : World K)
        → Mapped address count
        → IsTime until
        → IsPut queued
            (put errors capacity msgsize prio_max count
              (prio, bytes w.kernel address count)
              (queued w.kernel))
            (os.mq_timedsend (pos fd) address count prio until w)
    pub receive :
        (address room prio : ℕ) (w : World K)
        → Mapped address room
        → IsGot queued address
            (get errors capacity msgsize prio_max room (queued w.kernel))
            (os.mq_receive (pos fd) address room prio w)
    pub timed_receive :
        (address room prio : ℕ) (until : Timespec) (w : World K)
        → Mapped address room
        → IsTime until
        → IsGot queued address
            (get errors capacity msgsize prio_max room (queued w.kernel))
            (os.mq_timedreceive (pos fd) address room prio until w)

  module _ (kept : ServesQueue) where
    open kept use {queued}

    put_lem :
        (call : Sys K ℤ) (w : World K) (done : ℤ × List Message)
        → IsPut queued done (call w)
        → ((common_call call w).0 ≡ make_errno_code done.0)
          × (queued (common_call call w).1.kernel ≡ done.1)
    put_lem call w (error, q) (left, answer) =
        (common_call_answers call w error answer, rw (common_call_world call w) left)

    read : World K → MqMessage → Message
    read w m = (m.priority_.value, bytes w.kernel m.message_.buffer_ m.message_.length_)

    get_lem :
        (buffer : ByteSpan) (call : Sys K (ℤ × ℕ)) (w : World K)
        (got : Result Message × List Message)
        → buffer.buffer_ ≢ 0
        → IsGot queued buffer.buffer_ got (call w)
        → let (r, w') = received buffer call w in
          (result_map r (read w') ≡ got.0) × (queued w'.kernel ≡ got.1)
    unfolding result_map read mq_message current_errno_code make_errno_code
    get_lem buffer call w (ok m, q) some_buffer (left, numbers, there) =
        let r = received_lem buffer call w _ _ some_buffer numbers in
        (rw (r, there) refl, rw r left)
    get_lem buffer call w (err code, q) some_buffer (left, failed, number) =
        (rw failed (ap err number), rw failed left)

    transfer_lem :
        (t : Transfer) (w : World K)
        → IsReal Mapped t
        → let done =
            serve_one errors capacity msgsize prio_max (request os bytes w t) (queued w.kernel) in
          let r = transfer os bytes (mq (pos fd)) t w in
          (r.0 ≡ done.0) × (queued r.1.kernel ≡ done.1)
    unfolding transfer serve_one unsafe_send unsafe_timed_send receive timed_receive mq of_raw raw
        read
    transfer_lem (sends message prio none) w (mapped, when) =
        let address = message.buffer_ in
        let law = kept.send address message.length_ prio w mapped in
        let (code, left) = put_lem (os.mq_send (pos fd) address message.length_ prio) w _ law in
        (ap sent code, left)
    transfer_lem (sends message prio (some until)) w (mapped, when) =
        let address = message.buffer_ in
        let law = kept.timed_send address message.length_ prio until w mapped when in
        let (code, left) =
          put_lem (os.mq_timedsend (pos fd) address message.length_ prio until) w _ law in
        (ap sent code, left)
    transfer_lem (receives buffer none) w (real, mapped, when) =
        let address = buffer.buffer_ in
        let law = kept.receive address buffer.length_ 0 w mapped in
        let (result, left) =
          get_lem buffer (os.mq_receive (pos fd) address buffer.length_ 0) w _ real law in
        (ap taken result, left)
    transfer_lem (receives buffer (some until)) w (real, mapped, when) =
        let address = buffer.buffer_ in
        let law = kept.timed_receive address buffer.length_ 0 until w mapped when in
        let (result, left) =
          get_lem buffer (os.mq_timedreceive (pos fd) address buffer.length_ 0 until) w _ real
            law in
        (ap taken result, left)

    -- On a queue with O_NONBLOCK that the kernel serves as `ServesQueue` says: calls of the four
    -- functions that send and receive, in any order, with memory of the process, none with a null
    -- buffer for what it receives and none with a time that is none, implement the queue ordered by priority: every code and every message is the one that the queue
    -- gives for the requests, errors for a full and an empty queue, for a wrong size and for a
    -- priority that is too large included, and the kernel is left with the messages that the queue is
    -- left with.
    pub transfers_lem :
        (ts : List Transfer) (w : World K)
        → AreReal Mapped ts
        → let done =
            serve errors capacity msgsize prio_max
              (requests os bytes (mq (pos fd)) ts w)
              (queued w.kernel) in
          let r = transfers os bytes (mq (pos fd)) ts w in
          (r.0 ≡ done.0) × (queued r.1.kernel ≡ done.1)
    unfolding transfers requests serve
    transfers_lem [] w real = (refl, refl)
    transfers_lem (t ∷ ts) w (one_real, real) =
        let (outcome, left) = transfer_lem t w one_real in
        let (outcomes, last) = transfers_lem ts (transfer os bytes (mq (pos fd)) t w).1 real in
        (ap₂ ◌∷◌ outcome (rw left at outcomes), rw left at last)
