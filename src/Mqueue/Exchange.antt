-- ===== src/Mqueue/Exchange.antt =====
-- A queue between a sender and a receiver: what goes in by `unsafe_send` comes out by `receive`.
use pposix.Base.{
  ℕ, ℤ, zero, suc, pos, ◌+◌, ◌≤◌, ◌<◌, ◌≡◌, ◌≢◌, refl, ◌∙◌, ap, ap₂, false, List, [], ◌∷◌, map,
  length, replicate, ltb, ◌==◌, arith, if◌then◌else◌,
}
use pposix.Call.{common_call_world, common_call_error}
use pposix.Descriptor.{raw, of_raw}
use pposix.Errno.{World, Sys, ErrorCode, no_error, ◌>>=◌, pure}
use pposix.Mqueue.{MqApi, Mq, mq, mq_message}
use pposix.Mqueue.Transfer.{priority, unsafe_send, received, receive}
use pposix.Result.{Result, ok, result_map}
use pposix.Span.Bytes.{ByteSpan, ByteCspan}

-- A priority and the bytes of a message.
abbrev pub Message : Type 0
Message = ℕ × List ℕ

-- Behind the messages of the same or a higher priority.
abbrev pub enqueue : Message → List Message → List Message
enqueue a [] = a ∷ []
enqueue a (b ∷ q) = if ltb b.0 a.0 then a ∷ b ∷ q else b ∷ enqueue a q

abbrev pub enqueue_all : List Message → List Message → List Message
enqueue_all [] q = q
enqueue_all (a ∷ more) q = enqueue_all more (enqueue a q)

length-enqueue : (a : Message) (q : List Message) → length (enqueue a q) ≡ suc (length q)
length-enqueue a [] = refl
length-enqueue a (b ∷ q) = ground (arith, length-enqueue a q)

length-enqueue_all : (ms q : List Message) → length (enqueue_all ms q) ≡ length ms + length q
length-enqueue_all [] q = omega arith
length-enqueue_all (m ∷ ms) q =
    omega (arith, length-enqueue_all ms (enqueue m q), length-enqueue m q)

-- What <mqueue.h> says of sending to and receiving from the queue `fd`, which holds `capacity`
-- messages of at most `msgsize` bytes, on a system whose priorities are below `prio_max`, with memory
-- of the process, which `Mapped` says.
pub record KeepsQueue {K : Type 0} (os : MqApi K) (Mapped : (address count : ℕ) → Type 0)
    (fd capacity msgsize prio_max : ℕ) : Type 0 where
  pub queued : K → List Message
  -- The bytes that the process has at an address.
  pub bytes : K → (address count : ℕ) → List ℕ
  pub send :
      (address count prio : ℕ) (w : World K)
      → Mapped address count
      → count ≤ msgsize
      → prio < prio_max
      → length (queued w.kernel) < capacity
      → let r = os.mq_send (pos fd) address count prio w in
        (r.0 ≡ pos 0)
        × (queued r.1.kernel ≡ enqueue (prio, bytes w.kernel address count) (queued w.kernel))
        × (bytes r.1.kernel ≡ bytes w.kernel)
  pub receive :
      (address count prio : ℕ) (w : World K) (first : Message) (rest : List Message)
      → Mapped address count
      → msgsize ≤ count
      → queued w.kernel ≡ first ∷ rest
      → let r = os.mq_receive (pos fd) address count prio w in
        (r.0 ≡ (pos (length first.1), first.0))
        × (queued r.1.kernel ≡ rest)
        × (bytes r.1.kernel address (length first.1) ≡ first.1)

pub received_lem :
    {K : Type 0} (buffer : ByteSpan) (call : Sys K (ℤ × ℕ)) (w : World K) (n prio : ℕ)
    → buffer.buffer_ ≢ 0
    → (call w).0 ≡ (pos n, prio)
    → received buffer call w ≡ (
      ok (mq_message (priority prio) (record { buffer_ = buffer.buffer_; length_ = n })),
      (call w).1,
    )
received_lem buffer call w n prio some_buffer e =
    let there : (buffer.buffer_ == 0) ≡ false = ground arith in rw (e, there) refl

module _ {K : Type 0} (os : MqApi K) where
  -- A sender, and a receiver that reads each message through the span that it is handed.
  unfoldable pub send_all : Mq → List (ByteCspan × ℕ) → Sys K (List ErrorCode)
  unfolding unsafe_send
  send_all q [] = pure []
  send_all q ((message, prio) ∷ rest) = do
    code ← unsafe_send os q message (priority prio)
    codes ← send_all q rest
    pure (code ∷ codes)

  unfoldable pub take_one : (K → ℕ → ℕ → List ℕ) → Mq → ByteSpan → Sys K (Result Message)
  unfolding receive result_map
  take_one bytes q buffer w =
      let (r, w') = receive os q buffer w in
      (
        result_map r
            (λ m. (m.priority_.value, bytes w'.kernel m.message_.buffer_ m.message_.length_)),
        w',
      )

  unfoldable pub take_all : (K → ℕ → ℕ → List ℕ) → Mq → ByteSpan → ℕ → Sys K (List (Result Message))
  unfolding take_one
  take_all bytes q buffer zero = pure []
  take_all bytes q buffer (suc n) = do
    r ← take_one bytes q buffer
    rs ← take_all bytes q buffer n
    pure (r ∷ rs)

  module _ (Mapped : (address count : ℕ) → Type 0) (fd capacity msgsize prio_max : ℕ)
      (kept : KeepsQueue os Mapped fd capacity msgsize prio_max) where
    open kept use {queued, bytes}

    -- The messages that the spans show to a sender.
    abbrev pub shown : K → List (ByteCspan × ℕ) → List Message
    shown k [] = []
    shown k ((message, prio) ∷ rest) =
        (prio, bytes k message.buffer_ message.length_) ∷ shown k rest

    -- Every message is in memory and fits, and every priority is one of the system.
    abbrev pub Fit : List (ByteCspan × ℕ) → Type 0
    Fit [] = Unit
    Fit ((message, prio) ∷ rest) =
        (Mapped message.buffer_ message.length_ × (message.length_ ≤ msgsize) × (prio < prio_max))
        × Fit rest

    shown-eq :
        (k k' : K) (cs : List (ByteCspan × ℕ)) → bytes k ≡ bytes k' → shown k cs ≡ shown k' cs
    shown-eq k k' [] e = refl
    shown-eq k k' ((message, prio) ∷ rest) e =
        ap₂ ◌∷◌ (ap (λ (b : ℕ → ℕ → List ℕ). (prio, b message.buffer_ message.length_)) e)
          (shown-eq k k' rest e)

    send_one :
        (message : ByteCspan) (prio : ℕ) (w : World K)
        → Mapped message.buffer_ message.length_ × (message.length_ ≤ msgsize) × (prio < prio_max)
        → length (queued w.kernel) < capacity
        → let r = unsafe_send os (mq (pos fd)) message (priority prio) w in
          (r.0 ≡ no_error)
          × (queued r.1.kernel
              ≡ enqueue (prio, bytes w.kernel message.buffer_ message.length_) (queued w.kernel))
          × (bytes r.1.kernel ≡ bytes w.kernel)
    unfolding unsafe_send mq of_raw raw
    send_one message prio w (mapped, fits, below) room =
        let call = os.mq_send (pos fd) message.buffer_ message.length_ prio in
        let (sent, queue, memory) =
          kept.send message.buffer_ message.length_ prio w mapped fits below room in
        (
          rw (common_call_error call w, sent) refl,
          rw (common_call_world call w) queue,
          rw (common_call_world call w) memory,
        )

    -- Messages sent one after the other to a queue with room for them are all taken, in the order of
    -- their priorities.
    send_all_lem :
        (cs : List (ByteCspan × ℕ)) (w : World K)
        → Fit cs
        → length (queued w.kernel) + length cs ≤ capacity
        → let r = send_all (mq (pos fd)) cs w in
          (r.0 ≡ replicate (length cs) no_error)
          × (queued r.1.kernel ≡ enqueue_all (shown w.kernel cs) (queued w.kernel))
    unfolding send_all
    send_all_lem [] w fit room = (refl, refl)
    send_all_lem ((message, prio) ∷ rest) w (fits, fit) room =
        let (code, queue, memory) = send_one message prio w fits (omega arith) in
        let w' = (unsafe_send os (mq (pos fd)) message (priority prio) w).1 in
        let first : Message = (prio, bytes w.kernel message.buffer_ message.length_) in
        let longer = ap length queue ∙ length-enqueue first (queued w.kernel) in
        let (codes, last) = send_all_lem rest w' fit (omega (arith, longer)) in
        (ap₂ ◌∷◌ code codes, last ∙ ap₂ enqueue_all (shown-eq w'.kernel w.kernel rest memory) queue)

    take_one_lem :
        (buffer : ByteSpan) (w : World K) (first : Message) (rest : List Message)
        → buffer.buffer_ ≢ 0
        → Mapped buffer.buffer_ buffer.length_
        → msgsize ≤ buffer.length_
        → queued w.kernel ≡ first ∷ rest
        → let r = take_one bytes (mq (pos fd)) buffer w in
          (r.0 ≡ ok first) × (queued r.1.kernel ≡ rest)
    unfolding take_one receive mq of_raw raw result_map mq_message
    take_one_lem buffer w first rest some_buffer mapped large e =
        let (got, queue, memory) =
          kept.receive buffer.buffer_ buffer.length_ 0 w first rest mapped large e in
        let r =
          received_lem buffer (os.mq_receive (pos fd) buffer.buffer_ buffer.length_ 0) w _ _
            some_buffer got in
        (rw (r, memory) refl, rw r queue)

    take_all_lem :
        (buffer : ByteSpan) (w : World K)
        → buffer.buffer_ ≢ 0
        → Mapped buffer.buffer_ buffer.length_
        → msgsize ≤ buffer.length_
        → (messages : List Message) → queued w.kernel ≡ messages
        → let r = take_all bytes (mq (pos fd)) buffer (length messages) w in
          (r.0 ≡ map ok messages) × (queued r.1.kernel ≡ [])
    unfolding take_all
    take_all_lem buffer w some_buffer mapped large [] e = (refl, e)
    take_all_lem buffer w some_buffer mapped large (m ∷ ms) e =
        let (one, left) = take_one_lem buffer w m ms some_buffer mapped large e in
        let (all, empty) =
          take_all_lem buffer (take_one bytes (mq (pos fd)) buffer w).1 some_buffer mapped large ms
            left in
        (ap₂ ◌∷◌ one all, empty)

    length-shown : (k : K) (cs : List (ByteCspan × ℕ)) → length (shown k cs) ≡ length cs
    length-shown k [] = refl
    length-shown k ((message, prio) ∷ rest) = ap suc (length-shown k rest)

    -- On an empty queue that the kernel keeps as `KeepsQueue` says: when no more messages than it has
    -- room for, none too long and none with a priority that is too large for the system, are handed to
    -- `unsafe_send`, every call gives success, and as many calls of `receive`, into a buffer of the
    -- process that is not null and is large enough for any message, give back exactly those messages, each with its
    -- bytes and its priority, those of a higher priority first and those of one priority in the order
    -- in which they were sent; the queue is then empty.
    pub exchange_lem :
        (cs : List (ByteCspan × ℕ)) (buffer : ByteSpan) (w : World K)
        → queued w.kernel ≡ []
        → Fit cs
        → length cs ≤ capacity
        → buffer.buffer_ ≢ 0
        → Mapped buffer.buffer_ buffer.length_
        → msgsize ≤ buffer.length_
        → let sent = send_all (mq (pos fd)) cs w in
          let taken = take_all bytes (mq (pos fd)) buffer (length cs) sent.1 in
          (sent.0 ≡ replicate (length cs) no_error)
          × (taken.0 ≡ map ok (enqueue_all (shown w.kernel cs) []))
          × (queued taken.1.kernel ≡ [])
    exchange_lem cs buffer w empty fit room some_buffer mapped large =
        let (codes, queue) = send_all_lem cs w fit (omega (arith, ap length empty)) in
        let messages = enqueue_all (shown w.kernel cs) [] in
        let left = queue ∙ ap (enqueue_all (shown w.kernel cs)) empty in
        let count : length messages ≡ length cs =
          omega (arith, length-enqueue_all (shown w.kernel cs) [], length-shown w.kernel cs) in
        let (taken, nothing) =
          take_all_lem buffer (send_all (mq (pos fd)) cs w).1 some_buffer mapped large messages
            left in
        (codes, rw count at taken, rw count at nothing)
