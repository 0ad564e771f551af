-- ===== src/Tests/QueueKernel.antt =====
-- A message queue, number 3, in a small kernel that keeps its messages: at most four, of at most eight
-- bytes and of a priority below Linux's MQ_PRIO_MAX. Nothing waits.
use pposix.Base.{
  ℕ, ℤ, pos, minus_one, ◌==◌, ◌==ℤ◌, ==_iff, ==ℤ_iff, ltb, ◌<◌, ◌≤◌, ◌≡◌, refl, ap, List, [], ◌∷◌,
  length, take, true, false, arith, if◌then◌else◌, Bool-cases, inl, inr,
}
use pposix.Errno.{World, Sys, make_errno_code}
use pposix.Mqueue.{MqApi}
use pposix.Mqueue.Exchange.{Message, KeepsQueue}
use pposix.Mqueue.Interleaving.{QueueErrors, put, get}
use pposix.Mqueue.Interleaving.Refinement.{IsPut, IsGot, ServesQueue}

-- The messages in the queue, and what the process has from each address on.
pub record QueueKernel : Type 0 where
  pub messages : List Message
  pub memory : ℕ → List ℕ

abbrev pub bytes : QueueKernel → (address count : ℕ) → List ℕ
bytes k address count = take count (k.memory address)

-- All memory is the process's own.
abbrev pub Mapped : (address count : ℕ) → Type 0
Mapped address count = Unit

-- EAGAIN, EMSGSIZE and EINVAL
abbrev pub errors : QueueErrors
errors = record { eagain = pos 11; emsgsize = pos 90; einval = pos 22 }

abbrev leave : World QueueKernel → ℤ → List Message → World QueueKernel
leave w errno q = record { errno = errno; kernel = record (w.kernel) { messages = q } }

abbrev answer : ℤ × List Message → Sys QueueKernel ℤ
answer (error, q) w =
    if error ==ℤ pos 0 then (pos 0, leave w w.errno q) else (minus_one, leave w error q)

abbrev mq_send : (address count prio : ℕ) → Sys QueueKernel ℤ
mq_send address count prio w =
    answer (put errors 4 8 32768 count (prio, bytes w.kernel address count) w.kernel.messages) w

abbrev hand_over : List Message → ℕ → Sys QueueKernel (ℤ × ℕ)
hand_over [] address w = ((minus_one, 0), leave w (pos 11) [])
hand_over (m ∷ ms) address w = (
  (pos (length m.1), m.0),
  record w {
    kernel = record {
      messages = ms;
      memory = λ a. if a == address then m.1 else w.kernel.memory a;
    };
  },
)

abbrev mq_receive : (address room : ℕ) → Sys QueueKernel (ℤ × ℕ)
mq_receive address room w =
    if ltb room 8
    then ((minus_one, 0), leave w (pos 90) w.kernel.messages)
    else hand_over w.kernel.messages address w

abbrev pub mq_api : MqApi QueueKernel
mq_api = record {
  mq_open = λ name flags w. (pos 3, w);
  mq_open_attr = λ name flags attributes w. (pos 3, w);
  mq_close = λ fd w. (pos 0, w);
  mq_unlink = λ name w. (pos 0, w);
  mq_getattr = λ fd attributes w. ((pos 0, attributes), w);
  mq_setattr = λ fd new old w. ((pos 0, old), w);
  mq_receive = λ fd buffer length prio. mq_receive buffer length;
  mq_timedreceive = λ fd buffer length prio until. mq_receive buffer length;
  mq_send = λ fd. mq_send;
  mq_timedsend = λ fd buffer length prio until. mq_send buffer length prio;
  mq_notify = λ fd event w. (pos 0, w);
}

pub take-length : (xs : List ℕ) → take (length xs) xs ≡ xs
take-length [] = refl
take-length (x ∷ xs) = ap (◌∷◌ x) (take-length xs)

pub not-below : (n m : ℕ) → m ≤ n → ltb n m ≡ false
not-below n m le = ground arith

pub below : (n m : ℕ) → n < m → ltb n m ≡ true
below n m less = ground arith

unfoldable pub keeps : KeepsQueue mq_api Mapped 3 4 8 32768
keeps = record {
  queued = λ k. k.messages;
  bytes = bytes;
  send = λ address count prio w mapped fits less room.
      let fine = below prio 32768 less in
      let short = not-below 8 count fits in
      let there = below (length w.kernel.messages) 4 room in
      (rw (fine, short, there) refl, rw (fine, short, there) refl, rw (fine, short, there) refl);
  receive = λ address count prio w first rest mapped large e.
      let enough = not-below count 8 large in
      (
        rw (enough, e) refl,
        rw (enough, e) refl,
        rw (enough, e, (==_iff address address).1 refl) (take-length first.1),
      );
}

pub answer-IsPut :
    (done : ℤ × List Message) (w : World QueueKernel)
    → IsPut mq_api bytes errors Mapped 3 4 8 32768 (λ k. k.messages) done (answer done w)
answer-IsPut (error, q) w = elim (Bool-cases (error ==ℤ pos 0)) [
  | inl fine ↦ rw fine (refl, inl ((==ℤ_iff error (pos 0)).0 fine, refl))
  | inr failed ↦ rw failed (refl, inr (refl, refl))
]

pub hand_over-IsGot :
    (address room : ℕ) (w : World QueueKernel) (q : List Message)
    → w.kernel.messages ≡ q
    → IsGot mq_api bytes errors Mapped 3 4 8 32768
        (λ k. k.messages)
        address
        (get errors 4 8 32768 room q)
        (mq_receive address room w)
unfolding make_errno_code
hand_over-IsGot address room w [] e = elim (Bool-cases (ltb room 8)) [
  | inl small ↦ rw (small, e) (refl, refl, refl)
  | inr enough ↦ rw (enough, e) (refl, refl, refl)
]
hand_over-IsGot address room w (m ∷ q) e = elim (Bool-cases (ltb room 8)) [
  | inl small ↦ rw (small, e) (refl, refl, refl)
  | inr enough ↦ rw (enough, e, (==_iff address address).1 refl) (refl, refl, take-length m.1)
]

unfoldable pub serves : ServesQueue mq_api bytes errors Mapped 3 4 8 32768
serves = record {
  queued = λ k. k.messages;
  send = λ address count prio w mapped.
      answer-IsPut
        (put errors 4 8 32768 count (prio, bytes w.kernel address count) w.kernel.messages) w;
  timed_send = λ address count prio until w mapped when.
      answer-IsPut
        (put errors 4 8 32768 count (prio, bytes w.kernel address count) w.kernel.messages) w;
  receive = λ address room prio w mapped. hand_over-IsGot address room w w.kernel.messages refl;
  timed_receive = λ address room prio until w mapped when.
      hand_over-IsGot address room w w.kernel.messages refl;
}
