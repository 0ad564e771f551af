-- ===== src/Tests/Exchange.antt =====
-- Programs of sends and receives over the queue of the small kernel.
use pposix.Base.{ℕ, pos, ◌==◌, ◌≡◌, ◌≢◌, refl, List, [], ◌∷◌, arith, if◌then◌else◌, none, some}
use pposix.Errno.{World, no_error}
use pposix.Mqueue.{mq}
use pposix.Mqueue.Exchange.{send_all, take_all, exchange_lem}
use pposix.Mqueue.Interleaving.{Transfer, sends, receives, transfers, requests, serve}
use pposix.Mqueue.Interleaving.Refinement.{transfers_lem}
use pposix.Result.{ok}
use pposix.Signal.{IsTime, timespec_of_seconds}
use pposix.Span.Bytes.{ByteSpan, ByteCspan, byte_span_of, byte_cspan_of}
use pposix.Tests.QueueKernel.{QueueKernel, Mapped, bytes, errors, mq_api, keeps, serves}

-- The letters "low", "high" and "end" at three addresses.
abbrev letters : ℕ → List ℕ
letters a =
    if a == 16
    then b'l' ∷ b'o' ∷ b'w' ∷ []
    else if a == 32
    then b'h' ∷ b'i' ∷ b'g' ∷ b'h' ∷ []
    else b'e' ∷ b'n' ∷ b'd' ∷ []

abbrev at_start : World QueueKernel
at_start = record { errno = pos 0; kernel = record { messages = []; memory = letters } }

abbrev buffer : ByteSpan
buffer = byte_span_of 4096 64

abbrev three : List (ByteCspan × ℕ)
three = (byte_cspan_of 16 3, 1) ∷ (byte_cspan_of 32 4, 9) ∷ (byte_cspan_of 64 3, 1) ∷ []

exchange_lem_example :
    let sent = send_all mq_api (mq (pos 3)) three at_start in
    let taken = take_all mq_api bytes (mq (pos 3)) buffer 3 sent.1 in
    (sent.0 ≡ no_error ∷ no_error ∷ no_error ∷ [])
    × (taken.0 ≡ ok (9, letters 32) ∷ ok (1, letters 16) ∷ ok (1, letters 64) ∷ [])
    × (taken.1.kernel.messages ≡ [])
unfolding keeps
exchange_lem_example =
    exchange_lem mq_api Mapped 3 4 8 32768 keeps three buffer at_start refl
      (
        (tt, omega arith, omega arith),
        ((tt, omega arith, omega arith), ((tt, omega arith, omega arith), tt)),
      )
      (omega arith) (ground arith) tt (omega arith)

-- A message goes in and comes out again, the second one is too long, the priority of the third is too
-- large, and the second receive finds nothing.
abbrev program : List Transfer
program =
    sends (byte_cspan_of 16 3) 1 none
    ∷ sends (byte_cspan_of 32 9) 1 none
    ∷ sends (byte_cspan_of 64 3) 40000 (some (timespec_of_seconds (pos 5)))
    ∷ receives buffer (some (timespec_of_seconds (pos 5)))
    ∷ receives buffer none
    ∷ []

some_buffer : buffer.buffer_ ≢ 0
some_buffer = ground arith

soon : IsTime (timespec_of_seconds (pos 5))
unfolding timespec_of_seconds
soon = (5, 0, refl, refl, omega arith)

transfers_lem_example :
    let r = transfers mq_api bytes (mq (pos 3)) program at_start in
    let asked = requests mq_api bytes (mq (pos 3)) program at_start in
    (r.0 ≡ (serve errors 4 8 32768 asked []).0)
    × (r.1.kernel.messages ≡ (serve errors 4 8 32768 asked []).1)
unfolding serves
transfers_lem_example =
    transfers_lem mq_api bytes errors Mapped 3 4 8 32768 serves program at_start
      ((tt, tt), ((tt, tt), ((tt, soon), ((some_buffer, tt, soon), ((some_buffer, tt, tt), tt)))))
