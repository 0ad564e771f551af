-- ===== src/Mqueue/Laws.antt =====
-- What opening, changing and receiving from a message queue does.
use pposix.Base.{
  ◌≢◌, ◌==ℤ◌, ==ℤ_iff, ℕ, ℤ, minus_one, pos, ◌^◌, ◌≤◌, ◌≡◌, refl, ◌∙◌, sym, false, not, ◌&&◌,
  Bool-cases, List, ◌==◌, any, arith, bit_or, shares, shares-bit_or, ◌⊎◌, inl, inr,
}
use pposix.Errno.{World, Sys, make_errno_code, current_errno_code}
use pposix.Descriptor.{raw}
use pposix.EnumFlag.{EnumFlag, ExclusiveEnumFlag, has_flag, underlying_v}
use pposix.EnumFlag.Laws.{join, join-eq-single, has_flag-join}
use pposix.File.Laws.{is_compiled}
use pposix.Mqueue.{
  MqApi, MqMacro, o_creat, o_excl, MqMode, mq_mode_enum, MqOption, mq_option_enum, mq_option_value,
  mq_excl, MqCreateQueue, Mq, MqMessage, mq_message,
}
use pposix.Call.{common_call_world}
use pposix.Descriptor.Laws.{into_result-common_call}
use mathlib.Core.Bool.{true≢false}
use pposix.Mqueue.{mq, destroy, close_mq_d, unique_mq_d}
use pposix.Mqueue.Open.{
  opening, unsafe_open, open_mq, open_option, open_create, open_create_options, setattr,
}
use pposix.Mqueue.Transfer.{priority, received, receive, timed_receive}
use pposix.Result.{Result, ok, err}
use pposix.Signal.{Timespec}
use pposix.Span.Bytes.{ByteSpan, byte_span_of}

module _ {K : Type 0} (os : MqApi K) where
  module _ (m : MqMacro → ℕ) where
    -- If `::mq_open` ignores the attributes when the flags are without O_CREAT, and the mode and the
    -- flags are without it, the two overloads that are given a queue to create do what the functions
    -- without one do: they open a queue that is there.
    pub open_create_lem :
        (ignored : (name flags : ℕ)
          → shares flags (m o_creat) ≡ false
          → os.mq_open_attr name flags ≡ (λ attributes. os.mq_open name flags))
        (name : ℕ) (mode : ExclusiveEnumFlag MqMode) (flags : EnumFlag MqOption)
        (queue : MqCreateQueue)
        → shares mode.value.bits (m o_creat) ≡ false
        → shares flags.flags.bits (m o_creat) ≡ false
        → (open_create os name mode queue ≡ open_mq os name mode)
          × (open_create_options os name mode flags queue
              ≡ unsafe_open os name mode.value flags.flags)
    unfolding open_create open_create_options open_mq unsafe_open
    open_create_lem ignored name mode flags queue hm hf =
        let both = shares-bit_or mode.value.bits flags.flags.bits (m o_creat) in
        (
          rw (ignored name mode.value.bits hm) refl,
          rw (ignored name (bit_or mode.value.bits flags.flags.bits) (rw (both, hm, hf) refl)) refl,
        )

    module _ (e : ℕ) (excl_bit : m o_excl ≡ 2 ^ e) where
      has-mq_excl : (ps : List ℕ) → has_flag (join MqOption ps) (mq_excl m) ≡ any (λ p. p == e) ps
      unfolding mq_excl mq_option_value underlying_v
      has-mq_excl ps = has_flag-join MqOption (mq_excl m) e excl_bit ps

      -- When O_EXCL is a single bit, for flags that are joined from single bits, `setattr` compiles
      -- exactly when O_EXCL is not among them. The overload of `open` with flags only compares them
      -- with O_EXCL: it is refused exactly when O_EXCL is among them and nothing else is, and so
      -- compiles for flags that have O_EXCL and another bit.
      pub excl_checks :
          (q : Mq) (name : ℕ) (mode : ExclusiveEnumFlag MqMode) (ps : List ℕ)
          → let excl = any (λ p. p == e) ps in
            let another = any (λ p. not (p == e)) ps in
            (is_compiled (setattr os m q (join MqOption ps)) ≡ not excl)
            × (is_compiled (open_option os m name mode (join MqOption ps))
                ≡ not (excl && not another))
      unfolding setattr open_option mq_option_value underlying_v
      excl_checks q name mode ps = (
        rw (has-mq_excl ps) (ground arith),
        rw (excl_bit, join-eq-single MqOption e ps) (ground arith),
      )

  -- Opening failed with the `errno` of the call, or gave an owner of the number that the call
  -- returned, which its destructor closes once; the owner that moved into the result closed -1.
  abbrev pub IsOpening : ℤ × World K → Result Mq × World K → Type 0
  IsOpening call got =
      ((call.0 ≡ minus_one) × (got ≡ (err (make_errno_code call.1.errno), call.1)))
      ⊎ ((q : Mq) × (got ≡ (ok q, (os.mq_close minus_one call.1).1))
          × (raw q.mq_d_ ≡ call.0)
          × (call.0 ≢ minus_one)
          × ((v : World K) → (destroy os q v).1 ≡ (os.mq_close call.0 v).1))

  opening_lem : (call : Sys K ℤ) (w : World K) → IsOpening (call w) (opening os call w)
  unfolding current_errno_code mq destroy unique_mq_d close_mq_d
  opening_lem call w = elim (Bool-cases ((call w).0 ==ℤ minus_one)) [
    | inl failed ↦ inl ((==ℤ_iff _ _).0 failed, rw failed refl)
    | inr opened ↦ inr (
      mq (call w).0,
      rw opened (
          into_result-common_call (unique_mq_d os) (os.mq_close minus_one) refl (mq (call w).0)
            (call w).1),
      refl,
      λ e. true≢false (sym ((==ℤ_iff _ _).1 e) ∙ opened),
      λ v. common_call_world (os.mq_close (call w).0) v,
    )
  ]

  -- Opening a queue makes one call, with the bits of the mode and the flags together. If that
  -- returned -1 it fails with the `errno` of the call; otherwise it calls `::mq_close` on -1 and
  -- gives an owner of the number that was returned, whose destructor makes the one call that closes
  -- it.
  pub open_mq_lem :
      (name : ℕ) (mode : ExclusiveEnumFlag MqMode) (option : MqOption) (w : World K)
      → IsOpening (os.mq_open name mode.value.bits w) (open_mq os name mode w)
        × IsOpening
            (os.mq_open name (bit_or mode.value.bits option.bits) w)
            (unsafe_open os name mode.value option w)
  unfolding open_mq unsafe_open
  open_mq_lem name mode option w = (
    opening_lem (os.mq_open name mode.value.bits) w,
    opening_lem (os.mq_open name (bit_or mode.value.bits option.bits)) w,
  )

  -- What <mqueue.h> says of the number that a receiving call returns.
  abbrev pub IsReceipt : ℕ → ℤ → Type 0
  IsReceipt length r = (r ≡ minus_one) ⊎ ((n : ℕ) × (r ≡ pos n) × (n ≤ length))

  -- A receiving function fails with the `errno` of the call, or hands back the priority that the
  -- call wrote and a span that starts with the buffer and is not longer.
  abbrev pub IsPrefixOf : ByteSpan → (ℤ × ℕ) × World K → Result MqMessage × World K → Type 0
  IsPrefixOf buffer call got =
      ((call.0.0 ≡ minus_one) × (got ≡ (err (make_errno_code call.1.errno), call.1)))
      ⊎ ((message : MqMessage) × (got ≡ (ok message, call.1))
          × (message.priority_.value ≡ call.0.1)
          × (message.message_.buffer_ ≡ buffer.buffer_)
          × (message.message_.length_ ≤ buffer.length_))

  received_lem :
      (buffer : ByteSpan) (call : Sys K (ℤ × ℕ)) (w : World K)
      → IsReceipt buffer.length_ (call w).0.0
      → IsPrefixOf buffer (call w) (received buffer call w)
  unfolding current_errno_code mq_message
  received_lem buffer call w (inl fails) = inl (fails, rw fails refl)
  received_lem buffer call w (inr (n, is_n, fits)) =
      let message = mq_message (priority (call w).0.1) (byte_span_of buffer.buffer_ n) in
      inr (message, rw is_n refl, refl, refl, ground arith)

  -- When the receiving calls return -1 or a number of bytes that is at most the length they were
  -- given, `receive` and `timed_receive` fail with the `errno` of their call, or hand back the
  -- priority that it wrote and a span that starts with the buffer and is not longer than it.
  pub receive_lem :
      (documented : (fd : ℤ) (buffer length prio : ℕ) (w : World K)
        → IsReceipt length (os.mq_receive fd buffer length prio w).0.0)
      (documented_timed : (fd : ℤ) (buffer length prio : ℕ) (until : Timespec) (w : World K)
        → IsReceipt length (os.mq_timedreceive fd buffer length prio until w).0.0)
      (q : Mq) (buffer : ByteSpan) (until : Timespec) (w : World K)
      → IsPrefixOf buffer
          (os.mq_receive (raw q.mq_d_) buffer.buffer_ buffer.length_ 0 w)
          (receive os q buffer w)
        × IsPrefixOf buffer
            (os.mq_timedreceive (raw q.mq_d_) buffer.buffer_ buffer.length_ 0 until w)
            (timed_receive os q buffer until w)
  unfolding receive timed_receive
  receive_lem documented documented_timed q buffer until w =
      let fd = raw q.mq_d_ in
      (
        received_lem buffer (os.mq_receive fd buffer.buffer_ buffer.length_ 0) w
            (documented fd buffer.buffer_ buffer.length_ 0 w),
        received_lem buffer (os.mq_timedreceive fd buffer.buffer_ buffer.length_ 0 until) w
            (documented_timed fd buffer.buffer_ buffer.length_ 0 until w),
      )
