-- ===== src/Socket/Laws.antt =====
-- What making a socket does, and which lengths reach the kernel.
use mathlib.Core.Bool.{true≢false}
use pposix.Base.{
  ℕ, ℤ, minus_one, ◌==ℤ◌, ==ℤ_iff, ◌<◌, ◌≤◌, ◌^◌, ◌≡◌, ◌≢◌, refl, sym, ◌∙◌, ap, Bool-cases, inl,
  inr, ◌⊎◌, arith, bit_or,
}
use pposix.Errno.{World, Errc, current_errno_code, make_errno_code}
use pposix.Call.{common_call, common_call_world}
use pposix.Descriptor.{raw, into_result, of_raw, move_construct}
use pposix.Descriptor
use pposix.Descriptor.Laws.{into_result-common_call}
use pposix.Result.{Result, ok, err}
use pposix.Socket.{
  SocketApi, SocketMacro, SocketOption, socket_option_macro, socket_fd, Socket, socket, unsafe_make,
  destroy, close_socket, unique_socket_fd, unsafe_setsockopt, unsafe_getsockopt, to_socklen,
}
use pposix.Socket.Values.{Shown}
use pposix.Span.AnyView.{any_view_of}

module _ {K : Type 0} (os : SocketApi K) where
  -- The kernel after -1 was closed.
  abbrev pub close_null : World K → World K
  close_null w = (os.close minus_one w).1

  abbrev pub IsMaking : ℤ × World K → Result Socket × World K → Type 0
  IsMaking call got =
      ((call.0 ≡ minus_one) × (got ≡ (err (make_errno_code call.1.errno), call.1)))
      ⊎ ((s : Socket) × (got ≡ (ok s, close_null (close_null call.1)))
          × ((raw s.socket_fd_).fd_ ≡ call.0)
          × (call.0 ≢ minus_one)
          × ((v : World K) → (destroy os s v).1 ≡ (os.close call.0 v).1))

  socket_lem :
      (fd : ℤ) (w : World K)
      → socket os (of_raw (socket_fd fd)) w
        ≡ (record { socket_fd_ = of_raw (socket_fd fd) }, close_null w)
  unfolding socket of_raw move_construct Descriptor.destroy Descriptor.close raw unique_socket_fd
      close_socket
  socket_lem fd w =
      ap (λ (v : World K). (record { socket_fd_ = of_raw (socket_fd fd) }, v))
        (common_call_world (os.close minus_one) w)

  -- Making a socket makes one call, with the type and the flags together. If that returned -1 it
  -- fails with the `errno` of the call; otherwise it calls `::close` on -1 twice and gives an owner
  -- of the number that was returned, whose destructor makes the one call that closes it.
  pub unsafe_make_lem :
      (dom : ℤ) (typ flags : ℕ) (prot : ℤ) (w : World K)
      → IsMaking (os.socket dom (bit_or typ flags) prot w) (unsafe_make os dom typ flags prot w)
  unfolding unsafe_make current_errno_code of_raw raw destroy Descriptor.destroy Descriptor.close
      unique_socket_fd close_socket
  unsafe_make_lem dom typ flags prot w =
      let call = os.socket dom (bit_or typ flags) prot w in
      elim (Bool-cases (call.0 ==ℤ minus_one)) [
        | inl failed ↦ inl ((==ℤ_iff _ _).0 failed, rw failed refl)
        | inr made ↦ inr (
          record { socket_fd_ = of_raw (socket_fd call.0) },
          rw made (
              ap (λ (p : Socket × World K). into_result (unique_socket_fd os) (ok p.0) p.1)
                (socket_lem call.0 call.1)
              ∙ into_result-common_call (unique_socket_fd os) (os.close minus_one) refl
                  (record { socket_fd_ = of_raw (socket_fd call.0) }) (close_null call.1)),
          refl,
          λ e. true≢false (sym ((==ℤ_iff _ _).1 e) ∙ made),
          λ v. common_call_world (os.close call.0) v,
        )
      ]

  module _ (m : SocketMacro → ℤ) where
    -- A length that fits in 32 bits reaches the kernel from `unsafe_setsockopt` and from
    -- `unsafe_getsockopt`. A longer one is refused by `unsafe_getsockopt` without a call, but
    -- `unsafe_setsockopt` makes its call with another length.
    pub option_length_lem :
        (too_large : Errc) (s : Socket) (l : ℤ) (o : SocketOption) (shown : Shown) (data_ len : ℕ)
        (w : World K)
        → let fd = (raw s.socket_fd_).fd_ in
          let option = m (socket_option_macro o) in
          let set = unsafe_setsockopt os m s l o (record { shown = shown; len_ = len }) in
          let get = unsafe_getsockopt os m too_large s l o (any_view_of data_ len) in
          (len < 2 ^ 32
            → (set w ≡ common_call (os.setsockopt fd l option shown len) w)
              × ((get w).1 ≡ (os.getsockopt fd l option data_ len w).1))
          × (2 ^ 32 ≤ len
              → (set w ≡ common_call (os.setsockopt fd l option shown (to_socklen len)) w)
                × (to_socklen len ≢ len)
                × (get w ≡ (err (make_errno_code too_large), w)))
    unfolding unsafe_setsockopt unsafe_getsockopt current_errno_code any_view_of
    option_length_lem too_large s l o shown data_ len w = (
      λ fits.
          let same : to_socklen len ≡ len = omega arith in (rw same refl, rw same (ground arith)),
      λ long. (refl, omega arith, ground arith),
    )
