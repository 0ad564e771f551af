-- ===== src/Epoll/Laws.antt =====
-- What creating, waiting, changing and reading events does.
use pposix.Base.{
  ℕ, ℤ, minus_one, to_int, ◌==ℤ◌, ==ℤ_iff, ◌^◌, ◌≡◌, ◌≢◌, refl, sym, ◌∙◌, not, List, ◌==◌, any,
  arith, if◌then◌else◌, Bool-cases, inl, inr, ◌⊎◌,
}
use mathlib.Core.Bool.{true≢false}
use pposix.Errno.{World, Sys, ◌>>=◌, pure, current_errno_code, make_errno_code}
use pposix.Call.{common_call_world, never_a_value, error_result_lem}
use pposix.Descriptor.{raw, into_result}
use pposix.EnumFlag.{has_flag, underlying_v}
use pposix.EnumFlag.Laws.{join, has_flag-join}
use pposix.File.Laws.{is_compiled}
use pposix.FileDescriptor.{
  Unistd, RawFd, raw_fd, raw_fd_t, close_fd, into_result-file_descriptor, file_descriptor,
}
use pposix.Epoll.{
  EpollApi, EpollMacro, EpollEventFlag, epoll_event_flag_enum, EpollFlagName, epoll_flag_macro,
  epoll_flag_constant, event_has_flag, epoll_event, event_read_available, event_write_available,
  event_socket_closed, event_fd_exception, event_fd_error, event_fd_hup, epollexclusive,
  check_epoll_modify_flags, epoll_modify, epoll_modify_ptr, epoll_modify_fd, epoll_modify_u32,
  epoll_modify_u64, Epoll, epoll, EpollEvents, unsafe_create, unsafe_create1, unsafe_make_epoll,
  wait, pwait, destroy,
}
use pposix.Result.{Result, ok, err}

module _ (m : EpollMacro → ℕ) where
  event_has_flag-join :
      (f : EpollFlagName) (q : ℕ)
      → m (epoll_flag_macro f) ≡ 2 ^ q
      → (ps : List ℕ)
      → event_has_flag (epoll_event (join EpollEventFlag ps).flags) (epoll_flag_constant m f)
        ≡ any (λ p. p == q) ps
  unfolding event_has_flag epoll_event epoll_flag_constant has_flag underlying_v
  event_has_flag-join f q one_bit ps =
      has_flag-join EpollEventFlag (epoll_flag_constant m f) q one_bit ps

  -- When EPOLLEXCLUSIVE is a single bit, each constructor of `epoll_modify` compiles exactly for the
  -- flags that are joined from single bits without it.
  pub epoll_modify_compiles :
      (x : ℕ) (exclusive_bit : m epollexclusive ≡ 2 ^ x) (fd data_fd : RawFd) (value : ℕ)
      (ps : List ℕ)
      → let flags = join EpollEventFlag ps in
        let fits = not (any (λ p. p == x) ps) in
        (is_compiled (epoll_modify m fd flags) ≡ fits)
        × (is_compiled (epoll_modify_ptr m fd flags value) ≡ fits)
        × (is_compiled (epoll_modify_fd m fd flags data_fd) ≡ fits)
        × (is_compiled (epoll_modify_u32 m fd flags value) ≡ fits)
        × (is_compiled (epoll_modify_u64 m fd flags value) ≡ fits)
  unfolding epoll_modify epoll_modify_ptr epoll_modify_fd epoll_modify_u32 epoll_modify_u64
      check_epoll_modify_flags epoll_flag_constant underlying_v
  epoll_modify_compiles x exclusive_bit fd data_fd value ps =
      rw
        (has_flag-join EpollEventFlag (epoll_flag_constant m EpollFlagName.exclusive) x
          exclusive_bit ps)
        (ground arith)

  -- When the macros are single bits, the six accessors of an event whose mask was joined from single
  -- bits say which of their bits were joined.
  pub event_accessors_lem :
      (bit : EpollFlagName → ℕ)
      (single_bits : (f : EpollFlagName) → m (epoll_flag_macro f) ≡ 2 ^ bit f) (ps : List ℕ)
      → let e = epoll_event (join EpollEventFlag ps).flags in
        let joined = (λ (f : EpollFlagName). any (λ p. p == bit f) ps) in
        (event_read_available m e ≡ joined EpollFlagName.read_available)
        × (event_write_available m e ≡ joined EpollFlagName.write_available)
        × (event_socket_closed m e ≡ joined EpollFlagName.socket_closed)
        × (event_fd_exception m e ≡ joined EpollFlagName.fd_exception)
        × (event_fd_error m e ≡ joined EpollFlagName.fd_error)
        × (event_fd_hup m e ≡ joined EpollFlagName.fd_hup)
  unfolding event_read_available event_write_available event_socket_closed event_fd_exception
      event_fd_error event_fd_hup
  event_accessors_lem bit single_bits ps =
      let seen = (λ (f : EpollFlagName). event_has_flag-join f (bit f) (single_bits f) ps) in
      (
        seen EpollFlagName.read_available,
        seen EpollFlagName.write_available,
        seen EpollFlagName.socket_closed,
        seen EpollFlagName.fd_exception,
        seen EpollFlagName.fd_error,
        seen EpollFlagName.fd_hup,
      )

module _ {K : Type 0} (os : EpollApi K) where
  -- `wait` and `pwait` make the one call, with the length of the span as an `int`, and report an
  -- error whatever it returned: its `errno` after a -1, the error code 0 otherwise. The number of
  -- events is lost.
  pub wait_lem :
      (fd : ℤ) (events : EpollEvents) (timeout : ℤ) (sigmask : ℕ) (w : World K)
      → let e = epoll (raw_fd fd) in
        let length = to_int events.length in
        (wait os e events timeout w
          ≡ never_a_value (os.epoll_wait fd events.address length timeout w))
        × (pwait os e events timeout sigmask w
            ≡ never_a_value (os.epoll_pwait fd events.address length timeout sigmask w))
  unfolding wait pwait epoll
  wait_lem fd events timeout sigmask w =
      let length = to_int events.length in
      (
        error_result_lem (os.epoll_wait fd events.address length timeout) w,
        error_result_lem (os.epoll_pwait fd events.address length timeout sigmask) w,
      )

  -- Creating failed with the `errno` of the call, or gave an owner of the number that the call
  -- returned, which its destructor closes once; the owner that moved into the result closed -1.
  abbrev pub IsCreation : Unistd K → ℤ × World K → Result Epoll × World K → Type 0
  IsCreation files call got =
      ((call.0 ≡ minus_one) × (got ≡ (err (make_errno_code call.1.errno), call.1)))
      ⊎ ((e : Epoll) × (got ≡ (ok e, (files.close minus_one call.1).1))
          × (raw_fd_t (raw e.epoll_fd_) ≡ call.0)
          × (call.0 ≢ minus_one)
          × ((v : World K) → (destroy files e v).1 ≡ (files.close call.0 v).1))

  creation_lem :
      (files : Unistd K) (call : Sys K ℤ) (w : World K)
      → IsCreation files (call w) (
          (do
            res ← call
            if res ==ℤ minus_one
                then (do e ← current_errno_code; pure (err e))
                else into_result (file_descriptor files) (ok (unsafe_make_epoll res)))
            w)
  unfolding current_errno_code unsafe_make_epoll destroy close_fd epoll file_descriptor
  creation_lem files call w = elim (Bool-cases ((call w).0 ==ℤ minus_one)) [
    | inl failed ↦ inl ((==ℤ_iff _ _).0 failed, rw failed refl)
    | inr made ↦ inr (
      unsafe_make_epoll (call w).0,
      rw made (into_result-file_descriptor files (unsafe_make_epoll (call w).0) (call w).1),
      refl,
      λ e. true≢false (sym ((==ℤ_iff _ _).1 e) ∙ made),
      λ v. common_call_world (files.close (call w).0) v,
    )
  ]

  -- The two creating functions fail with the `errno` of their call when it returned -1; otherwise
  -- they call `::close` on -1 and give an owner of the number that was returned, whose destructor
  -- makes the one call that closes it.
  pub create_lem :
      (files : Unistd K) (size : ℤ) (flags : ℕ) (w : World K)
      → IsCreation files (os.epoll_create size w) (unsafe_create os files size w)
        × IsCreation files (os.epoll_create1 flags w) (unsafe_create1 os files flags w)
  unfolding unsafe_create unsafe_create1
  create_lem files size flags w =
      (creation_lem files (os.epoll_create size) w, creation_lem files (os.epoll_create1 flags) w)
