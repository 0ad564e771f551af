-- ===== src/Socket.antt =====
-- include/pposix/socket.hpp and src/socket.cpp: sockets and the setting of their options. A
-- domain, a type, flags, a protocol and a level are the numbers that they stand for.
pub mod Names
pub mod Values
pub mod Get
pub mod Laws
pub mod RoundTrip
use pposix.Base.{
  ℕ, ℤ, minus_one, pos, ◌==ℤ◌, ==ℤ_iff, ◌%◌, ◌-◌, ◌^◌, ltb, ◌≡◌, ◌↔◌, ap, Bool, true, bit_or,
  if◌then◌else◌,
}
use pposix.Errno.{Sys, ErrorCode, Errc, ◌>>=◌, pure, current_errno_code, make_errno_code}
use pposix.Call.{common_call}
use pposix.Descriptor.{
  Traits, Descriptor, of_raw, raw, move_construct, into_result, destroy as destroy_descriptor,
}
use pposix.Result.{Result, ok, err}
use pposix.Socket.Values.{
  LocalKind, int_kind, linger_kind, timeval_kind, Local, Shown, local, OptionView, SetOption,
  socket_debug, linger_get, rcvtimeo_get, sndtimeo_get, socket_broadcast, socket_reuseaddr,
  socket_keepalive, socket_linger, socket_oobinline, socket_sndbuf, socket_rcvbuf, socket_dontroute,
  socket_rcvlowat, socket_rcvtimeo, socket_sndlowat, socket_sndtimeo,
}
use pposix.Span.AnyView.{AnyView}

-- The calls of <sys/socket.h> and <unistd.h>. `getsockopt` is given the length of its buffer and
-- returns, beside its result, the length that it wrote back; `getsockopt_local` is the same call with
-- a local object for a buffer, and returns also what that object then holds.
pub record SocketApi (K : Type 0) : Type 0 where
  pub socket : ℤ → ℕ → ℤ → Sys K ℤ
  pub close : ℤ → Sys K ℤ
  pub setsockopt : ℤ → ℤ → ℤ → Shown → ℕ → Sys K ℤ
  pub getsockopt : ℤ → ℤ → ℤ → ℕ → ℕ → Sys K (ℤ × ℕ)
  pub getsockopt_local : (k : LocalKind) → ℤ → ℤ → ℤ → Local k → ℕ → Sys K (ℤ × ℕ × Local k)

pub data SocketOption : Type 0 where
  acceptconn broadcast debug dontroute error keepalive linger oobinline : SocketOption
  rcvbuf rcvlowat rcvtimeo reuseaddr sndbuf sndlowat sndtimeo type_ zerocpy : SocketOption

pub data SocketMacro : Type 0 where
  so_acceptconn so_broadcast so_debug so_dontroute so_error so_keepalive so_linger : SocketMacro
  so_oobinline so_rcvbuf so_rcvlowat so_rcvtimeo so_reuseaddr so_sndbuf so_sndlowat : SocketMacro
  so_sndtimeo so_type so_zerocopy : SocketMacro

unfoldable pub socket_option_macro : SocketOption → SocketMacro
socket_option_macro acceptconn = so_acceptconn
socket_option_macro broadcast = so_broadcast
socket_option_macro debug = so_debug
socket_option_macro dontroute = so_dontroute
socket_option_macro error = so_error
socket_option_macro keepalive = so_keepalive
socket_option_macro linger = so_linger
socket_option_macro oobinline = so_oobinline
socket_option_macro rcvbuf = so_rcvbuf
socket_option_macro rcvlowat = so_rcvlowat
socket_option_macro rcvtimeo = so_rcvtimeo
socket_option_macro reuseaddr = so_reuseaddr
socket_option_macro sndbuf = so_sndbuf
socket_option_macro sndlowat = so_sndlowat
socket_option_macro sndtimeo = so_sndtimeo
socket_option_macro type_ = so_type
socket_option_macro zerocpy = so_zerocopy

-- `socket_fd`, an enumeration of `int`s.
pub record SocketFd : Type 0 where
  pub fd_ : ℤ

abbrev pub socket_fd : ℤ → SocketFd
socket_fd fd = record { fd_ = fd }

same_socket : SocketFd → SocketFd → Bool
same_socket a b = a.fd_ ==ℤ b.fd_

same_socket_iff : (a b : SocketFd) → (same_socket a b ≡ true) ↔ (a ≡ b)
unfolding same_socket
same_socket_iff a b = (
  λ h. ap socket_fd ((==ℤ_iff a.fd_ b.fd_).0 h),
  λ e. (==ℤ_iff a.fd_ b.fd_).1 (ap (λ (s : SocketFd). s.fd_) e),
)

pub record Socket : Type 0 where
  pub socket_fd_ : Descriptor SocketFd

-- A `size_t` as a `socklen_t` of 32 bits, and its largest value.
abbrev pub to_socklen : ℕ → ℕ
to_socklen n = n % 2 ^ 32

abbrev pub socklen_max : ℕ
socklen_max = 4294967295

module _ {K : Type 0} (os : SocketApi K) where
  unfoldable pub close_socket : SocketFd → Sys K ErrorCode
  unfolding common_call
  close_socket fd = common_call (os.close fd.fd_)

  -- The template arguments of `unique_socket_fd`.
  unfoldable pub unique_socket_fd : Traits K SocketFd
  unfolding same_socket same_socket_iff close_socket
  unique_socket_fd = record {
    get_null = socket_fd minus_one;
    same = same_socket;
    same_iff = same_socket_iff;
    close_policy = close_socket;
  }

  -- `explicit socket(unique_socket_fd)`: the argument is moved into the socket and destroyed.
  unfoldable pub socket : Descriptor SocketFd → Sys K Socket
  unfolding move_construct destroy_descriptor unique_socket_fd
  socket fd = do
    destroyed ← destroy_descriptor unique_socket_fd (move_construct unique_socket_fd fd).1
    pure (record { socket_fd_ = (move_construct unique_socket_fd fd).0 })

  unfoldable pub unsafe_make : ℤ → ℕ → ℕ → ℤ → Sys K (Result Socket)
  unfolding current_errno_code socket of_raw into_result
  unsafe_make dom typ flags prot = do
    sock ← os.socket dom (bit_or typ flags) prot
    if sock ==ℤ minus_one
        then (do e ← current_errno_code; pure (err e))
        else do s ← socket (of_raw (socket_fd sock)); into_result unique_socket_fd (ok s)

  -- The destructor that the compiler writes: that of `socket_fd_`.
  unfoldable pub destroy : Socket → Sys K (Unit {0})
  unfolding destroy_descriptor
  destroy s = destroy_descriptor unique_socket_fd s.socket_fd_

  module _ (m : SocketMacro → ℤ) where
    unfoldable pub unsafe_setsockopt : Socket → ℤ → SocketOption → OptionView → Sys K ErrorCode
    unfolding common_call raw socket_option_macro
    unsafe_setsockopt s l o val = common_call (
        os.setsockopt (raw s.socket_fd_).fd_ l (m (socket_option_macro o)) val.shown
          (to_socklen val.len_))

    -- `value_too_large` is `std::errc::value_too_large`.
    unfoldable pub unsafe_getsockopt : Errc → Socket → ℤ → SocketOption → AnyView → Sys K (Result ℕ)
    unfolding current_errno_code make_errno_code raw socket_option_macro
    unsafe_getsockopt value_too_large s l o val =
        if ltb socklen_max val.len_ then pure (err (make_errno_code value_too_large)) else do
          (failed, len) ←
              os.getsockopt (raw s.socket_fd_).fd_ l (m (socket_option_macro o)) val.data_
                (to_socklen val.len_)
          if failed ==ℤ minus_one then (do e ← current_errno_code; pure (err e)) else pure (ok len)

    module _ (size_of : LocalKind → ℕ) where
      unfoldable pub setsockopt_int : Socket → ℤ → SocketOption → ℤ → Sys K ErrorCode
      unfolding unsafe_setsockopt
      setsockopt_int s l o i =
          unsafe_setsockopt s l o (record { shown = local int_kind i; len_ = size_of int_kind })

      unfoldable pub setsockopt_bool : Socket → ℤ → SocketOption → Bool → Sys K ErrorCode
      unfolding setsockopt_int
      setsockopt_bool s l o b = setsockopt_int s l o (if b then pos 1 else pos 0)

      -- The thirteen overloads of `setsockopt`.
      unfoldable pub setsockopt : Socket → ℤ → SetOption → Sys K ErrorCode
      unfolding setsockopt_bool setsockopt_int unsafe_setsockopt linger_get rcvtimeo_get
          sndtimeo_get
      setsockopt s l (socket_debug d) = setsockopt_bool s l debug d
      setsockopt s l (socket_broadcast b) = setsockopt_bool s l broadcast b
      setsockopt s l (socket_reuseaddr r) = setsockopt_bool s l reuseaddr r
      setsockopt s l (socket_keepalive k) = setsockopt_bool s l keepalive k
      setsockopt s l (socket_linger lin) =
          unsafe_setsockopt s l linger
            (record { shown = local linger_kind (linger_get lin); len_ = size_of linger_kind })
      setsockopt s l (socket_oobinline o) = setsockopt_bool s l oobinline o
      setsockopt s l (socket_sndbuf b) = setsockopt_int s l sndbuf b
      setsockopt s l (socket_rcvbuf r) = setsockopt_int s l rcvbuf r
      setsockopt s l (socket_dontroute d) = setsockopt_bool s l dontroute d
      setsockopt s l (socket_rcvlowat r) = setsockopt_int s l rcvlowat r
      setsockopt s l (socket_rcvtimeo t) =
          unsafe_setsockopt s l rcvtimeo
            (record { shown = local timeval_kind (rcvtimeo_get t); len_ = size_of timeval_kind })
      setsockopt s l (socket_sndlowat b) = setsockopt_int s l sndlowat b
      setsockopt s l (socket_sndtimeo t) =
          unsafe_setsockopt s l sndtimeo
            (record { shown = local timeval_kind (sndtimeo_get t); len_ = size_of timeval_kind })
