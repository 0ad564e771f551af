-- ===== src/Tests/Options.antt =====
-- A socket, number 3, in a small kernel that keeps how long the socket lingers.
use pposix.Base.{ℕ, ℤ, pos, minus_one, ◌<◌, ◌^◌, ◌≡◌, refl, ap, arith}
use pposix.Descriptor.{of_raw, raw}
use pposix.Errno.{World, Sys, no_error}
use pposix.Result.{ok}
use pposix.Socket.{SocketApi, SocketMacro, SocketOption, so_linger, Socket, socket_fd, setsockopt}
use pposix.Socket.Get.{unsafe_getsockopt_local}
use pposix.Socket.RoundTrip.{KeepsOption, setsockopt_lem}
use pposix.Socket.Values.{
  LocalKind, int_kind, linger_kind, timeval_kind, Local, Linger, zero_linger, Shown, local,
  SocketLinger, socket_linger,
}

record OptionKernel : Type 0 where
  linger : Linger

-- EINVAL
abbrev einval : ℤ
einval = pos 22

abbrev set_option : Shown → Sys OptionKernel ℤ
set_option (local linger_kind l) w = (pos 0, record w { kernel = record { linger = l } })
set_option other w = (minus_one, record w { errno = einval })

abbrev size_of : LocalKind → ℕ
size_of int_kind = 4
size_of linger_kind = 8
size_of timeval_kind = 16

abbrev get_option : (k : LocalKind) → Local k → Sys OptionKernel (ℤ × ℕ × Local k)
get_option linger_kind old w = ((pos 0, 8, w.kernel.linger), w)
get_option int_kind old w = ((minus_one, 4, old), record w { errno = einval })
get_option timeval_kind old w = ((minus_one, 16, old), record w { errno = einval })

abbrev socket_api : SocketApi OptionKernel
socket_api = record {
  socket = λ domain kind protocol w. (pos 3, w);
  close = λ fd w. (pos 0, w);
  setsockopt = λ fd level option shown len. set_option shown;
  getsockopt = λ fd level option address len w. ((pos 0, len), w);
  getsockopt_local = λ k fd level option old len. get_option k old;
}

small : (k : LocalKind) → size_of k < 2 ^ 32
small int_kind = omega arith
small linger_kind = omega arith
small timeval_kind = omega arith

-- SO_LINGER
abbrev macros : SocketMacro → ℤ
macros so_linger = pos 13
macros other = pos 0

abbrev five_seconds : Linger
five_seconds = record { l_onoff = pos 1; l_linger = pos 5 }

keeps : KeepsOption socket_api size_of (pos 3) (pos 1) (pos 13) linger_kind five_seconds
keeps = record {
  Holds = λ k. k.linger ≡ five_seconds;
  sets = λ w. (refl, refl);
  gets = λ old w held. ap (λ (l : Linger). (pos 0, 8, l)) held;
}

abbrev a_socket : Socket
a_socket = record { socket_fd_ = of_raw (socket_fd (pos 3)) }

abbrev lingering : SocketLinger
lingering = record { linger_ = five_seconds }

abbrev at_start : World OptionKernel
at_start = record { errno = pos 0; kernel = record { linger = zero_linger } }

setsockopt_lem_example :
    let set =
      setsockopt socket_api macros size_of a_socket (pos 1) (socket_linger lingering) at_start in
    let get =
      unsafe_getsockopt_local socket_api macros size_of
        (pos 75)
        linger_kind
        a_socket
        (pos 1)
        SocketOption.linger
        zero_linger in
    (set.0 ≡ no_error) × ((get set.1).0 ≡ (ok 8, five_seconds))
unfolding raw of_raw
setsockopt_lem_example =
    setsockopt_lem socket_api macros size_of (pos 75) small a_socket (pos 1)
      (socket_linger lingering) keeps zero_linger at_start
