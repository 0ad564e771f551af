-- ===== src/Tests/Sockets.antt =====
-- Sockets over a small kernel that hands out number 3.
use pposix.Base.{ℕ, ℤ, pos, ◌^◌, ◌≤◌, ◌<◌, ◌≡◌, ◌≢◌, [], ◌∷◌}
use pposix.Call.{common_call}
use pposix.Descriptor.{of_raw}
use pposix.Errno.{World, make_errno_code}
use pposix.Result.{err}
use pposix.Socket.{
  SocketApi, SocketMacro, SocketOption, Socket, socket_fd, unsafe_make, unsafe_setsockopt,
  unsafe_getsockopt,
}
use pposix.Socket.Values.{memory}
use pposix.Socket.Laws.{IsMaking, unsafe_make_lem, option_length_lem}
use pposix.Span.AnyView.{any_view_of}
use pposix.Tests.Kernel.{Kernel, kernel, world, kernel_close}

abbrev socket_api : SocketApi Kernel
socket_api = record {
  socket = λ domain kind protocol w. (pos 3, w);
  close = kernel_close;
  setsockopt = λ fd level option shown len w. (pos 0, w);
  getsockopt = λ fd level option address len w. ((pos 0, len), w);
  getsockopt_local = λ k fd level option old len w. ((pos 0, len, old), w);
}

abbrev at_start : World Kernel
at_start = world (pos 0) (kernel (pos 3 ∷ []) 0)

unsafe_make_lem_example :
    IsMaking socket_api (pos 3, at_start) (unsafe_make socket_api (pos 2) 1 2048 (pos 0) at_start)
unsafe_make_lem_example = unsafe_make_lem socket_api (pos 2) 1 2048 (pos 0) at_start

abbrev macros : SocketMacro → ℤ
macros option = pos 7

abbrev a_socket : Socket
a_socket = record { socket_fd_ = of_raw (socket_fd (pos 3)) }

-- EOVERFLOW
abbrev too_large : ℤ
too_large = pos 75

-- One byte more than a `socklen_t` can say.
abbrev length : ℕ
length = 4294967296

option_length_lem_example :
    let set =
      unsafe_setsockopt socket_api macros a_socket
        (pos 1)
        SocketOption.sndbuf
        (record { shown = memory 4096; len_ = length })
        at_start in
    let get =
      unsafe_getsockopt socket_api macros too_large a_socket
        (pos 1)
        SocketOption.sndbuf
        (any_view_of 4096 length)
        at_start in
    (length < 2 ^ 32
      → (set
          ≡ common_call
              (socket_api.setsockopt (pos 3) (pos 1) (pos 7) (memory 4096) length)
              at_start)
        × (get.1 ≡ at_start))
    × (2 ^ 32 ≤ length
        → (set
            ≡ common_call (socket_api.setsockopt (pos 3) (pos 1) (pos 7) (memory 4096) 0) at_start)
          × (0 ≢ length)
          × (get ≡ (err (make_errno_code too_large), at_start)))
option_length_lem_example =
    option_length_lem socket_api macros too_large a_socket (pos 1) SocketOption.sndbuf (memory 4096)
      4096 length at_start
