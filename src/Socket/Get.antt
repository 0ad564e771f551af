-- ===== src/Socket/Get.antt =====
-- `socket::unsafe_getsockopt` of src/socket.cpp as its callers use it, with a view of a local object.
-- `getsockopt` of include/pposix/socket.hpp and its three helpers, no use of which compiles, are not
-- modelled.
use pposix.Base.{ℕ, ℤ, minus_one, ◌==ℤ◌, ltb, if◌then◌else◌}
use pposix.Errno.{Sys, Errc, ◌>>=◌, pure, current_errno_code, make_errno_code}
use pposix.Descriptor.{raw}
use pposix.Result.{Result, ok, err}
use pposix.Socket.{
  SocketApi, SocketOption, SocketMacro, socket_option_macro, Socket, to_socklen, socklen_max,
}
use pposix.Socket.Values.{LocalKind, Local}

module _ {K : Type 0} (os : SocketApi K) (m : SocketMacro → ℤ) (size_of : LocalKind → ℕ)
    (value_too_large : Errc) where
  -- `unsafe_getsockopt` with a view of a local object: beside its result, what the object then holds.
  unfoldable pub unsafe_getsockopt_local :
      (k : LocalKind) → Socket → ℤ → SocketOption → Local k → Sys K (Result ℕ × Local k)
  unfolding current_errno_code make_errno_code raw socket_option_macro
  unsafe_getsockopt_local k s l o val =
      if ltb socklen_max (size_of k) then pure (err (make_errno_code value_too_large), val) else do
        (failed, len, val') ←
            os.getsockopt_local k (raw s.socket_fd_).fd_ l (m (socket_option_macro o)) val
              (to_socklen (size_of k))
        if failed ==ℤ minus_one
            then (do e ← current_errno_code; pure (err e, val'))
            else pure (ok len, val')
