-- ===== src/Socket/RoundTrip.antt =====
-- Setting an option by `setsockopt` and reading it back by `unsafe_getsockopt`.
use pposix.Base.{ℕ, ℤ, pos, ◌<◌, ◌^◌, ◌≡◌, refl, Bool, true, false, arith, if◌then◌else◌, ltb, ◌∙◌}
use pposix.Call.{common_call_world, common_call_error}
use pposix.Errno.{World, Errc, no_error}
use pposix.Descriptor.{raw}
use pposix.Result.{ok}
use pposix.Socket.{
  SocketApi, SocketOption, SocketMacro, socket_option_macro, Socket, to_socklen, socklen_max,
  unsafe_setsockopt, setsockopt_int, setsockopt_bool, setsockopt, so_debug, so_broadcast,
  so_reuseaddr, so_keepalive, so_linger, so_oobinline, so_sndbuf, so_rcvbuf, so_dontroute,
  so_rcvlowat, so_rcvtimeo, so_sndlowat, so_sndtimeo,
}
use pposix.Socket.Get.{unsafe_getsockopt_local}
use pposix.Socket.Values.{
  LocalKind, int_kind, linger_kind, timeval_kind, Local, local, SetOption, socket_debug,
  socket_broadcast, socket_reuseaddr, socket_keepalive, socket_linger, socket_oobinline,
  socket_sndbuf, socket_rcvbuf, socket_dontroute, socket_rcvlowat, socket_rcvtimeo, socket_sndlowat,
  socket_sndtimeo, linger_get, rcvtimeo_get, sndtimeo_get,
}

-- The enumerator of `socket_option` for a value of an option.
abbrev pub option_of : SetOption → SocketOption
option_of (socket_debug b) = SocketOption.debug
option_of (socket_broadcast b) = SocketOption.broadcast
option_of (socket_reuseaddr b) = SocketOption.reuseaddr
option_of (socket_keepalive b) = SocketOption.keepalive
option_of (socket_linger l) = SocketOption.linger
option_of (socket_oobinline b) = SocketOption.oobinline
option_of (socket_sndbuf i) = SocketOption.sndbuf
option_of (socket_rcvbuf i) = SocketOption.rcvbuf
option_of (socket_dontroute b) = SocketOption.dontroute
option_of (socket_rcvlowat i) = SocketOption.rcvlowat
option_of (socket_rcvtimeo t) = SocketOption.rcvtimeo
option_of (socket_sndlowat i) = SocketOption.sndlowat
option_of (socket_sndtimeo t) = SocketOption.sndtimeo

-- The macro of <sys/socket.h> for an option.
abbrev pub macro_of : SetOption → SocketMacro
macro_of (socket_debug b) = so_debug
macro_of (socket_broadcast b) = so_broadcast
macro_of (socket_reuseaddr b) = so_reuseaddr
macro_of (socket_keepalive b) = so_keepalive
macro_of (socket_linger l) = so_linger
macro_of (socket_oobinline b) = so_oobinline
macro_of (socket_sndbuf i) = so_sndbuf
macro_of (socket_rcvbuf i) = so_rcvbuf
macro_of (socket_dontroute b) = so_dontroute
macro_of (socket_rcvlowat i) = so_rcvlowat
macro_of (socket_rcvtimeo t) = so_rcvtimeo
macro_of (socket_sndlowat i) = so_sndlowat
macro_of (socket_sndtimeo t) = so_sndtimeo

abbrev flag : Bool → (k : LocalKind) × Local k
flag b = (int_kind, if b then pos 1 else pos 0)

-- The object in which <sys/socket.h> has the value: an `int`, for a flag 1 or 0, or a struct.
abbrev pub object : SetOption → (k : LocalKind) × Local k
object (socket_debug b) = flag b
object (socket_broadcast b) = flag b
object (socket_reuseaddr b) = flag b
object (socket_keepalive b) = flag b
object (socket_linger l) = (linger_kind, l.linger_)
object (socket_oobinline b) = flag b
object (socket_sndbuf i) = (int_kind, i)
object (socket_rcvbuf i) = (int_kind, i)
object (socket_dontroute b) = flag b
object (socket_rcvlowat i) = (int_kind, i)
object (socket_rcvtimeo t) = (timeval_kind, t.timeout_)
object (socket_sndlowat i) = (int_kind, i)
object (socket_sndtimeo t) = (timeval_kind, t.timeout_)

-- What <sys/socket.h> says of an option of the socket `fd` that can be set to a value which is kept as
-- it is. A kernel may refuse another value, or keep another in its place.
pub record KeepsOption {K : Type 0} (os : SocketApi K) (size_of : LocalKind → ℕ) (fd l number : ℤ)
    (k : LocalKind) (v : Local k) : Type 1 where
  pub Holds : K → Type 0
  pub sets :
      (w : World K)
      → let r = os.setsockopt fd l number (local k v) (size_of k) w in
        (r.0 ≡ pos 0) × Holds r.1.kernel
  pub gets :
      (old : Local k) (w : World K)
      → Holds w.kernel
      → (os.getsockopt_local k fd l number old (size_of k) w).0 ≡ (pos 0, size_of k, v)

module _ {K : Type 0} (os : SocketApi K) (m : SocketMacro → ℤ) (size_of : LocalKind → ℕ)
    (value_too_large : Errc) (small : (k : LocalKind) → size_of k < 2 ^ 32) (s : Socket)
    (l : ℤ) where
  abbrev Kept : SocketOption → (k : LocalKind) → Local k → Type 1
  Kept o k v = KeepsOption os size_of (raw s.socket_fd_).fd_ l (m (socket_option_macro o)) k v

  set_local :
      (o : SocketOption) (k : LocalKind) (v : Local k) (kept : Kept o k v) (w : World K)
      → let r = unsafe_setsockopt os m s l o (record { shown = local k v; len_ = size_of k }) w in
        (r.0 ≡ no_error) × kept.Holds r.1.kernel
  unfolding unsafe_setsockopt
  set_local o k v kept w =
      let call =
        os.setsockopt (raw s.socket_fd_).fd_ l (m (socket_option_macro o)) (local k v)
          (size_of k) in
      let same : to_socklen (size_of k) ≡ size_of k = omega (arith, small k) in
      let (zero, held) = kept.sets w in
      (rw same (common_call_error call w ∙ rw zero refl), rw (same, common_call_world call w) held)

  get_local :
      (o : SocketOption) (k : LocalKind) (v : Local k) (kept : Kept o k v) (old : Local k)
      (w : World K)
      → kept.Holds w.kernel
      → (unsafe_getsockopt_local os m size_of value_too_large k s l o old w).0 ≡ (ok (size_of k), v)
  unfolding unsafe_getsockopt_local
  get_local o k v kept old w held =
      let same : to_socklen (size_of k) ≡ size_of k = omega (arith, small k) in
      let fits : ltb socklen_max (size_of k) ≡ false = ground (arith, small k) in
      rw (fits, same, kept.gets old w held) refl

  -- What an object that is shown to the kernel holds is what an object of its kind then receives.
  local_lem :
      (o : SocketOption) (k : LocalKind) (v : Local k)
      → Kept o k v
      → (old : Local k) (w : World K)
      → let set = unsafe_setsockopt os m s l o (record { shown = local k v; len_ = size_of k }) w in
        (set.0 ≡ no_error)
        × ((unsafe_getsockopt_local os m size_of value_too_large k s l o old set.1).0
            ≡ (ok (size_of k), v))
  local_lem o k v kept old w =
      let (code, held) = set_local o k v kept w in
      let w' =
        (unsafe_setsockopt os m s l o (record { shown = local k v; len_ = size_of k }) w).1 in
      (code, get_local o k v kept old w' held)

  bool_lem :
      (o : SocketOption) (b : Bool)
      → (let (k, v) = flag b in Kept o k v)
      → (old : ℤ) (w : World K)
      → let set = setsockopt_bool os m size_of s l o b w in
        (set.0 ≡ no_error)
        × ((unsafe_getsockopt_local os m size_of value_too_large int_kind s l o old set.1).0
            ≡ (ok (size_of int_kind), (flag b).1))
  unfolding setsockopt_bool setsockopt_int
  bool_lem o true kept old w = local_lem o int_kind (pos 1) kept old w
  bool_lem o false kept old w = local_lem o int_kind (pos 0) kept old w

  -- When the sizes of an `int` and of the two structs are below 2^32, an option that the kernel keeps
  -- as it is set, as `KeepsOption` says, is set by `setsockopt` without an error, under the macro of
  -- <sys/socket.h> for it and in the object that <sys/socket.h> has for it, and `unsafe_getsockopt`
  -- for the option, with a view of an object of the same kind, then gives the object's size and leaves
  -- in it what was set, whatever it held.
  pub setsockopt_lem :
      (o : SetOption)
      → KeepsOption os size_of (raw s.socket_fd_).fd_ l (m (macro_of o)) (object o).0 (object o).1
      → (old : Local (object o).0) (w : World K)
      → let set = setsockopt os m size_of s l o w in
        let get =
          unsafe_getsockopt_local os m size_of value_too_large (object o).0 s l (option_of o) old in
        (set.0 ≡ no_error) × ((get set.1).0 ≡ (ok (size_of (object o).0), (object o).1))
  unfolding setsockopt setsockopt_int linger_get rcvtimeo_get sndtimeo_get socket_option_macro
  setsockopt_lem (socket_debug x) kept old w = bool_lem SocketOption.debug x kept old w
  setsockopt_lem (socket_broadcast x) kept old w = bool_lem SocketOption.broadcast x kept old w
  setsockopt_lem (socket_reuseaddr x) kept old w = bool_lem SocketOption.reuseaddr x kept old w
  setsockopt_lem (socket_keepalive x) kept old w = bool_lem SocketOption.keepalive x kept old w
  setsockopt_lem (socket_linger x) kept old w =
      local_lem SocketOption.linger linger_kind x.linger_ kept old w
  setsockopt_lem (socket_oobinline x) kept old w = bool_lem SocketOption.oobinline x kept old w
  setsockopt_lem (socket_sndbuf x) kept old w = local_lem SocketOption.sndbuf int_kind x kept old w
  setsockopt_lem (socket_rcvbuf x) kept old w = local_lem SocketOption.rcvbuf int_kind x kept old w
  setsockopt_lem (socket_dontroute x) kept old w = bool_lem SocketOption.dontroute x kept old w
  setsockopt_lem (socket_rcvlowat x) kept old w =
      local_lem SocketOption.rcvlowat int_kind x kept old w
  setsockopt_lem (socket_rcvtimeo x) kept old w =
      local_lem SocketOption.rcvtimeo timeval_kind x.timeout_ kept old w
  setsockopt_lem (socket_sndlowat x) kept old w =
      local_lem SocketOption.sndlowat int_kind x kept old w
  setsockopt_lem (socket_sndtimeo x) kept old w =
      local_lem SocketOption.sndtimeo timeval_kind x.timeout_ kept old w
