-- ===== src/Socket/Values.antt =====
-- The values of options in include/pposix/socket.hpp: the classes `socket_linger`, `socket_rcvtimeo` and
-- `socket_sndtimeo`, whose durations are `int`s where a `timeval` has
-- `long`s, and what each overload of `setsockopt` is given.
use pposix.Base.{ℕ, ℤ, pos, narrow, ◌==ℤ◌, Bool, if◌then◌else◌}

-- `::linger` and `::timeval`
pub record Linger : Type 0 where
  pub l_onoff : ℤ
  pub l_linger : ℤ

pub record Timeval : Type 0 where
  pub tv_sec : ℤ
  pub tv_usec : ℤ

-- `::linger{}`
abbrev pub zero_linger : Linger
zero_linger = record { l_onoff = pos 0; l_linger = pos 0 }

pub record SocketLinger : Type 0 where
  pub linger_ : Linger

-- `socket_linger(::linger)`
unfoldable pub linger_of : Linger → SocketLinger
linger_of l = record { linger_ = l }

-- `socket_linger(seconds)`
unfoldable pub linger_for : ℤ → SocketLinger
linger_for duration = record { linger_ = record { l_onoff = pos 1; l_linger = duration } }

-- `socket_linger(bool, seconds)`
unfoldable pub linger_when : Bool → ℤ → SocketLinger
linger_when enabled duration = record {
  linger_ = record { l_onoff = if enabled then pos 1 else pos 0; l_linger = duration };
}

unfoldable pub linger_get : SocketLinger → Linger
linger_get l = l.linger_

unfoldable pub linger_enabled : SocketLinger → Bool
linger_enabled l = l.linger_.l_onoff ==ℤ pos 1

unfoldable pub linger_duration : SocketLinger → ℤ
linger_duration l = l.linger_.l_linger

pub record SocketRcvtimeo : Type 0 where
  pub timeout_ : Timeval

-- `socket_rcvtimeo(seconds)`
unfoldable pub rcvtimeo_of_seconds : ℤ → SocketRcvtimeo
rcvtimeo_of_seconds s = record { timeout_ = record { tv_sec = s; tv_usec = pos 0 } }

-- `socket_rcvtimeo(seconds, microseconds)`
unfoldable pub rcvtimeo_of : ℤ → ℤ → SocketRcvtimeo
rcvtimeo_of s us = record { timeout_ = record { tv_sec = s; tv_usec = us } }

unfoldable pub rcvtimeo_get : SocketRcvtimeo → Timeval
rcvtimeo_get t = t.timeout_

unfoldable pub rcvtimeo_seconds : SocketRcvtimeo → ℤ
rcvtimeo_seconds t = narrow t.timeout_.tv_sec

unfoldable pub rcvtimeo_microseconds : SocketRcvtimeo → ℤ
rcvtimeo_microseconds t = narrow t.timeout_.tv_usec

pub record SocketSndtimeo : Type 0 where
  pub timeout_ : Timeval

-- `socket_sndtimeo(seconds)`
unfoldable pub sndtimeo_of_seconds : ℤ → SocketSndtimeo
sndtimeo_of_seconds s = record { timeout_ = record { tv_sec = s; tv_usec = pos 0 } }

-- `socket_sndtimeo(seconds, microseconds)`
unfoldable pub sndtimeo_of : ℤ → ℤ → SocketSndtimeo
sndtimeo_of s us = record { timeout_ = record { tv_sec = s; tv_usec = us } }

unfoldable pub sndtimeo_get : SocketSndtimeo → Timeval
sndtimeo_get t = t.timeout_

unfoldable pub sndtimeo_seconds : SocketSndtimeo → ℤ
sndtimeo_seconds t = narrow t.timeout_.tv_sec

unfoldable pub sndtimeo_microseconds : SocketSndtimeo → ℤ
sndtimeo_microseconds t = narrow t.timeout_.tv_usec

-- The kinds of local objects that an option is passed in, for `sizeof`.
pub data LocalKind : Type 0 where
  int_kind linger_kind timeval_kind : LocalKind

-- What a local object holds.
abbrev pub Local : LocalKind → Type 0
Local int_kind = ℤ
Local linger_kind = Linger
Local timeval_kind = Timeval

-- What an `any_cview` of an option shows: memory of the caller at an address, or a local object.
pub data Shown : Type 0 where
  memory : ℕ → Shown
  local : (k : LocalKind) → Local k → Shown

-- An `any_cview`, by what it shows.
pub record OptionView : Type 0 where
  pub shown : Shown
  pub len_ : ℕ

-- The last argument of `setsockopt`, whose type chooses the overload.
pub data SetOption : Type 0 where
  socket_debug socket_broadcast socket_reuseaddr socket_keepalive : Bool → SetOption
  socket_linger : SocketLinger → SetOption
  socket_oobinline : Bool → SetOption
  socket_sndbuf socket_rcvbuf : ℤ → SetOption
  socket_dontroute : Bool → SetOption
  socket_rcvlowat : ℤ → SetOption
  socket_rcvtimeo : SocketRcvtimeo → SetOption
  socket_sndlowat : ℤ → SetOption
  socket_sndtimeo : SocketSndtimeo → SetOption
