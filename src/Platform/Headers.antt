-- ===== src/Platform/Headers.antt =====
-- The lists of enumerators, and of the constants made from them, that the preprocessor leaves of
-- include/pposix/fcntl.hpp and include/pposix/socket.hpp. An enumerator is its name and whether a
-- comma follows it, and a constant is the name of its enumerator, which is also its own.
use Prim.Native.String.{String}
use pposix.Base.{ℕ, Bool, true, false, not, ◌&&◌, ◌++◌, List, [], ◌∷◌, if◌then◌else◌, to_bool, any}
use pposix.Platform.{Switches}
use text.Mathlib.Text.{◌==◌}

abbrev pub Enumerator : Type 0
Enumerator = String × Bool

-- With a comma after it, and without.
abbrev comma : String → Enumerator
comma name = (name, true)

abbrev bare : String → Enumerator
bare name = (name, false)

-- `#if`
abbrev when {ℓ} : {A : Type ℓ} → Bool → List A → List A
when test lines = if test then lines else []

-- The grammar of an enumeration: a comma follows every enumerator but the last.
unfoldable pub is_enumerator_list : List Enumerator → Bool
is_enumerator_list [] = true
is_enumerator_list (e ∷ []) = true
is_enumerator_list (e ∷ f ∷ r) = e.1 && is_enumerator_list (f ∷ r)

-- Does each constant name an enumerator?
unfoldable pub are_declared : List String → List Enumerator → Bool
are_declared [] enumerators = true
are_declared (c ∷ cs) enumerators = any (λ e. e.0 == c) enumerators && are_declared cs enumerators

module _ (s : Switches) where
  -- `capi::fcntl_cmd`
  unfoldable pub fcntl_cmd_enumerators : List Enumerator
  fcntl_cmd_enumerators =
      (comma "dupfd"
        ∷ comma "dupfd_cloexec"
        ∷ comma "getfd"
        ∷ comma "setfd"
        ∷ comma "getfl"
        ∷ comma "setfl"
        ∷ comma "getlk"
        ∷ comma "setlk"
        ∷ comma "setlkw"
        ∷ comma "getown"
        ∷ comma "setown"
        ∷ comma "rdlck"
        ∷ comma "unlck"
        ∷ comma "wrlck"
        ∷ [])
      ++ when (to_bool s.platform_linux) (
          comma "ofd_setlk"
          ∷ comma "ofd_setlkw"
          ∷ comma "ofd_getlk"
          ∷ comma "getown_ex"
          ∷ comma "setown_ex"
          ∷ comma "getsig"
          ∷ comma "setsig"
          ∷ comma "setlease"
          ∷ comma "getlease"
          ∷ comma "notify"
          ∷ comma "setpipe_sz"
          ∷ comma "getpipe_sz"
          ∷ comma "add_seals"
          ∷ comma "get_seals"
          ∷ comma "seal_seal"
          ∷ comma "seal_shrink"
          ∷ comma "seal_grow"
          ∷ comma "seal_write"
          ∷ comma "get_rw_hint"
          ∷ comma "set_rw_hint"
          ∷ comma "get_file_rw_hint"
          ∷ comma "set_file_rw_hint"
          ∷ [])

  -- `capi::open_flag`
  unfoldable pub open_flag_enumerators : List Enumerator
  open_flag_enumerators =
      (comma "cloexec"
        ∷ comma "creat"
        ∷ comma "directory"
        ∷ comma "excl"
        ∷ comma "noctty"
        ∷ comma "nofollow"
        ∷ comma "truncate"
        ∷ [])
      ++ when
          (not (to_bool s.platform_linux)
            && not (to_bool s.platform_openbsd)
            && not (to_bool s.platform_macos))
          (bare "tty_init" ∷ [])
      ++ (comma "append" ∷ [])
      ++ when (not (to_bool s.platform_freebsd)) (comma "dsync" ∷ [])
      ++ (comma "nonblock" ∷ [])
      ++ when (not (to_bool s.platform_macos) && not (to_bool s.platform_freebsd))
          (comma "rsync" ∷ [])
      ++ (comma "sync" ∷ comma "rdonly" ∷ [])

  -- `capi::access_mode`
  unfoldable pub access_mode_enumerators : List Enumerator
  access_mode_enumerators =
      when (to_bool s.platform_linux) (comma "exec" ∷ [])
      ++ when
          (not (to_bool s.platform_linux)
            && (not (to_bool s.platform_macos) && not (to_bool s.platform_openbsd)))
          (comma "exec" ∷ [])
      ++ (comma "read" ∷ comma "read_write" ∷ [])
      ++ when
          (not (to_bool s.platform_linux)
            && not (to_bool s.platform_freebsd)
            && not (to_bool s.platform_openbsd)
            && not (to_bool s.platform_macos))
          (comma "search" ∷ [])
      ++ (comma "write" ∷ bare "accmode" ∷ [])

  -- The constants of type `fcntl_cmd`.
  unfoldable pub fcntl_cmd_constants : List String
  fcntl_cmd_constants =
      ("dupfd" ∷ "dupfd_cloexec" ∷ "getfd" ∷ "setfd" ∷ "getfl" ∷ "setfl" ∷ "getlk" ∷ "setlk"
        ∷ "setlkw" ∷ "getown" ∷ "setown" ∷ "rdlck" ∷ "unlck" ∷ "wrlck" ∷ [])
      ++ when (to_bool s.platform_linux) (
          "ofd_setlk" ∷ "ofd_setlkw" ∷ "ofd_getlk" ∷ "getown_ex" ∷ "setown_ex" ∷ "getsig" ∷ "setsig"
          ∷ "setlease" ∷ "getlease" ∷ "notify" ∷ "setpipe_sz" ∷ "getpipe_sz" ∷ "add_seals"
          ∷ "get_seals" ∷ "seal_seal" ∷ "seal_shrink" ∷ "seal_grow" ∷ "seal_write" ∷ "get_rw_hint"
          ∷ "set_rw_hint" ∷ "get_file_rw_hint" ∷ "set_file_rw_hint" ∷ [])

  -- The constants of type `open_flag`.
  unfoldable pub open_flag_constants : List String
  open_flag_constants =
      ("cloexec" ∷ "creat" ∷ "directory" ∷ "excl" ∷ "noctty" ∷ "nofollow" ∷ "truncate" ∷ [])
      ++ when
          (not (to_bool s.platform_linux)
            && not (to_bool s.platform_openbsd)
            && not (to_bool s.platform_macos))
          ("tty_init" ∷ [])
      ++ ("append" ∷ [])
      ++ when (not (to_bool s.platform_freebsd)) ("dsync" ∷ [])
      ++ ("nonblock" ∷ [])
      ++ when (not (to_bool s.platform_macos) && not (to_bool s.platform_freebsd)) ("rsync" ∷ [])
      ++ ("sync" ∷ "rdonly" ∷ [])

  -- The constants of type `access_mode`.
  unfoldable pub access_mode_constants : List String
  access_mode_constants =
      when (not (to_bool s.platform_macos) && not (to_bool s.platform_openbsd)) ("exec" ∷ [])
      ++ ("read" ∷ "read_write" ∷ [])
      ++ when
          (not (to_bool s.platform_linux)
            && not (to_bool s.platform_freebsd)
            && not (to_bool s.platform_openbsd)
            && not (to_bool s.platform_macos))
          ("search" ∷ [])
      ++ ("write" ∷ [])

module _ (linux_extension_enabled : ℕ) where
  -- `socket_domain`
  unfoldable pub socket_domain_enumerators : List Enumerator
  socket_domain_enumerators =
      (comma "inet" ∷ comma "inet6" ∷ comma "unix_" ∷ comma "unspecified" ∷ [])
      ++ when (to_bool linux_extension_enabled) (
          comma "local"
          ∷ comma "file"
          ∷ comma "ax25"
          ∷ comma "ipx"
          ∷ comma "appletalk"
          ∷ comma "x25"
          ∷ comma "decnet"
          ∷ comma "key"
          ∷ comma "netlink"
          ∷ comma "packet"
          ∷ comma "rds"
          ∷ comma "pppox"
          ∷ comma "llc"
          ∷ comma "ib"
          ∷ comma "mpls"
          ∷ comma "can"
          ∷ comma "tipc"
          ∷ comma "bluetooth"
          ∷ comma "alg"
          ∷ comma "vsock"
          ∷ comma "kcm"
          ∷ comma "xdp"
          ∷ [])

  -- `socket_option`
  unfoldable pub socket_option_enumerators : List Enumerator
  socket_option_enumerators =
      (comma "acceptconn"
        ∷ comma "broadcast"
        ∷ comma "debug"
        ∷ comma "dontroute"
        ∷ comma "error"
        ∷ comma "keepalive"
        ∷ comma "linger"
        ∷ comma "oobinline"
        ∷ comma "rcvbuf"
        ∷ comma "rcvlowat"
        ∷ comma "rcvtimeo"
        ∷ comma "reuseaddr"
        ∷ comma "sndbuf"
        ∷ comma "sndlowat"
        ∷ comma "sndtimeo"
        ∷ comma "type"
        ∷ [])
      ++ when (to_bool linux_extension_enabled) (bare "zerocpy" ∷ [])

  -- `socket_flag`
  unfoldable pub socket_flag_enumerators : List Enumerator
  socket_flag_enumerators =
      (comma "none" ∷ [])
      ++ when (to_bool linux_extension_enabled) (comma "closexec" ∷ comma "nonblock" ∷ [])
