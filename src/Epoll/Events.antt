-- ===== src/Epoll/Events.antt =====
-- The events, their flags and the arguments of `epoll::ctl` of include/pposix/lnx/epoll.hpp and
-- src/lnx/epoll.cpp.
use Prim.Native.String.{String}
use pposix.Base.{ℕ, ℤ, refl, Bool, not, bit_and, to_bool, if◌then◌else◌}
use pposix.EnumFlag.{IsEnum, EnumFlag, Checked, refused, compiled, has_flag, underlying_v}
use pposix.FileDescriptor.{RawFd, raw_fd_t}

-- The union `::epoll_data_t`, by the member that was written.
pub data EpollData : Type 0 where
  unset : EpollData
  ptr : ℕ → EpollData
  fd : ℤ → EpollData
  u32 : ℕ → EpollData
  u64 : ℕ → EpollData

-- `::epoll_event`, and both classes that derive from it.
pub record EpollEvent : Type 0 where
  pub events : ℕ
  pub data_ : EpollData

-- The macros of <sys/epoll.h>.
pub data EpollMacro : Type 0 where
  epoll_cloexec epollin epollout epollrdhup epollpri epollerr epollhup epollet : EpollMacro
  epolloneshot epollwakeup epollexclusive : EpollMacro
  epoll_ctl_add epoll_ctl_del epoll_ctl_mod : EpollMacro

-- `capi::epoll_event_flag`
pub record EpollEventFlag : Type 0 where
  pub bits : ℕ

abbrev pub epoll_event_flag : ℕ → EpollEventFlag
epoll_event_flag n = record { bits = n }

instance abbrev pub epoll_event_flag_enum : IsEnum EpollEventFlag
epoll_event_flag_enum = record {
  to_underlying = λ a. a.bits;
  of_underlying = epoll_event_flag;
  to-of_underlying = λ n. refl;
}

pub data EpollFlagName : Type 0 where
  read_available write_available socket_closed fd_exception fd_error fd_hup : EpollFlagName
  edge_triggered one_shot wakeup exclusive : EpollFlagName

abbrev pub epoll_flag_macro : EpollFlagName → EpollMacro
epoll_flag_macro read_available = epollin
epoll_flag_macro write_available = epollout
epoll_flag_macro socket_closed = epollrdhup
epoll_flag_macro fd_exception = epollpri
epoll_flag_macro fd_error = epollerr
epoll_flag_macro fd_hup = epollhup
epoll_flag_macro edge_triggered = epollet
epoll_flag_macro one_shot = epolloneshot
epoll_flag_macro wakeup = epollwakeup
epoll_flag_macro exclusive = epollexclusive

-- The constants `epoll_read_available` to `epoll_exclusive`.
unfoldable pub epoll_flag_constant : (EpollMacro → ℕ) → EpollFlagName → EnumFlag EpollEventFlag
epoll_flag_constant m f = record { flags = epoll_event_flag (m (epoll_flag_macro f)) }

-- `capi::epoll_operation`
pub data EpollOperation : Type 0 where
  add remove modify : EpollOperation

unfoldable pub epoll_operation_value : (EpollMacro → ℕ) → EpollOperation → ℕ
epoll_operation_value m add = m epoll_ctl_add
epoll_operation_value m remove = m epoll_ctl_del
epoll_operation_value m modify = m epoll_ctl_mod

-- The constructors of `capi::epoll_event`, by what they store besides the flags.
unfoldable pub epoll_event : EpollEventFlag → EpollEvent
unfolding underlying_v
epoll_event event_flags = record { events = underlying_v event_flags; data_ = unset }

unfoldable pub epoll_event_ptr : EpollEventFlag → ℕ → EpollEvent
unfolding epoll_event
epoll_event_ptr event_flags data_ = record (epoll_event event_flags) { data_ = ptr data_ }

unfoldable pub epoll_event_fd : EpollEventFlag → RawFd → EpollEvent
unfolding epoll_event
epoll_event_fd event_flags data_ = record (epoll_event event_flags) { data_ = fd (raw_fd_t data_) }

unfoldable pub epoll_event_u32 : EpollEventFlag → ℕ → EpollEvent
unfolding epoll_event
epoll_event_u32 event_flags data_ = record (epoll_event event_flags) { data_ = u32 data_ }

unfoldable pub epoll_event_u64 : EpollEventFlag → ℕ → EpollEvent
unfolding epoll_event
epoll_event_u64 event_flags data_ = record (epoll_event event_flags) { data_ = u64 data_ }

-- `lnx::epoll_event::has_flag`, which the six accessors call.
unfoldable pub event_has_flag : EpollEvent → EnumFlag EpollEventFlag → Bool
unfolding underlying_v
event_has_flag e flag = to_bool (bit_and e.events (underlying_v flag.flags))

pub record EpollAdd : Type 0 where
  pub fd : RawFd
  pub event : EpollEvent

pub record EpollRemove : Type 0 where
  pub fd : RawFd

-- Its members are private: only the constructors below make one.
pub record EpollModify : Type 0 where
  pub fd_ : RawFd
  pub event_ : EpollEvent

-- The message of the `static_assert`.
abbrev exclusive_in_modify : String
exclusive_in_modify = "epoll_exclusive cannot be used with epoll_modify"

module _ (m : EpollMacro → ℕ) where
  -- The six accessors of `lnx::epoll_event`.
  unfoldable pub event_read_available : EpollEvent → Bool
  unfolding event_has_flag epoll_flag_constant
  event_read_available e = event_has_flag e (epoll_flag_constant m read_available)

  unfoldable pub event_write_available : EpollEvent → Bool
  unfolding event_has_flag epoll_flag_constant
  event_write_available e = event_has_flag e (epoll_flag_constant m write_available)

  unfoldable pub event_socket_closed : EpollEvent → Bool
  unfolding event_has_flag epoll_flag_constant
  event_socket_closed e = event_has_flag e (epoll_flag_constant m socket_closed)

  unfoldable pub event_fd_exception : EpollEvent → Bool
  unfolding event_has_flag epoll_flag_constant
  event_fd_exception e = event_has_flag e (epoll_flag_constant m fd_exception)

  unfoldable pub event_fd_error : EpollEvent → Bool
  unfolding event_has_flag epoll_flag_constant
  event_fd_error e = event_has_flag e (epoll_flag_constant m fd_error)

  unfoldable pub event_fd_hup : EpollEvent → Bool
  unfolding event_has_flag epoll_flag_constant
  event_fd_hup e = event_has_flag e (epoll_flag_constant m fd_hup)

  -- `check_epoll_modify_flags`, around what the constructor makes.
  unfoldable pub check_epoll_modify_flags :
      EnumFlag EpollEventFlag → EpollModify → Checked EpollModify
  unfolding has_flag epoll_flag_constant
  check_epoll_modify_flags flags made =
      if not (has_flag flags (epoll_flag_constant m exclusive))
      then compiled made
      else refused exclusive_in_modify

  -- The constructors of `epoll_modify`.
  unfoldable pub epoll_modify : RawFd → EnumFlag EpollEventFlag → Checked EpollModify
  unfolding check_epoll_modify_flags epoll_event
  epoll_modify of flags =
      check_epoll_modify_flags flags (record { fd_ = of; event_ = epoll_event flags.flags })

  unfoldable pub epoll_modify_ptr : RawFd → EnumFlag EpollEventFlag → ℕ → Checked EpollModify
  unfolding check_epoll_modify_flags epoll_event_ptr
  epoll_modify_ptr of flags value =
      check_epoll_modify_flags flags
        (record { fd_ = of; event_ = epoll_event_ptr flags.flags value })

  unfoldable pub epoll_modify_fd : RawFd → EnumFlag EpollEventFlag → RawFd → Checked EpollModify
  unfolding check_epoll_modify_flags epoll_event_fd
  epoll_modify_fd of flags value =
      check_epoll_modify_flags flags
        (record { fd_ = of; event_ = epoll_event_fd flags.flags value })

  unfoldable pub epoll_modify_u32 : RawFd → EnumFlag EpollEventFlag → ℕ → Checked EpollModify
  unfolding check_epoll_modify_flags epoll_event_u32
  epoll_modify_u32 of flags value =
      check_epoll_modify_flags flags
        (record { fd_ = of; event_ = epoll_event_u32 flags.flags value })

  unfoldable pub epoll_modify_u64 : RawFd → EnumFlag EpollEventFlag → ℕ → Checked EpollModify
  unfolding check_epoll_modify_flags epoll_event_u64
  epoll_modify_u64 of flags value =
      check_epoll_modify_flags flags
        (record { fd_ = of; event_ = epoll_event_u64 flags.flags value })
