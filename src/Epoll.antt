-- ===== src/Epoll.antt =====
-- include/pposix/lnx/epoll.hpp and src/lnx/epoll.cpp: event polling.
pub mod Events
pub mod Laws
pub mod Interest
use pposix.Base.{ℕ, ℤ, minus_one, pos, ◌==ℤ◌, Option, none, some, to_int, if◌then◌else◌}
use pposix.Errno.{Sys, ErrorCode, ◌>>=◌, pure, current_errno_code}
use pposix.Call.{common_call, error_result}
use pposix.Descriptor.{Descriptor, of_raw, raw, into_result, destroy as destroy_descriptor}
use pposix.FileDescriptor.{Unistd, RawFd, raw_fd, raw_fd_t, file_descriptor}
use pposix.Result.{Result, ok, err}
unfoldable pub use Events.*

-- The calls of <sys/epoll.h>. An array of events is an address and a length; a null pointer to an
-- event is `none`, and the set of signals of `epoll_pwait` is an address.
pub record EpollApi (K : Type 0) : Type 0 where
  pub epoll_create : ℤ → Sys K ℤ
  pub epoll_create1 : ℕ → Sys K ℤ
  pub epoll_ctl : ℤ → ℕ → ℤ → Option EpollEvent → Sys K ℤ
  pub epoll_wait : ℤ → ℕ → ℤ → ℤ → Sys K ℤ
  pub epoll_pwait : ℤ → ℕ → ℤ → ℤ → ℕ → Sys K ℤ

-- `lnx::epoll_event` in a span: the address of the first and how many.
pub record EpollEvents : Type 0 where
  pub address : ℕ
  pub length : ℕ

pub record Epoll : Type 0 where
  pub epoll_fd_ : Descriptor RawFd

-- `explicit epoll(raw_fd)`, and `unsafe_make_epoll`
unfoldable pub epoll : RawFd → Epoll
unfolding of_raw
epoll epoll_fd = record { epoll_fd_ = of_raw epoll_fd }

unfoldable pub unsafe_make_epoll : ℤ → Epoll
unfolding epoll
unsafe_make_epoll number = epoll (raw_fd number)

module _ {K : Type 0} (os : EpollApi K) (files : Unistd K) where
  unfoldable pub unsafe_create : ℤ → Sys K (Result Epoll)
  unfolding current_errno_code unsafe_make_epoll into_result file_descriptor
  unsafe_create size = do
    res ← os.epoll_create size
    if res ==ℤ minus_one
        then (do e ← current_errno_code; pure (err e))
        else into_result (file_descriptor files) (ok (unsafe_make_epoll res))

  unfoldable pub unsafe_create1 : ℕ → Sys K (Result Epoll)
  unfolding current_errno_code unsafe_make_epoll into_result file_descriptor
  unsafe_create1 flags = do
    res ← os.epoll_create1 flags
    if res ==ℤ minus_one
        then (do e ← current_errno_code; pure (err e))
        else into_result (file_descriptor files) (ok (unsafe_make_epoll res))

  -- `create()`
  unfoldable pub create : Sys K (Result Epoll)
  unfolding unsafe_create
  create = unsafe_create (pos 1)

  -- `create(epoll_cloexec)`
  unfoldable pub create_cloexec : (EpollMacro → ℕ) → Sys K (Result Epoll)
  unfolding unsafe_create1
  create_cloexec m = unsafe_create1 (m epoll_cloexec)

module _ {K : Type 0} (os : EpollApi K) where
  -- `wait` and `pwait` return the error code of the common call as a `result<int>`.
  unfoldable pub wait : Epoll → EpollEvents → ℤ → Sys K (Result ℤ)
  unfolding common_call error_result raw
  wait e events timeout = error_result (
      common_call
        (os.epoll_wait (raw_fd_t (raw e.epoll_fd_)) events.address (to_int events.length) timeout))

  unfoldable pub pwait : Epoll → EpollEvents → ℤ → ℕ → Sys K (Result ℤ)
  unfolding common_call error_result raw
  pwait e events timeout sigmask = error_result (
      common_call (
        os.epoll_pwait (raw_fd_t (raw e.epoll_fd_)) events.address (to_int events.length) timeout
          sigmask))

  module _ (m : EpollMacro → ℕ) where
    unfoldable pub unsafe_ctl : Epoll → EpollOperation → RawFd → Option EpollEvent → Sys K ErrorCode
    unfolding common_call raw epoll_operation_value
    unsafe_ctl e op of event =
        common_call (
          os.epoll_ctl (raw_fd_t (raw e.epoll_fd_)) (epoll_operation_value m op) (raw_fd_t of)
            event)

    unfoldable pub ctl_add : Epoll → EpollAdd → Sys K ErrorCode
    unfolding unsafe_ctl
    ctl_add e change = unsafe_ctl e add change.fd (some change.event)

    unfoldable pub ctl_remove : Epoll → EpollRemove → Sys K ErrorCode
    unfolding unsafe_ctl
    ctl_remove e change = unsafe_ctl e remove change.fd none

    unfoldable pub ctl_modify : Epoll → EpollModify → Sys K ErrorCode
    unfolding unsafe_ctl
    ctl_modify e change = unsafe_ctl e modify change.fd_ (some change.event_)

-- The destructor that the compiler writes: that of `epoll_fd_`.
unfoldable pub destroy : {K : Type 0} → Unistd K → Epoll → Sys K (Unit {0})
unfolding destroy_descriptor
destroy os e = destroy_descriptor (file_descriptor os) e.epoll_fd_
