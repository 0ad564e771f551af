-- ===== src/Ioctl.antt =====
-- include/pposix/ioctl.hpp and src/ioctl.cpp: the six overloads of `ioctl`.
use pposix.Base.{ℕ, ℤ, ◌≡◌}
use pposix.Errno.{World, Sys}
use pposix.Call.{common_call, error_result, never_a_value, error_result_lem}
use pposix.FileDescriptor.{RawFd, raw_fd_t}
use pposix.Result.{Result}
use pposix.Span.AnyView.{AnyView, AnyCview}

-- `::ioctl`, one field for each shape of its last argument.
pub record IoctlApi (K : Type 0) : Type 0 where
  pub ioctl_int : ℤ → ℤ → ℤ → Sys K ℤ
  pub ioctl_pointer : ℤ → ℤ → ℕ → Sys K ℤ

-- `ioctl_request`, an enumeration of `int`s.
pub record IoctlRequest : Type 0 where
  pub request : ℤ

module _ {K : Type 0} (os : IoctlApi K) where
  -- `ioctl(raw_fd, ioctl_request, int)`
  unfoldable pub ioctl_int : RawFd → IoctlRequest → ℤ → Sys K (Result ℤ)
  unfolding common_call error_result
  ioctl_int fd r i = error_result (common_call (os.ioctl_int (raw_fd_t fd) r.request i))

  -- `ioctl(raw_fd, ioctl_request, void *)`
  unfoldable pub ioctl_pointer : RawFd → IoctlRequest → ℕ → Sys K (Result ℤ)
  unfolding common_call error_result
  ioctl_pointer fd r ptr = error_result (common_call (os.ioctl_pointer (raw_fd_t fd) r.request ptr))

  -- `ioctl(raw_fd, ioctl_request, const void *)`
  unfoldable pub ioctl_const_pointer : RawFd → IoctlRequest → ℕ → Sys K (Result ℤ)
  unfolding common_call error_result
  ioctl_const_pointer fd r ptr =
      error_result (common_call (os.ioctl_pointer (raw_fd_t fd) r.request ptr))

  -- `ioctl(raw_fd, ioctl_request, std::nullptr_t)`
  unfoldable pub ioctl_null : RawFd → IoctlRequest → Sys K (Result ℤ)
  unfolding ioctl_pointer
  ioctl_null fd r = ioctl_pointer fd r 0

  unfoldable pub ioctl_view : RawFd → IoctlRequest → AnyView → Sys K (Result ℤ)
  unfolding ioctl_pointer
  ioctl_view fd r val = ioctl_pointer fd r val.data_

  unfoldable pub ioctl_cview : RawFd → IoctlRequest → AnyCview → Sys K (Result ℤ)
  unfolding ioctl_const_pointer
  ioctl_cview fd r val = ioctl_const_pointer fd r val.data_

  -- Every overload makes the one call and reports an error whatever the call returned: its `errno`
  -- after a -1, the error code 0 otherwise.
  pub ioctl_lem :
      (fd : ℤ) (r : IoctlRequest) (i : ℤ) (view : AnyView) (cview : AnyCview) (w : World K)
      → let f : RawFd = record { fd_ = fd } in
        (ioctl_int f r i w ≡ never_a_value (os.ioctl_int fd r.request i w))
        × (ioctl_null f r w ≡ never_a_value (os.ioctl_pointer fd r.request 0 w))
        × (ioctl_view f r view w ≡ never_a_value (os.ioctl_pointer fd r.request view.data_ w))
        × (ioctl_cview f r cview w ≡ never_a_value (os.ioctl_pointer fd r.request cview.data_ w))
  unfolding ioctl_int ioctl_null ioctl_view ioctl_cview
  ioctl_lem fd r i view cview w = (
    error_result_lem (os.ioctl_int fd r.request i) w,
    error_result_lem (os.ioctl_pointer fd r.request 0) w,
    error_result_lem (os.ioctl_pointer fd r.request view.data_) w,
    error_result_lem (os.ioctl_pointer fd r.request cview.data_) w,
  )
