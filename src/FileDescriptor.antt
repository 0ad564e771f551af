-- ===== src/FileDescriptor.antt =====
-- include/pposix/file_descriptor.hpp and src/file_descriptor.cpp: descriptors of files, closed by
-- `::close`.
use pposix.Base.{ℤ, minus_one, ◌==ℤ◌, ==ℤ_iff, ℕ, ◌≡◌, refl, ap, Bool, true, ◌↔◌}
use pposix.Errno.{World, Sys, ErrorCode}
use pposix.Call.{common_call}
use pposix.Descriptor.{Traits, into_result}
use pposix.Descriptor.Laws.{into_result-common_call}
use pposix.Result.{ok}

-- The calls of <unistd.h> that the library makes. An address is a number, 0 for the null pointer;
-- what a call does to memory is part of the kernel's state.
pub record Unistd (K : Type 0) : Type 0 where
  pub close : ℤ → Sys K ℤ
  pub lseek : ℤ → ℤ → ℤ → Sys K ℤ
  pub read : ℤ → ℕ → ℕ → Sys K ℤ
  pub write : ℤ → ℕ → ℕ → Sys K ℤ

pub record RawFd : Type 0 where
  pub fd_ : ℤ

-- `explicit operator raw_fd_t`
abbrev pub raw_fd_t : RawFd → ℤ
raw_fd_t fd = fd.fd_

abbrev pub raw_fd : ℤ → RawFd
raw_fd fd = record { fd_ = fd }

-- Equality by number. `raw_fd` has no `==` of its own, so `descriptor::empty` does not compile for
-- it; the model needs one to say which handle an object holds.
same_fd : RawFd → RawFd → Bool
same_fd a b = a.fd_ ==ℤ b.fd_

same_fd_iff : (a b : RawFd) → (same_fd a b ≡ true) ↔ (a ≡ b)
unfolding same_fd
same_fd_iff a b =
    (λ h. ap raw_fd ((==ℤ_iff a.fd_ b.fd_).0 h), λ e. (==ℤ_iff a.fd_ b.fd_).1 (ap raw_fd_t e))

module _ {K : Type 0} (os : Unistd K) where
  unfoldable pub close_fd : RawFd → Sys K ErrorCode
  unfolding common_call
  close_fd fd = common_call (os.close (raw_fd_t fd))

  -- The template arguments of `file_descriptor`.
  unfoldable pub file_descriptor : Traits K RawFd
  unfolding same_fd same_fd_iff
  file_descriptor = record {
    get_null = raw_fd minus_one;
    same = same_fd;
    same_iff = same_fd_iff;
    close_policy = close_fd;
  }

  -- An owner of a descriptor that becomes a result leaves a null one behind, and `::close` is
  -- called on -1.
  pub into_result-file_descriptor :
      {A : Type 0} (a : A) (w : World K)
      → into_result file_descriptor (ok a) w ≡ (ok a, (os.close minus_one w).1)
  unfolding file_descriptor close_fd
  into_result-file_descriptor a w =
      into_result-common_call file_descriptor (os.close minus_one) refl a w
