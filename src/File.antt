-- ===== src/File.antt =====
-- include/pposix/file.hpp and src/file.cpp: an owned file descriptor, its opening and its calls.
-- `is_noexcept` says whether the lambda that `file::open` hands to `result_map` is `noexcept`. It is not
-- declared so, which makes it false; with true, the functions are what they are to be.
pub mod Laws
pub mod RoundTrip
use Prim.Native.String.{String}
use pposix.Base.{ℕ, ℤ, minus_one, Bool, true, false, not, if◌then◌else◌, pos}
use pposix.Errno.{Sys, World, ErrorCode, ◌>>=◌, ◌>>◌, pure}
use pposix.Call.{common_call, common_result_call}
use pposix.Descriptor.{
  Descriptor, of_raw, raw, null_descriptor, into_result, destroy as destroy_descriptor,
}
use pposix.EnumFlag.{EnumFlag, Checked, refused, compiled, has_flag}
use pposix.Fcntl.{
  FcntlApi, OpenMacro, OpenFlag, AccessMode, open_flag_enum, open_flag_constant, creat, excl,
  open_path, open_path_mode,
}
use pposix.FileDescriptor.{Unistd, RawFd, raw_fd_t, file_descriptor}
use pposix.Result.{Result, result_map, assert_noexcept}
use pposix.Span.Bytes.{ByteSpan, ByteCspan}
use pposix.Stat.{Permission}

pub data FileSeek : Type 0 where
  set current end : FileSeek

-- The macros of <unistd.h> for `::lseek`.
pub data SeekMacro : Type 0 where
  seek_set seek_cur seek_end : SeekMacro

unfoldable pub file_seek : (SeekMacro → ℤ) → FileSeek → ℤ
file_seek m set = m seek_set
file_seek m current = m seek_cur
file_seek m end = m seek_end

pub record File : Type 0 where
  pub fd_ : Descriptor RawFd

-- `explicit file(raw_fd)`
unfoldable pub file : RawFd → File
unfolding of_raw
file fd = record { fd_ = of_raw fd }

-- The messages of the `static_assert`s.
abbrev pub excl_without_creat : String
excl_without_creat =
    "Specifying 'excl' without 'creat' is undefined. Add '| creat' to your open flags to correct."

abbrev pub creat_without_permission : String
creat_without_permission =
    "You must provide the 'permission' argument when specifying 'creat'. Use the open(path, access_mode, open_flag, permission) overload instead."

module _ {K : Type 0} (m : OpenMacro → ℕ) (os : FcntlApi K) (files : Unistd K)
    (is_noexcept : Bool) where
  -- The condition of the first `static_assert` of both overloads.
  abbrev pub exclusive_creates : EnumFlag OpenFlag → Bool
  exclusive_creates flags =
      if has_flag flags (open_flag_constant m excl)
      then has_flag flags (open_flag_constant m creat)
      else true

  -- `open(path, access, flags)`
  unfoldable pub open_file :
      ℕ → EnumFlag AccessMode → EnumFlag OpenFlag → Checked (Sys K (Result File))
  open_file path access flags =
      if exclusive_creates flags
      then (if has_flag flags (open_flag_constant m creat)
          then refused creat_without_permission
          else assert_noexcept is_noexcept (do
            r ← open_path os path access.flags flags.flags
            into_result (file_descriptor files) (result_map r file)))
      else refused excl_without_creat

  -- `open(path, access, flags, perm)`
  unfoldable pub open_file_mode :
      ℕ
      → EnumFlag AccessMode
      → EnumFlag OpenFlag
      → EnumFlag Permission
      → Checked (Sys K (Result File))
  open_file_mode path access flags perm =
      if exclusive_creates flags
      then assert_noexcept is_noexcept (do
        r ← open_path_mode os path access.flags flags.flags perm.flags
        into_result (file_descriptor files) (result_map r file))
      else refused excl_without_creat

module _ {K : Type 0} (os : Unistd K) where
  unfoldable pub close : File → Sys K ErrorCode
  unfolding common_call raw
  close f = common_call (os.close (raw_fd_t (raw f.fd_)))

  unfoldable pub lseek : (SeekMacro → ℤ) → File → ℤ → FileSeek → Sys K (Result ℤ)
  unfolding common_result_call raw file_seek
  lseek m f offset wh = common_result_call (os.lseek (raw_fd_t (raw f.fd_)) offset (file_seek m wh))

  unfoldable pub read : File → ByteSpan → Sys K (Result ℤ)
  unfolding common_result_call raw
  read f buffer = common_result_call (os.read (raw_fd_t (raw f.fd_)) buffer.buffer_ buffer.length_)

  unfoldable pub write : File → ByteCspan → Sys K (Result ℤ)
  unfolding common_result_call raw
  write f buffer =
      common_result_call (os.write (raw_fd_t (raw f.fd_)) buffer.buffer_ buffer.length_)

  -- The destructor that the compiler writes: that of `fd_`.
  unfoldable pub destroy : File → Sys K (Unit {0})
  unfolding destroy_descriptor
  destroy f = destroy_descriptor (file_descriptor os) f.fd_
