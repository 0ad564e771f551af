-- ===== src/Fcntl.antt =====
-- include/pposix/fcntl.hpp and src/fcntl.cpp: commands, open flags, access modes, and the wrappers
-- of `::fcntl` and `::open`.
pub mod Commands
use pposix.Base.{ℕ, ℤ, ◌≡◌, refl, bit_or, Option, some, none}
use pposix.Errno.{Sys, ErrorCode}
use pposix.Call.{common_call, common_result_map}
use pposix.EnumFlag.{IsEnum, EnumFlag, enum_or, underlying_v}
use pposix.FileDescriptor.{RawFd, raw_fd, raw_fd_t}
use pposix.Result.{Result}
use pposix.Stat.{Permission, permission_enum}
use Commands.{FcntlCmdName, FcntlMacro, fcntl_macro}

-- The calls of <fcntl.h>, one for each shape of its variable arguments.
pub record FcntlApi (K : Type 0) : Type 0 where
  pub fcntl : ℤ → ℕ → Sys K ℤ
  pub fcntl_int : ℤ → ℕ → ℤ → Sys K ℤ
  pub fcntl_pointer : ℤ → ℕ → ℕ → Sys K ℤ
  pub open_path : ℕ → ℕ → Sys K ℤ
  pub open_path_mode : ℕ → ℕ → ℕ → Sys K ℤ

-- `capi::fcntl_cmd`
pub record FcntlCmd : Type 0 where
  pub bits : ℕ

abbrev fcntl_cmd : ℕ → FcntlCmd
fcntl_cmd n = record { bits = n }

instance abbrev pub fcntl_cmd_enum : IsEnum FcntlCmd
fcntl_cmd_enum = record {
  to_underlying = λ c. c.bits;
  of_underlying = fcntl_cmd;
  to-of_underlying = λ n. refl;
}

unfoldable pub fcntl_cmd_value : (FcntlMacro → ℕ) → FcntlCmdName → FcntlCmd
unfolding fcntl_macro
fcntl_cmd_value m c = fcntl_cmd (m (fcntl_macro c))

-- The constants `dupfd`, `dupfd_cloexec`, … of type `enum_flag`.
unfoldable pub fcntl_cmd_constant : (FcntlMacro → ℕ) → FcntlCmdName → EnumFlag FcntlCmd
unfolding fcntl_cmd_value
fcntl_cmd_constant m c = record { flags = fcntl_cmd_value m c }

-- `operator|` on commands
unfoldable pub fcntl_cmd_or : FcntlCmd → FcntlCmd → FcntlCmd
unfolding enum_or
fcntl_cmd_or lhs rhs = enum_or lhs rhs

-- `capi::open_flag`
pub record OpenFlag : Type 0 where
  pub bits : ℕ

abbrev pub open_flag : ℕ → OpenFlag
open_flag n = record { bits = n }

instance abbrev pub open_flag_enum : IsEnum OpenFlag
open_flag_enum = record {
  to_underlying = λ f. f.bits;
  of_underlying = open_flag;
  to-of_underlying = λ n. refl;
}

pub data OpenFlagName : Type 0 where
  cloexec creat directory excl noctty nofollow truncate append : OpenFlagName
  dsync nonblock rsync sync rdonly : OpenFlagName

pub data OpenMacro : Type 0 where
  o_cloexec o_creat o_directory o_excl o_noctty o_nofollow o_trunc o_append : OpenMacro
  o_dsync o_nonblock o_rsync o_sync o_rdonly o_path o_rdwr o_wronly o_accmode : OpenMacro

-- The enumerators that Linux has: `tty_init` is left out there.
unfoldable pub open_flag_value : (OpenMacro → ℕ) → OpenFlagName → OpenFlag
open_flag_value m cloexec = open_flag (m o_cloexec)
open_flag_value m creat = open_flag (m o_creat)
open_flag_value m directory = open_flag (m o_directory)
open_flag_value m excl = open_flag (m o_excl)
open_flag_value m noctty = open_flag (m o_noctty)
open_flag_value m nofollow = open_flag (m o_nofollow)
open_flag_value m truncate = open_flag (m o_trunc)
open_flag_value m append = open_flag (m o_append)
open_flag_value m dsync = open_flag (m o_dsync)
open_flag_value m nonblock = open_flag (m o_nonblock)
open_flag_value m rsync = open_flag (m o_rsync)
open_flag_value m sync = open_flag (m o_sync)
open_flag_value m rdonly = open_flag (m o_rdonly)

-- `operator|` on open flags
unfoldable pub open_flag_or : OpenFlag → OpenFlag → OpenFlag
unfolding enum_or
open_flag_or lhs rhs = enum_or lhs rhs

-- The constants `cloexec`, `creat`, … of type `enum_flag`.
unfoldable pub open_flag_constant : (OpenMacro → ℕ) → OpenFlagName → EnumFlag OpenFlag
unfolding open_flag_value
open_flag_constant m f = record { flags = open_flag_value m f }

-- `capi::access_mode`
pub record AccessMode : Type 0 where
  pub bits : ℕ

abbrev access_mode : ℕ → AccessMode
access_mode n = record { bits = n }

instance abbrev pub access_mode_enum : IsEnum AccessMode
access_mode_enum = record {
  to_underlying = λ a. a.bits;
  of_underlying = access_mode;
  to-of_underlying = λ n. refl;
}

pub data AccessModeName : Type 0 where
  exec read read_write write accmode : AccessModeName

-- The enumerators that Linux has, where `exec` is O_PATH.
unfoldable pub access_mode_value : (OpenMacro → ℕ) → AccessModeName → AccessMode
access_mode_value m exec = access_mode (m o_path)
access_mode_value m read = access_mode (m o_rdonly)
access_mode_value m read_write = access_mode (m o_rdwr)
access_mode_value m write = access_mode (m o_wronly)
access_mode_value m accmode = access_mode (m o_accmode)

-- The constants `exec`, `read`, `read_write` and `write` of type `enum_flag`; the mask has none.
unfoldable pub access_mode_constant :
    (OpenMacro → ℕ) → AccessModeName → Option (EnumFlag AccessMode)
unfolding access_mode_value
access_mode_constant m exec = some (record { flags = access_mode_value m exec })
access_mode_constant m read = some (record { flags = access_mode_value m read })
access_mode_constant m read_write = some (record { flags = access_mode_value m read_write })
access_mode_constant m write = some (record { flags = access_mode_value m write })
access_mode_constant m accmode = none

-- `operator|` on access modes
unfoldable pub access_mode_or : AccessMode → AccessMode → AccessMode
unfolding enum_or
access_mode_or lhs rhs = enum_or lhs rhs

module _ {K : Type 0} (os : FcntlApi K) where
  -- `capi::fcntl`, in the three overloads of src/fcntl.cpp.
  unfoldable pub fcntl : RawFd → FcntlCmd → Sys K ErrorCode
  unfolding common_call underlying_v
  fcntl fd cmd = common_call (os.fcntl (raw_fd_t fd) (underlying_v cmd))

  unfoldable pub fcntl_int : RawFd → FcntlCmd → ℤ → Sys K ErrorCode
  unfolding common_call underlying_v
  fcntl_int fd cmd arg = common_call (os.fcntl_int (raw_fd_t fd) (underlying_v cmd) arg)

  unfoldable pub fcntl_pointer : RawFd → FcntlCmd → ℕ → Sys K ErrorCode
  unfolding common_call underlying_v
  fcntl_pointer fd cmd arg = common_call (os.fcntl_pointer (raw_fd_t fd) (underlying_v cmd) arg)

  -- `capi::open` without and with a permission.
  unfoldable pub open_path : ℕ → AccessMode → OpenFlag → Sys K (Result RawFd)
  unfolding common_result_map underlying_v
  open_path path mode flags =
      common_result_map raw_fd (os.open_path path (bit_or (underlying_v mode) (underlying_v flags)))

  unfoldable pub open_path_mode : ℕ → AccessMode → OpenFlag → Permission → Sys K (Result RawFd)
  unfolding common_result_map underlying_v
  open_path_mode path mode flags permission = common_result_map raw_fd (
      os.open_path_mode path (bit_or (underlying_v mode) (underlying_v flags))
        (underlying_v permission))
