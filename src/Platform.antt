-- ===== src/Platform.antt =====
-- include/pposix/platform.hpp and extension.hpp: what the preprocessor makes of the macros that the
-- compiler predefines and of those that the build defines. A macro is `none` when it is not
-- defined, and otherwise the number that it stands for.
pub mod Headers
pub mod Laws
use Prim.Native.String.{String}
use pposix.Base.{ℕ, Bool, false, ◌&&◌, Option, none, some, if◌then◌else◌, to_bool}
use pposix.EnumFlag.{Checked, refused, compiled}

-- `enum class platform`
pub data Platform : Type 0 where
  macos freebsd openbsd solaris linux_ : Platform

-- The macros that the compiler predefines.
pub record Predefined : Type 0 where
  pub apple : Option ℕ
  pub mach : Option ℕ
  pub freebsd_ : Option ℕ
  pub openbsd_ : Option ℕ
  pub sun : Option ℕ
  pub linux__ : Option ℕ

-- The macros PPOSIX_PLATFORM_MACOS, … that platform.hpp defines.
pub record Switches : Type 0 where
  pub platform_macos : ℕ
  pub platform_freebsd : ℕ
  pub platform_openbsd : ℕ
  pub platform_solaris : ℕ
  pub platform_linux : ℕ

pub record Configuration : Type 0 where
  pub compilation_platform : Platform
  pub switches : Switches

-- `defined(X) && X`
unfoldable pub defined_and_on : Option ℕ → Bool
defined_and_on none = false
defined_and_on (some n) = to_bool n

-- The defines for all platforms.
abbrev pub base_switches : Switches
base_switches = record {
  platform_macos = 0;
  platform_freebsd = 0;
  platform_openbsd = 0;
  platform_solaris = 0;
  platform_linux = 0;
}

-- The text of the `#error`.
abbrev pub unable_to_detect : String
unable_to_detect = "Unable to detect POSIX platform."

-- The chain of `#if` and `#elif`.
unfoldable pub detect : Predefined → Checked Configuration
unfolding defined_and_on
detect p =
    if defined_and_on p.apple && defined_and_on p.mach
    then compiled (record {
      compilation_platform = macos;
      switches = record base_switches { platform_macos = 1 };
    })
    else if defined_and_on p.freebsd_
    then compiled (record {
      compilation_platform = freebsd;
      switches = record base_switches { platform_freebsd = 1 };
    })
    else if defined_and_on p.openbsd_
    then compiled (record {
      compilation_platform = openbsd;
      switches = record base_switches { platform_openbsd = 1 };
    })
    else if defined_and_on p.sun
    then compiled (record {
      compilation_platform = solaris;
      switches = record base_switches { platform_solaris = 1 };
    })
    else if defined_and_on p.linux__
    then compiled (record {
      compilation_platform = linux_;
      switches = record base_switches { platform_linux = 1 };
    })
    else refused unable_to_detect

-- PPOSIX_LINUX_EXTENSION_ENABLED and the others: 0 unless the build defines them.
pub data Extension : Type 0 where
  macos_extension freebsd_extension openbsd_extension solaris_extension : Extension
  linux_extension realtime_extension : Extension

unfoldable pub extension_enabled : (Extension → Option ℕ) → Extension → ℕ
extension_enabled build e = elim (build e) [ none ↦ 0 | some n ↦ n ]
