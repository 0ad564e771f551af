-- ===== src/Tests/Platforms.antt =====
-- Detecting a platform from predefined macros.
use pposix.Base.{ℕ, ◌≡◌, refl, ◌⊎◌, Option, none, some, false}
use pposix.EnumFlag.{refused, compiled}
use pposix.Platform.{
  freebsd, Predefined, Configuration, detect, unable_to_detect, Extension, linux_extension,
  extension_enabled, base_switches,
}
use pposix.Platform.Headers.{is_enumerator_list, open_flag_enumerators}
use pposix.Platform.Laws.{first_target, IsConfigured, SocketParses, detect_lem}

abbrev unknown : Predefined
unknown = record {
  apple = none;
  mach = none;
  freebsd_ = none;
  openbsd_ = none;
  sun = none;
  linux__ = none;
}

-- __FreeBSD__ is 13.
abbrev on_freebsd : Predefined
on_freebsd = record unknown { freebsd_ = some 13 }

-- The build turns every extension on.
abbrev extended : Extension → Option ℕ
extended e = some 1

detect_lem_example :
    (((detect on_freebsd ≡ refused unable_to_detect) × (first_target on_freebsd ≡ none))
      ⊎ ((c : Configuration) × (detect on_freebsd ≡ compiled c)
          × (first_target on_freebsd ≡ some c.compilation_platform)
          × IsConfigured c))
    × SocketParses (extension_enabled extended linux_extension)
detect_lem_example = detect_lem on_freebsd extended

detect_freebsd :
    detect on_freebsd
    ≡ compiled (record {
      compilation_platform = freebsd;
      switches = record base_switches { platform_freebsd = 1 };
    })
unfolding detect
detect_freebsd = refl

-- The enumeration `open_flag` is refused there.
open_flag_freebsd :
    is_enumerator_list (open_flag_enumerators (record base_switches { platform_freebsd = 1 }))
    ≡ false
unfolding is_enumerator_list open_flag_enumerators
open_flag_freebsd = refl

unknown_refused : detect unknown ≡ refused unable_to_detect
unfolding detect
unknown_refused = refl
