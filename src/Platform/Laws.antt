-- ===== src/Platform/Laws.antt =====
-- Which platform is detected, and on which platforms the enumerations of include/pposix/fcntl.hpp
-- are enumerations.
use pposix.Base.{
  ℕ, Bool, true, false, not, ◌&&◌, ◌≡◌, refl, ap, ◌∙◌, ◌⊎◌, inl, inr, Bool-cases, Option-cases,
  Option, none, some, List, [], ◌∷◌, if◌then◌else◌, to_bool, arith, ◌+◌,
}
use pposix.EnumFlag.{refused, compiled}
use pposix.Platform.{
  Platform, macos, freebsd, openbsd, solaris, linux_, Predefined, Switches, Configuration,
  defined_and_on, detect, unable_to_detect, Extension, linux_extension, extension_enabled,
  base_switches,
}
use pposix.Platform.Headers.{
  is_enumerator_list, are_declared, fcntl_cmd_enumerators, open_flag_enumerators,
  access_mode_enumerators, fcntl_cmd_constants, open_flag_constants, access_mode_constants,
  socket_domain_enumerators, socket_option_enumerators, socket_flag_enumerators,
}

-- Do the predefined macros name the platform?
abbrev pub is_target : Predefined → Platform → Bool
is_target p macos = defined_and_on p.apple && defined_and_on p.mach
is_target p freebsd = defined_and_on p.freebsd_
is_target p openbsd = defined_and_on p.openbsd_
is_target p solaris = defined_and_on p.sun
is_target p linux_ = defined_and_on p.linux__

-- The first platform that they name.
abbrev find : (Platform → Bool) → List Platform → Option Platform
find test [] = none
find test (q ∷ qs) = if test q then some q else find test qs

abbrev pub first_target : Predefined → Option Platform
first_target p = find (is_target p) (macos ∷ freebsd ∷ openbsd ∷ solaris ∷ linux_ ∷ [])

abbrev pub switch : Switches → Platform → ℕ
switch s macos = s.platform_macos
switch s freebsd = s.platform_freebsd
switch s openbsd = s.platform_openbsd
switch s solaris = s.platform_solaris
switch s linux_ = s.platform_linux

abbrev all_switches : Switches → ℕ
all_switches s =
    s.platform_macos + s.platform_freebsd + s.platform_openbsd + s.platform_solaris
    + s.platform_linux

-- The platforms on which no comma follows the enumerator `tty_init`.
abbrev pub lacks_comma : Platform → Bool
lacks_comma freebsd = true
lacks_comma solaris = true
lacks_comma other = false

pub record IsConfigured (c : Configuration) : Type 0 where
  -- The one switch that is on is that of the platform.
  pub one_switch : all_switches c.switches ≡ 1
  pub on_switch : switch c.switches c.compilation_platform ≡ 1
  pub fcntl_cmd_parses : is_enumerator_list (fcntl_cmd_enumerators c.switches) ≡ true
  pub access_mode_parses : is_enumerator_list (access_mode_enumerators c.switches) ≡ true
  pub open_flag_parses :
      is_enumerator_list (open_flag_enumerators c.switches)
      ≡ not (lacks_comma c.compilation_platform)
  pub fcntl_cmd_declared :
      are_declared (fcntl_cmd_constants c.switches) (fcntl_cmd_enumerators c.switches) ≡ true
  pub open_flag_declared :
      are_declared (open_flag_constants c.switches) (open_flag_enumerators c.switches) ≡ true
  pub access_mode_declared :
      are_declared (access_mode_constants c.switches) (access_mode_enumerators c.switches) ≡ true

-- The enumerations of include/pposix/socket.hpp, for a value of PPOSIX_LINUX_EXTENSION_ENABLED.
pub record SocketParses (linux_extension_enabled : ℕ) : Type 0 where
  pub domain_parses : is_enumerator_list (socket_domain_enumerators linux_extension_enabled) ≡ true
  pub option_parses : is_enumerator_list (socket_option_enumerators linux_extension_enabled) ≡ true
  pub flag_parses : is_enumerator_list (socket_flag_enumerators linux_extension_enabled) ≡ true

socket_parses : (n : ℕ) → SocketParses n
unfolding socket_domain_enumerators socket_option_enumerators socket_flag_enumerators
    is_enumerator_list
socket_parses n = elim (Bool-cases (to_bool n)) [
  | inl e ↦ record { domain_parses = rw e; option_parses = rw e; flag_parses = rw e }
  | inr e ↦ record { domain_parses = rw e; option_parses = rw e; flag_parses = rw e }
]

-- What is configured for a platform.
abbrev configured : Platform → Configuration
configured macos = record {
  compilation_platform = macos;
  switches = record base_switches { platform_macos = 1 };
}
configured freebsd = record {
  compilation_platform = freebsd;
  switches = record base_switches { platform_freebsd = 1 };
}
configured openbsd = record {
  compilation_platform = openbsd;
  switches = record base_switches { platform_openbsd = 1 };
}
configured solaris = record {
  compilation_platform = solaris;
  switches = record base_switches { platform_solaris = 1 };
}
configured linux_ = record {
  compilation_platform = linux_;
  switches = record base_switches { platform_linux = 1 };
}

configured_platform : (q : Platform) → q ≡ (configured q).compilation_platform
configured_platform macos = refl
configured_platform freebsd = refl
configured_platform openbsd = refl
configured_platform solaris = refl
configured_platform linux_ = refl

configured-IsConfigured : (q : Platform) → IsConfigured (configured q)
unfolding is_enumerator_list are_declared fcntl_cmd_enumerators open_flag_enumerators
    access_mode_enumerators fcntl_cmd_constants open_flag_constants access_mode_constants
configured-IsConfigured macos = record {
  one_switch = refl;
  on_switch = refl;
  fcntl_cmd_parses = refl;
  access_mode_parses = refl;
  open_flag_parses = refl;
  fcntl_cmd_declared = refl;
  open_flag_declared = refl;
  access_mode_declared = refl;
}
configured-IsConfigured freebsd = record {
  one_switch = refl;
  on_switch = refl;
  fcntl_cmd_parses = refl;
  access_mode_parses = refl;
  open_flag_parses = refl;
  fcntl_cmd_declared = refl;
  open_flag_declared = refl;
  access_mode_declared = refl;
}
configured-IsConfigured openbsd = record {
  one_switch = refl;
  on_switch = refl;
  fcntl_cmd_parses = refl;
  access_mode_parses = refl;
  open_flag_parses = refl;
  fcntl_cmd_declared = refl;
  open_flag_declared = refl;
  access_mode_declared = refl;
}
configured-IsConfigured solaris = record {
  one_switch = refl;
  on_switch = refl;
  fcntl_cmd_parses = refl;
  access_mode_parses = refl;
  open_flag_parses = refl;
  fcntl_cmd_declared = refl;
  open_flag_declared = refl;
  access_mode_declared = refl;
}
configured-IsConfigured linux_ = record {
  one_switch = refl;
  on_switch = refl;
  fcntl_cmd_parses = refl;
  access_mode_parses = refl;
  open_flag_parses = refl;
  fcntl_cmd_declared = refl;
  open_flag_declared = refl;
  access_mode_declared = refl;
}

-- Detection takes the first platform that the predefined macros name.
detect_first :
    (p : Predefined)
    → detect p
      ≡ elim (first_target p) [ none ↦ refused unable_to_detect | some q ↦ compiled (configured q) ]
unfolding detect
detect_first p = ground arith

module _ (p : Predefined) (build : Extension → Option ℕ) where
  -- Either the predefined macros name no platform and compilation is refused, or the first that they
  -- name, in the order of the header, is the compilation platform: its switch is the one that is on;
  -- every constant of the three flag types of fcntl.hpp names an enumerator that is declared; and
  -- the enumerations are well formed, but for `open_flag`, which is so exactly when the platform is
  -- neither FreeBSD nor Solaris. The three enumerations of socket.hpp that depend on
  -- PPOSIX_LINUX_EXTENSION_ENABLED are well formed whatever the build defines.
  pub detect_lem :
      (((detect p ≡ refused unable_to_detect) × (first_target p ≡ none))
        ⊎ ((c : Configuration) × (detect p ≡ compiled c)
            × (first_target p ≡ some c.compilation_platform)
            × IsConfigured c))
      × SocketParses (extension_enabled build linux_extension)
  detect_lem = (
    elim (Option-cases (first_target p)) [
      | inl e ↦ inl (rw (detect_first p, e) refl, e)
      | inr (q, e) ↦ inr (
        configured q,
        rw (detect_first p, e) refl,
        e ∙ ap some (configured_platform q),
        configured-IsConfigured q,
      )
    ],
    socket_parses (extension_enabled build linux_extension),
  )
