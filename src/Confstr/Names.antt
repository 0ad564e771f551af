-- ===== src/Confstr/Names.antt =====
-- `confstr_name` of include/pposix/confstr.hpp, with the enumerators of all platforms.
use pposix.Base.{◌≡◌, refl}

-- The enumerators of `confstr_name`.
pub data ConfstrName : Type 0 where
  path v7_ilp32_off32_cflags v7_ilp32_off32_ldflags v7_ilp32_off32_libs : ConfstrName
  v7_ilp32_offbig_cflags v7_ilp32_offbig_ldflags v7_ilp32_offbig_libs : ConfstrName
  v7_lp64_off64_cflags v7_lp64_off64_ldflags v7_lp64_off64_libs : ConfstrName
  v7_lpbig_offbig_cflags v7_lpbig_offbig_ldflags v7_lpbig_offbig_libs : ConfstrName
  v7_threads_cflags v7_threads_ldflags v7_width_restricted_envs v7_env : ConfstrName
  v6_ilp32_off32_cflags v6_ilp32_off32_ldflags v6_ilp32_off32_libs : ConfstrName
  v6_ilp32_offbig_cflags v6_ilp32_offbig_ldflags v6_ilp32_offbig_libs : ConfstrName
  v6_lp64_off64_cflags v6_lp64_off64_ldflags v6_lp64_off64_libs : ConfstrName
  v6_lpbig_offbig_cflags v6_lpbig_offbig_ldflags v6_lpbig_offbig_libs : ConfstrName
  v6_width_restricted_envs v6_env : ConfstrName

-- The macros of <unistd.h> that give them their values.
pub data ConfstrMacro : Type 0 where
  cs_path cs_posix_v7_ilp32_off32_cflags cs_posix_v7_ilp32_off32_ldflags : ConfstrMacro
  cs_posix_v7_ilp32_off32_libs cs_posix_v7_ilp32_offbig_cflags : ConfstrMacro
  cs_posix_v7_ilp32_offbig_ldflags cs_posix_v7_ilp32_offbig_libs : ConfstrMacro
  cs_posix_v7_lp64_off64_cflags cs_posix_v7_lp64_off64_ldflags : ConfstrMacro
  cs_posix_v7_lp64_off64_libs cs_posix_v7_lpbig_offbig_cflags : ConfstrMacro
  cs_posix_v7_lpbig_offbig_ldflags cs_posix_v7_lpbig_offbig_libs : ConfstrMacro
  cs_posix_v7_threads_cflags cs_posix_v7_threads_ldflags : ConfstrMacro
  cs_posix_v7_width_restricted_envs cs_v7_env cs_posix_v6_ilp32_off32_cflags : ConfstrMacro
  cs_posix_v6_ilp32_off32_ldflags cs_posix_v6_ilp32_off32_libs : ConfstrMacro
  cs_posix_v6_ilp32_offbig_cflags cs_posix_v6_ilp32_offbig_ldflags : ConfstrMacro
  cs_posix_v6_ilp32_offbig_libs cs_posix_v6_lp64_off64_cflags : ConfstrMacro
  cs_posix_v6_lp64_off64_ldflags cs_posix_v6_lp64_off64_libs : ConfstrMacro
  cs_posix_v6_lpbig_offbig_cflags cs_posix_v6_lpbig_offbig_ldflags : ConfstrMacro
  cs_posix_v6_lpbig_offbig_libs cs_posix_v6_width_restricted_envs cs_v6_env : ConfstrMacro

unfoldable pub confstr_macro : ConfstrName → ConfstrMacro
confstr_macro path = cs_path
confstr_macro v7_ilp32_off32_cflags = cs_posix_v7_ilp32_off32_cflags
confstr_macro v7_ilp32_off32_ldflags = cs_posix_v7_ilp32_off32_ldflags
confstr_macro v7_ilp32_off32_libs = cs_posix_v7_ilp32_off32_libs
confstr_macro v7_ilp32_offbig_cflags = cs_posix_v7_ilp32_offbig_cflags
confstr_macro v7_ilp32_offbig_ldflags = cs_posix_v7_ilp32_offbig_ldflags
confstr_macro v7_ilp32_offbig_libs = cs_posix_v7_ilp32_offbig_libs
confstr_macro v7_lp64_off64_cflags = cs_posix_v7_lp64_off64_cflags
confstr_macro v7_lp64_off64_ldflags = cs_posix_v7_lp64_off64_ldflags
confstr_macro v7_lp64_off64_libs = cs_posix_v7_lp64_off64_libs
confstr_macro v7_lpbig_offbig_cflags = cs_posix_v7_lpbig_offbig_cflags
confstr_macro v7_lpbig_offbig_ldflags = cs_posix_v7_lpbig_offbig_ldflags
confstr_macro v7_lpbig_offbig_libs = cs_posix_v7_lpbig_offbig_libs
confstr_macro v7_threads_cflags = cs_posix_v7_threads_cflags
confstr_macro v7_threads_ldflags = cs_posix_v7_threads_ldflags
confstr_macro v7_width_restricted_envs = cs_posix_v7_width_restricted_envs
confstr_macro v7_env = cs_v7_env
confstr_macro v6_ilp32_off32_cflags = cs_posix_v6_ilp32_off32_cflags
confstr_macro v6_ilp32_off32_ldflags = cs_posix_v6_ilp32_off32_ldflags
confstr_macro v6_ilp32_off32_libs = cs_posix_v6_ilp32_off32_libs
confstr_macro v6_ilp32_offbig_cflags = cs_posix_v6_ilp32_offbig_cflags
confstr_macro v6_ilp32_offbig_ldflags = cs_posix_v6_ilp32_offbig_ldflags
confstr_macro v6_ilp32_offbig_libs = cs_posix_v6_ilp32_offbig_libs
confstr_macro v6_lp64_off64_cflags = cs_posix_v6_lp64_off64_cflags
confstr_macro v6_lp64_off64_ldflags = cs_posix_v6_lp64_off64_ldflags
confstr_macro v6_lp64_off64_libs = cs_posix_v6_lp64_off64_libs
confstr_macro v6_lpbig_offbig_cflags = cs_posix_v6_lpbig_offbig_cflags
confstr_macro v6_lpbig_offbig_ldflags = cs_posix_v6_lpbig_offbig_ldflags
confstr_macro v6_lpbig_offbig_libs = cs_posix_v6_lpbig_offbig_libs
confstr_macro v6_width_restricted_envs = cs_posix_v6_width_restricted_envs
confstr_macro v6_env = cs_v6_env

-- The enumerator that a macro belongs to.
pub confstr_name : ConfstrMacro → ConfstrName
confstr_name cs_path = path
confstr_name cs_posix_v7_ilp32_off32_cflags = v7_ilp32_off32_cflags
confstr_name cs_posix_v7_ilp32_off32_ldflags = v7_ilp32_off32_ldflags
confstr_name cs_posix_v7_ilp32_off32_libs = v7_ilp32_off32_libs
confstr_name cs_posix_v7_ilp32_offbig_cflags = v7_ilp32_offbig_cflags
confstr_name cs_posix_v7_ilp32_offbig_ldflags = v7_ilp32_offbig_ldflags
confstr_name cs_posix_v7_ilp32_offbig_libs = v7_ilp32_offbig_libs
confstr_name cs_posix_v7_lp64_off64_cflags = v7_lp64_off64_cflags
confstr_name cs_posix_v7_lp64_off64_ldflags = v7_lp64_off64_ldflags
confstr_name cs_posix_v7_lp64_off64_libs = v7_lp64_off64_libs
confstr_name cs_posix_v7_lpbig_offbig_cflags = v7_lpbig_offbig_cflags
confstr_name cs_posix_v7_lpbig_offbig_ldflags = v7_lpbig_offbig_ldflags
confstr_name cs_posix_v7_lpbig_offbig_libs = v7_lpbig_offbig_libs
confstr_name cs_posix_v7_threads_cflags = v7_threads_cflags
confstr_name cs_posix_v7_threads_ldflags = v7_threads_ldflags
confstr_name cs_posix_v7_width_restricted_envs = v7_width_restricted_envs
confstr_name cs_v7_env = v7_env
confstr_name cs_posix_v6_ilp32_off32_cflags = v6_ilp32_off32_cflags
confstr_name cs_posix_v6_ilp32_off32_ldflags = v6_ilp32_off32_ldflags
confstr_name cs_posix_v6_ilp32_off32_libs = v6_ilp32_off32_libs
confstr_name cs_posix_v6_ilp32_offbig_cflags = v6_ilp32_offbig_cflags
confstr_name cs_posix_v6_ilp32_offbig_ldflags = v6_ilp32_offbig_ldflags
confstr_name cs_posix_v6_ilp32_offbig_libs = v6_ilp32_offbig_libs
confstr_name cs_posix_v6_lp64_off64_cflags = v6_lp64_off64_cflags
confstr_name cs_posix_v6_lp64_off64_ldflags = v6_lp64_off64_ldflags
confstr_name cs_posix_v6_lp64_off64_libs = v6_lp64_off64_libs
confstr_name cs_posix_v6_lpbig_offbig_cflags = v6_lpbig_offbig_cflags
confstr_name cs_posix_v6_lpbig_offbig_ldflags = v6_lpbig_offbig_ldflags
confstr_name cs_posix_v6_lpbig_offbig_libs = v6_lpbig_offbig_libs
confstr_name cs_posix_v6_width_restricted_envs = v6_width_restricted_envs
confstr_name cs_v6_env = v6_env

-- Every enumerator of `confstr_name` is found again from the macro that it stands for, so no two
-- stand for the same macro.
pub confstr_name-macro : (n : ConfstrName) → confstr_name (confstr_macro n) ≡ n
unfolding confstr_name confstr_macro
confstr_name-macro path = refl
confstr_name-macro v7_ilp32_off32_cflags = refl
confstr_name-macro v7_ilp32_off32_ldflags = refl
confstr_name-macro v7_ilp32_off32_libs = refl
confstr_name-macro v7_ilp32_offbig_cflags = refl
confstr_name-macro v7_ilp32_offbig_ldflags = refl
confstr_name-macro v7_ilp32_offbig_libs = refl
confstr_name-macro v7_lp64_off64_cflags = refl
confstr_name-macro v7_lp64_off64_ldflags = refl
confstr_name-macro v7_lp64_off64_libs = refl
confstr_name-macro v7_lpbig_offbig_cflags = refl
confstr_name-macro v7_lpbig_offbig_ldflags = refl
confstr_name-macro v7_lpbig_offbig_libs = refl
confstr_name-macro v7_threads_cflags = refl
confstr_name-macro v7_threads_ldflags = refl
confstr_name-macro v7_width_restricted_envs = refl
confstr_name-macro v7_env = refl
confstr_name-macro v6_ilp32_off32_cflags = refl
confstr_name-macro v6_ilp32_off32_ldflags = refl
confstr_name-macro v6_ilp32_off32_libs = refl
confstr_name-macro v6_ilp32_offbig_cflags = refl
confstr_name-macro v6_ilp32_offbig_ldflags = refl
confstr_name-macro v6_ilp32_offbig_libs = refl
confstr_name-macro v6_lp64_off64_cflags = refl
confstr_name-macro v6_lp64_off64_ldflags = refl
confstr_name-macro v6_lp64_off64_libs = refl
confstr_name-macro v6_lpbig_offbig_cflags = refl
confstr_name-macro v6_lpbig_offbig_ldflags = refl
confstr_name-macro v6_lpbig_offbig_libs = refl
confstr_name-macro v6_width_restricted_envs = refl
confstr_name-macro v6_env = refl
