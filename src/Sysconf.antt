-- ===== src/Sysconf.antt =====
-- include/pposix/sysconf.hpp and src/sysconf.cpp.
pub mod Names
use pposix.Base.{ℤ, pos, minus_one, ◌==ℤ◌, ◌≡◌, refl, Bool, not, ◌&&◌, arith, if◌then◌else◌}
use pposix.Errno.{World, Sys, is_error, ◌>>=◌, ◌>>◌, pure, current_errno_code, make_errno_code}
use pposix.Errno.Context.{scoped, scoped_lem}
use pposix.Result.{Result, ok, err}
use Names.{SystemConfigName, SystemConfigMacro, system_config_macro}

-- `system_config_value`, a `long`
abbrev pub SystemConfigValue : Type 0
SystemConfigValue = ℤ

module _ {K : Type 0} (m : SystemConfigMacro → ℤ) (os_sysconf : ℤ → Sys K ℤ) where
  -- The body of `sysconf` below the `errno_context`.
  sysconf_body : SystemConfigName → Sys K (Result SystemConfigValue)
  unfolding current_errno_code
  sysconf_body config_name = do
    value ← os_sysconf (m (system_config_macro config_name))
    if not (value ==ℤ minus_one) then pure (ok value) else do
      error ← current_errno_code
      if is_error error then pure (err error) else pure (ok value)

  unfoldable pub sysconf : SystemConfigName → Sys K (Result SystemConfigValue)
  unfolding sysconf_body
  sysconf config_name = scoped (λ errno_ctx. sysconf_body config_name)

  -- `sysconf` makes one call, with `errno` clear. It fails, with the code in `errno`, exactly when
  -- that call returned -1 and set `errno`; -1 with `errno` still clear is the value of a setting
  -- that has no limit. The caller's `errno` is the same afterwards.
  pub sysconf_lem :
      (n : SystemConfigName) (w : World K)
      → let called = os_sysconf (m (system_config_macro n)) (record w { errno = pos 0 }) in
        sysconf n w ≡ (
          if (called.0 ==ℤ minus_one) && not (called.1.errno ==ℤ pos 0)
              then err (make_errno_code called.1.errno)
              else ok called.0,
          record { errno = w.errno; kernel = called.1.kernel },
        )
  unfolding sysconf make_errno_code
  sysconf_lem n w = rw scoped_lem (ground arith)
