-- ===== src/Tests/Calls.antt =====
-- `sysconf`, `confstr` and the system log.
use pposix.Base.{
  ℕ, ℤ, pos, minus_one, ◌<◌, ◌≡◌, refl, [], ◌∷◌, true, arith, ◌==◌, ◌==ℤ◌, ◌^◌, if◌then◌else◌,
}
use pposix.Errno.{World, Sys}
use pposix.Result.{ok}
use pposix.Sysconf.{sysconf, sysconf_lem}
use pposix.Sysconf.Names.{
  SystemConfigMacro, hild_max, system_config_macro, sc_open_max, sc_child_max,
}
use pposix.Confstr.{confstr}
use pposix.Confstr.Names.{ConfstrMacro, path}
use pposix.Confstr.Laws.{confstr_overrun}
use pposix.Span.Chars.{CharSpan, char_span_of, char_span_end}
use pposix.Syslog.{
  SyslogMacro, SyslogApi, alert, error, of_list, priority_value, test, log_emerg, log_alert,
  log_crit, log_err, log_warning, log_notice, log_info, log_debug, log_daemon,
}
use pposix.Syslog.Laws.{test-of_list}
use pposix.Tests.Kernel.{Kernel, kernel, world}

-- A kernel where setting 4 is 1024, setting 1 has no limit, and every other name is unknown.
abbrev kernel_sysconf : ℤ → Sys Kernel ℤ
kernel_sysconf n w =
    if n ==ℤ pos 4
    then (pos 1024, w)
    else if n ==ℤ pos 1
    then (minus_one, w)
    else (minus_one, record w { errno = pos 22 })

abbrev sysconf_macros : SystemConfigMacro → ℤ
sysconf_macros sc_open_max = pos 4
sysconf_macros sc_child_max = pos 1
sysconf_macros other = pos 99

-- A setting with no limit, read while the caller's `errno` is 7.
sysconf_lem_example :
    sysconf sysconf_macros kernel_sysconf hild_max (world (pos 7) (kernel [] 0))
    ≡ (ok minus_one, world (pos 7) (kernel [] 0))
unfolding system_config_macro
sysconf_lem_example =
    sysconf_lem sysconf_macros kernel_sysconf hild_max (world (pos 7) (kernel [] 0))

-- A kernel whose every string takes 14 bytes.
abbrev kernel_confstr : ℤ → ℕ → ℕ → Sys Kernel ℕ
kernel_confstr n buffer size w = (14, w)

abbrev confstr_macros : ConfstrMacro → ℤ
confstr_macros other = pos 0

abbrev quiet : World Kernel
quiet = world (pos 0) (kernel [] 0)

confstr_overrun_example :
    (t : CharSpan) × ((confstr confstr_macros kernel_confstr path (char_span_of 4096 10) quiet).0
      ≡ ok t)
    × (t.buffer_ ≡ 4096)
    × (char_span_end (char_span_of 4096 10) < char_span_end t)
confstr_overrun_example =
    confstr_overrun confstr_macros kernel_confstr path (char_span_of 4096 10) quiet refl
      (omega arith) (omega arith)

abbrev syslog_macros : SyslogMacro → ℕ
syslog_macros log_emerg = 0
syslog_macros log_alert = 1
syslog_macros log_crit = 2
syslog_macros log_err = 3
syslog_macros log_warning = 4
syslog_macros log_notice = 5
syslog_macros log_info = 6
syslog_macros log_debug = 7
syslog_macros log_daemon = 24
syslog_macros other = 0

abbrev bit : ℕ → ℕ
bit p = 2 ^ p

test-of_list_example :
    test syslog_macros bit (of_list syslog_macros bit (error ∷ alert ∷ error ∷ [])) alert ≡ true
unfolding priority_value
test-of_list_example = test-of_list syslog_macros bit (λ p. refl) (error ∷ alert ∷ error ∷ []) alert

-- `setlogmask` of a kernel that keeps the mask.
abbrev syslog_api : SyslogApi Kernel
syslog_api = record {
  openlog = λ ident options facility w. (tt, w);
  setlogmask = λ n w.
      (w.kernel.mask, if n == 0 then w else record w { kernel = record (w.kernel) { mask = n } });
  closelog = λ w. (tt, w);
}

-- What was logged last is the mask of this kernel.
abbrev log : ℕ → ℕ → ℕ → Sys Kernel (Unit {0})
log n format argument w = (tt, record w { kernel = record (w.kernel) { mask = n } })
