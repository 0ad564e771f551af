-- ===== src/Tests/Logging.antt =====
-- A program that sets the mask of the log and logs, over a system that keeps both.
use pposix.Base.{
  ℕ, ◌*◌, ◌%◌, ◌<◌, ◌^◌, ◌≡◌, refl, List, [], ◌∷◌, map, arith, ◌==◌, if◌then◌else◌, to_bool,
  bit_and, pos,
}
use pposix.Errno.{World, Sys}
use pposix.Syslog.{
  SyslogMacro, SyslogPriority, SyslogFacility, SyslogApi, priority_value, facility_value, test,
  of_mask, log_emerg, log_alert, log_crit, log_err, log_warning, log_notice, log_info, log_debug,
  log_kern, log_user, log_mail, log_daemon, log_auth, log_lpr, log_news, log_uucp, log_cron,
  log_local0, log_local1, log_local2, log_local3, log_local4, log_local5, log_local6, log_local7,
}
use pposix.Syslog.Session.{LogCall, masks, logs, KeepsLog, log_run, replay, replay_step}
use pposix.Syslog.Session.Refinement.{split, session_lem}

record LogKernel : Type 0 where
  mask : ℕ
  log : List (ℕ × ℕ × ℕ)

abbrev syslog_api : SyslogApi LogKernel
syslog_api = record {
  openlog = λ ident options facility w. (tt, w);
  setlogmask = λ n w.
      (w.kernel.mask, if n == 0 then w else record w { kernel = record (w.kernel) { mask = n } });
  closelog = λ w. (tt, w);
}

abbrev bit : ℕ → ℕ
bit p = 2 ^ p

-- `::syslog` with one number for its arguments.
abbrev log_message : ℕ → ℕ → ℕ → Sys LogKernel (Unit {0})
log_message n format args w = (
  tt,
  if to_bool (bit_and w.kernel.mask (bit (n % 8)))
      then record w { kernel = record (w.kernel) { log = (n, format, args) ∷ w.kernel.log } }
      else w,
)

keeps : KeepsLog syslog_api log_message bit (λ (k : LogKernel). k.mask) (λ (k : LogKernel). k.log)
keeps = record {
  answers = λ n w. refl;
  masks_next = λ n w. ground arith;
  masks_no_entry = λ n w. ground arith;
  logs_entry = λ n format args w. ground arith;
  logs_keep_mask = λ n format args w. ground arith;
}

-- The numbers of Linux.
abbrev macros : SyslogMacro → ℕ
macros log_emerg = 0
macros log_alert = 1
macros log_crit = 2
macros log_err = 3
macros log_warning = 4
macros log_notice = 5
macros log_info = 6
macros log_debug = 7
macros log_kern = 0
macros log_user = 8
macros log_mail = 16
macros log_daemon = 24
macros log_auth = 32
macros log_lpr = 48
macros log_news = 56
macros log_uucp = 64
macros log_cron = 72
macros log_local0 = 128
macros log_local1 = 136
macros log_local2 = 144
macros log_local3 = 152
macros log_local4 = 160
macros log_local5 = 168
macros log_local6 = 176
macros log_local7 = 184
macros other = 0

abbrev code : SyslogFacility → ℕ
code SyslogFacility.kernel = 0
code SyslogFacility.user = 1
code SyslogFacility.mail = 2
code SyslogFacility.news = 7
code SyslogFacility.uucp = 8
code SyslogFacility.daemon = 3
code SyslogFacility.auth = 4
code SyslogFacility.cron = 9
code SyslogFacility.printer = 6
code SyslogFacility.local0 = 16
code SyslogFacility.local1 = 17
code SyslogFacility.local2 = 18
code SyslogFacility.local3 = 19
code SyslogFacility.local4 = 20
code SyslogFacility.local5 = 21
code SyslogFacility.local6 = 22
code SyslogFacility.local7 = 23

below : (p : SyslogPriority) → priority_value macros p < 8
unfolding priority_value
below SyslogPriority.emergency = omega arith
below SyslogPriority.alert = omega arith
below SyslogPriority.critical = omega arith
below SyslogPriority.error = omega arith
below SyslogPriority.warning = omega arith
below SyslogPriority.notice = omega arith
below SyslogPriority.info = omega arith
below SyslogPriority.debug = omega arith

multiple : (f : SyslogFacility) → facility_value macros f ≡ 8 * code f
unfolding facility_value
multiple SyslogFacility.kernel = refl
multiple SyslogFacility.user = refl
multiple SyslogFacility.mail = refl
multiple SyslogFacility.news = refl
multiple SyslogFacility.uucp = refl
multiple SyslogFacility.daemon = refl
multiple SyslogFacility.auth = refl
multiple SyslogFacility.cron = refl
multiple SyslogFacility.printer = refl
multiple SyslogFacility.local0 = refl
multiple SyslogFacility.local1 = refl
multiple SyslogFacility.local2 = refl
multiple SyslogFacility.local3 = refl
multiple SyslogFacility.local4 = refl
multiple SyslogFacility.local5 = refl
multiple SyslogFacility.local6 = refl
multiple SyslogFacility.local7 = refl

abbrev at_start : World LogKernel
at_start = record { errno = pos 0; kernel = record { mask = 255; log = [] } }

-- A debug message passes at first, not after a set without it, and an empty set changes nothing.
abbrev program : List (LogCall ℕ)
program =
    logs SyslogPriority.debug SyslogFacility.user 10 1
    ∷ masks (SyslogPriority.error ∷ SyslogPriority.alert ∷ [])
    ∷ logs SyslogPriority.debug SyslogFacility.user 20 2
    ∷ masks []
    ∷ logs SyslogPriority.error SyslogFacility.daemon 30 3
    ∷ []

session_lem_example :
    let s =
      log_run syslog_api log_message macros bit program
        (record { world = at_start; returned = [] }) in
    (map split s.world.kernel.log ≡ (3, 3, 30, 3) ∷ (7, 1, 10, 1) ∷ [])
    × ((q : SyslogPriority)
        → map (λ r. test macros bit r q) s.returned
          ≡ map
              (λ f. f q)
              (replay macros code program (record {
                passes = λ p. test macros bit (of_mask 255) p;
                passed = [];
                entries = [];
              })).passed)
    × ((q : SyslogPriority)
        → test macros bit (of_mask s.world.kernel.mask) q
          ≡ (replay macros code program (record {
            passes = λ p. test macros bit (of_mask 255) p;
            passed = [];
            entries = [];
          })).passes
              q)
unfolding replay replay_step test of_mask priority_value
session_lem_example =
    session_lem syslog_api log_message macros bit code (λ (k : LogKernel). k.mask)
      (λ (k : LogKernel). k.log) (λ p. refl) below multiple keeps program at_start
