-- ===== src/Syslog.antt =====
-- include/pposix/syslog.hpp and src/syslog.cpp: priorities and sets of them, and the wrappers.
-- LOG_MASK and the other macros of <syslog.h> are parameters.
pub mod Laws
pub mod Session
use pposix.Base.{ℕ, List, [], ◌∷◌, Bool, to_bool, bit_and, bit_or}
use pposix.Errno.{Sys, ◌>>=◌, ◌>>◌, pure}

pub data SyslogPriority : Type 0 where
  emergency alert critical error warning notice info debug : SyslogPriority

pub data SyslogFacility : Type 0 where
  kernel user mail news uucp daemon auth cron printer : SyslogFacility
  local0 local1 local2 local3 local4 local5 local6 local7 : SyslogFacility

pub data SyslogMacro : Type 0 where
  log_emerg log_alert log_crit log_err log_warning log_notice log_info log_debug : SyslogMacro
  log_kern log_user log_mail log_news log_uucp log_daemon log_auth log_cron log_lpr : SyslogMacro
  log_local0 log_local1 log_local2 log_local3 log_local4 log_local5 log_local6 : SyslogMacro
  log_local7 log_pid log_cons log_ndelay log_odelay log_nowait : SyslogMacro

unfoldable pub priority_value : (SyslogMacro → ℕ) → SyslogPriority → ℕ
priority_value m emergency = m log_emerg
priority_value m alert = m log_alert
priority_value m critical = m log_crit
priority_value m error = m log_err
priority_value m warning = m log_warning
priority_value m notice = m log_notice
priority_value m info = m log_info
priority_value m debug = m log_debug

unfoldable pub facility_value : (SyslogMacro → ℕ) → SyslogFacility → ℕ
facility_value m kernel = m log_kern
facility_value m user = m log_user
facility_value m mail = m log_mail
facility_value m news = m log_news
facility_value m uucp = m log_uucp
facility_value m daemon = m log_daemon
facility_value m auth = m log_auth
facility_value m cron = m log_cron
facility_value m printer = m log_lpr
facility_value m local0 = m log_local0
facility_value m local1 = m log_local1
facility_value m local2 = m log_local2
facility_value m local3 = m log_local3
facility_value m local4 = m log_local4
facility_value m local5 = m log_local5
facility_value m local6 = m log_local6
facility_value m local7 = m log_local7

-- `syslog_option`, an enumeration of bit patterns.
pub record SyslogOption : Type 0 where
  pub bits : ℕ

pub data SyslogOptionName : Type 0 where
  log_pid log_to_console open_immediately open_on_first_log no_wait : SyslogOptionName

unfoldable pub option_value : (SyslogMacro → ℕ) → SyslogOptionName → SyslogOption
option_value m SyslogOptionName.log_pid = record { bits = m SyslogMacro.log_pid }
option_value m log_to_console = record { bits = m log_cons }
option_value m open_immediately = record { bits = m log_ndelay }
option_value m open_on_first_log = record { bits = m log_odelay }
option_value m no_wait = record { bits = m log_nowait }

-- `operator|` on options
unfoldable pub option_or : SyslogOption → SyslogOption → SyslogOption
option_or lhs rhs = record { bits = bit_or lhs.bits rhs.bits }

-- `syslog_priority_set`; the mask is an `int`, here its bit pattern.
pub record SyslogPrioritySet : Type 0 where
  pub priority_mask_ : ℕ

-- The default constructor.
abbrev pub no_priorities : SyslogPrioritySet
no_priorities = record { priority_mask_ = 0 }

-- The private constructor from a mask, and `to_mask`.
unfoldable pub of_mask : ℕ → SyslogPrioritySet
of_mask mask = record { priority_mask_ = mask }

unfoldable pub to_mask : SyslogPrioritySet → ℕ
to_mask s = s.priority_mask_

module _ (m : SyslogMacro → ℕ) (log_mask : ℕ → ℕ) where
  unfoldable pub set : SyslogPrioritySet → SyslogPriority → SyslogPrioritySet
  unfolding priority_value
  set s priority = record s {
    priority_mask_ = bit_or s.priority_mask_ (log_mask (priority_value m priority));
  }

  unfoldable pub test : SyslogPrioritySet → SyslogPriority → Bool
  unfolding priority_value
  test s priority = to_bool (bit_and s.priority_mask_ (log_mask (priority_value m priority)))

  -- The loop of the constructor from an initializer list, on the set so far.
  unfoldable pub set_all : SyslogPrioritySet → List SyslogPriority → SyslogPrioritySet
  unfolding set
  set_all s [] = s
  set_all s (p ∷ ps) = set_all (set s p) ps

  unfoldable pub of_list : List SyslogPriority → SyslogPrioritySet
  unfolding set_all
  of_list ps = set_all no_priorities ps

-- The calls of <syslog.h>; texts are addresses.
pub record SyslogApi (K : Type 0) : Type 0 where
  pub openlog : ℕ → ℕ → ℕ → Sys K (Unit {0})
  pub setlogmask : ℕ → Sys K ℕ
  pub closelog : Sys K (Unit {0})

module _ {K : Type 0} (os : SyslogApi K) where
  unfoldable pub openlog : (SyslogMacro → ℕ) → ℕ → SyslogOption → SyslogFacility → Sys K (Unit {0})
  unfolding facility_value
  openlog m identifier options facility =
      os.openlog identifier options.bits (facility_value m facility)

  -- The overload for a `std::string`, whose characters are at the address `c_str`.
  unfoldable pub openlog_string :
      {S : Type 0}
      → (S → ℕ)
      → (SyslogMacro → ℕ)
      → S
      → SyslogOption
      → SyslogFacility
      → Sys K (Unit {0})
  unfolding openlog
  openlog_string c_str m identifier options facility = openlog m (c_str identifier) options facility

  unfoldable pub setlogmask : SyslogPrioritySet → Sys K SyslogPrioritySet
  unfolding of_mask to_mask
  setlogmask priorities = do old ← os.setlogmask (to_mask priorities); pure (of_mask old)

  unfoldable pub closelog : Sys K (Unit {0})
  closelog = os.closelog

-- The template `syslog` with a facility, over `::syslog` with a format at an address and the arguments
-- of the template.
unfoldable pub syslog :
    {K A : Type 0}
    → (ℕ → ℕ → A → Sys K (Unit {0}))
    → (SyslogMacro → ℕ)
    → SyslogPriority
    → SyslogFacility
    → ℕ
    → A
    → Sys K (Unit {0})
unfolding priority_value facility_value
syslog posix_syslog m priority facility format args =
    posix_syslog (bit_or (priority_value m priority) (facility_value m facility)) format args
