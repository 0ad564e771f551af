-- ===== src/Syslog/Session.antt =====
-- A program that sets the mask of the log and logs messages, and what it is to see: the messages whose
-- priority is in the set that it gave last.
pub mod Refinement
use pposix.Base.{
  ℕ, ◌+◌, ◌*◌, ◌/◌, ◌%◌, ◌<◌, ◌≡◌, bit_or, bit_and, Bool, List, [], ◌∷◌, map, any, ◌==◌,
  if◌then◌else◌, to_bool,
}
use pposix.Errno.{World, Sys}
use pposix.Syslog.{
  SyslogPriority, SyslogFacility, SyslogMacro, SyslogPrioritySet, SyslogApi, priority_value,
  of_list, setlogmask, syslog,
}

-- A call of the program: `setlogmask` with a set from a list, or `syslog` with a facility, a format and
-- arguments.
pub data LogCall (A : Type 0) : Type 0 where
  masks : List SyslogPriority → LogCall A
  logs : SyslogPriority → SyslogFacility → ℕ → A → LogCall A

-- An entry of the log: the numbers of priority and facility, the format and the arguments.
abbrev pub Entry : Type 0 → Type 0
Entry A = ℕ × ℕ × ℕ × A

-- What <syslog.h> says of the two calls. `mask_of` is the mask in force and `log_of` the log, the
-- newest entry first, with the one number that says priority and facility.
pub record KeepsLog {K A : Type 0} (os : SyslogApi K) (posix_syslog : ℕ → ℕ → A → Sys K (Unit {0}))
    (log_mask : ℕ → ℕ) (mask_of : K → ℕ) (log_of : K → List (ℕ × ℕ × A)) : Type 0 where
  -- It answers with the mask in force; a mask of 0 asks for nothing else.
  pub answers : (n : ℕ) (w : World K) → (os.setlogmask n w).0 ≡ mask_of w.kernel
  pub masks_next :
      (n : ℕ) (w : World K)
      → mask_of (os.setlogmask n w).1.kernel ≡ (if n == 0 then mask_of w.kernel else n)
  pub masks_no_entry : (n : ℕ) (w : World K) → log_of (os.setlogmask n w).1.kernel ≡ log_of w.kernel
  -- A message is logged when the bit of its priority, the remainder by 8, is in the mask.
  pub logs_entry :
      (n format : ℕ) (args : A) (w : World K)
      → log_of (posix_syslog n format args w).1.kernel ≡ (
          if to_bool (bit_and (mask_of w.kernel) (log_mask (n % 8)))
          then (n, format, args) ∷ log_of w.kernel
          else log_of w.kernel)
  pub logs_keep_mask :
      (n format : ℕ) (args : A) (w : World K)
      → mask_of (posix_syslog n format args w).1.kernel ≡ mask_of w.kernel

-- The program so far: the world, and the sets that `setlogmask` returned, the newest first.
pub record Logging (K : Type 0) : Type 0 where
  pub world : World K
  pub returned : List SyslogPrioritySet

module _ {K A : Type 0} (os : SyslogApi K) (posix_syslog : ℕ → ℕ → A → Sys K (Unit {0}))
    (m : SyslogMacro → ℕ) (log_mask : ℕ → ℕ) where
  unfoldable pub log_step : LogCall A → Logging K → Logging K
  log_step (masks ps) s =
      let (old, w) = setlogmask os (of_list m log_mask ps) s.world in
      record { world = w; returned = old ∷ s.returned }
  log_step (logs p f format args) s = record s {
    world = (syslog posix_syslog m p f format args s.world).1;
  }

  unfoldable pub log_run : List (LogCall A) → Logging K → Logging K
  log_run [] s = s
  log_run (c ∷ cs) s = log_run cs (log_step c s)

-- What the program is to see: the priorities that pass, those that passed before each `setlogmask`,
-- and the log.
pub record Session (A : Type 0) : Type 0 where
  pub passes : SyslogPriority → Bool
  pub passed : List (SyslogPriority → Bool)
  pub entries : List (Entry A)

-- Is there a priority with this one's number in the list?
abbrev pub is_in : (SyslogMacro → ℕ) → List SyslogPriority → SyslogPriority → Bool
is_in m ps q = any (λ p. priority_value m p == priority_value m q) ps

module _ {A : Type 0} (m : SyslogMacro → ℕ) (code : SyslogFacility → ℕ) where
  -- An empty set changes nothing.
  unfoldable pub replay_step : LogCall A → Session A → Session A
  replay_step (masks []) t = record t { passed = t.passes ∷ t.passed }
  replay_step (masks (p ∷ ps)) t = record t {
    passes = is_in m (p ∷ ps);
    passed = t.passes ∷ t.passed;
  }
  replay_step (logs p f format args) t = record t {
    entries =
        if t.passes p then (priority_value m p, code f, format, args) ∷ t.entries else t.entries;
  }

  unfoldable pub replay : List (LogCall A) → Session A → Session A
  replay [] t = t
  replay (c ∷ cs) t = replay cs (replay_step c t)
