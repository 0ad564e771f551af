-- ===== src/Syslog/Laws.antt =====
-- A priority set holds what was put into it, and `setlogmask` hands the previous set back.
use pposix.Base.{
  ℕ, ◌*◌, ◌/◌, ◌%◌, ◌<◌, bit_or, refl, ◌^◌, ◌≡◌, ◌≢◌, ◌∙◌, ap, Bool, ◌||◌, List, [], ◌∷◌, arith,
  ◌==◌, any, shares, shares-bit_or, shares-pow, zero-shares,
}
use pposix.Base.Bits.{bit_or-below_eight}
use pposix.Errno.{World, Sys}
use pposix.Syslog.{
  SyslogPriority, SyslogFacility, SyslogMacro, facility_value, syslog, SyslogPrioritySet, SyslogApi,
  no_priorities, priority_value, set, test, set_all, of_list, setlogmask, to_mask, of_mask,
}
use mathlib.Core.Bool.{or_assoc}

module _ (m : SyslogMacro → ℕ) (log_mask : ℕ → ℕ) (one_bit : (p : ℕ) → log_mask p ≡ 2 ^ p) where
  abbrev same : SyslogPriority → SyslogPriority → Bool
  same q p = priority_value m p == priority_value m q

  -- `set` adds the one priority and changes the answer for no other.
  pub test-set :
      (s : SyslogPrioritySet) (p q : SyslogPriority)
      → test m log_mask (set m log_mask s p) q ≡ (test m log_mask s q || same q p)
  unfolding test set
  test-set s p q =
      rw (one_bit (priority_value m p), one_bit (priority_value m q))
        (shares-bit_or s.priority_mask_ (2 ^ priority_value m p) (2 ^ priority_value m q)
          ∙ ap (◌||◌ (shares s.priority_mask_ (2 ^ priority_value m q)))
              (shares-pow (priority_value m p) (priority_value m q)))

  test-set_all :
      (s : SyslogPrioritySet) (ps : List SyslogPriority) (q : SyslogPriority)
      → test m log_mask (set_all m log_mask s ps) q ≡ (test m log_mask s q || any (same q) ps)
  unfolding set_all
  test-set_all s [] q = ground arith
  test-set_all s (p ∷ ps) q =
      test-set_all (set m log_mask s p) ps q
      ∙ ap (λ b. b || any (same q) ps) (test-set s p q)
      ∙ or_assoc (test m log_mask s q) (same q p) (any (same q) ps)

  -- With LOG_MASK(p) the single bit p, a set made from a list of priorities tests true for a
  -- priority exactly when one with its number is in the list.
  pub test-of_list :
      (ps : List SyslogPriority) (q : SyslogPriority)
      → test m log_mask (of_list m log_mask ps) q ≡ any (same q) ps
  unfolding of_list test
  test-of_list ps q =
      test-set_all no_priorities ps q
      ∙ ap (λ b. b || any (same q) ps) (zero-shares (log_mask (priority_value m q)))

module _ {K : Type 0} (os : SyslogApi K) (current : K → ℕ) where
  -- With a kernel that answers with the mask so far and keeps a mask that is not zero, what
  -- `setlogmask` returns is the set that the call before put there.
  pub setlogmask-setlogmask :
      ((n : ℕ) (w : World K) → (os.setlogmask n w).0 ≡ current w.kernel)
      → ((n : ℕ) (w : World K) → n ≢ 0 → current (os.setlogmask n w).1.kernel ≡ n)
      → (s t : SyslogPrioritySet) (w : World K) → to_mask s ≢ 0
      → (setlogmask os t (setlogmask os s w).1).0 ≡ s
  unfolding setlogmask to_mask of_mask
  setlogmask-setlogmask answers keeps s t w some =
      ap of_mask (answers (to_mask t) (os.setlogmask (to_mask s) w).1 ∙ keeps (to_mask s) w some)

-- When the priorities are the numbers below 8 and a facility is a multiple of 8, as <syslog.h> has
-- them, `syslog` makes one call of `::syslog`, with a number whose remainder by 8 is the priority and
-- whose quotient is that of the facility: neither hides a part of the other.
pub syslog_lem :
    {K A : Type 0} (posix_syslog : ℕ → ℕ → A → Sys K (Unit {0})) (m : SyslogMacro → ℕ)
    (priority : SyslogPriority) (facility : SyslogFacility) (c format : ℕ) (args : A)
    → priority_value m priority < 8
    → facility_value m facility ≡ 8 * c
    → (n : ℕ) × (syslog posix_syslog m priority facility format args ≡ posix_syslog n format args)
      × (n % 8 ≡ priority_value m priority)
      × (n / 8 ≡ c)
unfolding syslog
syslog_lem posix_syslog m priority facility c format args below multiple =
    let p = priority_value m priority in
    let sum = bit_or-below_eight p c below in
    (bit_or p (8 * c), rw multiple refl, rw sum (omega arith), rw sum (omega arith))
