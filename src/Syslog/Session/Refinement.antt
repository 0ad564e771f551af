-- ===== src/Syslog/Session/Refinement.antt =====
-- `setlogmask`, `syslog` and the priority sets implement the session that a program is to see.
use pposix.Base.{
  ℕ, ◌*◌, ◌/◌, ◌%◌, ◌<◌, ◌^◌, ◌≡◌, refl, sym, ap, ap₂, ◌∙◌, bit_or, Bool, true, false, List, [],
  ◌∷◌, map, ◌==◌, ==_iff, if◌then◌else◌, Bool-cases, inl, inr, arith, zero-shares, shares,
}
use mathlib.Core.Bool.{true≢false}
use pposix.Base.Bits.{bit_or-below_eight}
use pposix.Errno.{World, Sys}
use pposix.Syslog.{
  SyslogPriority, SyslogFacility, SyslogMacro, SyslogApi, priority_value, facility_value, of_list,
  of_mask, to_mask, test, setlogmask, syslog,
}
use pposix.Syslog.Laws.{test-of_list}
use pposix.Syslog.Session.{
  LogCall, masks, logs, Entry, KeepsLog, Logging, log_step, log_run, Session, is_in, replay_step,
  replay,
}

-- An entry with the numbers of priority and facility told apart.
abbrev pub split : {A : Type 0} → ℕ × ℕ × A → Entry A
split (n, format, args) = (n % 8, n / 8, format, args)

module _ {K A : Type 0} (os : SyslogApi K) (posix_syslog : ℕ → ℕ → A → Sys K (Unit {0}))
    (m : SyslogMacro → ℕ) (log_mask : ℕ → ℕ) (code : SyslogFacility → ℕ) (mask_of : K → ℕ)
    (log_of : K → List (ℕ × ℕ × A)) (one_bit : (p : ℕ) → log_mask p ≡ 2 ^ p)
    (below : (p : SyslogPriority) → priority_value m p < 8)
    (multiple : (f : SyslogFacility) → facility_value m f ≡ 8 * code f)
    (keeps : KeepsLog os posix_syslog log_mask mask_of log_of) where
  -- The set in force, as `test` sees it.
  abbrev pub in_force : K → SyslogPriority → Bool
  in_force k q = test m log_mask (of_mask (mask_of k)) q

  record Shows (s : Logging K) (t : Session A) : Type 0 where
    passes_shown : (q : SyslogPriority) → in_force s.world.kernel q ≡ t.passes q
    passed_shown :
        (q : SyslogPriority) → map (λ r. test m log_mask r q) s.returned ≡ map (λ f. f q) t.passed
    entries_shown : map split (log_of s.world.kernel) ≡ t.entries

  -- A set that is not empty has a mask other than 0.
  some_mask :
      (p : SyslogPriority) (ps : List SyslogPriority)
      → (to_mask (of_list m log_mask (p ∷ ps)) == 0) ≡ false
  unfolding to_mask test
  some_mask p ps = elim (Bool-cases (to_mask (of_list m log_mask (p ∷ ps)) == 0)) [
    | inl none ↦
        let zero : (of_list m log_mask (p ∷ ps)).priority_mask_ ≡ 0 = (==_iff _ 0).0 none in
        let listed : is_in m (p ∷ ps) p ≡ true = rw ((==_iff (priority_value m p) _).1 refl) refl in
        let tested : test m log_mask (of_list m log_mask (p ∷ ps)) p ≡ true =
          test-of_list m log_mask one_bit (p ∷ ps) p ∙ listed in
        absurd (
          true≢false (
            sym tested
            ∙ ap (λ (n : ℕ). shares n (log_mask (priority_value m p))) zero
            ∙ zero-shares (log_mask (priority_value m p))))
    | inr some ↦ some
  ]

  -- The number that `syslog` passes tells priority and facility apart.
  number_splits :
      (p : SyslogPriority) (f : SyslogFacility)
      → let n = bit_or (priority_value m p) (facility_value m f) in
        (n % 8 ≡ priority_value m p) × (n / 8 ≡ code f)
  number_splits p f =
      let small = below p in
      let sum = bit_or-below_eight (priority_value m p) (code f) small in
      rw (multiple f, sum) (omega (arith, small), omega (arith, small))

  -- The set that `setlogmask` returns is the one that was in force.
  answer_shown :
      (n : ℕ) (w : World K) (q : SyslogPriority)
      → test m log_mask (of_mask (os.setlogmask n w).0) q ≡ in_force w.kernel q
  answer_shown n w q = rw (keeps.answers n w)

  masks_nothing-Shows :
      (s : Logging K) (t : Session A)
      → Shows s t
      → Shows (log_step os posix_syslog m log_mask (masks []) s) (replay_step m code (masks []) t)
  unfolding log_step replay_step setlogmask of_list to_mask
  masks_nothing-Shows s t h = record {
    passes_shown = λ q. rw (keeps.masks_next 0 s.world) (h.passes_shown q);
    passed_shown = λ q. ap₂ ◌∷◌ (answer_shown 0 s.world q ∙ h.passes_shown q) (h.passed_shown q);
    entries_shown = rw (keeps.masks_no_entry 0 s.world) h.entries_shown;
  }

  masks_some-Shows :
      (p : SyslogPriority) (ps : List SyslogPriority) (s : Logging K) (t : Session A)
      → Shows s t
      → Shows
          (log_step os posix_syslog m log_mask (masks (p ∷ ps)) s)
          (replay_step m code (masks (p ∷ ps)) t)
  unfolding log_step replay_step setlogmask to_mask of_mask
  masks_some-Shows p ps s t h =
      let n = to_mask (of_list m log_mask (p ∷ ps)) in
      record {
        passes_shown = λ q.
            rw (keeps.masks_next n s.world, some_mask p ps)
              (test-of_list m log_mask one_bit (p ∷ ps) q);
        passed_shown =
            λ q. ap₂ ◌∷◌ (answer_shown n s.world q ∙ h.passes_shown q) (h.passed_shown q);
        entries_shown = rw (keeps.masks_no_entry n s.world) h.entries_shown;
      }

  -- Whether a message is logged is what `test` says of its priority.
  entry_shown :
      (p : SyslogPriority) (n format : ℕ) (args : A) (w : World K)
      → n % 8 ≡ priority_value m p
      → map split (log_of (posix_syslog n format args w).1.kernel) ≡ (
          if in_force w.kernel p
          then (priority_value m p, n / 8, format, args) ∷ map split (log_of w.kernel)
          else map split (log_of w.kernel))
  unfolding test of_mask
  entry_shown p n format args w e = elim (Bool-cases (in_force w.kernel p)) [
    | inl h ↦
        rw (keeps.logs_entry n format args w, e, h)
          (ap (λ (k : ℕ). (k, n / 8, format, args) ∷ map split (log_of w.kernel)) e)
    | inr h ↦ rw (keeps.logs_entry n format args w, e, h)
  ]

  logs-Shows :
      (p : SyslogPriority) (f : SyslogFacility) (format : ℕ) (args : A) (s : Logging K)
      (t : Session A)
      → Shows s t
      → Shows
          (log_step os posix_syslog m log_mask (logs p f format args) s)
          (replay_step m code (logs p f format args) t)
  unfolding log_step replay_step syslog
  logs-Shows p f format args s t h =
      let n = bit_or (priority_value m p) (facility_value m f) in
      record {
        passes_shown = λ q. rw (keeps.logs_keep_mask n format args s.world) (h.passes_shown q);
        passed_shown = h.passed_shown;
        entries_shown =
            entry_shown p n format args s.world (number_splits p f).0
            ∙ rw (h.passes_shown p, h.entries_shown, (number_splits p f).1) refl;
      }

  step-Shows :
      (c : LogCall A) (s : Logging K) (t : Session A)
      → Shows s t
      → Shows (log_step os posix_syslog m log_mask c s) (replay_step m code c t)
  step-Shows (masks []) s t h = masks_nothing-Shows s t h
  step-Shows (masks (p ∷ ps)) s t h = masks_some-Shows p ps s t h
  step-Shows (logs p f format args) s t h = logs-Shows p f format args s t h

  run-Shows :
      (cs : List (LogCall A)) (s : Logging K) (t : Session A)
      → Shows s t
      → Shows (log_run os posix_syslog m log_mask cs s) (replay m code cs t)
  unfolding log_run replay
  run-Shows [] s t h = h
  run-Shows (c ∷ cs) s t h =
      run-Shows cs (log_step os posix_syslog m log_mask c s) (replay_step m code c t)
        (step-Shows c s t h)

  -- With LOG_MASK(p) the single bit p, the priorities the numbers below 8, the facilities multiples
  -- of 8, and a system that keeps its mask and its log, every program of `setlogmask` with sets made
  -- from lists and of `syslog` sees its session: the log has, in order, the messages whose priority
  -- was in the last list given that was not empty, or in the first mask, each with its priority and
  -- facility told apart; every set that `setlogmask` returned tests true for exactly the
  -- priorities that passed before that call; and so does the mask in force at the end.
  pub session_lem :
      (cs : List (LogCall A)) (w : World K)
      → let s = log_run os posix_syslog m log_mask cs (record { world = w; returned = [] }) in
        let t = replay m code cs (record {
          passes = in_force w.kernel;
          passed = [];
          entries = map split (log_of w.kernel);
        }) in
        (map split (log_of s.world.kernel) ≡ t.entries)
        × ((q : SyslogPriority)
            → map (λ r. test m log_mask r q) s.returned ≡ map (λ f. f q) t.passed)
        × ((q : SyslogPriority) → in_force s.world.kernel q ≡ t.passes q)
  session_lem cs w =
      let h =
        run-Shows cs (record { world = w; returned = [] })
          (record {
            passes = in_force w.kernel;
            passed = [];
            entries = map split (log_of w.kernel);
          })
          (record { passes_shown = λ q. refl; passed_shown = λ q. refl; entries_shown = refl }) in
      (h.entries_shown, h.passed_shown, h.passes_shown)
