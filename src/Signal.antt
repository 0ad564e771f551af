-- ===== src/Signal.antt =====
-- include/pposix/time.hpp and include/pposix/signal.hpp: points in time and notification events.
use pposix.Base.{ℕ, ℤ, pos, ◌≡◌, ◌<◌}

-- `timespec`
pub record Timespec : Type 0 where
  pub tv_sec : ℤ
  pub tv_nsec : ℤ

-- A time since the Epoch: no negative second, and less than a second of nanoseconds.
abbrev pub IsTime : Timespec → Type 0
IsTime t = (s n : ℕ) × (t.tv_sec ≡ pos s) × (t.tv_nsec ≡ pos n) × (n < 1000000000)

-- `timespec(seconds)`
unfoldable pub timespec_of_seconds : ℤ → Timespec
timespec_of_seconds s = record { tv_sec = s; tv_nsec = pos 0 }

-- `timespec(seconds, nanoseconds)`
unfoldable pub timespec_of : ℤ → ℤ → Timespec
timespec_of s ns = record { tv_sec = s; tv_nsec = ns }

pub data SigNotify : Type 0 where
  none signal thread : SigNotify

-- The macros of <signal.h> for `sigev_notify`.
pub data SigevMacro : Type 0 where
  sigev_none sigev_signal sigev_thread : SigevMacro

unfoldable pub sig_notify_value : (SigevMacro → ℤ) → SigNotify → ℤ
sig_notify_value m none = m sigev_none
sig_notify_value m signal = m sigev_signal
sig_notify_value m thread = m sigev_thread

-- `sig_number`, an enumeration of `int`s.
pub record SigNumber : Type 0 where
  pub number : ℤ

-- `sig_number{}`
abbrev pub no_signal : SigNumber
no_signal = record { number = pos 0 }

-- The enumerators of `sig_number`, and the macros of <signal.h> that give them their values.
pub data SigName : Type 0 where
  abort alarm undefined_memory_access child_terminated : SigName
  continue_executing arithmetic_error hangup illegal_instruction : SigName
  terminal_interrupt kill pipe quit : SigName
  invalid_memory_reference stop_executing terminate terminal_stop : SigName
  process_attempting_read process_attempting_write user_defined_1 user_defined_2 : SigName
  trap high_bandwidth_data_available cpu_time_limit_exceeded file_size_limit_exceeded : SigName

pub data SigMacro : Type 0 where
  sigabrt sigalrm sigbus sigchld : SigMacro
  sigcont sigfpe sighup sigill : SigMacro
  sigint sigkill sigpipe sigquit : SigMacro
  sigsegv sigstop sigterm sigtstp : SigMacro
  sigttin sigttou sigusr1 sigusr2 : SigMacro
  sigtrap sigurg sigxcpu sigxfsz : SigMacro

unfoldable pub sig_number_macro : SigName → SigMacro
sig_number_macro abort = sigabrt
sig_number_macro alarm = sigalrm
sig_number_macro undefined_memory_access = sigbus
sig_number_macro child_terminated = sigchld
sig_number_macro continue_executing = sigcont
sig_number_macro arithmetic_error = sigfpe
sig_number_macro hangup = sighup
sig_number_macro illegal_instruction = sigill
sig_number_macro terminal_interrupt = sigint
sig_number_macro kill = sigkill
sig_number_macro pipe = sigpipe
sig_number_macro quit = sigquit
sig_number_macro invalid_memory_reference = sigsegv
sig_number_macro stop_executing = sigstop
sig_number_macro terminate = sigterm
sig_number_macro terminal_stop = sigtstp
sig_number_macro process_attempting_read = sigttin
sig_number_macro process_attempting_write = sigttou
sig_number_macro user_defined_1 = sigusr1
sig_number_macro user_defined_2 = sigusr2
sig_number_macro trap = sigtrap
sig_number_macro high_bandwidth_data_available = sigurg
sig_number_macro cpu_time_limit_exceeded = sigxcpu
sig_number_macro file_size_limit_exceeded = sigxfsz

unfoldable pub sig_number : (SigMacro → ℤ) → SigName → SigNumber
unfolding sig_number_macro
sig_number m name = record { number = m (sig_number_macro name) }

-- The union `sigval`, by the member that was written.
pub data Sigval : Type 0 where
  sival_int : ℤ → Sigval
  sival_ptr : ℕ → Sigval

-- `sigevent`; functions and attributes are addresses.
pub record Sigevent : Type 0 where
  pub sigev_notify : ℤ
  pub sigev_signo : ℤ
  pub sigev_value : Sigval
  pub sigev_notify_function : ℕ
  pub sigev_notify_attributes : ℕ

module _ (m : SigevMacro → ℤ) where
  -- The constructor that takes an `int`.
  unfoldable pub sigevent_int : SigNotify → SigNumber → ℕ → ℤ → Sigevent
  unfolding sig_notify_value
  sigevent_int notify sig callback value = record {
    sigev_notify = sig_notify_value m notify;
    sigev_signo = sig.number;
    sigev_value = sival_int value;
    sigev_notify_function = callback;
    sigev_notify_attributes = 0;
  }

  -- The constructor that takes a `void*`.
  unfoldable pub sigevent_pointer : SigNotify → SigNumber → ℕ → ℕ → Sigevent
  unfolding sig_notify_value
  sigevent_pointer notify sig callback value = record {
    sigev_notify = sig_notify_value m notify;
    sigev_signo = sig.number;
    sigev_value = sival_ptr value;
    sigev_notify_function = callback;
    sigev_notify_attributes = 0;
  }
