-- ===== src/Tests/Interest.antt =====
-- An epoll, number 5, in a small kernel that keeps its interest list.
use pposix.Base.{
  ℕ, ℤ, pos, minus_one, ◌==◌, ◌==ℤ◌, ◌||◌, ◌^◌, ◌≡◌, refl, not, Option, none, some, List, [], ◌∷◌,
  map, if◌then◌else◌, ==ℤ_iff, Bool-cases, inl, inr,
}
use pposix.EnumFlag.{has_flag, underlying_v}
use pposix.Epoll.{
  EpollApi, EpollMacro, epollin, epollexclusive, epoll_ctl_add, epoll_ctl_del, epoll_ctl_mod,
  EpollEvent, EpollModify, epoll_event_flag, epoll_event_flag_enum, epoll_flag_constant, unset,
  epoll, epoll_modify, check_epoll_modify_flags, epoll_event,
}
use pposix.Epoll.Interest.{
  Change, adds, removes, modifies, Interests, CtlErrors, Descriptors, Shortage, watches, changed,
  changed_all, Answers, KeepsInterests, AreMade, ctl, ctl_all,
}
use pposix.Epoll.Interest.Refinement.{met, ctl_all_lem}
use pposix.Errno.{World, Sys, make_errno_code}
use pposix.FileDescriptor.{raw_fd, raw_fd_t}
use pposix.Tests.Kernel.{ebadf, enoent}

-- The interest list.
record PollKernel : Type 0 where
  interests : Interests

abbrev errors : CtlErrors
errors = record {
  ebadf = ebadf;
  eexist = pos 17;
  einval = pos 22;
  eloop = pos 40;
  enoent = enoent;
  enomem = pos 12;
  enospc = pos 28;
  eperm = pos 1;
}

-- Numbers 3 to 6 are open; 5 is the epoll, and 6 is a regular file.
abbrev fds : Descriptors
fds = record {
  is_open = λ fd. fd ==ℤ pos 3 || fd ==ℤ pos 4 || fd ==ℤ pos 5 || fd ==ℤ pos 6;
  supports = λ fd. not (fd ==ℤ pos 6);
  is_epoll = λ fd. fd ==ℤ pos 5;
}

-- There is no watch left for number 4.
abbrev short : PollKernel → Change → Option Shortage
short k (adds c) = if raw_fd_t c.fd ==ℤ pos 4 then some watches else none
short k other = none

abbrev answer : ℤ × Interests → Sys PollKernel ℤ
answer (code, i) w =
    if code ==ℤ pos 0
    then (pos 0, record w { kernel = record { interests = i } })
    else (minus_one, record { errno = code; kernel = record { interests = i } })

-- The operations and the bits have Linux's numbers.
abbrev macros : EpollMacro → ℕ
macros epollin = 1
macros epollexclusive = 2 ^ 28
macros epoll_ctl_add = 1
macros epoll_ctl_del = 2
macros epoll_ctl_mod = 3
macros other = 0

abbrev apply : Change → Sys PollKernel ℤ
apply c w = answer (changed errors fds macros (pos 5) (short w.kernel c) c w.kernel.interests) w

abbrev epoll_ctl : ℕ → ℤ → Option EpollEvent → Sys PollKernel ℤ
epoll_ctl op fd none w = apply (removes (record { fd = raw_fd fd })) w
epoll_ctl op fd (some e) w =
    if op == 1
    then apply (adds (record { fd = raw_fd fd; event = e })) w
    else apply (modifies (record { fd_ = raw_fd fd; event_ = e })) w

abbrev epoll_api : EpollApi PollKernel
epoll_api = record {
  epoll_create = λ size w. (pos 5, w);
  epoll_create1 = λ flags w. (pos 5, w);
  epoll_ctl = λ ep op fd event w. epoll_ctl op fd event w;
  epoll_wait = λ ep events length timeout w. (pos 0, w);
  epoll_pwait = λ ep events length timeout sigmask w. (pos 0, w);
}

answer-Answers :
    (done : ℤ × Interests) (w : World PollKernel)
    → Answers errors fds macros (pos 5) {K = PollKernel} (λ k. k.interests) done (answer done w)
answer-Answers (code, i) w = elim (Bool-cases (code ==ℤ pos 0)) [
  | inl fine ↦ rw fine (refl, inl ((==ℤ_iff code (pos 0)).0 fine, refl))
  | inr failed ↦ rw failed (refl, inr (refl, refl))
]

unfoldable keeps : KeepsInterests errors fds macros (pos 5) epoll_api
unfolding changed
keeps = record {
  interests = λ k. k.interests;
  short = short;
  add = λ c w.
      answer-Answers
        (changed errors fds macros (pos 5) (short w.kernel (adds c)) (adds c) w.kernel.interests) w;
  remove = λ c w.
      answer-Answers (changed errors fds macros (pos 5) none (removes c) w.kernel.interests) w;
  modify = λ c w shared.
      answer-Answers (changed errors fds macros (pos 5) none (modifies c) w.kernel.interests) w;
}

abbrev ready : EpollEvent
ready = record { events = 1; data_ = unset }

abbrev to_ready : EpollModify
to_ready = record { fd_ = raw_fd (pos 3); event_ = ready }

-- Number 3 is added twice and modified, there is no watch for number 4, the epoll is added to itself,
-- number 6 is not supported, and number 7 is not open.
abbrev changes : List Change
changes =
    adds (record { fd = raw_fd (pos 3); event = ready })
    ∷ adds (record { fd = raw_fd (pos 3); event = ready })
    ∷ modifies to_ready
    ∷ adds (record { fd = raw_fd (pos 4); event = ready })
    ∷ adds (record { fd = raw_fd (pos 5); event = ready })
    ∷ removes (record { fd = raw_fd (pos 6) })
    ∷ removes (record { fd = raw_fd (pos 7) })
    ∷ []

made : AreMade macros changes
unfolding epoll_modify check_epoll_modify_flags epoll_event has_flag epoll_flag_constant
    underlying_v
made =
    (tt, (tt, ((record { flags = epoll_event_flag 1 }, unset, refl), (tt, (tt, (tt, (tt, tt)))))))

abbrev at_start : World PollKernel
at_start = record { errno = pos 0; kernel = record { interests = λ fd. none } }

ctl_all_lem_example :
    let r = ctl_all epoll_api macros (epoll (raw_fd (pos 5))) changes at_start in
    let done =
      changed_all errors fds macros
        (pos 5)
        (met epoll_api macros errors fds (pos 5) keeps changes at_start)
        (λ fd. none) in
    (r.0 ≡ map make_errno_code done.0) × (r.1.kernel.interests ≡ done.1)
unfolding keeps
ctl_all_lem_example = ctl_all_lem epoll_api macros errors fds (pos 5) keeps changes at_start made

-- The codes of the changes, and what is left: number 3 alone.
changes_leave :
    let (codes, last) =
      changed_all errors fds macros
        (pos 5)
        (met epoll_api macros errors fds (pos 5) keeps changes at_start)
        (λ fd. none) in
    (codes ≡ pos 0 ∷ pos 17 ∷ pos 0 ∷ pos 28 ∷ pos 22 ∷ pos 1 ∷ ebadf ∷ [])
    × (last (pos 3) ≡ some ready)
    × (last (pos 4) ≡ none)
unfolding changed_all met keeps ctl
changes_leave = (refl, refl, refl)
