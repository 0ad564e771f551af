-- ===== src/Epoll/Interest/Refinement.antt =====
-- `epoll::ctl` implements the interest list.
use pposix.Base.{
  ℕ, ℤ, ◌≡◌, refl, ap₂, inl, inr, false, Bool-cases, Option, none, some, List, [], ◌∷◌, map,
  bit_and, to_bool, arith,
}
use pposix.Errno.{World, Sys, make_errno_code}
use pposix.Call.{common_call, common_call_world, common_call_answers}
use pposix.EnumFlag.{EnumFlag, compiled, has_flag, underlying_v}
use pposix.FileDescriptor.{raw_fd, raw_fd_t}
use pposix.Epoll.{
  EpollApi, EpollMacro, epoll_ctl_add, epoll_ctl_del, epoll_ctl_mod, epollexclusive, EpollData,
  unset, ptr, u32, u64, EpollEventFlag, epoll_event_flag_enum, epoll_flag_constant, EpollModify,
  check_epoll_modify_flags, epoll_modify, epoll_modify_ptr, epoll_modify_fd, epoll_modify_u32,
  epoll_modify_u64, epoll_event, epoll_event_ptr, epoll_event_fd, epoll_event_u32, epoll_event_u64,
  epoll, ctl_add, ctl_remove, ctl_modify, unsafe_ctl, epoll_operation_value,
}
use pposix.Epoll.Interest.{
  Change, adds, removes, modifies, Interests, CtlErrors, Descriptors, Shortage, changed,
  changed_all, Answers, KeepsInterests, modify_with, IsMade, AreMade, ctl, ctl_all,
}

checked_lem :
    (m : EpollMacro → ℕ) (flags : EnumFlag EpollEventFlag) (made c : EpollModify)
    → made.event_.events ≡ underlying_v flags.flags
    → check_epoll_modify_flags m flags made ≡ compiled c
    → to_bool (bit_and c.event_.events (m epollexclusive)) ≡ false
unfolding check_epoll_modify_flags has_flag epoll_flag_constant underlying_v
checked_lem m flags made c mask e =
    elim (Bool-cases (to_bool (bit_and made.event_.events (m epollexclusive)))) [
      | inl exclusive ↦ ground arith
      | inr shared ↦ ground arith
    ]

-- The check of the constructors keeps EPOLLEXCLUSIVE out.
made_lem :
    (m : EpollMacro → ℕ) (c : EpollModify) (flags : EnumFlag EpollEventFlag) (data_ : EpollData)
    → modify_with m c.fd_ flags data_ ≡ compiled c
    → to_bool (bit_and c.event_.events (m epollexclusive)) ≡ false
unfolding epoll_modify epoll_modify_ptr epoll_modify_fd epoll_modify_u32 epoll_modify_u64
    epoll_event epoll_event_ptr epoll_event_fd epoll_event_u32 epoll_event_u64 underlying_v
made_lem m c flags unset e = checked_lem m flags _ c refl e
made_lem m c flags (ptr address) e = checked_lem m flags _ c refl e
made_lem m c flags (EpollData.fd number) e = checked_lem m flags _ c refl e
made_lem m c flags (u32 n) e = checked_lem m flags _ c refl e
made_lem m c flags (u64 n) e = checked_lem m flags _ c refl e

module _ {K : Type 0} (os : EpollApi K) (m : EpollMacro → ℕ) where
  module _ (errors : CtlErrors) (fds : Descriptors) (ep : ℤ)
      (kept : KeepsInterests errors fds m ep os) where
    open kept use {interests}

    answer_lem :
        (call : Sys K ℤ) (w : World K) (code : ℤ) (i : Interests)
        → Answers errors fds m ep interests (code, i) (call w)
        → ((common_call call w).0 ≡ make_errno_code code)
          × (interests (common_call call w).1.kernel ≡ i)
    answer_lem call w code i (list, answer) =
        (common_call_answers call w code answer, rw (common_call_world call w) list)

    ctl_lem :
        (c : Change) (w : World K)
        → IsMade m c
        → let done = changed errors fds m ep (kept.short w.kernel c) c (interests w.kernel) in
          ((ctl os m (epoll (raw_fd ep)) c w).0 ≡ make_errno_code done.0)
          × (interests (ctl os m (epoll (raw_fd ep)) c w).1.kernel ≡ done.1)
    unfolding ctl unsafe_ctl ctl_add ctl_remove ctl_modify epoll epoll_operation_value
    ctl_lem (adds c) w made =
        answer_lem (os.epoll_ctl ep (m epoll_ctl_add) (raw_fd_t c.fd) (some c.event)) w _ _
          (kept.add c w)
    ctl_lem (removes c) w made =
        answer_lem (os.epoll_ctl ep (m epoll_ctl_del) (raw_fd_t c.fd) none) w _ _ (kept.remove c w)
    ctl_lem (modifies c) w (flags, data_, e) =
        answer_lem (os.epoll_ctl ep (m epoll_ctl_mod) (raw_fd_t c.fd_) (some c.event_)) w _ _
          (kept.modify c w (made_lem m c flags data_ e))

    -- The changes, each with what the system is short of when it is made.
    unfoldable pub met : List Change → World K → List (Option Shortage × Change)
    met [] w = []
    met (c ∷ cs) w = (kept.short w.kernel c, c) ∷ met cs (ctl os m (epoll (raw_fd ep)) c w).1

    -- With a kernel that keeps an interest list as `KeepsInterests` says: changes through `ctl`, one
    -- after the other, each `epoll_modify` made by a constructor in a use that compiles, implement the
    -- interest list: the error codes are those of the list's own changes, for a descriptor that is not
    -- open, is not supported or is the epoll itself, for one that is of interest already or is not,
    -- for a wrong use of EPOLLEXCLUSIVE and for what the system is short of, and the kernel is left
    -- with the list that those leave.
    pub ctl_all_lem :
        (cs : List Change) (w : World K)
        → AreMade m cs
        → let done = changed_all errors fds m ep (met cs w) (interests w.kernel) in
          ((ctl_all os m (epoll (raw_fd ep)) cs w).0 ≡ map make_errno_code done.0)
          × (interests (ctl_all os m (epoll (raw_fd ep)) cs w).1.kernel ≡ done.1)
    unfolding ctl_all changed_all met
    ctl_all_lem [] w made = (refl, refl)
    ctl_all_lem (c ∷ cs) w (one_made, made) =
        let (code, list) = ctl_lem c w one_made in
        let (codes, last) = ctl_all_lem cs (ctl os m (epoll (raw_fd ep)) c w).1 made in
        (ap₂ ◌∷◌ code (rw list at codes), rw list at last)
