-- ===== src/Epoll/Interest.antt =====
-- The interest list of an epoll: what sequences of `epoll::ctl` do to it.
pub mod Refinement
use pposix.Base.{
  ℕ, ℤ, pos, minus_one, ◌==ℤ◌, ◌==◌, ◌≡◌, refl, ap₂, ◌⊎◌, inl, inr, Bool, false, not, ◌&&◌, ◌||◌,
  Bool-cases, Option, none, some, List, [], ◌∷◌, map, bit_and, bit_or, to_bool, arith,
  if◌then◌else◌,
}
use pposix.Errno.{World, Sys, ErrorCode, make_errno_code, ◌>>=◌, pure}
use pposix.Call.{common_call, common_call_world, common_call_answers}
use pposix.EnumFlag.{EnumFlag, Checked, compiled, has_flag, underlying_v}
use pposix.FileDescriptor.{RawFd, raw_fd, raw_fd_t}
use pposix.Epoll.{
  EpollApi, EpollMacro, epoll_ctl_add, epoll_ctl_del, epoll_ctl_mod, epollin, epollout, epollerr,
  epollhup, epollet, epollwakeup, epollexclusive, EpollData, unset, ptr, u32, u64, EpollEvent,
  EpollEventFlag, epoll_event_flag_enum, epoll_flag_constant, EpollAdd, EpollRemove, EpollModify,
  check_epoll_modify_flags, epoll_modify, epoll_modify_ptr, epoll_modify_fd, epoll_modify_u32,
  epoll_modify_u64, epoll_event, epoll_event_ptr, epoll_event_fd, epoll_event_u32, epoll_event_u64,
  Epoll, epoll, ctl_add, ctl_remove, ctl_modify, unsafe_ctl, epoll_operation_value,
}

-- The argument of `epoll::ctl`, whose type chooses the overload.
pub data Change : Type 0 where
  adds : EpollAdd → Change
  removes : EpollRemove → Change
  modifies : EpollModify → Change

-- The descriptors of interest, each with its event.
abbrev pub Interests : Type 0
Interests = ℤ → Option EpollEvent

abbrev pub update : Interests → ℤ → Option EpollEvent → Interests
update i fd event other = if fd ==ℤ other then event else i other

-- The error numbers of <errno.h> that <sys/epoll.h> names for changes.
pub record CtlErrors : Type 0 where
  pub ebadf : ℤ
  pub eexist : ℤ
  pub einval : ℤ
  pub eloop : ℤ
  pub enoent : ℤ
  pub enomem : ℤ
  pub enospc : ℤ
  pub eperm : ℤ

-- What the numbers of the process refer to: whether it is open, whether epoll supports it (a regular
-- file it does not), and whether it is itself an epoll.
pub record Descriptors : Type 0 where
  pub is_open : ℤ → Bool
  pub supports : ℤ → Bool
  pub is_epoll : ℤ → Bool

-- What the system may be short of when it is asked for a change: memory, watches of the user, or the
-- nesting of epolls in epolls.
pub data Shortage : Type 0 where
  memory watches nesting : Shortage

module _ (errors : CtlErrors) (fds : Descriptors) (m : EpollMacro → ℕ) (ep : ℤ) where
  open errors use {ebadf, eexist, einval, eloop, enoent, enomem, enospc, eperm}

  shortage_number : Shortage → ℤ
  shortage_number memory = enomem
  shortage_number watches = enospc
  shortage_number nesting = eloop

  abbrev pub is_exclusive : EpollEvent → Bool
  is_exclusive e = to_bool (bit_and e.events (m epollexclusive))

  -- The bits that may be asked for together with EPOLLEXCLUSIVE.
  abbrev pub exclusive_bits : ℕ
  exclusive_bits = bit_or (m epollexclusive) (
      bit_or (m epollin) (
        bit_or (m epollout)
          (bit_or (m epollerr) (bit_or (m epollhup) (bit_or (m epollwakeup) (m epollet))))))

  -- EPOLLEXCLUSIVE is not for an epoll and not with another bit.
  abbrev pub is_misused : ℤ → EpollEvent → Bool
  is_misused fd e =
      is_exclusive e && (fds.is_epoll fd || not (bit_and e.events exclusive_bits == e.events))

  abbrev pub when_absent : Option EpollEvent → ℤ × Interests → Interests → ℤ × Interests
  when_absent none done i = done
  when_absent (some _) done i = (eexist, i)

  abbrev pub when_present : Option EpollEvent → ℤ × Interests → Interests → ℤ × Interests
  when_present none done i = (enoent, i)
  when_present (some _) done i = done

  -- A descriptor of interest with EPOLLEXCLUSIVE is not modified.
  abbrev pub when_shared : Option EpollEvent → ℤ × Interests → Interests → ℤ × Interests
  when_shared none done i = (enoent, i)
  when_shared (some old) done i = if is_exclusive old then (einval, i) else done

  -- A descriptor that can be of interest.
  abbrev pub when_fit : ℤ → ℤ × Interests → Interests → ℤ × Interests
  when_fit fd done i =
      if not (fds.is_open fd)
      then (ebadf, i)
      else if not (fds.supports fd)
      then (eperm, i)
      else if fd ==ℤ ep
      then (einval, i)
      else done

  -- What a change does to the interest list, and its error number, 0 for none.
  unfoldable pub changed : Option Shortage → Change → Interests → ℤ × Interests
  unfolding shortage_number
  changed (some shortage) c i = (shortage_number shortage, i)
  changed none (adds c) i =
      let fd = raw_fd_t c.fd in
      let done =
        if is_misused fd c.event
        then (einval, i)
        else when_absent (i fd) (pos 0, update i fd (some c.event)) i in
      when_fit fd done i
  changed none (removes c) i =
      let fd = raw_fd_t c.fd in when_fit fd (when_present (i fd) (pos 0, update i fd none) i) i
  changed none (modifies c) i =
      let fd = raw_fd_t c.fd_ in
      when_fit fd (when_shared (i fd) (pos 0, update i fd (some c.event_)) i) i

  -- The changes one after the other, each with what the system was then short of, with their error
  -- numbers.
  unfoldable pub changed_all : List (Option Shortage × Change) → Interests → List ℤ × Interests
  unfolding changed
  changed_all [] i = ([], i)
  changed_all ((shortage, c) ∷ cs) i =
      let (code, i') = changed shortage c i in
      let (codes, last) = changed_all cs i' in (code ∷ codes, last)

  -- A call answers with 0 or with -1 and an error number, and leaves an interest list.
  abbrev pub Answers : {K : Type 0} → (K → Interests) → ℤ × Interests → ℤ × World K → Type 0
  Answers interests (code, i) r =
      (interests r.1.kernel ≡ i)
      × (((code ≡ pos 0) × (r.0 ≡ pos 0)) ⊎ ((r.0 ≡ minus_one) × (r.1.errno ≡ code)))

  -- What <sys/epoll.h> says of `epoll_ctl` on the epoll `ep`. A modification to EPOLLEXCLUSIVE is
  -- left open.
  pub record KeepsInterests {K : Type 0} (os : EpollApi K) : Type 0 where
    pub interests : K → Interests
    -- What the system is short of for a change, if it is.
    pub short : K → Change → Option Shortage
    pub add :
        (c : EpollAdd) (w : World K)
        → Answers interests
            (changed (short w.kernel (adds c)) (adds c) (interests w.kernel))
            (os.epoll_ctl ep (m epoll_ctl_add) (raw_fd_t c.fd) (some c.event) w)
    pub remove :
        (c : EpollRemove) (w : World K)
        → Answers interests
            (changed (short w.kernel (removes c)) (removes c) (interests w.kernel))
            (os.epoll_ctl ep (m epoll_ctl_del) (raw_fd_t c.fd) none w)
    pub modify :
        (c : EpollModify) (w : World K)
        → is_exclusive c.event_ ≡ false
        → Answers interests
            (changed (short w.kernel (modifies c)) (modifies c) (interests w.kernel))
            (os.epoll_ctl ep (m epoll_ctl_mod) (raw_fd_t c.fd_) (some c.event_) w)

-- The constructor of `epoll_modify` for the data of an event.
abbrev pub modify_with :
    (EpollMacro → ℕ) → RawFd → EnumFlag EpollEventFlag → EpollData → Checked EpollModify
modify_with m of flags unset = epoll_modify m of flags
modify_with m of flags (ptr address) = epoll_modify_ptr m of flags address
modify_with m of flags (EpollData.fd number) = epoll_modify_fd m of flags (raw_fd number)
modify_with m of flags (u32 n) = epoll_modify_u32 m of flags n
modify_with m of flags (u64 n) = epoll_modify_u64 m of flags n

-- An `epoll_modify` is one that a constructor made, in a use that compiles.
abbrev pub IsMade : (EpollMacro → ℕ) → Change → Type 0
IsMade m (adds c) = Unit
IsMade m (removes c) = Unit
IsMade m (modifies c) =
    (flags : EnumFlag EpollEventFlag) × (data_ : EpollData) × (modify_with m c.fd_ flags data_
      ≡ compiled c)

abbrev pub AreMade : (EpollMacro → ℕ) → List Change → Type 0
AreMade m [] = Unit
AreMade m (c ∷ cs) = IsMade m c × AreMade m cs

module _ {K : Type 0} (os : EpollApi K) (m : EpollMacro → ℕ) where
  -- `epoll::ctl`
  unfoldable pub ctl : Epoll → Change → Sys K ErrorCode
  unfolding ctl_add ctl_remove ctl_modify
  ctl e (adds c) = ctl_add os m e c
  ctl e (removes c) = ctl_remove os m e c
  ctl e (modifies c) = ctl_modify os m e c

  -- One change after the other, with the error codes.
  unfoldable pub ctl_all : Epoll → List Change → Sys K (List ErrorCode)
  unfolding ctl
  ctl_all e [] = pure []
  ctl_all e (c ∷ cs) = do code ← ctl e c; codes ← ctl_all e cs; pure (code ∷ codes)
