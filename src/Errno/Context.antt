-- ===== src/Errno/Context.antt =====
-- `errno_context` of include/pposix/errno.hpp and src/errno.cpp: a scope that starts with a clear
-- `errno` and gives the caller's value back.
use pposix.Base.{◌≡◌, refl, pos}
use pposix.Errno.{World, Sys, Errc, ◌>>=◌, ◌>>◌, pure, get_errno, set_errno}

pub record ErrnoContext : Type 0 where
  pub saved_errno_ : Errc

unfoldable pub saved_errno : ErrnoContext → Errc
saved_errno c = c.saved_errno_

module _ {K : Type 0} where
  -- The constructor.
  unfoldable pub errno_context : Sys K ErrnoContext
  unfolding get_errno set_errno
  errno_context = do saved ← get_errno; set_errno (pos 0); pure (record { saved_errno_ = saved })

  unfoldable pub restore : ErrnoContext → Sys K (Unit {0})
  unfolding set_errno
  restore c = set_errno c.saved_errno_

  -- The destructor.
  unfoldable pub destroy : ErrnoContext → Sys K (Unit {0})
  unfolding restore
  destroy c = restore c

  -- A block whose first declaration is an `errno_context`: the value that the block returns is
  -- computed before the destructor runs.
  unfoldable pub scoped : {A : Type 0} → (ErrnoContext → Sys K A) → Sys K A
  unfolding errno_context destroy
  scoped body = do c ← errno_context; a ← body c; destroy c; pure a

  -- Whatever a block does to `errno` and to the kernel, it starts with `errno` clear, the caller's
  -- `errno` is unchanged after it, and what the block returned and left in the kernel is kept.
  pub scoped_lem :
      {A : Type 0} (body : ErrnoContext → Sys K A) (w : World K)
      → let ran = body (record { saved_errno_ = w.errno }) (record w { errno = pos 0 }) in
        scoped body w ≡ (ran.0, record { errno = w.errno; kernel = ran.1.kernel })
  unfolding scoped
  scoped_lem body w = refl
