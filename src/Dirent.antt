-- ===== src/Dirent.antt =====
-- include/pposix/dirent.hpp and src/dirent.cpp: directory streams, whose handle is an address.
use pposix.Base.{
  ℕ, ℤ, ◌==◌, ==_iff, ◌≡◌, ◌≢◌, refl, ◌⊎◌, inl, inr, Bool-cases, arith, if◌then◌else◌,
}
use pposix.Errno.{World, Sys, ErrorCode, ◌>>=◌, pure, current_errno_code, make_errno_code}
use pposix.Call.{common_call, common_call_world}
use pposix.Descriptor.Laws.{into_result-common_call}
use pposix.Descriptor.{Traits, Descriptor, of_raw, raw, destroy, into_result}
use pposix.Result.{Result, ok, err}

-- The calls of <dirent.h>.
pub record DirentApi (K : Type 0) : Type 0 where
  pub fdopendir : ℤ → Sys K ℕ
  pub opendir : ℕ → Sys K ℕ
  pub closedir : ℕ → Sys K ℤ

-- `dir_fd`, an enumeration of `int`s.
pub record DirFd : Type 0 where
  pub fd : ℤ

module _ {K : Type 0} (os : DirentApi K) where
  unfoldable pub close_dir : ℕ → Sys K ErrorCode
  unfolding common_call
  close_dir dir = common_call (os.closedir dir)

  -- The template arguments of `unique_dirent`.
  unfoldable pub unique_dirent : Traits K ℕ
  unique_dirent = record { get_null = 0; same = ◌==◌; same_iff = ==_iff; close_policy = close_dir }

  -- `opendir(dir_fd)`
  unfoldable pub opendir_fd : DirFd → Sys K (Result (Descriptor ℕ))
  unfolding current_errno_code of_raw into_result unique_dirent
  opendir_fd fd = do
    dir ← os.fdopendir fd.fd
    if dir == 0
        then (do e ← current_errno_code; pure (err e))
        else into_result unique_dirent (ok (of_raw dir))

  -- `opendir(const char *)`
  unfoldable pub opendir_path : ℕ → Sys K (Result (Descriptor ℕ))
  unfolding current_errno_code of_raw into_result unique_dirent
  opendir_path path = do
    dir ← os.opendir path
    if dir == 0
        then (do e ← current_errno_code; pure (err e))
        else into_result unique_dirent (ok (of_raw dir))

  -- Opening failed with the `errno` of the call, or gave an owner of the stream that the call
  -- returned, which is not null and which its destructor closes once; the owner that moved into the
  -- result closed the null pointer.
  abbrev pub IsOpening : ℕ × World K → Result (Descriptor ℕ) × World K → Type 0
  IsOpening call got =
      ((call.0 ≡ 0) × (got ≡ (err (make_errno_code call.1.errno), call.1)))
      ⊎ ((d : Descriptor ℕ) × (got ≡ (ok d, (os.closedir 0 call.1).1))
          × (raw d ≡ call.0)
          × (raw d ≢ 0)
          × ((w : World K) → (destroy unique_dirent d w).1 ≡ (os.closedir call.0 w).1))

  into_result-unique_dirent :
      (d : Descriptor ℕ) (w : World K)
      → into_result unique_dirent (ok d) w ≡ (ok d, (os.closedir 0 w).1)
  unfolding unique_dirent close_dir
  into_result-unique_dirent d w = into_result-common_call unique_dirent (os.closedir 0) refl d w

  opening_lem :
      (call : Sys K ℕ) (w : World K)
      → IsOpening (call w) (
          (do
            dir ← call
            if dir == 0
                then (do e ← current_errno_code; pure (err e))
                else into_result unique_dirent (ok (of_raw dir)))
            w)
  unfolding current_errno_code of_raw raw destroy unique_dirent close_dir
  opening_lem call w = elim (Bool-cases ((call w).0 == 0)) [
    | inl null ↦ inl ((==_iff _ _).0 null, rw null refl)
    | inr some_dir ↦ inr (
      of_raw (call w).0,
      rw some_dir (into_result-unique_dirent (of_raw (call w).0) (call w).1),
      refl,
      ground arith,
      λ v. common_call_world (os.closedir (call w).0) v,
    )
  ]

  -- Both overloads of `opendir` fail with the `errno` of their call when it returned the null
  -- pointer; otherwise they call `::closedir` on the null pointer and give an owner of the stream,
  -- not null, whose destructor makes the one call that closes it.
  pub opendir_lem :
      (fd : DirFd) (path : ℕ) (w : World K)
      → IsOpening (os.fdopendir fd.fd w) (opendir_fd fd w)
        × IsOpening (os.opendir path w) (opendir_path path w)
  unfolding opendir_fd opendir_path
  opendir_lem fd path w = (opening_lem (os.fdopendir fd.fd) w, opening_lem (os.opendir path) w)
