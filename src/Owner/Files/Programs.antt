-- ===== src/Owner/Files/Programs.antt =====
-- Programs that open files leave no number open, and close none that they did not open.
use pposix.Base.{
  ℕ, zero, suc, ℤ, minus_one, ◌==ℤ◌, ◌+◌, ◌≡◌, refl, ap, ◌∙◌, Bool, false, List, [], ◌∷◌, arith,
  tally, count, length, replicate,
}
use pposix.Errno.{World}
use pposix.Fcntl.{FcntlApi, OpenMacro}
use pposix.File.{File}
use pposix.FileDescriptor.{Unistd}
use pposix.Owner.Classes.{file_owner}
use pposix.Owner.Files.{FileOp, KeepsOpen, file_step, run_files}
use pposix.Owner.Run.{OwnerOp, Owners, start_owners, step_owners, run_owners, finish_owners}
use pposix.Owner.Files.Open.{holds, IsKept, step-IsKept, destroys-IsKept}

same_tally : {a b : Bool} → tally a ≡ tally b + 0 → a ≡ b
same_tally {a} {b} h = ground arith

module _ {K : Type 0} (m : OpenMacro → ℕ) (os : FcntlApi K) (files : Unistd K) (is_noexcept : Bool)
    (is_open : K → ℤ → Bool) (keeps : KeepsOpen os files is_open) (x : ℤ)
    (live : (x ==ℤ minus_one) ≡ false) where
  run-IsKept :
      (before : Bool) (ops : List FileOp) (r : Owners K File)
      → IsKept m os files is_noexcept is_open keeps x live before r
      → IsKept m os files is_noexcept is_open keeps x live before
          (run_files m os files is_noexcept ops r)
  unfolding run_files
  run-IsKept before [] r kept = kept
  run-IsKept before (op ∷ ops) r kept =
      run-IsKept before ops (file_step m os files is_noexcept op r)
        (step-IsKept m os files is_noexcept is_open keeps x live before op r kept)

  -- Destroying the newest object until none is left.
  newest : ℕ → Owners K File → Owners K File
  newest n r = run_owners (file_owner files) (replicate n (OwnerOp.destroys 0)) r

  newest-IsKept :
      (before : Bool) (n : ℕ) (r : Owners K File)
      → IsKept m os files is_noexcept is_open keeps x live before r
      → IsKept m os files is_noexcept is_open keeps x live before (newest n r)
  unfolding newest run_owners file_step
  newest-IsKept before zero r kept = kept
  newest-IsKept before (suc n) r kept =
      newest-IsKept before n (step_owners (file_owner files) (OwnerOp.destroys 0) r)
        (destroys-IsKept m os files is_noexcept is_open keeps x live before 0 r kept)

  newest_rest :
      (r : Owners K File) (f : File) (fs : List File)
      → r.objects ≡ f ∷ fs
      → (step_owners (file_owner files) (OwnerOp.destroys 0) r).objects ≡ fs
  unfolding step_owners
  newest_rest r f fs e = rw (e, step_owners) (rw e refl)

  newest-empty :
      (fs : List File) (r : Owners K File) → r.objects ≡ fs → (newest (length fs) r).objects ≡ []
  unfolding newest run_owners
  newest-empty [] r e = e
  newest-empty (f ∷ fs) r e =
      newest-empty fs (step_owners (file_owner files) (OwnerOp.destroys 0) r) (newest_rest r f fs e)

  -- Whether or not the functions that `open` hands to `result_map` are `noexcept`, without which the
  -- compiler refuses it: on a system that keeps the open numbers, in every program that opens files, moves them and
  -- destroys them, and for every number other than -1: while it runs, the number is open, once, if
  -- it was open before the program or if a file holds it, and never both or by two files; and when
  -- the files that are left are destroyed at its end, the number is open exactly if it was before
  -- the program: no number is leaked, and none that the program did not open is closed.
  pub files_lem :
      (ops : List FileOp) (w : World K)
      → let r = run_files m os files is_noexcept ops (start_owners w) in
        let last = finish_owners (file_owner files) r in
        (tally (is_open r.world.kernel x) ≡ tally (is_open w.kernel x) + count (holds x) r.objects)
        × (last.objects ≡ [])
        × (is_open last.world.kernel x ≡ is_open w.kernel x)
  unfolding start_owners finish_owners newest
  files_lem ops w =
      let r = run_files m os files is_noexcept ops (start_owners w) in
      let kept = run-IsKept (is_open w.kernel x) ops (start_owners w) (omega arith) in
      let none_left = newest-empty r.objects r refl in
      let at_end = newest-IsKept (is_open w.kernel x) (length r.objects) r kept in
      (
        kept,
        none_left,
        same_tally (
            at_end
            ∙ ap (λ (fs : List File). tally (is_open w.kernel x) + count (holds x) fs) none_left),
      )
