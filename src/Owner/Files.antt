-- ===== src/Owner/Files.antt =====
-- Programs that open files, move them and destroy them, over a system that keeps the open numbers:
-- `file::open` of include/pposix/file.hpp with the owning class `file`. `is_noexcept` is as in File.
pub mod Open
pub mod Programs
use pposix.Base.{ℕ, ℤ, minus_one, ◌==ℤ◌, ◌≡◌, ◌≢◌, ◌⊎◌, Bool, false, not, ◌&&◌, ◌||◌, List, [], ◌∷◌}
use pposix.Errno.{World, Sys}
use pposix.EnumFlag.{EnumFlag, Checked, refused, compiled}
use pposix.Fcntl.{FcntlApi, OpenMacro, OpenFlag, AccessMode}
use pposix.File.{File, open_file, open_file_mode}
use pposix.FileDescriptor.{Unistd, RawFd}
use pposix.Owner.Classes.{file_owner}
use pposix.Owner.Run.{OwnerOp, Owners, step_owners, finish_owners}
use pposix.Owner.Run
use pposix.Result.{Result, ok, err}
use pposix.Stat.{Permission}

-- A step of a program: `open` without and with a permission, and the members of `file` that take no
-- number.
pub data FileOp : Type 0 where
  opens : ℕ → EnumFlag AccessMode → EnumFlag OpenFlag → FileOp
  opens_mode : ℕ → EnumFlag AccessMode → EnumFlag OpenFlag → EnumFlag Permission → FileOp
  defaults : FileOp
  moves_new : ℕ → FileOp
  moves_onto : ℕ → ℕ → FileOp
  destroys : ℕ → FileOp

-- What an `open` of the system may do: fail with -1 and open nothing, or open a number that was not
-- open.
abbrev pub IsOpening : {K : Type 0} → (K → ℤ → Bool) → World K → ℤ × World K → Type 0
IsOpening is_open w (fd, w') =
    ((fd ≡ minus_one) × ((x : ℤ) → is_open w'.kernel x ≡ is_open w.kernel x))
    ⊎ ((fd ≢ minus_one)
        × (is_open w.kernel fd ≡ false)
        × ((x : ℤ) → is_open w'.kernel x ≡ (x ==ℤ fd || is_open w.kernel x)))

-- What <fcntl.h> and <unistd.h> say of the open numbers.
pub record KeepsOpen {K : Type 0} (os : FcntlApi K) (files : Unistd K) (is_open : K → ℤ → Bool)
    : Type 0 where
  pub opens_path : (path flags : ℕ) (w : World K) → IsOpening is_open w (os.open_path path flags w)
  pub opens_path_mode :
      (path flags mode : ℕ) (w : World K)
      → IsOpening is_open w (os.open_path_mode path flags mode w)
  -- On Linux a number is free after `::close`, whatever that returns.
  pub closes :
      (fd : ℤ) (w : World K) (x : ℤ)
      → is_open (files.close fd w).1.kernel x ≡ (not (x ==ℤ fd) && is_open w.kernel x)

-- The program keeps the file of a result, and drops an error.
unfoldable pub keep : Result File → List File → List File
keep (ok f) fs = f ∷ fs
keep (err e) fs = fs

-- A call that the compiler refuses is no step of a program.
unfoldable pub open_step :
    {K : Type 0} → Checked (Sys K (Result File)) → Owners K File → Owners K File
unfolding keep
open_step (refused message) r = r
open_step (compiled act) r =
    let (got, w) = act r.world in record { objects = keep got r.objects; world = w }

module _ {K : Type 0} (m : OpenMacro → ℕ) (os : FcntlApi K) (files : Unistd K)
    (is_noexcept : Bool) where
  unfoldable pub file_step : FileOp → Owners K File → Owners K File
  file_step (opens path access flags) r =
      open_step (open_file m os files is_noexcept path access flags) r
  file_step (opens_mode path access flags perm) r =
      open_step (open_file_mode m os files is_noexcept path access flags perm) r
  file_step defaults r = step_owners (file_owner files) OwnerOp.defaults r
  file_step (moves_new i) r = step_owners (file_owner files) (OwnerOp.moves_new i) r
  file_step (moves_onto i j) r = step_owners (file_owner files) (OwnerOp.moves_onto i j) r
  file_step (destroys i) r = step_owners (file_owner files) (OwnerOp.destroys i) r

  unfoldable pub run_files : List FileOp → Owners K File → Owners K File
  run_files [] r = r
  run_files (op ∷ ops) r = run_files ops (file_step op r)
