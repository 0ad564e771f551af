-- ===== src/Tests/Files.antt =====
-- A program that opens files, over a system whose state is the list of the open numbers.
use pposix.Base.{
  true, ℕ, suc, ℤ, pos, negsuc, minus_one, ◌==ℤ◌, ◌+◌, ◌<◌, ◌≡◌, refl, inl, inr, Bool, false, not,
  ◌&&◌, ◌||◌, List, [], ◌∷◌, any, arith, ◌==◌, if◌then◌else◌, tally, count, Bool-cases,
}
use pposix.EnumFlag.{EnumFlag}
use pposix.EnumFlag.Laws.{join}
use pposix.Errno.{World, Sys}
use pposix.Fcntl.{FcntlApi, OpenMacro, o_creat, o_excl, OpenFlag, AccessMode, open_flag_enum}
use pposix.FileDescriptor.{Unistd}
use pposix.Owner.Classes.{file_owner}
use pposix.Owner.Files.{
  FileOp, opens, opens_mode, moves_new, moves_onto, destroys, IsOpening, KeepsOpen, run_files,
}
use pposix.Owner.Files.Open.{holds}
use pposix.Owner.Files.Programs.{files_lem}
use pposix.Owner.Run.{start_owners, finish_owners}

abbrev Numbers : Type 0
Numbers = List ℕ

abbrev is_open : Numbers → ℤ → Bool
is_open l (pos n) = any (λ k. n == k) l
is_open l (negsuc n) = false

abbrev sum : Numbers → ℕ
sum [] = 0
sum (n ∷ l) = n + sum l

abbrev without : Numbers → ℕ → Numbers
without [] n = []
without (k ∷ l) n = let rest = without l n in if n == k then rest else k ∷ rest

-- Path 0 does not exist; any other opens as a number above all that are open.
abbrev open_number : ℕ → Sys Numbers ℤ
open_number path w =
    if path == 0
    then (minus_one, record w { errno = pos 2 })
    else (pos (suc (sum w.kernel)), record w { kernel = suc (sum w.kernel) ∷ w.kernel })

abbrev close_number : ℤ → Sys Numbers ℤ
close_number (pos n) w = (pos 0, record w { kernel = without w.kernel n })
close_number (negsuc n) w = (minus_one, record w { errno = pos 9 })

abbrev fcntl_api : FcntlApi Numbers
fcntl_api = record {
  fcntl = λ fd cmd w. (pos 0, w);
  fcntl_int = λ fd cmd arg w. (pos 0, w);
  fcntl_pointer = λ fd cmd arg w. (pos 0, w);
  open_path = λ path flags. open_number path;
  open_path_mode = λ path flags mode. open_number path;
}

abbrev unistd : Unistd Numbers
unistd = record {
  close = close_number;
  lseek = λ fd offset whence w. (offset, w);
  read = λ fd buffer size w. (pos size, w);
  write = λ fd buffer size w. (pos size, w);
}

above : (l : Numbers) (n : ℕ) → sum l < n → any (λ k. n == k) l ≡ false
above [] n h = refl
above (k ∷ l) n h = ground (arith, above l n)

any-without :
    (l : Numbers) (n x : ℕ)
    → any (λ k. x == k) (without l n) ≡ (not (x == n) && any (λ k. x == k) l)
any-without [] n x = ground arith
any-without (k ∷ l) n x = ground (arith, any-without l n x)

open_number-IsOpening : (path : ℕ) (w : World Numbers) → IsOpening is_open w (open_number path w)
open_number-IsOpening path w = elim (Bool-cases (path == 0)) [
  | inl e ↦ rw e (inl (refl, λ x. refl))
  | inr e ↦ rw e (
      inr (
        λ h. cc,
        above w.kernel (suc (sum w.kernel)) (omega arith),
        opened_next (suc (sum w.kernel)) w.kernel,
      ))
]
  where
    opened_next : (n : ℕ) (l : Numbers) (x : ℤ) → is_open (n ∷ l) x ≡ (x ==ℤ pos n || is_open l x)
    opened_next n l (pos k) = refl
    opened_next n l (negsuc k) = refl

closing :
    (fd : ℤ) (w : World Numbers) (x : ℤ)
    → is_open (close_number fd w).1.kernel x ≡ (not (x ==ℤ fd) && is_open w.kernel x)
closing (pos n) w (pos k) = any-without w.kernel n k
closing (pos n) w (negsuc k) = refl
closing (negsuc n) w (pos k) = refl
closing (negsuc n) w (negsuc k) = ground arith

keeps : KeepsOpen fcntl_api unistd is_open
keeps = record {
  opens_path = λ path flags w. open_number-IsOpening path w;
  opens_path_mode = λ path flags mode w. open_number-IsOpening path w;
  closes = closing;
}

-- Linux: O_CREAT is bit 6 and O_EXCL bit 7.
abbrev macros : OpenMacro → ℕ
macros o_creat = 64
macros o_excl = 128
macros other = 0

abbrev reading : EnumFlag AccessMode
reading = record { flags = record { bits = 0 } }

abbrev at_start : World Numbers
at_start = record { errno = pos 0; kernel = 0 ∷ 1 ∷ [] }

-- Two files are opened and one path is missing; one file is moved onto the other, and two files are
-- left at the end.
abbrev program : List FileOp
program =
    opens 16 reading (join OpenFlag [])
    ∷ opens 0 reading (join OpenFlag [])
    ∷ opens_mode 32 reading (join OpenFlag (6 ∷ [])) (record { flags = record { bits = 384 } })
    ∷ moves_onto 0 1
    ∷ moves_new 0
    ∷ destroys 1
    ∷ []

files_lem_example :
    let r = run_files macros fcntl_api unistd true program (start_owners at_start) in
    let last = finish_owners (file_owner unistd) r in
    (tally (is_open r.world.kernel (pos 4)) ≡ 0 + count (holds (pos 4)) r.objects)
    × (last.objects ≡ [])
    × (is_open last.world.kernel (pos 4) ≡ false)
files_lem_example =
    files_lem macros fcntl_api unistd true is_open keeps (pos 4) refl program at_start
