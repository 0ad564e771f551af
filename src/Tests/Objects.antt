-- ===== src/Tests/Objects.antt =====
-- Descriptors, files and the calls on them.
use pposix.Base.{true, ℕ, pos, ◌+◌, ◌≤◌, ◌≡◌, refl, List, [], ◌∷◌, false, arith, count}
use pposix.Errno.{World, Sys, ◌>>=◌, current_errno_code, no_error}
use pposix.Call.{common_call, common_result_map}
use pposix.Descriptor
use pposix.Descriptor.{Descriptor, of_raw, move_assign, move_construct, release, into_result}
use pposix.Descriptor.Laws.{destroy-move_construct}
use pposix.Descriptor.Ledger.{
  Op, adopts, moves_new, moves_onto, closes, destroys, run, start, step, on, adopt_step,
  move_new_step, move_onto_step, release_step, close_step, destroy_step,
}
use pposix.Descriptor.Finish.{finish, finish_closes_all}
use pposix.Descriptor.Ownership.{held, IsBalanced, run-IsBalanced, run_closes_once}
use pposix.FileDescriptor.{RawFd, raw_fd, file_descriptor, close_fd}
use pposix.EnumFlag.{EnumFlag}
use pposix.EnumFlag.Laws.{join}
use pposix.Fcntl.{
  OpenMacro, o_creat, o_excl, OpenFlag, open_flag, AccessMode, open_flag_enum, open_path,
  open_path_mode,
}
use pposix.File
use pposix.File.{File, file, open_file, open_file_mode}
use pposix.File.Laws.{open_file_compiles, close-destroy, is_compiled}
use pposix.Result.{Result, result_map}
use pposix.Stat.{Permission, permission}
use pposix.Tests.Kernel.{Kernel, kernel, world, unistd, fcntl_api, ebadf}

abbrev fd : ℕ → RawFd
fd n = raw_fd (pos n)

-- Adopt, move, close by hand, and leave the rest to the destructors.
abbrev life : List (Op RawFd)
life =
    adopts (fd 3)
    ∷ moves_new 0
    ∷ adopts (fd 4)
    ∷ moves_onto 0 1
    ∷ closes 1
    ∷ destroys 0
    ∷ destroys 0
    ∷ destroys 0
    ∷ []

abbrev at_start : World Kernel
at_start = world (pos 0) (kernel (pos 3 ∷ pos 4 ∷ []) 0)

run-IsBalanced_example :
    IsBalanced (file_descriptor unistd) (fd 3) (run (file_descriptor unistd) life (start at_start))
unfolding file_descriptor
run-IsBalanced_example = run-IsBalanced (file_descriptor unistd) (fd 3) refl life at_start

-- What is left of the program, with everything that it calls unfolded.
after_life : World Kernel
unfolding run step on adopt_step move_new_step move_onto_step release_step close_step destroy_step
    start of_raw Descriptor.raw move_assign move_construct release Descriptor.close
    Descriptor.destroy file_descriptor close_fd common_call
after_life = (run (file_descriptor unistd) life (start at_start)).world

-- Both numbers are closed when the program ends, each once; the null handle was closed twice more.
life_closes : after_life ≡ world ebadf (kernel [] 4)
unfolding after_life
life_closes = refl

run_closes_once_example :
    let s = run (file_descriptor unistd) life (start at_start) in
    (count (λ d. (file_descriptor unistd).same (fd 4) d) s.closed ≤ 1)
    × (1 ≤ count (λ d. (file_descriptor unistd).same (fd 4) d) s.closed
        → (held (file_descriptor unistd) (fd 4) s ≡ 0)
          × (count (λ d. (file_descriptor unistd).same (fd 4) d) s.released ≡ 0)
          × (count (λ d. (file_descriptor unistd).same (fd 4) d) s.leaked ≡ 0))
unfolding after_life
run_closes_once_example =
    run_closes_once (file_descriptor unistd) (fd 4) refl life at_start (omega arith)

-- A device whose handles always close; how often is counted.
abbrev device : Descriptor.Traits Kernel RawFd
device = record (file_descriptor unistd) {
  close_policy = λ d w.
      let k : Kernel = record (w.kernel) { close_calls = w.kernel.close_calls + 1 } in
      (no_error, record w { kernel = k });
}

-- The program is cut off after its first four operations, with three objects left.
abbrev cut_off : List (Op RawFd)
cut_off = adopts (fd 3) ∷ moves_new 0 ∷ adopts (fd 4) ∷ moves_onto 0 1 ∷ []

finish_closes_all_example :
    let s = finish device (run device cut_off (start at_start)) in
    (held device (fd 4) s ≡ 0)
    × (count (λ d. device.same (fd 4) d) s.leaked ≡ 0)
    × (count (λ d. device.same (fd 4) d) s.adopted
        ≡ count (λ d. device.same (fd 4) d) s.released + count (λ d. device.same (fd 4) d) s.closed)
unfolding file_descriptor
finish_closes_all_example = finish_closes_all device (fd 4) (λ w. refl) refl cut_off at_start

destroy-move_construct_example :
    (Descriptor.destroy
      (file_descriptor unistd)
      (of_raw (fd 3))
      (Descriptor.destroy
        (file_descriptor unistd)
        (Descriptor.null_descriptor (file_descriptor unistd))
        at_start).1).1
    ≡ world ebadf (kernel (pos 4 ∷ []) 2)
unfolding after_life Descriptor.null_descriptor
destroy-move_construct_example =
    destroy-move_construct (file_descriptor unistd) (of_raw (fd 3)) at_start

close-destroy_example :
    (File.destroy unistd (file (fd 3)) (File.close unistd (file (fd 3)) at_start).1).1
    ≡ world ebadf (kernel (pos 4 ∷ []) 2)
close-destroy_example = close-destroy unistd (pos 3) at_start

-- Linux: O_CREAT is bit 6 and O_EXCL bit 7.
abbrev open_macros : OpenMacro → ℕ
open_macros o_creat = 64
open_macros o_excl = 128
open_macros other = 0

abbrev for_reading : EnumFlag AccessMode
for_reading = record { flags = record { bits = 0 } }

abbrev owner_only : EnumFlag Permission
owner_only = record { flags = permission 384 }

open_file_compiles_example :
    (is_compiled
        (open_file open_macros fcntl_api unistd true 16 for_reading (join OpenFlag (7 ∷ 9 ∷ [])))
      ≡ false)
    × (is_compiled (
          open_file_mode open_macros fcntl_api unistd true 16 for_reading
            (join OpenFlag (7 ∷ 9 ∷ []))
            owner_only)
        ≡ false)
open_file_compiles_example =
    open_file_compiles open_macros fcntl_api unistd true 6 7 refl refl 16 for_reading owner_only
      (7 ∷ 9 ∷ [])

abbrev appending : EnumFlag OpenFlag
appending = record { flags = open_flag 1024 }

-- The action that a call of `open` compiles to: opening succeeds, and ::close(-1) fails.
reopening : Sys Kernel (Result File)
unfolding open_path result_map common_result_map current_errno_code into_result file_descriptor
reopening = do
  r ← open_path fcntl_api 16 for_reading.flags appending.flags
  into_result (file_descriptor unistd) (result_map r file)

creating : Sys Kernel (Result File)
unfolding open_path_mode reopening
creating = do
  r ← open_path_mode fcntl_api 20 for_reading.flags (open_flag 64) owner_only.flags
  into_result (file_descriptor unistd) (result_map r file)
