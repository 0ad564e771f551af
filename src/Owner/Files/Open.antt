-- ===== src/Owner/Files/Open.antt =====
-- Every step of a program keeps this: the numbers that are open are those that were open before and
-- those that its files hold.
use pposix.Base.{
  ℕ, ℤ, minus_one, ◌==ℤ◌, ==ℤ_iff, ◌+◌, ◌≡◌, ◌≢◌, refl, sym, ap, ◌∙◌, inl, inr, Bool, false, not,
  ◌&&◌, ◌||◌, ◌∷◌, arith, tally, count, count-set, count-set-set, count-erase_idx, get_elem?,
  Bool-cases, Option-cases, bit_or,
}
use pposix.Call.{common_call_world}
use pposix.Descriptor.{
  move_construct, move_assign, close as close_descriptor, raw, null_descriptor,
  destroy as destroy_descriptor,
}
use pposix.EnumFlag.{compiled, refused, Checked}
use pposix.Errno.{World, Sys}
use pposix.Fcntl.{FcntlApi, OpenMacro}
use pposix.File
use pposix.File.{File, file, open_file, open_file_mode}
use pposix.File.Laws.{opened, open_file_lem, open_file_mode_lem}
use pposix.FileDescriptor.{Unistd, raw_fd, file_descriptor, close_fd}
use pposix.Owner.Classes.{file_owner}
use pposix.Owner.Files.{
  FileOp, opens, opens_mode, defaults, moves_new, moves_onto, destroys, IsOpening, KeepsOpen, keep,
  open_step, file_step,
}
use pposix.Owner.Members.{default_file, move_file, assign_file}
use pposix.Owner.Run.{Owners, step_owners}
use pposix.Result.{Result}

-- Does the file hold the number?
abbrev pub holds : ℤ → File → Bool
holds x f = x ==ℤ f.fd_.raw_descriptor_.fd_

module _ {K : Type 0} (m : OpenMacro → ℕ) (os : FcntlApi K) (files : Unistd K) (is_noexcept : Bool)
    (is_open : K → ℤ → Bool) (keeps : KeepsOpen os files is_open) (x : ℤ)
    (live : (x ==ℤ minus_one) ≡ false) where
  -- As often as the number is open, it was so before or a file holds it.
  abbrev pub IsKept : Bool → Owners K File → Type 0
  IsKept before r = tally (is_open r.world.kernel x) ≡ tally before + count (holds x) r.objects

  -- Closing -1 changes nothing.
  closes_null : (w : World K) → is_open (files.close minus_one w).1.kernel x ≡ is_open w.kernel x
  closes_null w = rw (keeps.closes minus_one w x, live) refl

  is_not : (fd : ℤ) → fd ≢ minus_one → (fd ==ℤ minus_one) ≡ false
  is_not fd fine = elim (Bool-cases (fd ==ℤ minus_one)) [
    | inl e ↦ absurd (fine ((==ℤ_iff fd minus_one).0 e))
    | inr e ↦ e
  ]

  -- A number that was free is held by no file.
  opened_count :
      (before : Bool) (fd : ℤ) (r : Owners K File)
      → is_open r.world.kernel fd ≡ false
      → IsKept before r
      → tally (x ==ℤ fd || is_open r.world.kernel x)
        ≡ tally before + count (holds x) (file (raw_fd fd) ∷ r.objects)
  unfolding file
  opened_count before fd r fresh kept = elim (Bool-cases (x ==ℤ fd)) [
    | inl e ↦
        let is_fd : x ≡ fd = (==ℤ_iff x fd).0 e in
        let free : is_open r.world.kernel x ≡ false = rw is_fd fresh in
        rw e (ground (arith, kept, free))
    | inr e ↦ rw e (omega (arith, kept))
  ]

  opened-IsKept :
      (before : Bool) (call : Sys K ℤ) (r : Owners K File)
      → IsOpening is_open r.world (call r.world)
      → IsKept before r
      → let got = opened m os files is_noexcept call r.world in
        IsKept before (record { objects = keep got.0 r.objects; world = got.1 })
  unfolding keep file
  opened-IsKept before call r (inl (failed, same)) kept =
      rw ((==ℤ_iff (call r.world).0 minus_one).1 failed) (rw (same x) kept)
  opened-IsKept before call r (inr (fine, fresh, next)) kept =
      let fd = (call r.world).0 in
      rw (is_not fd fine)
        (rw (closes_null (call r.world).1, next x) (opened_count before fd r fresh kept))

  defaults-IsKept :
      (before : Bool) (r : Owners K File)
      → IsKept before r
      → IsKept before (file_step m os files is_noexcept defaults r)
  unfolding file_step step_owners file_owner default_file null_descriptor file_descriptor
  defaults-IsKept before r kept = rw live (omega (arith, kept))

  moves_new-IsKept :
      (before : Bool) (i : ℕ) (r : Owners K File)
      → IsKept before r
      → IsKept before (file_step m os files is_noexcept (moves_new i) r)
  unfolding file_step step_owners file_owner move_file move_construct file_descriptor default_file
      null_descriptor
  moves_new-IsKept before i r kept = elim (Option-cases (get_elem? r.objects i)) [
    | inl e ↦ rw (e, step_owners) kept
    | inr (f, e) ↦
        rw (e, step_owners)
          (ground (arith, live, count-set (holds x) r.objects i f (default_file files) e))
  ]

  closes_one :
      (f : File) (w : World K)
      → is_open (close_fd files (raw f.fd_) w).1.kernel x ≡ (not (holds x f) && is_open w.kernel x)
  unfolding close_fd raw
  closes_one f w =
      rw (common_call_world (files.close f.fd_.raw_descriptor_.fd_) w)
        (keeps.closes f.fd_.raw_descriptor_.fd_ w x)

  pub destroys-IsKept :
      (before : Bool) (i : ℕ) (r : Owners K File)
      → IsKept before r
      → IsKept before (file_step m os files is_noexcept (destroys i) r)
  unfolding file_step step_owners file_owner File.destroy destroy_descriptor close_descriptor raw
      file_descriptor close_fd
  destroys-IsKept before i r kept = elim (Option-cases (get_elem? r.objects i)) [
    | inl e ↦ rw (e, step_owners) kept
    | inr (f, e) ↦
        rw (e, step_owners)
          (rw (closes_one f r.world) (ground (arith, count-erase_idx (holds x) r.objects i f e)))
  ]

  moves_onto-IsKept :
      (before : Bool) (i j : ℕ) (r : Owners K File)
      → IsKept before r
      → IsKept before (file_step m os files is_noexcept (moves_onto i j) r)
  unfolding file_step step_owners file_owner assign_file move_assign
  moves_onto-IsKept before i j r kept = elim (Option-cases (get_elem? r.objects i)) [
    | inl e ↦ rw (e, step_owners) kept
    | inr (f, e) ↦ elim (Option-cases (get_elem? r.objects j)) [
      | inl e' ↦ rw (e, step_owners) (rw e' kept)
      | inr (g, e') ↦
          rw (e, step_owners)
            (rw e' (
              kept
              ∙ ap (λ (n : ℕ). tally before + n)
                  (sym (
                    count-set-set (holds x) r.objects i j f g (assign_file f g).0
                      (assign_file f g).1 e e' refl refl))))
    ]
  ]

  open_step-IsKept :
      (before : Bool) (checked : Checked (Sys K (Result File))) (call : Sys K ℤ) (r : Owners K File)
      → ((act : Sys K (Result File))
          → checked ≡ compiled act
          → act r.world ≡ opened m os files is_noexcept call r.world)
      → IsOpening is_open r.world (call r.world)
      → IsKept before r
      → IsKept before (open_step checked r)
  unfolding open_step
  open_step-IsKept before (refused message) call r outcome opening kept = kept
  open_step-IsKept before (compiled act) call r outcome opening kept =
      rw (outcome act refl) (opened-IsKept before call r opening kept)

  pub step-IsKept :
      (before : Bool) (op : FileOp) (r : Owners K File)
      → IsKept before r
      → IsKept before (file_step m os files is_noexcept op r)
  unfolding file_step
  step-IsKept before (opens path access flags) r kept =
      open_step-IsKept before (open_file m os files is_noexcept path access flags)
        (os.open_path path (bit_or access.flags.bits flags.flags.bits)) r
        (λ act e. open_file_lem m os files is_noexcept path access flags act e r.world)
        (keeps.opens_path path (bit_or access.flags.bits flags.flags.bits) r.world) kept
  step-IsKept before (opens_mode path access flags perm) r kept =
      open_step-IsKept before (open_file_mode m os files is_noexcept path access flags perm)
        (os.open_path_mode path (bit_or access.flags.bits flags.flags.bits) perm.flags.bits) r
        (λ act e. open_file_mode_lem m os files is_noexcept path access flags perm act e r.world)
        (keeps.opens_path_mode path (bit_or access.flags.bits flags.flags.bits) perm.flags.bits
          r.world)
        kept
  step-IsKept before defaults r kept = defaults-IsKept before r kept
  step-IsKept before (moves_new i) r kept = moves_new-IsKept before i r kept
  step-IsKept before (moves_onto i j) r kept = moves_onto-IsKept before i j r kept
  step-IsKept before (destroys i) r kept = destroys-IsKept before i r kept
