-- ===== src/File/Laws.antt =====
-- Which uses of `file::open` compile, what opening returns, and what closing leaves behind.
use Prim.Native.String.{String}
use pposix.Base.{
  ℕ, ℤ, minus_one, ◌==ℤ◌, ◌^◌, ◌≡◌, refl, sym, ◌∙◌, ap, Bool, true, false, not, ◌&&◌, ◌||◌, List,
  ◌==◌, any, arith, if◌then◌else◌, Bool-cases, inl, inr, bit_or,
}
use pposix.Errno.{World, Sys, make_errno_code}
use pposix.Call.{common_call, common_call_world, common_result_map, common_result_map_lem}
use pposix.Descriptor.{into_result}
use pposix.EnumFlag.{EnumFlag, Checked, refused, compiled, has_flag, underlying_v}
use pposix.EnumFlag.Laws.{join, has_flag-join}
use pposix.Fcntl.{
  FcntlApi, OpenMacro, o_creat, o_excl, OpenFlag, open_flag_enum, AccessMode, open_flag_constant,
  creat, excl, open_path, open_path_mode, access_mode_enum,
}
use pposix.FileDescriptor.{Unistd, raw_fd, file_descriptor, close_fd, into_result-file_descriptor}
use pposix.Result.{Result, ok, err, result_map, assert_noexcept}
use pposix.Stat.{Permission, permission_enum}
use pposix.File.{File, file, exclusive_creates, open_file, open_file_mode, close, destroy}

abbrev pub is_compiled {ℓ} : {A : Type ℓ} → Checked A → Bool
is_compiled (refused _) = false
is_compiled (compiled _) = true

compiled-injective {ℓ} : {A : Type ℓ} {a b : A} → compiled a ≡ compiled b → a ≡ b
compiled-injective {a} e = ap (λ c. elim c [ refused _ ↦ a | compiled x ↦ x ]) e

refused-ne-compiled {ℓ} : {A : Type ℓ} {t : String} {a : A} → refused t ≡ compiled a → ⊥
refused-ne-compiled e = cc

-- What the assertion of `result_map` lets through is what it was given.
asserted-eq-compiled {ℓ} :
    {A : Type ℓ} (is_noexcept : Bool) {a b : A} → assert_noexcept is_noexcept a ≡ compiled b → a ≡ b
unfolding assert_noexcept
asserted-eq-compiled is_noexcept e = elim (Bool-cases is_noexcept) [
  | inl fine ↦ compiled-injective (rw fine at e)
  | inr throws ↦ absurd (refused-ne-compiled (rw throws at e))
]

module _ {K : Type 0} (m : OpenMacro → ℕ) (os : FcntlApi K) (files : Unistd K)
    (is_noexcept : Bool) where
  module _ (c e : ℕ) (creat_bit : m o_creat ≡ 2 ^ c) (excl_bit : m o_excl ≡ 2 ^ e) where
    has-creat :
        (ps : List ℕ)
        → has_flag (join OpenFlag ps) (open_flag_constant m creat) ≡ any (λ p. p == c) ps
    unfolding open_flag_constant underlying_v
    has-creat ps = has_flag-join OpenFlag (open_flag_constant m creat) c creat_bit ps

    has-excl :
        (ps : List ℕ)
        → has_flag (join OpenFlag ps) (open_flag_constant m excl) ≡ any (λ p. p == e) ps
    unfolding open_flag_constant underlying_v
    has-excl ps = has_flag-join OpenFlag (open_flag_constant m excl) e excl_bit ps

    -- When O_CREAT and O_EXCL are single bits, a call of `open` whose flags are joined from single
    -- bits compiles without a permission exactly when neither bit is among them, and with a
    -- permission exactly when O_EXCL is not among them or O_CREAT is, in both cases only if the
    -- function that it hands to `result_map` is `noexcept`.
    pub open_file_compiles :
        (path : ℕ) (access : EnumFlag AccessMode) (perm : EnumFlag Permission) (ps : List ℕ)
        → (is_compiled (open_file m os files is_noexcept path access (join OpenFlag ps))
            ≡ (is_noexcept && not (any (λ p. p == c) ps) && not (any (λ p. p == e) ps)))
          × (is_compiled (open_file_mode m os files is_noexcept path access (join OpenFlag ps) perm)
              ≡ (is_noexcept && (not (any (λ p. p == e) ps) || any (λ p. p == c) ps)))
    unfolding open_file open_file_mode assert_noexcept
    open_file_compiles path access perm ps = rw (has-creat ps, has-excl ps) (ground arith)

  -- The system call and what its outcome becomes. The file that goes into the result leaves a null
  -- descriptor behind, which is closed.
  abbrev pub opened : Sys K ℤ → Sys K (Result File)
  opened call w =
      if (call w).0 ==ℤ minus_one
      then (err (make_errno_code (call w).1.errno), (call w).1)
      else (ok (file (raw_fd (call w).0)), (files.close minus_one (call w).1).1)

  mapped :
      (call : Sys K ℤ) (w : World K)
      → (let got = common_result_map raw_fd call w in
          into_result (file_descriptor files) (result_map got.0 file) got.1)
        ≡ opened call w
  unfolding result_map into_result
  mapped call w = elim (Bool-cases ((call w).0 ==ℤ minus_one)) [
    | inl failed ↦ rw (common_result_map_lem raw_fd call w, failed) refl
    | inr fine ↦
        rw (common_result_map_lem raw_fd call w, fine)
          (into_result-file_descriptor files (file (raw_fd (call w).0)) (call w).1)
  ]

  -- A call of `open` without a permission that compiles makes one system call, with the bits of the
  -- mode and the flags together. If that returns -1 the result is the error in `errno`; otherwise
  -- it is a file that holds the returned number, and `::close` has been called on -1.
  pub open_file_lem :
      (path : ℕ) (access : EnumFlag AccessMode) (flags : EnumFlag OpenFlag)
      (act : Sys K (Result File))
      → open_file m os files is_noexcept path access flags ≡ compiled act
      → (w : World K)
      → act w ≡ opened (os.open_path path (bit_or access.flags.bits flags.flags.bits)) w
  unfolding open_file open_path
  open_file_lem path access flags act h w =
      elim (Bool-cases (exclusive_creates m os files is_noexcept flags)) [
        | inl e ↦ elim (Bool-cases (has_flag flags (open_flag_constant m creat))) [
          | inl c ↦ absurd (refused-ne-compiled (rw (e, c) at h))
          | inr c ↦
              ap (λ (f : Sys K (Result File)). f w)
                (sym (asserted-eq-compiled is_noexcept (rw (e, c) at h)))
              ∙ mapped (os.open_path path (bit_or access.flags.bits flags.flags.bits)) w
        ]
        | inr e ↦ absurd (refused-ne-compiled (rw e at h))
      ]

  -- A call of `open` with a permission that compiles makes one system call, with the bits of the
  -- mode and the flags together and the bits of the permission. If that returns -1 the result is the
  -- error in `errno`; otherwise it is a file that holds the returned number, and `::close` has been
  -- called on -1.
  pub open_file_mode_lem :
      (path : ℕ) (access : EnumFlag AccessMode) (flags : EnumFlag OpenFlag)
      (perm : EnumFlag Permission) (act : Sys K (Result File))
      → open_file_mode m os files is_noexcept path access flags perm ≡ compiled act
      → (w : World K)
      → act w
        ≡ opened
            (os.open_path_mode path (bit_or access.flags.bits flags.flags.bits) perm.flags.bits)
            w
  unfolding open_file_mode open_path_mode
  open_file_mode_lem path access flags perm act h w =
      elim (Bool-cases (exclusive_creates m os files is_noexcept flags)) [
        | inl e ↦
            ap (λ (f : Sys K (Result File)). f w)
              (sym (asserted-eq-compiled is_noexcept (rw e at h)))
            ∙ mapped
                (os.open_path_mode path (bit_or access.flags.bits flags.flags.bits) perm.flags.bits)
                w
        | inr e ↦ absurd (refused-ne-compiled (rw e at h))
      ]

module _ {K : Type 0} (os : Unistd K) where
  -- `file::close` leaves the number in the file, so the destructor closes the same number again:
  -- whatever the first close returned, and whoever may have been given the number since.
  pub close-destroy :
      (fd : ℤ) (w : World K)
      → let f = file (raw_fd fd) in
        (destroy os f (close os f w).1).1 ≡ (os.close fd (os.close fd w).1).1
  unfolding destroy close file file_descriptor close_fd
  close-destroy fd w =
      common_call_world (os.close fd) (common_call (os.close fd) w).1
      ∙ ap (λ v. (os.close fd v).1) (common_call_world (os.close fd) w)
