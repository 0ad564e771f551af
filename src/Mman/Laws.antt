-- ===== src/Mman/Laws.antt =====
-- Which uses of `mmap::map` compile, what mapping returns, and what unmapping leaves behind.
use pposix.Base.{
  ℕ, ℤ, ◌==◌, ==_iff, ◌^◌, ◌≡◌, refl, ◌∙◌, ap, Bool, false, not, ◌&&◌, List, any, arith, Bool-cases,
  inl, inr, ◌⊎◌,
}
use pposix.Errno.{World, Sys, ErrorCode, current_errno_code, make_errno_code}
use pposix.Call.{common_call, common_call_world}
use pposix.EnumFlag.{EnumFlag, compiled, has, has_flag, underlying_v}
use pposix.EnumFlag.Laws.{join, has_flag-join, has-zero}
use pposix.File.Laws.{is_compiled}
use pposix.FileDescriptor.{RawFd, raw_fd_t}
use pposix.Mman.{
  MmanApi, MmanMacro, prot_none, map_private, map_shared, MmapProtection, mmap_protection_enum,
  MmapProtectionName, MmapFlag, mmap_flag_enum, MmapFlagName, mmap_flag_constant,
  protection_constant, mmap_map, mmap_d, MmapD, map, protect, mmap, unmap, destroy, unique_mmap_d,
  close_mmap,
}
use pposix.Result.{Result, ok, err, assert_noexcept}

module _ {K : Type 0} (os : MmanApi K) (map_failed : ℕ) where
  module _ (m : MmanMacro → ℕ) where
    no_none :
        (prot : EnumFlag MmapProtection)
        → m prot_none ≡ 0
        → has_flag prot (protection_constant m MmapProtectionName.none) ≡ false
    unfolding has_flag has protection_constant
    no_none prot zero = has-zero prot (record { bits = m prot_none }) zero

    -- When PROT_NONE is 0, and MAP_PRIVATE and MAP_SHARED are single bits, `map` compiles exactly
    -- when the two bits are not both among the flags and the function that it hands to `result_map`
    -- is `noexcept`, whatever the protection: the assertion on `mmap_no_access` never fails.
    -- `protect`, which has that assertion alone, compiles for every protection to its one call.
    pub map_compiles :
        (none_zero : m prot_none ≡ 0) (p s : ℕ) (private_bit : m map_private ≡ 2 ^ p)
        (shared_bit : m map_shared ≡ 2 ^ s) (is_noexcept : Bool) (addr len : ℕ)
        (prot : EnumFlag MmapProtection) (bits : List ℕ) (fd : RawFd) (off : ℤ)
        (declared_protect : MmapProtection → Sys K ErrorCode)
        → (is_compiled (map os map_failed m is_noexcept addr len prot (join MmapFlag bits) fd off)
            ≡ (is_noexcept && not (any (λ b. b == p) bits && any (λ b. b == s) bits)))
          × (protect os map_failed m declared_protect prot ≡ compiled (declared_protect prot.flags))
    unfolding map protect mmap_flag_constant underlying_v assert_noexcept
    map_compiles none_zero p s private_bit shared_bit is_noexcept addr len prot bits fd off
          declared_protect =
        rw
          (
            no_none prot none_zero,
            has_flag-join MmapFlag (mmap_flag_constant m MmapFlagName.private_) p private_bit bits,
            has_flag-join MmapFlag (mmap_flag_constant m MmapFlagName.shared) s shared_bit bits,
          )
          (ground arith, refl)

  -- Mapping failed with the `errno` of the call, or gave the address that the call returned with
  -- the length; destroying a map that is made from them unmaps that range once.
  abbrev pub IsMapping : ℕ → ℕ × World K → Result MmapD × World K → Type 0
  IsMapping len call got =
      ((call.0 ≡ map_failed) × (got ≡ (err (make_errno_code call.1.errno), call.1)))
      ⊎ ((d : MmapD) × (got ≡ (ok d, call.1))
          × (d ≡ mmap_d call.0 len)
          × ((v : World K) → (destroy os map_failed (mmap d) v).1 ≡ (os.munmap call.0 len v).1))

  -- When `::mmap` returns MAP_FAILED, `mmap_map` returns the error in `errno`; otherwise it returns
  -- the address with the length, and destroying a map that is made from it unmaps that range once.
  pub mmap_map_lem :
      (addr len : ℕ) (prot : MmapProtection) (flags : MmapFlag) (fd : RawFd) (off : ℤ) (w : World K)
      → IsMapping len
          (os.mmap addr len prot.bits flags.bits (raw_fd_t fd) off w)
          (mmap_map os map_failed addr len prot flags fd off w)
  unfolding mmap_map current_errno_code mmap_d destroy mmap unique_mmap_d close_mmap
  mmap_map_lem addr len prot flags fd off w =
      let call = os.mmap addr len prot.bits flags.bits (raw_fd_t fd) off w in
      elim (Bool-cases (call.0 == map_failed)) [
        | inl failed ↦ inl ((==_iff _ _).0 failed, rw failed refl)
        | inr mapped ↦ inr (
          mmap_d call.0 len,
          rw mapped refl,
          refl,
          λ v. common_call_world (os.munmap call.0 len) v,
        )
      ]

  -- `unmap` leaves the range in the map, so the destructor unmaps the same range again: whatever
  -- the first call returned, and whatever may have been mapped there since.
  pub unmap-destroy :
      (address len : ℕ) (w : World K)
      → let map = mmap (mmap_d address len) in
        (destroy os map_failed map (unmap os map_failed map w).1).1
        ≡ (os.munmap address len (os.munmap address len w).1).1
  unfolding mmap mmap_d destroy unmap unique_mmap_d close_mmap
  unmap-destroy address len w =
      common_call_world (os.munmap address len) (common_call (os.munmap address len) w).1
      ∙ ap (λ v. (os.munmap address len v).1) (common_call_world (os.munmap address len) w)
