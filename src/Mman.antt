-- ===== src/Mman.antt =====
-- include/pposix/mman.hpp and src/mman.cpp: memory maps. `map_failed` is MAP_FAILED; an address is
-- a number. `shm`, whose only operation is a stub that returns an error code, is modelled as it is.
-- `is_noexcept` says whether the lambda that `mmap::map` hands to `result_map` is `noexcept`. It is not
-- declared so, which makes it false; with true, `map` is what it is to be.
-- `mmap::protect` calls a function that has no definition, which is its parameter.
pub mod Laws
use Prim.Native.String.{String}
use pposix.Base.{
  ℕ, ℤ, ◌==◌, ==_iff, ◌≡◌, ◌↔◌, refl, ap, ap₂, Bool, true, not, ◌&&◌, ◌||◌, arith, if◌then◌else◌,
}
use pposix.Errno.{Sys, ErrorCode, no_error, ◌>>=◌, pure, current_errno_code}
use pposix.Call.{common_call}
use pposix.Descriptor.{Traits, Descriptor, of_raw, raw, into_result, destroy as destroy_descriptor}
use pposix.EnumFlag.{IsEnum, EnumFlag, Checked, refused, compiled, has_flag, underlying_v}
use pposix.FileDescriptor.{RawFd, raw_fd_t}
use pposix.Result.{Result, ok, err, result_map, assert_noexcept}

-- The calls of <sys/mman.h>.
pub record MmanApi (K : Type 0) : Type 0 where
  pub mmap : ℕ → ℕ → ℕ → ℕ → ℤ → ℤ → Sys K ℕ
  pub munmap : ℕ → ℕ → Sys K ℤ
  pub mprotect : ℕ → ℕ → ℕ → Sys K ℤ

pub record MmapD : Type 0 where
  pub address_ : ℕ
  pub length_ : ℕ

-- `mmap_d(void *address, size_t length)`
unfoldable pub mmap_d : ℕ → ℕ → MmapD
mmap_d address length = record { address_ = address; length_ = length }

-- `address()` and `length()`
abbrev pub map_address : MmapD → ℕ
map_address d = d.address_

abbrev pub map_length : MmapD → ℕ
map_length d = d.length_

-- `operator==`
unfoldable pub same_map : MmapD → MmapD → Bool
same_map lhs rhs = (lhs.address_ == rhs.address_) && (lhs.length_ == rhs.length_)

same_map_iff : (a b : MmapD) → (same_map a b ≡ true) ↔ (a ≡ b)
unfolding same_map mmap_d
same_map_iff a b = (
  λ h.
      ap₂ mmap_d ((==_iff a.address_ b.address_).0 (ground arith))
        ((==_iff a.length_ b.length_).0 (ground arith)),
  λ e. rw (e, (==_iff b.address_ b.address_).1 refl, (==_iff b.length_ b.length_).1 refl) refl,
)

-- `capi::mmap_protection`
pub record MmapProtection : Type 0 where
  pub bits : ℕ

abbrev pub mmap_protection : ℕ → MmapProtection
mmap_protection n = record { bits = n }

instance abbrev pub mmap_protection_enum : IsEnum MmapProtection
mmap_protection_enum = record {
  to_underlying = λ a. a.bits;
  of_underlying = mmap_protection;
  to-of_underlying = λ n. refl;
}

pub data MmapProtectionName : Type 0 where
  read write exec none : MmapProtectionName

-- `capi::mmap_flag`
pub record MmapFlag : Type 0 where
  pub bits : ℕ

abbrev pub mmap_flag : ℕ → MmapFlag
mmap_flag n = record { bits = n }

instance abbrev pub mmap_flag_enum : IsEnum MmapFlag
mmap_flag_enum = record {
  to_underlying = λ a. a.bits;
  of_underlying = mmap_flag;
  to-of_underlying = λ n. refl;
}

pub data MmapFlagName : Type 0 where
  fixed private_ shared : MmapFlagName

-- The macros of <sys/mman.h>.
pub data MmanMacro : Type 0 where
  prot_read prot_write prot_exec prot_none map_fixed map_private map_shared : MmanMacro

unfoldable pub mmap_protection_value : (MmanMacro → ℕ) → MmapProtectionName → MmapProtection
mmap_protection_value m read = mmap_protection (m prot_read)
mmap_protection_value m write = mmap_protection (m prot_write)
mmap_protection_value m exec = mmap_protection (m prot_exec)
mmap_protection_value m none = mmap_protection (m prot_none)

unfoldable pub mmap_flag_value : (MmanMacro → ℕ) → MmapFlagName → MmapFlag
mmap_flag_value m fixed = mmap_flag (m map_fixed)
mmap_flag_value m private_ = mmap_flag (m map_private)
mmap_flag_value m shared = mmap_flag (m map_shared)

-- The constants `mmap_no_access`, `mmap_read`, `mmap_write` and `mmap_execute`.
unfoldable pub protection_constant : (MmanMacro → ℕ) → MmapProtectionName → EnumFlag MmapProtection
unfolding mmap_protection_value
protection_constant m p = record { flags = mmap_protection_value m p }

-- The constants `mmap_fixed`, `mmap_private` and `mmap_shared`.
unfoldable pub mmap_flag_constant : (MmanMacro → ℕ) → MmapFlagName → EnumFlag MmapFlag
unfolding mmap_flag_value
mmap_flag_constant m f = record { flags = mmap_flag_value m f }

pub record Mmap : Type 0 where
  pub mmap_d_ : Descriptor MmapD

-- `explicit mmap(mmap_d)`
unfoldable pub mmap : MmapD → Mmap
unfolding of_raw
mmap d = record { mmap_d_ = of_raw d }

-- The messages of the `static_assert`s.
abbrev no_access_and_access : String
no_access_and_access =
    "'mmap_no_access' cannot be set with 'mmap_read', 'mmap_write' or 'mmap_execute'."

abbrev private_and_shared : String
private_and_shared = "You can only specify one of 'mmap_private' or 'mmap_shared' , not both."

module _ {K : Type 0} (os : MmanApi K) (map_failed : ℕ) where
  -- `capi::mmap_map`
  unfoldable pub mmap_map : ℕ → ℕ → MmapProtection → MmapFlag → RawFd → ℤ → Sys K (Result MmapD)
  unfolding current_errno_code mmap_d underlying_v
  mmap_map addr len prot flags fildes off = do
    ptr ← os.mmap addr len (underlying_v prot) (underlying_v flags) (raw_fd_t fildes) off
    if ptr == map_failed
        then (do e ← current_errno_code; pure (err e))
        else pure (ok (mmap_d ptr len))

  -- `capi::mmap_protect`, as it is defined.
  unfoldable pub mmap_protect : MmapD → MmapProtection → Sys K ErrorCode
  unfolding common_call underlying_v
  mmap_protect descriptor prot =
      common_call (os.mprotect descriptor.address_ descriptor.length_ (underlying_v prot))

  unfoldable pub close_mmap : MmapD → Sys K ErrorCode
  unfolding common_call
  close_mmap m = common_call (os.munmap (map_address m) (map_length m))

  -- `detail::mmap_default_close_policy`
  unfoldable pub default_close_policy : MmapD → Sys K ErrorCode
  unfolding common_call
  default_close_policy d = common_call (os.munmap (map_address d) (map_length d))

  -- `detail::get_mmap_null_d`, which returns `mmap_d{}`.
  abbrev pub get_mmap_null_d : MmapD
  get_mmap_null_d = record { address_ = map_failed; length_ = 0 }

  -- The template arguments of `unique_mmap_d`.
  unfoldable pub unique_mmap_d : Traits K MmapD
  unfolding mmap_d same_map same_map_iff close_mmap
  unique_mmap_d = record {
    get_null = get_mmap_null_d;
    same = same_map;
    same_iff = same_map_iff;
    close_policy = close_mmap;
  }

  unfoldable pub unmap : Mmap → Sys K ErrorCode
  unfolding common_call raw
  unmap m = common_call (os.munmap (map_address (raw m.mmap_d_)) (map_length (raw m.mmap_d_)))

  -- The destructor that the compiler writes: that of `mmap_d_`.
  unfoldable pub destroy : Mmap → Sys K (Unit {0})
  unfolding destroy_descriptor
  destroy m = destroy_descriptor unique_mmap_d m.mmap_d_

  module _ (m : MmanMacro → ℕ) where
    -- The condition of the first `static_assert` of `map`.
    abbrev pub protection_agrees : EnumFlag MmapProtection → Bool
    protection_agrees prot = not (
        has_flag prot (protection_constant m MmapProtectionName.none)
        && (has_flag prot (protection_constant m MmapProtectionName.read)
            || has_flag prot (protection_constant m MmapProtectionName.write)
            || has_flag prot (protection_constant m MmapProtectionName.exec)))

    -- The condition of the second.
    abbrev pub sharing_agrees : EnumFlag MmapFlag → Bool
    sharing_agrees flags = not (
        has_flag flags (mmap_flag_constant m private_)
        && has_flag flags (mmap_flag_constant m shared))

    unfoldable pub map :
        (is_noexcept : Bool)
        → ℕ
        → ℕ
        → EnumFlag MmapProtection
        → EnumFlag MmapFlag
        → RawFd
        → ℤ
        → Checked (Sys K (Result Mmap))
    unfolding result_map assert_noexcept mmap into_result unique_mmap_d
    map is_noexcept addr len prot flags fildes off =
        if protection_agrees prot
        then (if sharing_agrees flags
            then assert_noexcept is_noexcept (do
              r ← mmap_map addr len prot.flags flags.flags fildes off
              into_result unique_mmap_d (result_map r (λ d. mmap d)))
            else refused private_and_shared)
        else refused no_access_and_access

    -- `mmap::protect`, over the `capi::mmap_protect` of one argument that include/pposix/mman.hpp
    -- declares.
    unfoldable pub protect :
        (MmapProtection → Sys K ErrorCode) → EnumFlag MmapProtection → Checked (Sys K ErrorCode)
    protect declared_protect prot =
        if protection_agrees prot
        then compiled (declared_protect prot.flags)
        else refused no_access_and_access

-- `shm`
pub record Shm : Type 0 where
  pub shm_fd_ : Descriptor RawFd

-- `shm::unsafe_open`, which makes no call and returns `std::error_code{}`.
unfoldable pub unsafe_open_shm : {K : Type 0} → ℕ → Sys K (Result Shm)
unsafe_open_shm name = pure (err no_error)
