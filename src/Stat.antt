-- ===== src/Stat.antt =====
-- include/pposix/stat.hpp: file types, permissions, and the literals "rwx"_user, _group, _other.
pub mod Literals
use pposix.Base.{ℕ, ◌≡◌, refl, List, [], ◌∷◌, ◌||◌, ◌==◌, if◌then◌else◌}
use pposix.EnumFlag.{IsEnum, EnumFlag, enum_or}

-- The macros of <sys/stat.h>.
pub data StatMacro : Type 0 where
  s_ifblk s_ifchr s_ififo s_ifreg s_iflnk s_ifsock : StatMacro
  s_irusr s_iwusr s_ixusr s_irwxu : StatMacro
  s_irgrp s_iwgrp s_ixgrp s_irwxg : StatMacro
  s_iroth s_iwoth s_ixoth s_irwxo : StatMacro

-- The enumerators of `capi::file_type`, and the macro that each is given.
pub data FileType : Type 0 where
  blk chr fifo ifreg iflnk ifsock : FileType

unfoldable pub file_type : (StatMacro → ℕ) → FileType → ℕ
file_type m blk = m s_ifblk
file_type m chr = m s_ifchr
file_type m fifo = m s_ififo
file_type m ifreg = m s_ifreg
file_type m iflnk = m s_iflnk
file_type m ifsock = m s_ifsock

-- The constants `blk`, `chr`, … of type `enum_flag`.
unfoldable pub file_type_constant : (StatMacro → ℕ) → FileType → EnumFlag ℕ
unfolding file_type
file_type_constant m t = record { flags = file_type m t }

-- `capi::permission`, an enumeration of bit patterns.
pub record Permission : Type 0 where
  pub bits : ℕ

abbrev pub permission : ℕ → Permission
permission n = record { bits = n }

instance abbrev pub permission_enum : IsEnum Permission
permission_enum = record {
  to_underlying = λ p. p.bits;
  of_underlying = permission;
  to-of_underlying = λ n. refl;
}

pub data PermissionName : Type 0 where
  none : PermissionName
  user_read user_write user_execute user_all : PermissionName
  group_read group_write group_execute group_all : PermissionName
  other_read other_write other_execute other_all : PermissionName

unfoldable pub permission_value : (StatMacro → ℕ) → PermissionName → Permission
permission_value m none = permission 0
permission_value m user_read = permission (m s_irusr)
permission_value m user_write = permission (m s_iwusr)
permission_value m user_execute = permission (m s_ixusr)
permission_value m user_all = permission (m s_irwxu)
permission_value m group_read = permission (m s_irgrp)
permission_value m group_write = permission (m s_iwgrp)
permission_value m group_execute = permission (m s_ixgrp)
permission_value m group_all = permission (m s_irwxg)
permission_value m other_read = permission (m s_iroth)
permission_value m other_write = permission (m s_iwoth)
permission_value m other_execute = permission (m s_ixoth)
permission_value m other_all = permission (m s_irwxo)

-- The constants `no_permissions`, `user_read`, … of type `enum_flag`.
unfoldable pub permission_constant : (StatMacro → ℕ) → PermissionName → EnumFlag Permission
unfolding permission_value
permission_constant m p = record { flags = permission_value m p }

-- `operator|` on permissions
unfoldable pub permission_or : Permission → Permission → Permission
unfolding enum_or
permission_or lhs rhs = enum_or lhs rhs

-- `detail::char_to_permission<Read, Write, Execute>`
unfoldable pub char_to_permission : Permission → Permission → Permission → ℕ → Permission
char_to_permission read write execute c =
    if c == b'R' || c == b'r'
    then read
    else if c == b'W' || c == b'w'
    then write
    else if c == b'X' || c == b'x'
    then execute
    else permission 0

-- `detail::str_to_permission`: the loop over the characters, with what is gathered so far.
unfoldable pub str_to_permission : (ℕ → Permission) → List ℕ → Permission → Permission
str_to_permission char_to [] p = p
str_to_permission char_to (c ∷ cs) p = str_to_permission char_to cs (permission_or p (char_to c))

module _ (m : StatMacro → ℕ) where
  -- `"…"_user`
  unfoldable pub user_literal : List ℕ → Permission
  unfolding str_to_permission permission_value
  user_literal cs =
      str_to_permission
        (char_to_permission (permission_value m user_read) (permission_value m user_write)
          (permission_value m user_execute))
        cs (permission 0)

  -- `"…"_group`
  unfoldable pub group_literal : List ℕ → Permission
  unfolding str_to_permission permission_value
  group_literal cs =
      str_to_permission
        (char_to_permission (permission_value m group_read) (permission_value m group_write)
          (permission_value m group_execute))
        cs (permission 0)

  -- `"…"_other`
  unfoldable pub other_literal : List ℕ → Permission
  unfolding str_to_permission permission_value
  other_literal cs =
      str_to_permission
        (char_to_permission (permission_value m other_read) (permission_value m other_write)
          (permission_value m other_execute))
        cs (permission 0)
