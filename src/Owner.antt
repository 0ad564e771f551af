-- ===== src/Owner.antt =====
-- The classes that own one handle through a descriptor: `file`, `mq`, `lnx::epoll`, `socket`, `mmap`
-- and `shm`. `IsOwner` is what they have in common, programs over it are run in Owner/Run.antt, and
-- the members that the compiler writes for each class are in Owner/Members.antt.
pub mod Members
pub mod Run
pub mod Classes
pub mod Simulation
pub mod Laws
pub mod Files
use pposix.Base.{◌≡◌, List, ◌∷◌}
use pposix.Errno.{Sys, World}
use pposix.Descriptor.{
  Traits, Descriptor, null_descriptor, move_construct, move_assign, destroy as destroy_descriptor,
}
use pposix.Descriptor.Ledger.{State, Op, run as run_descriptors}

-- A class `C` of owners of a handle `D`, whose constructor takes an `A`.
pub record IsOwner (K D A C : Type 0) : Type 0 where
  pub traits : Traits K D
  pub descriptor_of : C → Descriptor D
  pub default_owner : C
  pub construct : A → Sys K C
  pub move_owner : C → C × C
  pub assign_owner : C → C → C × C
  pub destroy_owner : C → Sys K (Unit {0})
  -- The handle that the constructor is given, and what it does with descriptors.
  pub handle : A → D
  pub constructing : A → List (Op D)
  pub descriptor_of-default : descriptor_of default_owner ≡ null_descriptor traits
  pub objects-constructing :
      (a : A) (s : State K D)
      → (run_descriptors traits (constructing a) s).objects
        ≡ descriptor_of (construct a s.world).0 ∷ s.objects
  pub world-constructing :
      (a : A) (s : State K D)
      → (run_descriptors traits (constructing a) s).world ≡ (construct a s.world).1
  pub adopted-constructing :
      (a : A) (s : State K D)
      → (run_descriptors traits (constructing a) s).adopted ≡ handle a ∷ s.adopted
  pub released-constructing :
      (a : A) (s : State K D) → (run_descriptors traits (constructing a) s).released ≡ s.released
  pub descriptor_of-move :
      (c : C)
      → (descriptor_of (move_owner c).0 ≡ (move_construct traits (descriptor_of c)).0)
        × (descriptor_of (move_owner c).1 ≡ (move_construct traits (descriptor_of c)).1)
  pub descriptor_of-assign :
      (this other : C)
      → (descriptor_of (assign_owner this other).0
          ≡ (move_assign (descriptor_of this) (descriptor_of other)).0)
        × (descriptor_of (assign_owner this other).1
            ≡ (move_assign (descriptor_of this) (descriptor_of other)).1)
  pub world-destroy :
      (c : C) (w : World K)
      → (destroy_owner c w).1 ≡ (destroy_descriptor traits (descriptor_of c) w).1
