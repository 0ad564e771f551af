-- ===== src/Owner/Run.antt =====
-- Programs over the objects of an owning class: constructions, moves and destructions.
use pposix.Base.{ℕ, List, [], ◌∷◌, none, some, get_elem?, set, erase_idx, length, replicate, ◌++◌}
use pposix.Errno.{World}
use pposix.Descriptor.Ledger.{
  Op, adopts, moves_new as descriptor_moves_new, moves_onto as descriptor_moves_onto,
  destroys as descriptor_destroys,
}
use pposix.Owner.{IsOwner}

-- Objects are named by their place in the store.
pub data OwnerOp (A : Type 0) : Type 0 where
  defaults : OwnerOp A
  constructs : A → OwnerOp A
  moves_new : ℕ → OwnerOp A
  moves_onto : ℕ → ℕ → OwnerOp A
  destroys : ℕ → OwnerOp A

pub record Owners (K C : Type 0) : Type 0 where
  pub objects : List C
  pub world : World K

unfoldable pub start_owners : {K C : Type 0} → World K → Owners K C
start_owners w = record { objects = []; world = w }

module _ {K D A C : Type 0} (o : IsOwner K D A C) where
  open o use {
    traits, default_owner, construct, move_owner, assign_owner, destroy_owner, handle, constructing,
  }

  -- An operation on an object that does not exist is no step of a program.
  unfoldable pub step_owners : OwnerOp A → Owners K C → Owners K C
  step_owners defaults r = record r { objects = default_owner ∷ r.objects }
  step_owners (constructs a) r =
      let (c, w) = construct a r.world in record { objects = c ∷ r.objects; world = w }
  step_owners (moves_new i) r = elim (get_elem? r.objects i) [
    | none ↦ r
    | some c ↦ let (new, other) = move_owner c in record r { objects = new ∷ set r.objects i other }
  ]
  step_owners (moves_onto i j) r = elim (get_elem? r.objects i) [
    | none ↦ r
    | some this ↦ elim (get_elem? r.objects j) [
      | none ↦ r
      | some other ↦
          let (this', other') = assign_owner this other in
          record r { objects = set (set r.objects i this') j other' }
    ]
  ]
  step_owners (destroys i) r = elim (get_elem? r.objects i) [
    | none ↦ r
    | some c ↦ record { objects = erase_idx r.objects i; world = (destroy_owner c r.world).1 }
  ]

  unfoldable pub run_owners : List (OwnerOp A) → Owners K C → Owners K C
  run_owners [] r = r
  run_owners (op ∷ ops) r = run_owners ops (step_owners op r)

  -- The end of a program: the objects that are left are destroyed, the newest first.
  unfoldable pub finish_owners : Owners K C → Owners K C
  unfolding run_owners
  finish_owners r = run_owners (replicate (length r.objects) (destroys 0)) r

  -- The handles that the constructors were given.
  unfoldable pub given : List (OwnerOp A) → List D
  given [] = []
  given (defaults ∷ ops) = given ops
  given (constructs a ∷ ops) = handle a ∷ given ops
  given (moves_new i ∷ ops) = given ops
  given (moves_onto i j ∷ ops) = given ops
  given (destroys i ∷ ops) = given ops

  -- What an operation, and a program, does with descriptors.
  unfoldable pub descriptor_ops : OwnerOp A → List (Op D)
  descriptor_ops defaults = adopts traits.get_null ∷ []
  descriptor_ops (constructs a) = constructing a
  descriptor_ops (moves_new i) = descriptor_moves_new i ∷ []
  descriptor_ops (moves_onto i j) = descriptor_moves_onto i j ∷ []
  descriptor_ops (destroys i) = descriptor_destroys i ∷ []

  unfoldable pub descriptor_program : List (OwnerOp A) → List (Op D)
  descriptor_program [] = []
  descriptor_program (op ∷ ops) = descriptor_ops op ++ descriptor_program ops
