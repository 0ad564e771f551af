-- ===== src/Descriptor/Ledger.antt =====
-- The life of the descriptors of a program: a store of objects, the operations of
-- include/pposix/descriptor.hpp on them, and the books that an observer keeps of the handles.
use pposix.Base.{
  ℕ, ◌≡◌, inl, inr, Option-cases, List, [], ◌∷◌, none, some, get_elem?, set, erase_idx,
  if◌then◌else◌,
}
use pposix.Errno.{World, is_error}
use pposix.Descriptor.{
  Traits, Descriptor, of_raw, raw, move_assign, move_construct, release, close, destroy,
}

pub record State (K D : Type 0) : Type 0 where
  pub objects : List (Descriptor D)
  pub world : World K
  -- Handles given to a constructor, taken back by `release`, closed with success, and held by an
  -- object that was destroyed when its close failed.
  pub adopted : List D
  pub released : List D
  pub closed : List D
  pub leaked : List D

-- Objects are named by their place in the store.
pub data Op (D : Type 0) : Type 0 where
  adopts : D → Op D
  moves_new : ℕ → Op D
  moves_onto : ℕ → ℕ → Op D
  releases closes destroys : ℕ → Op D

module _ {K D : Type 0} where
  -- An operation on an object that does not exist is no step of a program.
  unfoldable pub on : ℕ → State K D → (Descriptor D → State K D) → State K D
  on i s f = elim (get_elem? s.objects i) [ none ↦ s | some d ↦ f d ]

  pub on_cases :
      (P : State K D → Type 0) (i : ℕ) (s : State K D) {f : Descriptor D → State K D}
      → P s
      → ((d : Descriptor D) → get_elem? s.objects i ≡ some d → P (f d))
      → P (on i s f)
  unfolding on
  on_cases P i s stays moves = elim (Option-cases (get_elem? s.objects i)) [
    | inl e ↦ rw (e, on) stays
    | inr (d, e) ↦ rw (e, on) (moves d e)
  ]

module _ {K D : Type 0} (T : Traits K D) where
  unfoldable pub adopt_step : D → State K D → State K D
  adopt_step h s = record s { objects = of_raw h ∷ s.objects; adopted = h ∷ s.adopted }

  unfoldable pub move_new_step : ℕ → State K D → State K D
  move_new_step i s = on i s λ d.
      let (new, other) = move_construct T d in record s { objects = new ∷ set s.objects i other }

  unfoldable pub move_onto_step : ℕ → ℕ → State K D → State K D
  move_onto_step i j s = on i s λ this. on j s λ other.
      let (this', other') = move_assign this other in
      record s { objects = set (set s.objects i this') j other' }

  unfoldable pub release_step : ℕ → State K D → State K D
  release_step i s = on i s λ d.
      let (h, d') = release T d in
      record s { objects = set s.objects i d'; released = h ∷ s.released }

  unfoldable pub close_step : ℕ → State K D → State K D
  close_step i s = on i s λ d.
      let ran = close T d s.world in
      record s {
        objects = set s.objects i ran.0.1;
        world = ran.1;
        closed = if is_error ran.0.0 then s.closed else raw d ∷ s.closed;
      }

  unfoldable pub destroy_step : ℕ → State K D → State K D
  destroy_step i s = on i s λ d.
      let failed = is_error (close T d s.world).0.0 in
      record s {
        objects = erase_idx s.objects i;
        world = (destroy T d s.world).1;
        closed = if failed then s.closed else raw d ∷ s.closed;
        leaked = if failed then raw d ∷ s.leaked else s.leaked;
      }

  unfoldable pub step : Op D → State K D → State K D
  step (adopts h) = adopt_step h
  step (moves_new i) = move_new_step i
  step (moves_onto i j) = move_onto_step i j
  step (releases i) = release_step i
  step (closes i) = close_step i
  step (destroys i) = destroy_step i

  unfoldable pub run : List (Op D) → State K D → State K D
  run [] s = s
  run (op ∷ ops) s = run ops (step op s)

-- No object yet, and empty books.
unfoldable pub start : {K D : Type 0} → World K → State K D
start w = record { objects = []; world = w; adopted = []; released = []; closed = []; leaked = [] }
