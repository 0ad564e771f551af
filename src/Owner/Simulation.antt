-- ===== src/Owner/Simulation.antt =====
-- Programs over an owning class keep the objects and the world of programs over descriptors.
use pposix.Base.{
  ℕ, ◌≡◌, refl, sym, ap, ap₂, ◌∙◌, ◌⊎◌, inl, inr, Option-cases, List, [], ◌∷◌, ◌++◌, none, some,
  get_elem?, set, map, get_elem?-map-none, get_elem?-map-some, map-set, map-erase_idx,
}
use pposix.Errno.{World}
use pposix.Descriptor.{of_raw, null_descriptor}
use pposix.Descriptor.Ledger.{
  State, Op, on, run, step, start, adopt_step, move_new_step, move_onto_step, destroy_step,
}
use pposix.Owner.{IsOwner}
use pposix.Owner.Run.{
  OwnerOp, defaults, constructs, moves_new, moves_onto, destroys, Owners, start_owners, step_owners,
  run_owners, descriptor_ops, descriptor_program,
}

module _ {K D A C : Type 0} (o : IsOwner K D A C) where
  open o use {traits, descriptor_of, handle}

  -- The books of the descriptors show the objects and the world.
  pub record Shows (r : Owners K C) (s : State K D) : Type 0 where
    pub objects : map descriptor_of r.objects ≡ s.objects
    pub world : r.world ≡ s.world

  defaults-Shows :
      (r : Owners K C) (s : State K D)
      → Shows r s
      → Shows (step_owners o defaults r) (run traits (descriptor_ops o defaults) s)
  unfolding step_owners descriptor_ops run step adopt_step of_raw null_descriptor
  defaults-Shows r s h = record {
    objects = ap₂ ◌∷◌ o.descriptor_of-default h.objects;
    world = h.world;
  }

  constructs-Shows :
      (a : A) (r : Owners K C) (s : State K D)
      → Shows r s
      → Shows (step_owners o (constructs a) r) (run traits (descriptor_ops o (constructs a)) s)
  unfolding step_owners descriptor_ops
  constructs-Shows a r s h = rw (h.world) (record {
    objects =
        ap (◌∷◌ (descriptor_of (o.construct a s.world).0)) h.objects
        ∙ sym (o.objects-constructing a s);
    world = sym (o.world-constructing a s);
  })

  -- An object of the owner's store shows a descriptor at the same place.
  at_place :
      {r : Owners K C} {s : State K D}
      → Shows r s
      → (i : ℕ)
      → ((get_elem? r.objects i ≡ none) × (get_elem? s.objects i ≡ none))
        ⊎ ((c : C) × (get_elem? r.objects i ≡ some c)
            × (get_elem? s.objects i ≡ some (descriptor_of c)))
  at_place {r} h i = elim (Option-cases (get_elem? r.objects i)) [
    | inl e ↦ inl (e, rw (← h.objects) (get_elem?-map-none descriptor_of r.objects i e))
    | inr (c, e) ↦ inr (c, e, rw (← h.objects) (get_elem?-map-some descriptor_of r.objects i e))
  ]

  moves_new-Shows :
      (i : ℕ) (r : Owners K C) (s : State K D)
      → Shows r s
      → Shows (step_owners o (moves_new i) r) (run traits (descriptor_ops o (moves_new i)) s)
  unfolding step_owners descriptor_ops run step move_new_step on
  moves_new-Shows i r s h = elim (at_place h i) [
    | inl (e, e') ↦ rw (e, step_owners) (rw (e', on) h)
    | inr (c, e, e') ↦
        rw (e, step_owners)
          (rw (e', on)
            (record {
              objects = ap₂ ◌∷◌ (o.descriptor_of-move c).0 (
                  map-set descriptor_of r.objects i (o.move_owner c).1
                  ∙ ap₂ (λ xs d. set xs i d) h.objects (o.descriptor_of-move c).1);
              world = h.world;
            }))
  ]

  moves_onto-Shows :
      (i j : ℕ) (r : Owners K C) (s : State K D)
      → Shows r s
      → Shows (step_owners o (moves_onto i j) r) (run traits (descriptor_ops o (moves_onto i j)) s)
  unfolding step_owners descriptor_ops run step move_onto_step on
  moves_onto-Shows i j r s h = elim (at_place h i) [
    | inl (e, e') ↦ rw (e, step_owners) (rw (e', on) h)
    | inr (this, e, e') ↦ elim (at_place h j) [
      | inl (f, f') ↦ rw (e, step_owners) (rw (e', on) (rw (f, step_owners) (rw (f', on) h)))
      | inr (other, f, f') ↦
          rw (e, step_owners)
            (rw (e', on)
              (rw (f, step_owners)
                (rw (f', on)
                  (record {
                    objects = rw (
                      map-set,
                      map-set,
                      h.objects,
                      (o.descriptor_of-assign this other).0,
                      (o.descriptor_of-assign this other).1,
                    );
                    world = h.world;
                  }))))
    ]
  ]

  destroys-Shows :
      (i : ℕ) (r : Owners K C) (s : State K D)
      → Shows r s
      → Shows (step_owners o (destroys i) r) (run traits (descriptor_ops o (destroys i)) s)
  unfolding step_owners descriptor_ops run step destroy_step on
  destroys-Shows i r s h = elim (at_place h i) [
    | inl (e, e') ↦ rw (e, step_owners) (rw (e', on) h)
    | inr (c, e, e') ↦
        rw (e, step_owners)
          (rw (e', on)
            (record {
              objects = rw (map-erase_idx, h.objects);
              world = rw (← h.world) (o.world-destroy c r.world);
            }))
  ]

  step-Shows :
      (op : OwnerOp A) (r : Owners K C) (s : State K D)
      → Shows r s
      → Shows (step_owners o op r) (run traits (descriptor_ops o op) s)
  step-Shows defaults r s h = defaults-Shows r s h
  step-Shows (constructs a) r s h = constructs-Shows a r s h
  step-Shows (moves_new i) r s h = moves_new-Shows i r s h
  step-Shows (moves_onto i j) r s h = moves_onto-Shows i j r s h
  step-Shows (destroys i) r s h = destroys-Shows i r s h

  pub run-append :
      (xs ys : List (Op D)) (s : State K D)
      → run traits (xs ++ ys) s ≡ run traits ys (run traits xs s)
  unfolding run
  run-append [] ys s = refl
  run-append (x ∷ xs) ys s = run-append xs ys (step traits x s)

  pub run-Shows :
      (ops : List (OwnerOp A)) (r : Owners K C) (s : State K D)
      → Shows r s
      → Shows (run_owners o ops r) (run traits (descriptor_program o ops) s)
  unfolding run_owners descriptor_program run
  run-Shows [] r s h = h
  run-Shows (op ∷ ops) r s h = rw (run-append (descriptor_ops o op) (descriptor_program o ops) s) (
      run-Shows ops (step_owners o op r) (run traits (descriptor_ops o op) s) (step-Shows op r s h))

  pub start-Shows : (w : World K) → Shows (start_owners w) (start w)
  unfolding start_owners start
  start-Shows w = record { objects = refl; world = refl }
