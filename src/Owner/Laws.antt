-- ===== src/Owner/Laws.antt =====
-- What a program over an owning class does with the handles that it is given.
use pposix.Base.{
  ℕ, zero, suc, ◌+◌, ◌≡◌, refl, ap, ◌∙◌, List, [], ◌∷◌, false, arith, length, count, replicate, map,
  length-map,
}
use pposix.Errno.{World}
use pposix.Descriptor.{Traits}
use pposix.Descriptor.Ledger.{
  State, run, step, start, adopt_step, move_new_step, move_onto_step, destroy_step,
  destroys as descriptor_destroys,
}
use pposix.Descriptor.Finish.{finish}
use pposix.Owner.{IsOwner}
use pposix.Owner.Run.{
  OwnerOp, defaults, constructs, moves_new, moves_onto, destroys, Owners, start_owners, run_owners,
  finish_owners, given, descriptor_ops, descriptor_program,
}
use pposix.Owner.Simulation.{Shows, run-Shows, start-Shows, run-append}
use pposix.Owner.Classes.{Apis, Class, Handle, Argument, Object, owner}
use pposix.Descriptor.Ledger.{on_cases}
use pposix.Descriptor.Ownership.{held, run_from-IsBalanced, run-IsBalanced}
use pposix.Descriptor.Finish.{finish-empty}

module _ {K D A C : Type 0} (o : IsOwner K D A C) where
  open o use {traits, descriptor_of, handle}

  -- No step releases a handle.
  step_released :
      (op : OwnerOp A) (s : State K D) → (run traits (descriptor_ops o op) s).released ≡ s.released
  unfolding descriptor_ops run step adopt_step move_new_step move_onto_step destroy_step
  step_released defaults s = refl
  step_released (constructs a) s = o.released-constructing a s
  step_released (moves_new i) s = on_cases (λ s'. s'.released ≡ s.released) i s refl (λ d e. refl)
  step_released (moves_onto i j) s =
      on_cases (λ s'. s'.released ≡ s.released) i s refl
        (λ d e. on_cases (λ s'. s'.released ≡ s.released) j s refl (λ d' e'. refl))
  step_released (destroys i) s = on_cases (λ s'. s'.released ≡ s.released) i s refl (λ d e. refl)

  released-run :
      (ops : List (OwnerOp A)) (s : State K D)
      → (run traits (descriptor_program o ops) s).released ≡ s.released
  unfolding descriptor_program run
  released-run [] s = refl
  released-run (op ∷ ops) s =
      rw
        (
          run-append o (descriptor_ops o op) (descriptor_program o ops) s,
          released-run ops (run traits (descriptor_ops o op) s),
        )
        (step_released op s)

  module _ (h : D) (live : traits.same h traits.get_null ≡ false) where
    -- How often was the handle adopted?
    abbrev adoptions : State K D → ℕ
    adoptions s = count (traits.same h) s.adopted

    step_adopted :
        (op : OwnerOp A) (s : State K D)
        → adoptions (run traits (descriptor_ops o op) s)
          ≡ count (traits.same h) (given o (op ∷ [])) + adoptions s
    unfolding descriptor_ops run step adopt_step move_new_step move_onto_step destroy_step given
    step_adopted defaults s = ground arith
    step_adopted (constructs a) s = rw (o.adopted-constructing a s) (ground arith)
    step_adopted (moves_new i) s =
        on_cases (λ s'. adoptions s' ≡ 0 + adoptions s) i s (omega arith) (λ d e. omega arith)
    step_adopted (moves_onto i j) s =
        on_cases (λ s'. adoptions s' ≡ 0 + adoptions s) i s (omega arith)
          (λ d e.
            on_cases (λ s'. adoptions s' ≡ 0 + adoptions s) j s (omega arith)
              (λ d' e'. omega arith))
    step_adopted (destroys i) s =
        on_cases (λ s'. adoptions s' ≡ 0 + adoptions s) i s (omega arith) (λ d e. omega arith)

    count-given :
        (op : OwnerOp A) (ops : List (OwnerOp A))
        → count (traits.same h) (given o (op ∷ ops))
          ≡ count (traits.same h) (given o (op ∷ [])) + count (traits.same h) (given o ops)
    unfolding given
    count-given defaults ops = omega arith
    count-given (constructs a) ops = omega arith
    count-given (moves_new i) ops = omega arith
    count-given (moves_onto i j) ops = omega arith
    count-given (destroys i) ops = omega arith

    adopted-run :
        (ops : List (OwnerOp A)) (s : State K D)
        → adoptions (run traits (descriptor_program o ops) s)
          ≡ count (traits.same h) (given o ops) + adoptions s
    unfolding descriptor_program run given
    adopted-run [] s = omega arith
    adopted-run (op ∷ ops) s =
        rw (run-append o (descriptor_ops o op) (descriptor_program o ops) s) (
          omega (
            arith,
            adopted-run ops (run traits (descriptor_ops o op) s),
            step_adopted op s,
            count-given op ops,
          ))

  -- Destroying objects, as descriptors.
  program-destroys :
      (n : ℕ)
      → descriptor_program o (replicate n (destroys 0)) ≡ replicate n (descriptor_destroys 0)
  unfolding descriptor_program descriptor_ops
  program-destroys zero = refl
  program-destroys (suc n) = ap (◌∷◌ (descriptor_destroys 0)) (program-destroys n)

  given-destroys : (n : ℕ) → given o (replicate n (destroys 0)) ≡ []
  unfolding given
  given-destroys zero = refl
  given-destroys (suc n) = given-destroys n

  finish_lem :
      (s : State K D)
      → finish traits s
        ≡ run traits (descriptor_program o (replicate (length s.objects) (destroys 0))) s
  unfolding finish
  finish_lem s = rw (program-destroys (length s.objects))

  finish-Shows :
      (r : Owners K C) (s : State K D) → Shows o r s → Shows o (finish_owners o r) (finish traits s)
  unfolding finish_owners
  finish-Shows r s h =
      let same_length : length s.objects ≡ length r.objects =
        rw (← h.objects) (length-map descriptor_of r.objects) in
      rw (finish_lem s, same_length) (run-Shows o (replicate (length r.objects) (destroys 0)) r s h)

  nothing_left : (cs : List C) → map descriptor_of cs ≡ [] → cs ≡ []
  nothing_left [] h = refl
  nothing_left (c ∷ cs) h = cc

  -- The generic form of the theorem below.
  module _ (h : D) (live : traits.same h traits.get_null ≡ false) (ops : List (OwnerOp A))
      (w : World K) where
    abbrev ran : State K D
    ran = run traits (descriptor_program o ops) (start w)

    adopted-finish : adoptions h live (finish traits ran) ≡ count (traits.same h) (given o ops)
    unfolding start
    adopted-finish =
        rw
          (
            finish_lem ran,
            adopted-run h live (replicate (length ran.objects) (destroys 0)) ran,
            given-destroys,
          )
          (omega (arith, adopted-run h live ops (start w)))

    released-finish : (finish traits ran).released ≡ []
    unfolding start
    released-finish =
        rw (finish_lem ran, released-run (replicate (length ran.objects) (destroys 0)) ran)
          (released-run ops (start w))

    owner_lem :
        let r = finish_owners o (run_owners o ops (start_owners w)) in
        let s = finish traits ran in
        (r.objects ≡ [])
        × (r.world ≡ s.world)
        × (count (traits.same h) s.closed + count (traits.same h) s.leaked
            ≡ count (traits.same h) (given o ops))
    unfolding finish
    owner_lem =
        let r = run_owners o ops (start_owners w) in
        let shows =
          finish-Shows r ran (run-Shows o ops (start_owners w) (start w) (start-Shows o w)) in
        let drops = replicate (length ran.objects) (descriptor_destroys 0) in
        let balanced =
          run_from-IsBalanced traits h live drops ran
            (run-IsBalanced traits h live (descriptor_program o ops) w) in
        let no_object : held traits h (finish traits ran) ≡ 0 = rw (finish-empty traits ran) refl in
        let none_released : count (traits.same h) (finish traits ran).released ≡ 0 =
          rw released-finish refl in
        (
          nothing_left (finish_owners o r).objects (shows.objects ∙ finish-empty traits ran),
          shows.world,
          omega (arith, balanced, adopted-finish),
        )

module _ {K : Type 0} (apis : Apis K) (c : Class) where
  abbrev class_owner : IsOwner K (Handle c) (Argument c) (Object c)
  class_owner = owner apis c

  abbrev class_traits : Traits K (Handle c)
  class_traits = class_owner.traits

  -- For each of the six classes, every program of constructions, moves and destructions of its
  -- objects, followed by the destruction of those that are left, leaves the world as its program of
  -- descriptor operations does, and leaves no object. In the books of that program a handle other
  -- than null was closed with success, or left open by a destructor whose close failed, exactly as
  -- often as the constructors were given it.
  pub owners_lem :
      (h : Handle c) (live : class_traits.same h class_traits.get_null ≡ false)
      (ops : List (OwnerOp (Argument c))) (w : World K)
      → let r = finish_owners class_owner (run_owners class_owner ops (start_owners w)) in
        let s =
          finish class_traits (run class_traits (descriptor_program class_owner ops) (start w)) in
        (r.objects ≡ [])
        × (r.world ≡ s.world)
        × (count (class_traits.same h) s.closed + count (class_traits.same h) s.leaked
            ≡ count (class_traits.same h) (given class_owner ops))
  owners_lem h live ops w = owner_lem class_owner h live ops w
