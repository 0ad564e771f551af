-- ===== src/Descriptor/Ownership.antt =====
-- No handle is lost, made up, or closed twice by the operations of a descriptor.
use pposix.Base.{
  ℕ, ◌+◌, ◌≤◌, ◌≡◌, refl, List, [], ◌∷◌, some, Bool, false, arith, get_elem?, set, count, count-set,
  count-set-set, count-erase_idx,
}
use pposix.Errno.{World}
use pposix.Descriptor.{
  Traits, Descriptor, of_raw, raw, null_descriptor, move_assign, move_construct, release, close,
}
use pposix.Descriptor.Ledger.{
  State, on_cases, Op, adopts, moves_new, moves_onto, releases, closes, destroys, adopt_step,
  move_new_step, move_onto_step, release_step, close_step, destroy_step, step, run, start,
}

module _ {K D : Type 0} (T : Traits K D) (h : D) where
  -- Does the object hold the handle?
  abbrev pub holds : Descriptor D → Bool
  holds d = T.same h d.raw_descriptor_

  -- How many objects hold it?
  abbrev pub held : State K D → ℕ
  held s = count holds s.objects

  -- Every adoption of the handle is accounted for once.
  abbrev pub IsBalanced : State K D → Type 0
  IsBalanced s =
      count (T.same h) s.adopted
      ≡ held s + count (T.same h) s.released + count (T.same h) s.closed + count (T.same h) s.leaked

  module _ (live : T.same h T.get_null ≡ false) where
    adopt-IsBalanced : (d : D) (s : State K D) → IsBalanced s → IsBalanced (adopt_step T d s)
    unfolding adopt_step of_raw
    adopt-IsBalanced d s b = ground arith

    move_new-IsBalanced : (i : ℕ) (s : State K D) → IsBalanced s → IsBalanced (move_new_step T i s)
    unfolding move_new_step move_construct null_descriptor
    move_new-IsBalanced i s b =
        on_cases IsBalanced i s b
          λ d e. ground (arith, count-set holds s.objects i d (null_descriptor T) e)

    -- The two objects exchange their handles.
    other_after_move :
        (objects : List (Descriptor D)) (i j : ℕ) (this other : Descriptor D)
        → get_elem? objects i ≡ some this
        → get_elem? objects j ≡ some other
        → count holds (set (set objects i (move_assign this other).0) j (move_assign this other).1)
          ≡ count holds objects
    unfolding move_assign
    other_after_move objects i j this other ei ej =
        count-set-set holds objects i j this other (move_assign this other).0
          (move_assign this other).1 ei ej refl refl

    move_onto-IsBalanced :
        (i j : ℕ) (s : State K D) → IsBalanced s → IsBalanced (move_onto_step T i j s)
    unfolding move_onto_step
    move_onto-IsBalanced i j s b = on_cases IsBalanced i s b λ this ei.
        on_cases IsBalanced j s b
          λ other ej. omega (arith, b, other_after_move s.objects i j this other ei ej)

    release-IsBalanced : (i : ℕ) (s : State K D) → IsBalanced s → IsBalanced (release_step T i s)
    unfolding release_step release null_descriptor
    release-IsBalanced i s b =
        on_cases IsBalanced i s b
          λ d e. ground (arith, count-set holds s.objects i d (null_descriptor T) e)

    close-IsBalanced : (i : ℕ) (s : State K D) → IsBalanced s → IsBalanced (close_step T i s)
    unfolding close_step close raw null_descriptor
    close-IsBalanced i s b =
        on_cases IsBalanced i s b
          λ d e. ground (arith, count-set holds s.objects i d (close T d s.world).0.1 e)

    destroy-IsBalanced : (i : ℕ) (s : State K D) → IsBalanced s → IsBalanced (destroy_step T i s)
    unfolding destroy_step close raw
    destroy-IsBalanced i s b =
        on_cases IsBalanced i s b λ d e. ground (arith, count-erase_idx holds s.objects i d e)

    step-IsBalanced : (op : Op D) (s : State K D) → IsBalanced s → IsBalanced (step T op s)
    unfolding step
    step-IsBalanced (adopts d) s b = adopt-IsBalanced d s b
    step-IsBalanced (moves_new i) s b = move_new-IsBalanced i s b
    step-IsBalanced (moves_onto i j) s b = move_onto-IsBalanced i j s b
    step-IsBalanced (releases i) s b = release-IsBalanced i s b
    step-IsBalanced (closes i) s b = close-IsBalanced i s b
    step-IsBalanced (destroys i) s b = destroy-IsBalanced i s b

    pub run_from-IsBalanced :
        (ops : List (Op D)) (s : State K D) → IsBalanced s → IsBalanced (run T ops s)
    unfolding run
    run_from-IsBalanced [] s b = b
    run_from-IsBalanced (op ∷ ops) s b =
        run_from-IsBalanced ops (step T op s) (step-IsBalanced op s b)

    -- In any program of these operations that starts with no object, every adoption of a handle
    -- other than null is accounted for exactly once: as many objects hold the handle, as often it
    -- was released, closed with success, or left open by the destructor of an object whose close
    -- failed, as it was adopted.
    pub run-IsBalanced : (ops : List (Op D)) (w : World K) → IsBalanced (run T ops (start w))
    unfolding start
    run-IsBalanced ops w = run_from-IsBalanced ops (start w) refl

    -- A handle other than null that such a program adopts at most once is closed with success at
    -- most once; after that no object holds it, and it was neither released nor left open.
    pub run_closes_once :
        (ops : List (Op D)) (w : World K)
        → let s = run T ops (start w) in
          count (T.same h) s.adopted ≤ 1
          → (count (T.same h) s.closed ≤ 1)
            × (1 ≤ count (T.same h) s.closed
                → (held s ≡ 0)
                  × (count (T.same h) s.released ≡ 0)
                  × (count (T.same h) s.leaked ≡ 0))
    run_closes_once ops w once = (
      omega (arith, run-IsBalanced ops w),
      λ closed. (
        omega (arith, run-IsBalanced ops w),
        omega (arith, run-IsBalanced ops w),
        omega (arith, run-IsBalanced ops w),
      ),
    )
