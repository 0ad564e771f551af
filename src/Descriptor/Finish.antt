-- ===== src/Descriptor/Finish.antt =====
-- The end of a program: the objects that are left are destroyed, the newest first.
use pposix.Base.{
  ℕ, ◌+◌, ◌≡◌, refl, inl, inr, List, [], ◌∷◌, false, arith, Bool-cases, length, count, replicate,
}
use pposix.Errno.{World, is_error}
use pposix.Descriptor.{Traits, Descriptor, raw, close}
use pposix.Descriptor.Ledger.{
  State, on, on_cases, Op, adopts, moves_new, moves_onto, releases, closes, destroys, adopt_step,
  move_new_step, move_onto_step, release_step, close_step, destroy_step, step, run, start,
}
use pposix.Descriptor.Ownership.{held, run_from-IsBalanced, run-IsBalanced}

module _ {K D : Type 0} (T : Traits K D) where
  unfoldable pub finish : State K D → State K D
  unfolding run
  finish s = run T (replicate (length s.objects) (destroys 0)) s

  destroy_step-newest :
      (s : State K D) (d : Descriptor D) (ds : List (Descriptor D))
      → s.objects ≡ d ∷ ds
      → (destroy_step T 0 s).objects ≡ ds
  unfolding destroy_step on
  destroy_step-newest s d ds e = rw e refl

  run-empty :
      (ds : List (Descriptor D)) (s : State K D)
      → s.objects ≡ ds
      → (run T (replicate (length ds) (destroys 0)) s).objects ≡ []
  unfolding run step
  run-empty [] s e = e
  run-empty (d ∷ ds) s e = run-empty ds (destroy_step T 0 s) (destroy_step-newest s d ds e)

  pub finish-empty : (s : State K D) → (finish s).objects ≡ []
  unfolding finish
  finish-empty s = run-empty s.objects s refl

  module _ (h : D) (closes_h : (w : World K) → is_error (T.close_policy h w).0 ≡ false) where
    -- The handle was left open by no destructor.
    abbrev NoLeak : State K D → Type 0
    NoLeak s = count (T.same h) s.leaked ≡ 0

    destroy-NoLeak : (i : ℕ) (s : State K D) → NoLeak s → NoLeak (destroy_step T i s)
    unfolding destroy_step close raw
    destroy-NoLeak i s none_yet = on_cases NoLeak i s none_yet λ d e.
        elim (Bool-cases (T.same h d.raw_descriptor_)) [
          | inl same ↦
              let is_h : h ≡ d.raw_descriptor_ = (T.same_iff h d.raw_descriptor_).0 same in
              rw (← is_h, closes_h s.world) none_yet
          | inr other ↦ ground (arith, other)
        ]

    step-NoLeak : (op : Op D) (s : State K D) → NoLeak s → NoLeak (step T op s)
    unfolding step adopt_step move_new_step move_onto_step release_step close_step
    step-NoLeak (adopts d) s l = l
    step-NoLeak (moves_new i) s l = on_cases NoLeak i s l (λ d e. l)
    step-NoLeak (moves_onto i j) s l =
        on_cases NoLeak i s l (λ this ei. on_cases NoLeak j s l (λ other ej. l))
    step-NoLeak (releases i) s l = on_cases NoLeak i s l (λ d e. l)
    step-NoLeak (closes i) s l = on_cases NoLeak i s l (λ d e. l)
    step-NoLeak (destroys i) s l = destroy-NoLeak i s l

    run-NoLeak : (ops : List (Op D)) (s : State K D) → NoLeak s → NoLeak (run T ops s)
    unfolding run
    run-NoLeak [] s l = l
    run-NoLeak (op ∷ ops) s l = run-NoLeak ops (step T op s) (step-NoLeak op s l)

    -- When closing a handle other than null always succeeds, every program that destroys the objects
    -- that are left at its end has closed or released the handle as often as it adopted it: nothing
    -- holds it, and no destructor left it open.
    pub finish_closes_all :
        T.same h T.get_null ≡ false
        → (ops : List (Op D)) (w : World K)
        → let s = finish (run T ops (start w)) in
          (held T h s ≡ 0)
          × (count (T.same h) s.leaked ≡ 0)
          × (count (T.same h) s.adopted ≡ count (T.same h) s.released + count (T.same h) s.closed)
    unfolding finish start
    finish_closes_all live ops w =
        let ran = run T ops (start w) in
        let drops = replicate (length ran.objects) (destroys 0) in
        let no_object : held T h (finish ran) ≡ 0 = rw (finish-empty ran) refl in
        let no_leak = run-NoLeak drops ran (run-NoLeak ops (start w) refl) in
        (
          no_object,
          no_leak,
          omega (arith, run_from-IsBalanced T h live drops ran (run-IsBalanced T h live ops w)),
        )
