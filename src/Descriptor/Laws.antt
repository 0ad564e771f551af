-- ===== src/Descriptor/Laws.antt =====
-- What the moves, `close` and the destructor call.
use pposix.Call.{common_call, common_call_world}
use pposix.Base.{ℤ, ap, ◌∙◌, ◌≡◌, refl, arith, if◌then◌else◌}
use pposix.Errno.{World, Sys, ErrorCode, is_error}
use pposix.Descriptor.{
  Traits, Descriptor, raw, move_construct, release, close, destroy, into_result, null_descriptor,
}
use pposix.Result.{ok}

module _ {K D : Type 0} (T : Traits K D) where
  open T use {get_null, close_policy}

  -- When an object has been moved into a new one and both are destroyed, the old one first, the
  -- handle is closed once, by the new object; the old object closes the null handle.
  pub destroy-move_construct :
      (d : Descriptor D) (w : World K)
      → let (new, other) = move_construct T d in
        (destroy T new (destroy T other w).1).1
        ≡ (close_policy (raw d) (close_policy get_null w).1).1
  unfolding move_construct destroy close raw
  destroy-move_construct d w = refl

  -- A second `close` calls the policy on the same handle if the first one failed, and on the null
  -- handle if it succeeded; the error codes are those of the policy.
  pub close-close :
      (d : Descriptor D) (w : World K)
      → let first = close T d w in
        let second = close T first.0.1 first.1 in
        let called = close_policy (raw d) w in
        (first.0.0 ≡ called.0)
        × ((second.0.0, second.1)
            ≡ close_policy (if is_error called.0 then raw d else get_null) called.1)
  unfolding close raw
  close-close d w = ground arith

  -- After `release` the destructor closes the null handle, and the released handle is the one that
  -- the object held.
  pub destroy-release :
      (d : Descriptor D) (w : World K)
      → let (h, d') = release T d in
        (h ≡ raw d) × ((destroy T d' w).1 ≡ (close_policy get_null w).1)
  unfolding release destroy close raw
  destroy-release d w = (refl, refl)

  -- Handing an owner to a result closes the null handle once, and nothing else.
  pub into_result_lem :
      {A : Type 0} (a : A) (w : World K)
      → into_result T (ok a) w ≡ (ok a, (close_policy get_null w).1)
  unfolding into_result destroy close raw null_descriptor
  into_result_lem a w = refl

  -- The same for a policy that makes a common call.
  pub into_result-common_call :
      (fn : Sys K ℤ)
      → close_policy get_null ≡ common_call fn
      → {A : Type 0} (a : A) (w : World K) → into_result T (ok a) w ≡ (ok a, (fn w).1)
  into_result-common_call fn policy a w =
      into_result_lem a w
      ∙ ap (λ (call : Sys K ErrorCode). (ok a, (call w).1)) policy
      ∙ ap (λ (v : World K). (ok a, v)) (common_call_world fn w)
