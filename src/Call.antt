-- ===== src/Call.antt =====
-- The call macros of include/pposix/util.hpp (lines 58 to 73), over a call `fn` that has been given
-- its arguments.
use pposix.Base.{
  ◌⊎◌, inl, inr, ℤ, minus_one, ◌==ℤ◌, ==ℤ_iff, ◌≡◌, refl, not, ◌&&◌, pos, arith, if◌then◌else◌,
}
use pposix.Errno.{
  World, Sys, ErrorCode, no_error, is_error, ◌>>=◌, pure, current_errno_code, make_errno_code,
}
use pposix.Result.{Result, ok, err}

module _ {K : Type 0} where
  -- PPOSIX_COMMON_CALL
  unfoldable pub common_call : Sys K ℤ → Sys K ErrorCode
  unfolding current_errno_code
  common_call fn = do r ← fn; if r ==ℤ minus_one then current_errno_code else pure no_error

  -- PPOSIX_COMMON_RESULT_CALL_IMPL
  unfoldable pub common_result_call : Sys K ℤ → Sys K (Result ℤ)
  unfolding current_errno_code
  common_result_call fn = do
    r ← fn
    if r ==ℤ minus_one then (do e ← current_errno_code; pure (err e)) else pure (ok r)

  -- PPOSIX_COMMON_RESULT_MAP_IMPL, with the constructor of `T`
  unfoldable pub common_result_map : {T : Type 0} → (ℤ → T) → Sys K ℤ → Sys K (Result T)
  unfolding current_errno_code
  common_result_map make fn = do
    r ← fn
    if r ==ℤ minus_one then (do e ← current_errno_code; pure (err e)) else pure (ok (make r))

  -- The wrapper makes the call once and changes nothing else. It reports an error exactly when the
  -- call returned -1 and left `errno` set; the error is then that `errno`.
  pub common_call_lem :
      (fn : Sys K ℤ) (w : World K)
      → ((common_call fn w).1 ≡ (fn w).1)
        × (is_error (common_call fn w).0
            ≡ (((fn w).0 ==ℤ minus_one) && not ((fn w).1.errno ==ℤ pos 0)))
        × ((fn w).0 ≡ minus_one → (common_call fn w).0.value ≡ (fn w).1.errno)
  unfolding common_call
  common_call_lem fn w = ground (arith, ==ℤ_iff (fn w).0 minus_one)

  pub common_call_world : (fn : Sys K ℤ) (w : World K) → (common_call fn w).1 ≡ (fn w).1
  common_call_world fn w = (common_call_lem fn w).0

  pub common_call_error :
      (fn : Sys K ℤ) (w : World K)
      → (common_call fn w).0
        ≡ (if (fn w).0 ==ℤ minus_one then make_errno_code (fn w).1.errno else no_error)
  unfolding common_call
  common_call_error fn w = ground arith

  -- A call that answers as POSIX has it: with 0, for the number 0, or with -1 and a number in `errno`.
  pub common_call_answers :
      (fn : Sys K ℤ) (w : World K) (number : ℤ)
      → ((number ≡ pos 0) × ((fn w).0 ≡ pos 0))
        ⊎ (((fn w).0 ≡ minus_one) × ((fn w).1.errno ≡ number))
      → (common_call fn w).0 ≡ make_errno_code number
  unfolding make_errno_code
  common_call_answers fn w number (inl (fine, zero)) = rw (common_call_error fn w, zero, fine) refl
  common_call_answers fn w number (inr (failed, same)) =
      rw (common_call_error fn w, failed, same) refl

  pub common_result_call_lem :
      (fn : Sys K ℤ) (w : World K)
      → common_result_call fn w ≡ (
        if (fn w).0 ==ℤ minus_one then err (make_errno_code (fn w).1.errno) else ok (fn w).0,
        (fn w).1,
      )
  unfolding common_result_call
  common_result_call_lem fn w = ground arith

  pub common_result_map_lem :
      {T : Type 0} (make : ℤ → T) (fn : Sys K ℤ) (w : World K)
      → common_result_map make fn w ≡ (
        if (fn w).0 ==ℤ minus_one then err (make_errno_code (fn w).1.errno) else ok (make (fn w).0),
        (fn w).1,
      )
  unfolding common_result_map
  common_result_map_lem make fn w = ground arith

  -- A function that returns a `result<T>` and hands back a `std::error_code`: the conversion is the
  -- constructor `result(std::error_code)`.
  unfoldable pub error_result : {T : Type 0} → Sys K ErrorCode → Sys K (Result T)
  error_result call = do code ← call; pure (err code)

  -- What a common call becomes in such a function: an error in every case, of value 0 when the call
  -- succeeded, so that the number it returned is lost.
  abbrev pub never_a_value : {T : Type 0} → ℤ × World K → Result T × World K
  never_a_value call =
      (err (if call.0 ==ℤ minus_one then make_errno_code call.1.errno else no_error), call.1)

  pub error_result_lem :
      {T : Type 0} (fn : Sys K ℤ) (w : World K)
      → error_result {T = T} (common_call fn) w ≡ never_a_value (fn w)
  unfolding error_result
  error_result_lem fn w = rw (common_call_world fn w, common_call_error fn w) refl
