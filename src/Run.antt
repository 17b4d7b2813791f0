-- ===== src/Run.antt =====
-- validate.go: the retry loop of ValidateConfig, behind its set-up. `attempt i` is the exit code
-- that Output returns at the attempt i, or the error of runValidation, and `elapsed i` is the time
-- since the start when that attempt is over. The first attempt is 0 here. Times are in nanoseconds.
pub mod Disabled
pub mod Parallel
pub mod Retry
pub mod Start
pub mod Whole
pub mod Tests
use goss.Base.{
  ℕ, zero, suc, ◌+◌, Bool, true, false, ◌||◌, Option, none, some, ltb, eqb, if◌then◌else◌,
}
use goss.Errors.{panic, ok, Error, err, Result, retry_timeout}
use goss.Base.Int.{pos, ℤ}

-- What ValidateConfig returns: the exit code, and the error.
pub data Ended : Type 0 where
  exits : ℤ → Ended
  exits_with : ℤ → Error → Ended
  panics : Ended

abbrev pub is_zero : ℤ → Bool
is_zero (pos zero) = true
is_zero _ = false

module _ (retry_time sleep : ℕ) (attempt : ℕ → Result ℤ) (elapsed : ℕ → ℕ) where
  -- The body of the loop, where `next` is what the loop returns if it goes on.
  abbrev pub attempted : ℕ → Result ℤ → Option Ended → Option Ended
  attempted i (err e) next = some (exits_with (pos 1) e)
  attempted i panic next = some panics
  attempted i (ok code) next =
      if eqb retry_time 0 || is_zero code
      then some (exits code)
      else if ltb retry_time (elapsed i + sleep)
      then some (exits_with (pos 3) retry_timeout)
      else next

  -- The loop from the attempt i on; `none` says that the fuel is used up.
  unfoldable pub retry : (fuel i : ℕ) → Option Ended
  retry zero i = none
  retry (suc fuel) i = let next = retry fuel (suc i) in attempted i (attempt i) next
