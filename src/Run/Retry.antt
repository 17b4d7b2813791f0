-- ===== src/Run/Retry.antt =====
-- The retry loop ends, and what its answers mean.
use goss.Base.{
  ℕ, zero, suc, ◌+◌, ◌≤◌, ◌<◌, ◌≡◌, refl, ◌⊎◌, inl, inr, Bool, true, false, ◌||◌, Option, some,
  arith, ltb, eqb, Bool-cases,
}
use mathlib.Core.Path.{subst}
use goss.Base.Int.{pos, ℤ}
use goss.Run.{is_zero, attempted, Ended, retry, exits, exits_with, panics}
use goss.Errors.{Result, ok, err, panic, retry_timeout}

module _ (retry_time sleep : ℕ) (attempt : ℕ → Result ℤ) (elapsed : ℕ → ℕ) where
  -- Every attempt but the first starts within retry_time: behind the one before it, with the pause
  -- added, the time was not up.
  abbrev pub InTime : ℕ → Type 0
  InTime j = (i : ℕ) → j ≡ suc i → elapsed i + sleep ≤ retry_time

  -- An exit code is that of some attempt, zero or without retries; the code 1 comes with the error
  -- of an attempt, and the code 3 with a failing attempt behind which the time is up. All of these
  -- attempts start in time.
  abbrev pub Meaning : Ended → Type 0
  Meaning (exits code) =
      (j : ℕ) × InTime j × (attempt j ≡ ok code) × (eqb retry_time 0 || is_zero code ≡ true)
  Meaning (exits_with code e) =
      ((j : ℕ) × InTime j × (attempt j ≡ err e) × (code ≡ pos 1))
      ⊎ ((j : ℕ) × (c : ℤ) × InTime j
          × (attempt j ≡ ok c)
          × (is_zero c ≡ false)
          × (retry_time < elapsed j + sleep)
          × (code ≡ pos 3)
          × (e ≡ retry_timeout))
  Meaning panics = (j : ℕ) × InTime j × (attempt j ≡ panic)

  abbrev Answers : Option Ended → Type 0
  Answers o = (e : Ended) × (o ≡ some e) × Meaning e

  or-false : (a b : Bool) → (a || b) ≡ false → b ≡ false
  or-false true b h = cc
  or-false false b h = h

  attempted-Answers :
      (i : ℕ) (r : Result ℤ) (next : Option Ended)
      → InTime i
      → attempt i ≡ r
      → (elapsed i + sleep ≤ retry_time → Answers next)
      → Answers (attempted retry_time sleep attempt elapsed i r next)
  attempted-Answers i (err e) next s q h = (_, refl, inl (i, s, q, refl))
  attempted-Answers i panic next s q h = (_, refl, (i, s, q))
  attempted-Answers i (ok code) next s q h = elim (Bool-cases (eqb retry_time 0 || is_zero code)) [
    | inl over ↦ rw over (exits code, refl, (i, s, q, over))
    | inr failed ↦ elim (Bool-cases (ltb retry_time (elapsed i + sleep))) [
      | inl late ↦ rw failed (
          rw late (
            exits_with (pos 3) retry_timeout,
            refl,
            inr (i, code, s, q, or-false _ _ failed, ground (arith, late), refl, refl),
          ))
      | inr soon ↦ rw failed (rw soon (h (ground (arith, soon))))
    ]
  ]

  module _ (sleeps : 1 ≤ sleep) (goes_on : (i : ℕ) → elapsed i + sleep ≤ elapsed (suc i)) where
    retry-Answers :
        (fuel i : ℕ)
        → retry_time < fuel + i
        → i ≤ elapsed i
        → 1 ≤ fuel
        → InTime i
        → Answers (retry retry_time sleep attempt elapsed fuel i)
    unfolding retry
    retry-Answers zero i h e f s = ground arith
    retry-Answers (suc zero) i h e f s =
        attempted-Answers i (attempt i) _ s refl
          (λ early. absurd (omega (arith, early, e, h, sleeps)))
    retry-Answers (suc (suc fuel)) i h e f s = attempted-Answers i (attempt i) _ s refl (λ early.
        retry-Answers (suc fuel) (suc i) (omega (arith, h)) (omega (arith, e, goes_on i, sleeps))
          (omega arith)
          (λ j q. subst (λ x. elapsed x + sleep ≤ retry_time) (omega (arith, q)) early))

    -- If a pause takes some time and the clock shows at least that, the retry loop ends with at most
    -- retry_time + 1 attempts; how long the last of them lasts is not bounded. The attempt that
    -- decides is the first or starts within retry_time, as the attempt and the pause before it ended
    -- by then. An exit code that it returns without an error is that of an attempt,
    -- and zero unless there are no retries; the code 1 comes with the error of an attempt; and the
    -- code 3 comes with a failing attempt behind which the next one would start too late.
    pub retry-ends :
        (e : Ended) × (retry retry_time sleep attempt elapsed (suc retry_time) 0 ≡ some e)
        × Meaning e
    retry-ends =
        retry-Answers (suc retry_time) 0 (omega arith) (omega arith) (omega arith)
          (λ i q. absurd (omega (arith, q)))
