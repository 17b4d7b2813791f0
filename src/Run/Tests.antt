-- ===== src/Run/Tests.antt =====
-- Runs of the retry loop.
use goss.Base.{
  ℕ, ◌*◌, ◌≡◌, refl, inl, some, List, [], ◌∷◌, arith, eqb, if◌then◌else◌, length, All, ◌==◌,
}
use goss.Run.Parallel.{validate_parallel-sum_of, is_positive, validate_parallel}
use goss.Samples.{unset, absent_file, at_once, machine, others, plain, first}
use goss.Outputs.Exit.{sum_of}
use goss.Resource.{Resource, validate, set_skip}
use goss.Validation.{validate_value, run_check, run_checks, run_gated}
use goss.Validation.Outcomes.{IsSkipped}
use goss.TestResult.{TestResult}
use goss.Run.Disabled.{apply_disabled_types, apply_disabled_types-IsSkipped}
use goss.Run.Retry.{retry-ends, Meaning}
use goss.Base.Int.{ℤ, pos, pos}
use goss.Run.{retry, Ended, exits, exits_with}
use goss.Errors.{Result, ok, retry_timeout}

-- The third attempt passes.
abbrev third : ℕ → Result ℤ
third n = ok (if eqb n 2 then pos 0 else pos 1)

abbrev by_ten : ℕ → ℕ
by_ten i = i * 10

passes_in_time : retry 30 10 third by_ten 31 0 ≡ some (exits (pos 0))
unfolding retry
passes_in_time = refl

comes_too_late : retry 15 10 third by_ten 16 0 ≡ some (exits_with (pos 3) retry_timeout)
unfolding retry
comes_too_late = refl

retry-ends_example :
    (e : Ended) × (retry 30 10 third by_ten 31 0 ≡ some e) × Meaning 30 10 third by_ten e
retry-ends_example = retry-ends 30 10 third by_ten (omega arith) (λ i. omega arith)

abbrev off_results : Result (List TestResult)
off_results = validate plain machine at_once (set_skip absent_file)

off_runs : off_results ≡ ok (first off_results ∷ others off_results)
unfolding set_skip validate run_gated run_checks run_check validate_value
off_runs = refl

apply_disabled_types-IsSkipped_example : All IsSkipped (first off_results ∷ others off_results)
unfolding apply_disabled_types set_skip
apply_disabled_types-IsSkipped_example =
    apply_disabled_types-IsSkipped plain machine at_once ◌==◌ ("file" ∷ []) (absent_file ∷ [])
      (set_skip absent_file) (first off_results ∷ others off_results) (inl refl) refl refl off_runs

abbrev one_each : Resource → List TestResult
one_each r = unset ∷ []

abbrev kept : List Resource → List Resource
kept rs = rs

two_results_are_sent :
    sum_of length (validate_parallel 2 (pos 50) one_each kept (absent_file ∷ absent_file ∷ [])) ≡ (
      if is_positive (pos 50)
      then sum_of (λ r. length (one_each r)) (absent_file ∷ absent_file ∷ [])
      else 0)
two_results_are_sent =
    validate_parallel-sum_of kept (λ w rs. refl) 2 (pos 50) one_each
      (absent_file ∷ absent_file ∷ []) length (omega arith)
