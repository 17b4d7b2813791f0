-- ===== src/Resource/Tests.antt =====
-- Validate of concrete resources.
use goss.Validation.Outcomes.{Closes, IsSkipped}
use goss.Base.{◌≡◌, refl, inr, List, [], ◌∷◌, All}
use goss.Matcher.Report.{static_failure, failure}
use goss.Matcher.Parse.{to_matcher}
use goss.Matcher.{match}
use goss.Samples.{first, others, skipped_file, absent_file, at_once, machine, plain}
use goss.Validation.{conclude, settle, validate_value, run_check, run_checks, run_gated}
use goss.TestResult.{TestResult}
use goss.Resource.Skips.{validate-IsSkipped, validate_gate, set_skip-IsSkipped}
use goss.Errors.{ok, Result}
use goss.Resource.{validate, set_skip}

abbrev all_results : Result (List TestResult) → List TestResult
all_results (ok ts) = ts
all_results _ = []

abbrev by_field : Result (List TestResult)
by_field = validate plain machine at_once skipped_file

abbrev by_set_skip : Result (List TestResult)
by_set_skip = validate plain machine at_once (set_skip absent_file)

abbrev by_gate : Result (List TestResult)
by_gate = validate plain machine at_once absent_file

by_field_runs : by_field ≡ ok (all_results by_field)
unfolding validate run_gated run_checks run_check validate_value
by_field_runs = refl

by_set_skip_runs : by_set_skip ≡ ok (all_results by_set_skip)
unfolding set_skip validate run_gated run_checks run_check validate_value
by_set_skip_runs = refl

by_gate_runs : by_gate ≡ ok (first by_gate ∷ others by_gate)
unfolding validate validate_value settle conclude match failure to_matcher static_failure run_gated
    run_checks run_check
by_gate_runs = refl

validate-IsSkipped_example : All IsSkipped (all_results by_field)
validate-IsSkipped_example =
    validate-IsSkipped plain machine at_once skipped_file (all_results by_field) refl by_field_runs

disabled_file_test : All IsSkipped (all_results by_set_skip)
disabled_file_test =
    set_skip-IsSkipped plain machine at_once absent_file (all_results by_set_skip) refl
      by_set_skip_runs

gate-Closes : Closes (first by_gate)
unfolding validate validate_value settle conclude match failure to_matcher static_failure run_gated
    run_checks run_check
gate-Closes = inr (inr refl)

validate_gate_example : All IsSkipped (others by_gate)
validate_gate_example =
    validate_gate plain machine at_once absent_file (first by_gate) (others by_gate) refl
      by_gate_runs gate-Closes
