-- ===== src/Validation/Tests.antt =====
-- A check of a value at a concrete check.
use goss.Samples.{result_of, plain}
use goss.Matcher.Report.{static_failure, failure}
use goss.Errors.{Result, ok}
use goss.Base.{◌≡◌, refl, true, false}
use goss.Matcher.Parse.{to_matcher}
use goss.Matcher.{match}
use goss.Validation.{conclude, settle, adapt, validate_value, gets_bool}
use goss.Validation.Outcomes.{validate_value-Judged, verdict, Judged}
use goss.TestResult.{Subject, Span, TestResult}
use goss.Value.{bool, end}

abbrev here : Subject
here = record { id = "/etc/none"; title = ""; meta = end; type_name = "File" }

abbrev instant : Span
instant = record { start = 1; finish = 2 }

abbrev answer : Result TestResult
answer = validate_value plain here "exists" instant (bool true) (gets_bool (ok false)) false

-- A check that should be true and finds false.
checked_fails : answer ≡ ok (result_of answer)
unfolding validate_value settle conclude match failure to_matcher static_failure
checked_fails = refl

validate_value-Judged_example :
    Judged
      (verdict plain here "exists" instant
        (bool true)
        (adapt plain here "exists" instant (bool true) (gets_bool (ok false))))
      (result_of answer)
validate_value-Judged_example =
    validate_value-Judged plain here "exists" instant (bool true) (gets_bool (ok false))
      (result_of answer) checked_fails
