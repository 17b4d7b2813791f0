-- ===== src/Matcher/Report/Tests.antt =====
-- The theorems on matchers and reports at concrete matchers.
use goss.Base.{◌≡◌, refl, ◌≢◌, true, false}
use goss.Matcher.Report.Total.{report-total, failure_after_or_error, failure_after_transform_error}
use goss.Matcher.Report.{negated, failure, MatcherResult}
use goss.Matcher.Parse.Total.{to_matcher-total}
use goss.Samples.{offline, plain}
use goss.Errors.{invalid_json, transform_failed, panic, ok, err}
use goss.Matcher.Connectives.{de_morgan, negate_all}
use goss.Matcher.Parse.{to_matcher}
use goss.Transform.{transform, gjson}
use goss.Matcher.{
  Matchers, match, equal, have_prefix, conjunction, more, empty, with_safe_transform, negation,
  disjunction,
}
use goss.Value.{Value, end, field, obj, cons, nil, arr, str, bool}

-- {and: ["a", {have-prefix: "b"}]}
abbrev written : Value
written =
    obj
      (field "and" (arr (cons (str "a") (cons (obj (field "have-prefix" (str "b") end)) nil))) end)

to_matcher-total_example : to_matcher plain written ≢ panic
to_matcher-total_example = to_matcher-total plain written ((tt, ((tt, tt), tt)), tt)

abbrev both : Matchers
both = more (equal (str "a")) (more (equal (str "b")) empty)

report-total_example :
    (match plain (conjunction both) (str "a") ≡ ok false
      → (x : MatcherResult) × (failure plain (conjunction both) (str "a") ≡ ok x))
    × (match plain (conjunction both) (str "a") ≡ ok true
        → (x : MatcherResult) × (negated plain (conjunction both) (str "a") ≡ ok x))
report-total_example = report-total plain (conjunction both) (str "a")

-- The hypothesis of the first half holds there.
both_fails : match plain (conjunction both) (str "a") ≡ ok false
unfolding match
both_fails = refl

de_morgan_example :
    (match plain (negation (disjunction both)) (str "b")
      ≡ match plain (conjunction (negate_all both)) (str "b"))
    × (match plain (negation (conjunction both)) (str "b")
        ≡ match plain (disjunction (negate_all both)) (str "b"))
de_morgan_example = de_morgan plain both (str "b")

no_json : transform plain (gjson "a.b") (str "{") ≡ err invalid_json
unfolding transform
no_json = refl

transform_error_report :
    (match plain (with_safe_transform (gjson "a.b") (conjunction both)) (str "{")
      ≡ err (transform_failed invalid_json))
    × (failure plain (with_safe_transform (gjson "a.b") (conjunction both)) (str "{") ≡ panic)
transform_error_report =
    failure_after_transform_error plain (gjson "a.b") both (str "{") invalid_json no_json

no_prefix : match plain (have_prefix "a") (bool true) ≡ err offline
unfolding match
no_prefix = refl

or_error_report :
    (match plain (negation (disjunction (more (have_prefix "a") both))) (bool true) ≡ err offline)
    × (failure plain (negation (disjunction (more (have_prefix "a") both))) (bool true) ≡ panic)
or_error_report = failure_after_or_error plain (have_prefix "a") both (bool true) offline no_prefix
