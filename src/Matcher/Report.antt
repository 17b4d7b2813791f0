-- ===== src/Matcher/Report.antt =====
-- FailureResult and NegatedFailureResult of matchers/, as functions of the state that Match leaves in
-- the matcher. `failure` and `negated` stand for a call behind a Match of the same value; the `fresh`
-- versions for a call on a matcher whose Match was never called, whose fields are still nil.
pub mod Total
pub mod Tests
use goss.Base.{String, Bool, true, false, Option, none, some, List, [], ◌∷◌, ◌++◌, if◌then◌else◌}
use Prim.Native.String.{◌++◌ as str_append}
use goss.Matcher.{
  consist_of, contain_elements, contain_element, have_key, be_semver_constraint, be_numerically,
  have_patterns, have_len, empty, contain_substring, match, match_regexp, more, have_suffix,
  disjunction, have_prefix, conjunction, Matchers, equal, with_safe_transform, negation, Matcher,
}
use goss.Transform.{to_numeric, stringify, transform, Transformer}
use goss.Value.{int, strs, num, str, null, Value}
use goss.Base.Int.{ℤ, pos}
use goss.Errors.{Result, ok, err, panic, ◌>>=◌}
use goss.Libraries.{Libraries}

pub data Expected : Type 0 where
  value : Value → Expected
  text : String → Expected
  count : ℤ → Expected
  submatcher : Matcher → Expected
  submatchers : Matchers → Expected

pub record MatcherResult : Type 0 where
  pub actual : Value
  pub message : String
  pub expected : Expected
  pub transformer_chain : List Transformer
  pub untransformed : Option Value

abbrev report : Value → String → Expected → Result MatcherResult
report actual message expected = ok (record {
  actual = actual;
  message = message;
  expected = expected;
  transformer_chain = [];
  untransformed = none;
})

-- A text, and in FailureResult a []string, is reported as it is; other values by their type.
abbrev patterns_actual : Libraries → Value → Value
patterns_actual lib (str s) = str s
patterns_actual lib (strs vs) = strs vs
patterns_actual lib v = str (lib.sprint_type v)

abbrev patterns_actual_negated : Libraries → Value → Value
patterns_actual_negated lib (str s) = str s
patterns_actual_negated lib v = str (lib.sprint_type v)

-- What each matcher that reads no state reports, in both senses.
unfoldable pub static_failure : Libraries → Matcher → Value → Result MatcherResult
static_failure lib (equal v) actual = report actual "to equal" (value v)
static_failure lib (have_prefix s) actual = report actual "to have prefix" (text s)
static_failure lib (have_suffix s) actual = report actual "to have suffix" (text s)
static_failure lib (match_regexp s) actual = report actual "to match regular expression" (text s)
static_failure lib (contain_substring s) actual = report actual "to contain substring" (text s)
static_failure lib (have_len n) actual = report actual "to have length" (count n)
static_failure lib (have_patterns v) actual =
    report (patterns_actual lib actual) "to have patterns" (value v)
static_failure lib (be_numerically c v) actual =
    report actual (str_append "to be numerically " c) (value v)
static_failure lib (be_semver_constraint v) actual =
    report actual "to satisfy semver constraint" (value v)
static_failure lib (have_key m) actual = report actual "to have key matching" (submatcher m)
static_failure lib (contain_element m) actual =
    report actual "to contain element matching" (submatcher m)
static_failure lib (contain_elements ms) actual =
    report actual "to contain elements matching" (submatchers ms)
static_failure lib (consist_of ms) actual = report actual "to consist of" (submatchers ms)
static_failure lib (disjunction ms) actual =
    report actual "to satisfy at least one of these matchers" (submatchers ms)
static_failure lib m actual = panic

unfoldable pub static_negated : Libraries → Matcher → Value → Result MatcherResult
static_negated lib (equal v) actual = report actual "not to equal" (value v)
static_negated lib (have_prefix s) actual = report actual "not to have prefix" (text s)
static_negated lib (have_suffix s) actual = report actual "not to have suffix" (text s)
static_negated lib (match_regexp s) actual =
    report actual "not to match regular expression" (text s)
static_negated lib (contain_substring s) actual = report actual "not to contain substring" (text s)
static_negated lib (have_len n) actual = report actual "not to have length" (count n)
static_negated lib (have_patterns v) actual =
    report (patterns_actual_negated lib actual) "not to have patterns" (value v)
static_negated lib (be_numerically c v) actual =
    report actual (str_append "not to be numerically " c) (value v)
static_negated lib (be_semver_constraint v) actual =
    report actual "not to satisfy semver constraint" (value v)
static_negated lib (have_key m) actual = report actual "not to have key matching" (submatcher m)
static_negated lib (contain_element m) actual =
    report actual "not to contain element matching" (submatcher m)
static_negated lib (contain_elements ms) actual =
    report actual "not to contain elements matching" (submatchers ms)
static_negated lib (consist_of ms) actual = report actual "not to consist of" (submatchers ms)
static_negated lib (conjunction ms) actual =
    report actual "not to satisfy all of these matchers" (submatchers ms)
static_negated lib m actual = panic

-- What Transform returns beside an error.
abbrev failed_value : Libraries → Transformer → Value → Value
failed_value lib to_numeric (str s) = num (lib.parse_float_partial (lib.trim_space s))
failed_value lib to_numeric (strs vs) =
    num (lib.parse_float_partial (lib.trim_space (stringify lib (strs vs))))
failed_value lib to_numeric v = num (int (pos 0))
failed_value lib t v = null

abbrev is_transform : Matcher → Bool
is_transform (with_safe_transform t m) = true
is_transform m = false

-- The chain that getTransformerChainAndMatcher collects goes on through directly nested transforms;
-- it overwrites what a matcher further in has reported.
abbrev chain_of : Matcher → MatcherResult → List Transformer
chain_of m r = if is_transform m then r.transformer_chain else []

abbrev own_link : Libraries → Transformer → (before after : Value) → List Transformer
own_link lib t before after = if lib.deep_equal before after then [] else t ∷ []

abbrev chained : List Transformer → Matcher → Value → Result MatcherResult → Result MatcherResult
chained link m actual r = r >>= λ x.
    ok (record x { transformer_chain = link ++ chain_of m x; untransformed = some actual })

-- Before any Match: `firstFailedMatcher` and `firstSuccessfulMatcher` are nil, and a call on them
-- panics; `transformedValue` is nil, and `wasTransformed` is false.
unfoldable mutual
  pub fresh_failure : Libraries → Matcher → Value → Result MatcherResult
  fresh_failure lib (negation m) actual = fresh_negated lib m actual
  fresh_failure lib (conjunction ms) actual = panic
  fresh_failure lib (with_safe_transform t m) actual =
      chained [] m actual (fresh_failure lib m null)
  fresh_failure lib m actual = static_failure lib m actual

  pub fresh_negated : Libraries → Matcher → Value → Result MatcherResult
  fresh_negated lib (negation m) actual = fresh_failure lib m actual
  fresh_negated lib (disjunction ms) actual = panic
  fresh_negated lib (with_safe_transform t m) actual =
      chained [] m actual (fresh_negated lib m null)
  fresh_negated lib m actual = static_negated lib m actual

-- Behind Match(actual).
unfoldable mutual
  -- FailureResult(actual)
  pub failure : Libraries → Matcher → Value → Result MatcherResult
  failure lib (negation m) actual = negated lib m actual
  failure lib (conjunction ms) actual = first_failed lib ms actual
  failure lib (with_safe_transform t m) actual = elim (transform lib t actual) [
    | ok v ↦ chained (own_link lib t actual v) m actual (failure lib m v)
    | err e ↦
        let v = failed_value lib t actual in
        chained (own_link lib t actual v) m actual (fresh_failure lib m v)
    | panic ↦ panic
  ]
  failure lib m actual = static_failure lib m actual

  -- NegatedFailureResult(actual)
  pub negated : Libraries → Matcher → Value → Result MatcherResult
  negated lib (negation m) actual = failure lib m actual
  negated lib (disjunction ms) actual = first_successful lib ms actual
  negated lib (with_safe_transform t m) actual = elim (transform lib t actual) [
    | ok v ↦ chained (own_link lib t actual v) m actual (negated lib m v)
    | err e ↦
        let v = failed_value lib t actual in
        chained (own_link lib t actual v) m actual (fresh_negated lib m v)
    | panic ↦ panic
  ]
  negated lib m actual = static_negated lib m actual

  -- firstFailedMatcher.FailureResult(actual): the first matcher that failed or gave an error
  pub first_failed : Libraries → Matchers → Value → Result MatcherResult
  first_failed lib empty actual = panic
  first_failed lib (more m ms) actual = elim (match lib m actual) [
    | ok true ↦ first_failed lib ms actual
    | ok false ↦ failure lib m actual
    | err e ↦ failure lib m actual
    | panic ↦ panic
  ]

  -- firstSuccessfulMatcher.NegatedFailureResult(actual); an error ends the loop with none
  pub first_successful : Libraries → Matchers → Value → Result MatcherResult
  first_successful lib empty actual = panic
  first_successful lib (more m ms) actual = elim (match lib m actual) [
    | ok true ↦ negated lib m actual
    | ok false ↦ first_successful lib ms actual
    | err e ↦ panic
    | panic ↦ panic
  ]
