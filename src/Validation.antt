-- ===== src/Validation.antt =====
-- resource/validate.go: ValidateValue and ValidateGomegaValue, which check one property, and the
-- order in which a Validate method checks its properties.
pub mod Outcomes
pub mod Tests
use goss.Base.{
  String, Bool, true, false, ◌||◌, not, Option, none, some, List, [], ◌∷◌, if◌then◌else◌,
}
use goss.Errors.{unknown_signature, Result, ok, err, panic, ◌>>=◌, Error}
use goss.Value.{ints, strs, int, float, nil, num, cons, bool, arr, is_null, str, Value}
use goss.Matcher.Parse.{to_matcher}
use goss.TestResult.{
  no_match, Outcome, skip_result, TestResult, should_skip, Subject, Span, success, fail, skip,
}
use goss.Matcher.{match, Matcher, have_patterns}
use goss.Matcher.Report.{MatcherResult, value, failure}
use goss.Base.Int.{ℤ}
use goss.Libraries.{Libraries}

-- The method values that a check accepts, each with what a call of it returns. A reader's call
-- yields a reader or an error, and reading it to the end yields a text or an error.
pub data Getter : Type 0 where
  gets_bool : Result Bool → Getter
  gets_string : Result String → Getter
  gets_int : Result ℤ → Getter
  gets_strings : Result (List String) → Getter
  gets_ints : Result (List ℤ) → Getter
  gets_any : Result Value → Getter
  gets_reader : Result (Result String) → Getter
  gets_other : Getter

abbrev fetch {ℓ} : {A : Type ℓ} → (A → Value) → Result A → Result Value
fetch f r = r >>= λ a. ok (f a)

abbrev read_all : Result (Result String) → Result String
read_all r = r >>= λ s. s

-- The type switch on `actual`: the value that was found.
unfoldable pub found_value : Getter → Result Value
found_value (gets_bool r) = fetch bool r
found_value (gets_string r) = fetch str r
found_value (gets_int r) = fetch (λ n. num (int n)) r
found_value (gets_strings r) = fetch strs r
found_value (gets_ints r) = fetch ints r
found_value (gets_any r) = r
found_value (gets_reader r) = fetch str (read_all r)
found_value gets_other = err unknown_signature

-- A reader is matched by its patterns, any other value by the matcher of the gossfile.
unfoldable pub choose_matcher : Libraries → Value → Getter → Result Matcher
choose_matcher lib expected (gets_reader r) = ok (have_patterns expected)
choose_matcher lib expected getter = to_matcher lib expected

module _ (lib : Libraries) (s : Subject) (property : String) (span : Span) where
  abbrev base_result : Outcome → Option Error → MatcherResult → TestResult
  base_result outcome e m = record {
    skipped = false;
    resource_id = s.id;
    resource_type = s.type_name;
    property = property;
    title = s.title;
    meta = s.meta;
    result = outcome;
    failure = e;
    matcher_result = m;
    span = span;
  }

  abbrev matched : Value → Value → MatcherResult
  matched found expected = record {
    actual = found;
    message = "matches expectation";
    expected = value expected;
    transformer_chain = [];
    untransformed = none;
  }

  -- The answer of Match makes the result: the report is used whenever it was not a success.
  unfoldable pub conclude : Value → Value → Result Bool → Result MatcherResult → Result TestResult
  conclude expected found (ok true) report = ok (base_result success none (matched found expected))
  conclude expected found (ok false) report = report >>= λ r. ok (base_result fail none r)
  conclude expected found (err e) report = report >>= λ r. ok (base_result fail (some e) r)
  conclude expected found panic report = panic

  -- The end of ValidateGomegaValue: FailureResult is called on errors of Match too.
  unfoldable pub judge : Matcher → Value → Value → Result TestResult
  unfolding conclude
  judge m expected found = conclude expected found (match lib m found) (failure lib m found)

  -- What comes before Match: an error there makes a FAIL without a matcher result.
  unfoldable pub settle : Value → Result (Value × Matcher) → Result TestResult
  unfolding judge
  settle expected (ok (found, m)) = judge m expected found
  settle expected (err e) = ok (base_result fail (some e) no_match)
  settle expected panic = panic

  abbrev pub prepare : Value → Getter → Result (Value × Matcher)
  prepare expected getter = do
    found ← found_value getter
    m ← choose_matcher lib expected getter
    ok (found, m)

  -- ValidateGomegaValue
  unfoldable pub validate_gomega_value : Value → Getter → Bool → Result TestResult
  unfolding settle found_value choose_matcher skip_result
  validate_gomega_value expected getter true = ok (skip_result s property span)
  validate_gomega_value expected getter false = settle expected (prepare expected getter)

  -- A reader is read to a string unless the expected value is a []any.
  unfoldable pub adapt : Value → Getter → Getter
  adapt (arr vs) getter = getter
  adapt expected (gets_reader r) = gets_string (read_all r)
  adapt expected getter = getter

  -- ValidateValue
  unfoldable pub validate_value : Value → Getter → Bool → Result TestResult
  unfolding validate_gomega_value adapt
  validate_value expected getter skipped =
      validate_gomega_value expected (adapt expected getter) skipped

-- One call of ValidateValue in a Validate method; `expected` may panic (deprecateAtoI).
pub record Check : Type 0 where
  pub property : String
  pub expected : Result Value
  pub getter : Getter

abbrev pub Clock : Type 0
Clock = (property : String) → Span

module _ (lib : Libraries) (s : Subject) (clock : Clock) where
  unfoldable pub run_check : Bool → Check → Result TestResult
  unfolding validate_value
  run_check skipped c = c.expected >>= λ expected.
      validate_value lib s c.property (clock c.property) expected c.getter skipped

  unfoldable pub run_checks : Bool → List Check → Result (List TestResult)
  unfolding run_check
  run_checks skipped [] = ok []
  run_checks skipped (c ∷ cs) =
      run_check skipped c >>= λ r. run_checks skipped cs >>= λ rs. ok (r ∷ rs)

  -- A first check decides by shouldSkip whether the others are skipped.
  unfoldable pub run_gated : Bool → Check → List Check → Result (List TestResult)
  unfolding run_checks should_skip
  run_gated skipped first rest = run_check skipped first >>= λ r.
      run_checks (skipped || should_skip (r ∷ [])) rest >>= λ rs. ok (r ∷ rs)

abbrev pub check : String → Value → Getter → Check
check property expected getter = record {
  property = property;
  expected = ok expected;
  getter = getter;
}

-- if expected != nil { ... }
abbrev pub if_given : String → Value → Getter → List Check
if_given property expected getter =
    if is_null expected then [] else check property expected getter ∷ []

-- isSet
abbrev pub is_set : Value → Bool
is_set (arr nil) = false
is_set (arr (cons v vs)) = true
is_set v = not (is_null v)

abbrev pub if_set : String → Value → Getter → List Check
if_set property expected getter =
    if is_set expected then check property expected getter ∷ [] else []

-- deprecateAtoI: a text is read as an integer, or panics.
unfoldable pub deprecate_atoi : Libraries → Value → Result Value
deprecate_atoi lib (str s) = elim (lib.atoi s) [
  | none ↦ panic
  | some i ↦ ok (num (float (lib.to_float i)))
]
deprecate_atoi lib v = ok v

abbrev pub if_given_number : Libraries → String → Value → Getter → List Check
if_given_number lib property expected getter =
    if is_null expected
    then []
    else record { property = property; expected = deprecate_atoi lib expected; getter = getter }
      ∷ []
