-- ===== src/TestResult.antt =====
-- resource/validate.go and resource/resource.go: the result of one check.
use goss.Errors.{Error}
use goss.Value.{Fields, null, is_false}
use goss.Base.{ℕ, String, Bool, true, false, ◌||◌, not, Option, none, some, List, [], ◌∷◌, any_of}
use goss.Matcher.Report.{MatcherResult, value}
use Prim.Native.String.{◌++◌ as str_append}

-- SUCCESS, FAIL, SKIP, UNKNOWN, in the order of their constants; `success` is the zero value.
pub data Outcome : Type 0 where
  success fail skip unknown : Outcome

-- HumanOutcomes, ToOutcome
abbrev pub to_outcome : Outcome → String
to_outcome success = "pass"
to_outcome fail = "fail"
to_outcome skip = "skip"
to_outcome unknown = "unknown"

-- r.Result == FAIL
abbrev pub is_fail : Outcome → Bool
is_fail fail = true
is_fail o = false

abbrev pub is_success : Outcome → Bool
is_success success = true
is_success o = false

-- What time.Now returns when a check begins and ends; 0 is the zero time.
pub record Span : Type 0 where
  pub start : ℕ
  pub finish : ℕ

pub record TestResult : Type 0 where
  pub skipped : Bool
  pub resource_id : String
  pub resource_type : String
  pub property : String
  pub title : String
  pub meta : Fields
  pub result : Outcome
  pub failure : Option Error
  pub matcher_result : MatcherResult
  pub span : Span

-- The zero MatcherResult
abbrev pub no_match : MatcherResult
no_match = record {
  actual = null;
  message = "";
  expected = value null;
  transformer_chain = [];
  untransformed = none;
}

-- SortKey
unfoldable pub sort_key : TestResult → String
sort_key t = str_append t.resource_type (str_append ":" t.resource_id)

-- What a check reads of its resource: ID, GetTitle, GetMeta, and the name of the Go type.
pub record Subject : Type 0 where
  pub id : String
  pub title : String
  pub meta : Fields
  pub type_name : String

-- skipResult
unfoldable pub skip_result : Subject → String → Span → TestResult
skip_result s property span = record {
  skipped = true;
  resource_id = s.id;
  resource_type = s.type_name;
  property = property;
  title = s.title;
  meta = s.meta;
  result = skip;
  failure = none;
  matcher_result = no_match;
  span = span;
}

-- shouldSkip
unfoldable pub should_skip : List TestResult → Bool
should_skip [] = false
should_skip (r ∷ results) = elim r.failure [
  | some e ↦ true
  | none ↦ not (is_success r.result) || is_false r.matcher_result.actual
]

-- The loop over results in validateWithDependencies and validateDiscovery: no FAIL among them.
abbrev pub passed : List TestResult → Bool
passed results = not (any_of (λ r. is_fail r.result) results)
