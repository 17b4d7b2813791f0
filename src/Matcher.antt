-- ===== src/Matcher.antt =====
-- matchers/: the matchers that goss builds and what Match answers; in Report, what FailureResult makes
-- of the state that Match leaves behind; in Parse, how resource/gomega.go builds them.
pub mod Parse
pub mod Report
pub mod Connectives
use goss.Base.{String, Bool, true, false, not, List, [], ◌∷◌, if◌then◌else◌}
use goss.Transform.{transform, Transformer}
use goss.Errors.{transform_failed, not_a_collection, Result, ok, err, panic, ◌>>=◌, wrap}
use goss.Value.{obj, arr, ints, strs, Value}
use goss.Leaves.{match_semver, str_to_symbol, match_patterns}
use goss.Libraries.{Libraries, Test}
use goss.Base.Int.{ℤ}

mutual
  pub data Matcher : Type 0 where
    equal : Value → Matcher
    have_prefix : String → Matcher
    have_suffix : String → Matcher
    match_regexp : String → Matcher
    contain_substring : String → Matcher
    have_len : ℤ → Matcher
    have_patterns : Value → Matcher
    be_numerically : (comparator : String) → Value → Matcher
    be_semver_constraint : Value → Matcher
    have_key : Matcher → Matcher
    contain_element : Matcher → Matcher
    contain_elements : Matchers → Matcher
    consist_of : Matchers → Matcher
    negation : Matcher → Matcher
    conjunction : Matchers → Matcher
    disjunction : Matchers → Matcher
    with_safe_transform : Transformer → Matcher → Matcher

  pub data Matchers : Type 0 where
    empty : Matchers
    more : Matcher → Matchers → Matchers

-- isArrayOrSlice(a) || isMap(a)
abbrev is_collection : Value → Bool
is_collection (strs vs) = true
is_collection (ints vs) = true
is_collection (arr vs) = true
is_collection (obj fs) = true
is_collection v = false

-- Match of each matcher. In `and` and `or` an error, or an answer that decides, ends the loop.
unfoldable mutual
  pub match : Libraries → Matcher → Test
  match lib (equal v) = lib.equals v
  match lib (have_prefix s) = lib.has_prefix s
  match lib (have_suffix s) = lib.has_suffix s
  match lib (match_regexp s) = lib.matches_regexp s
  match lib (contain_substring s) = lib.contains_substring s
  match lib (have_len n) = lib.has_len n
  match lib (have_patterns v) = match_patterns lib v
  match lib (be_numerically comparator v) =
      λ actual. str_to_symbol comparator >>= λ symbol. lib.compares symbol v actual
  match lib (be_semver_constraint v) = match_semver lib v
  match lib (have_key m) = lib.has_key (match lib m)
  match lib (contain_element m) = lib.contains_element (match lib m)
  match lib (contain_elements ms) = λ actual.
      if is_collection actual
      then lib.contains_elements (tests lib ms) actual
      else err not_a_collection
  match lib (consist_of ms) = lib.consists_of (tests lib ms)
  match lib (negation m) = λ actual. match lib m actual >>= λ success. ok (not success)
  match lib (conjunction ms) = match_all lib ms
  match lib (disjunction ms) = match_any lib ms
  match lib (with_safe_transform t m) =
      λ actual. wrap transform_failed (transform lib t actual) >>= λ value. match lib m value

  pub tests : Libraries → Matchers → List Test
  tests lib empty = []
  tests lib (more m ms) = match lib m ∷ tests lib ms

  pub match_all : Libraries → Matchers → Test
  match_all lib empty = λ actual. ok true
  match_all lib (more m ms) = λ actual.
      match lib m actual >>= λ success. if success then match_all lib ms actual else ok false

  pub match_any : Libraries → Matchers → Test
  match_any lib empty = λ actual. ok false
  match_any lib (more m ms) = λ actual.
      match lib m actual >>= λ success. if success then ok true else match_any lib ms actual
