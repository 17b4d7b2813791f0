-- ===== src/Matcher/Parse.antt =====
-- resource/gomega.go: how the value of a gossfile becomes a matcher.
pub mod Total
use goss.Value.{
  null, field_names, nil, end, ints, Fields, strs, cons, Items, field, arr, obj, bool, int, float,
  str, num, Value,
}
use goss.Transform.{gjson, to_array, to_numeric, to_string}
use goss.Matcher.{
  more, empty, be_semver_constraint, disjunction, conjunction, consist_of, negation,
  contain_element, have_key, contain_substring, match_regexp, have_suffix, have_prefix, Matchers,
  have_patterns, contain_elements, be_numerically, have_len, equal, with_safe_transform, Matcher,
}
use goss.Errors.{
  unknown_matcher, multiple_matchers, missing_required_attribute, invalid_argument, Result, ok, err,
  panic, ◌>>=◌,
}
use goss.Base.{String, Bool, true, false, ◌||◌, ◌∷◌, ◌==◌, if◌then◌else◌}
use goss.Libraries.{Libraries}

abbrev text_matcher : String → (String → Matcher) → Value → Result Matcher
text_matcher name build (str s) = ok (build s)
text_matcher name build v = err (invalid_argument name "string")

abbrev stringified : (String → Matcher) → String → Matcher
stringified build s = with_safe_transform to_string (build s)

abbrev len_matcher : Libraries → Value → Result Matcher
len_matcher lib (num (float bits)) = ok (have_len (lib.truncate bits))
len_matcher lib (num (int n)) = ok (have_len n)
len_matcher lib v = err (invalid_argument "have-len" "numeric")

abbrev patterns_matcher : Value → Result Matcher
patterns_matcher (arr vs) = ok (with_safe_transform to_string (have_patterns (arr vs)))
patterns_matcher v = err (invalid_argument "have-patterns" "array")

-- The values that `contain-element` accepts: a map, a string or a number.
abbrev is_element : Value → Bool
is_element (obj fs) = true
is_element (str s) = true
is_element (num n) = true
is_element v = false

-- A value, or the only entry of a map, as a matcher. `keys[0]` panics on a map with no entry.
unfoldable mutual
  -- matcherToGomegaMatcher
  pub to_matcher : Libraries → Value → Result Matcher
  to_matcher lib (str s) = ok (with_safe_transform to_string (equal (str s)))
  to_matcher lib (num n) = ok (with_safe_transform to_numeric (be_numerically "eq" (num n)))
  to_matcher lib (bool b) = ok (equal (bool b))
  to_matcher lib (arr vs) = to_matchers lib vs >>= λ ms. ok (contain_elements ms)
  to_matcher lib null = err missing_required_attribute
  to_matcher lib (strs vs) = err (invalid_argument "matcher" "map")
  to_matcher lib (ints vs) = err (invalid_argument "matcher" "map")
  to_matcher lib (obj end) = panic
  to_matcher lib (obj (field k v (field j w fs))) = err (multiple_matchers (k ∷ j ∷ field_names fs))
  to_matcher lib (obj (field k v end)) =
      let sub = to_matcher lib v in
      let slice : (String → Result Matchers) = λ name. to_slice lib name v in
      let by_path = to_gjson lib v in
      if k == "equal"
      then ok (equal v)
      else if k == "have-prefix"
      then text_matcher k (stringified have_prefix) v
      else if k == "have-suffix"
      then text_matcher k (stringified have_suffix) v
      else if k == "match-regexp"
      then text_matcher k (stringified match_regexp) v
      else if k == "contain-substring"
      then text_matcher k (stringified contain_substring) v
      else if k == "have-len"
      then len_matcher lib v
      else if k == "have-patterns"
      then patterns_matcher v
      else if k == "have-key"
      then (sub >>= λ m. ok (have_key m))
      else if k == "contain-element"
      then if is_element v
        then (sub >>= λ m. ok (with_safe_transform to_array (contain_element m)))
        else err (invalid_argument k "matcher, string or numeric")
      else if k == "contain-elements"
      then (slice "contains-elements" >>= λ ms.
          ok (with_safe_transform to_array (contain_elements ms)))
      else if k == "not"
      then (sub >>= λ m. ok (negation m))
      else if k == "consist-of"
      then (slice "consist-of" >>= λ ms. ok (consist_of ms))
      else if k == "and"
      then (slice "and" >>= λ ms. ok (conjunction ms))
      else if k == "or"
      then (slice "or" >>= λ ms. ok (disjunction ms))
      else if k == "gt" || (k == "ge" || (k == "lt" || k == "le"))
      then ok (with_safe_transform to_numeric (be_numerically k v))
      else if k == "semver-constraint"
      then text_matcher k (λ s. be_semver_constraint (str s)) v
      else if k == "gjson"
      then (by_path >>= λ ms. ok (conjunction ms))
      else err (unknown_matcher k)

  -- sliceToGomega
  pub to_slice : Libraries → String → Value → Result Matchers
  to_slice lib name (arr vs) = to_matchers lib vs
  to_slice lib name v = err (invalid_argument name "array")

  pub to_matchers : Libraries → Items → Result Matchers
  to_matchers lib nil = ok empty
  to_matchers lib (cons v vs) =
      to_matcher lib v >>= λ m. to_matchers lib vs >>= λ ms. ok (more m ms)

  -- case "gjson"
  pub to_gjson : Libraries → Value → Result Matchers
  to_gjson lib (obj fs) = to_paths lib fs
  to_gjson lib v = err (invalid_argument "gjson" "map")

  pub to_paths : Libraries → Fields → Result Matchers
  to_paths lib end = ok empty
  to_paths lib (field path v fs) = to_matcher lib v >>= λ m.
      to_paths lib fs >>= λ ms. ok (more (with_safe_transform (gjson path) m) ms)

-- No map without an entry stands anywhere in the value.
abbrev mutual
  pub NoEmptyMap : Value → Type 0
  NoEmptyMap (arr vs) = NoEmptyMaps vs
  NoEmptyMap (obj end) = ⊥
  NoEmptyMap (obj (field k v fs)) = NoEmptyMap v × NoEmptyFields fs
  NoEmptyMap v = Unit

  pub NoEmptyMaps : Items → Type 0
  NoEmptyMaps nil = Unit
  NoEmptyMaps (cons v vs) = NoEmptyMap v × NoEmptyMaps vs

  pub NoEmptyFields : Fields → Type 0
  NoEmptyFields end = Unit
  NoEmptyFields (field k v fs) = NoEmptyMap v × NoEmptyFields fs
