-- ===== src/Leaves.antt =====
-- Match of the matchers that goss implements itself: matchers/have_patterns.go (on dynamic values),
-- matchers/semver_constraint.go, and strToSymbol of matchers/be_numerically_matcher.go.
use goss.Value.{nil, strs, arr, str, cons, Value, Items}
use goss.Base.{
  ℕ, String, Bool, true, Option, none, some, List, [], ◌∷◌, ◌==◌, if◌then◌else◌, length, all_of,
}
use goss.Errors.{
  patterns_not_strings, incorrect_type, patterns_not_an_array, not_versions, unknown_comparator,
  not_a_constraint, Result, ok, err, ◌>>=◌,
}
use goss.Patterns.{codes, all_found, slice_to_patterns, Scan, Pattern, Text}
use goss.Libraries.{Libraries}

-- strToSymbol
unfoldable pub str_to_symbol : String → Result String
str_to_symbol s =
    if s == "gt"
    then ok ">"
    else if s == "ge"
    then ok ">="
    else if s == "lt"
    then ok "<"
    else if s == "le"
    then ok "<="
    else if s == "eq"
    then ok "=="
    else err (unknown_comparator s)

module _ (lib : Libraries) where
  abbrev item_texts : Items → Result (List Text)
  item_texts nil = ok []
  item_texts (cons (str s) vs) = do rest ← item_texts vs; ok (codes s ∷ rest)
  item_texts (cons v vs) = err patterns_not_strings

  abbrev scan_of : Value → Result Scan
  scan_of (str s) = ok (lib.scan s)
  scan_of (strs vs) = ok (lib.scan (lib.join_lines vs))
  scan_of v = err incorrect_type

  -- The search behind the type switch on `actual`, which is reached if there are patterns.
  abbrev search_in : Value → ℕ → List Pattern → Result Bool
  search_in actual count [] = ok true
  search_in actual count (p ∷ pats) = do scan ← scan_of actual; all_found scan count (p ∷ pats)

  -- (*HavePatternsMatcher).Match
  unfoldable pub match_patterns : Value → Value → Result Bool
  match_patterns (arr vs) actual = do
    elements ← item_texts vs
    pats ← slice_to_patterns lib.compile elements
    search_in actual (length elements) pats
  match_patterns v actual = err patterns_not_an_array

  -- toConstraint
  abbrev to_constraint : Value → Option (String → Bool)
  to_constraint (str s) = lib.parse_range s
  to_constraint v = none

  -- toVersion
  abbrev to_version : Value → Option String
  to_version (str s) = if lib.is_version s then some s else none
  to_version v = none

  abbrev item_versions : Items → Option (List String)
  item_versions nil = some []
  item_versions (cons v vs) = elim (to_version v) [
    | none ↦ none
    | some s ↦ elim (item_versions vs) [ none ↦ none | some rest ↦ some (s ∷ rest) ]
  ]

  abbrev non_empty : Option (List String) → Option (List String)
  non_empty (some (s ∷ rest)) = some (s ∷ rest)
  non_empty o = none

  -- toVersions: a version, or a slice of versions that is not empty. A slice of another element
  -- type leaves the result empty, which is refused.
  unfoldable pub to_versions : Value → Option (List String)
  to_versions (str s) = if lib.is_version s then some (s ∷ []) else none
  to_versions (arr vs) = non_empty (item_versions vs)
  to_versions (strs vs) = non_empty (if all_of lib.is_version vs then some vs else none)
  to_versions v = none

  abbrev all_satisfy : Option (String → Bool) → Option (List String) → Result Bool
  all_satisfy none versions = err not_a_constraint
  all_satisfy (some constraint) none = err not_versions
  all_satisfy (some constraint) (some versions) = ok (all_of constraint versions)

  -- (*BeSemverConstraintMatcher).Match
  unfoldable pub match_semver : Value → Value → Result Bool
  unfolding to_versions
  match_semver constraint actual = all_satisfy (to_constraint constraint) (to_versions actual)
