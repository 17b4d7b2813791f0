-- ===== src/Patterns/Tests.antt =====
-- Runs of the pattern search, and the theorems at concrete inputs.
use goss.Base.{◌≡◌, refl, Bool, true, false, none, List, [], ◌∷◌, ◌++◌, all_of}
use goss.Patterns.Syntax.{is_regex_pattern-inv, with_flags, regex_literal}
use goss.Patterns.{
  is_inverse, source, is_flag, matches, slash, new_string_pattern, regex_source, contains, bang,
  split_last, string_pattern, codes, trim_char, Pattern, Text, Scan, is_regex_pattern,
  have_patterns, slice_to_patterns,
}
use goss.Patterns.Search.{have_patterns-eq-met, have_patterns_ok, met}
use goss.Errors.{Result, ok}

compile_literally : Text → Result (Text → Bool)
compile_literally re = ok (λ line. contains line re)

abbrev two_lines : Scan
two_lines = record { lines = codes "root:x:0" ∷ codes "bin:x:1" ∷ []; failure = none }

abbrev wanted : List Text
wanted = codes "root" ∷ codes "!mail" ∷ codes "" ∷ []

abbrev wanted_patterns : List Pattern
wanted_patterns =
    string_pattern (codes "root") (codes "root") false
    ∷ string_pattern (codes "!mail") (codes "mail") true
    ∷ string_pattern [] [] false
    ∷ []

wanted_parses : slice_to_patterns compile_literally wanted ≡ ok wanted_patterns
unfolding slice_to_patterns is_regex_pattern split_last new_string_pattern
wanted_parses = refl

wanted_found : have_patterns compile_literally two_lines wanted ≡ ok true
unfolding have_patterns is_regex_pattern split_last new_string_pattern contains matches source
    is_inverse
wanted_found = refl

forbidden_found : have_patterns compile_literally two_lines (codes "!root" ∷ []) ≡ ok false
unfolding have_patterns is_regex_pattern split_last new_string_pattern contains matches source
    is_inverse
forbidden_found = refl

have_patterns-eq-met_example :
    have_patterns compile_literally two_lines wanted
    ≡ ok (all_of (met two_lines.lines) wanted_patterns)
have_patterns-eq-met_example =
    have_patterns-eq-met compile_literally two_lines wanted wanted_patterns wanted_parses refl

answer_without_scanner_error : true ≡ all_of (met two_lines.lines) wanted_patterns
answer_without_scanner_error =
    have_patterns_ok compile_literally two_lines wanted wanted_patterns true wanted_parses
      wanted_found

dotted_literal :
    (is_regex_pattern (codes "/a/b/i") ≡ true)
    × (regex_source (codes "/a/b/i") ≡ ok (codes "(?i)a/b"))
dotted_literal = regex_literal (codes "a/b") (codes "i") refl

is_regex : is_regex_pattern (codes "!/x/") ≡ true
unfolding is_regex_pattern split_last
is_regex = refl

inverse_is_regex :
    (body : Text) × (flags : Text) × (trim_char bang (codes "!/x/")
      ≡ slash ∷ (body ++ slash ∷ flags))
    × (all_of is_flag flags ≡ true)
    × (regex_source (codes "!/x/") ≡ ok (with_flags flags body))
inverse_is_regex = is_regex_pattern-inv (codes "!/x/") is_regex
