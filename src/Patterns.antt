-- ===== src/Patterns.antt =====
-- matchers/have_patterns.go: the patterns of file, command and http contents, and their search.
-- A text is the list of its code points. The regular expression compiler is the argument `compile`;
-- bufio.Scanner is the argument `Scan`: the lines that it yields, and the error that it ends with.
pub mod Search
pub mod Syntax
pub mod Tests
use goss.Base.{
  ℕ, String, Bool, true, false, ◌&&◌, ◌||◌, not, Option, none, some, List, [], ◌∷◌, ◌++◌, eqb,
  if◌then◌else◌, length, all_of, keep,
}
use Prim.Native.Char.{code}
use goss.Errors.{Error, Result, ok, err, panic, ◌>>=◌}

abbrev pub Text : Type 0
Text = List ℕ

abbrev pub codes : String → Text
codes String.[] = []
codes (String.◌∷◌ c s) = code c ∷ codes s

abbrev pub bang : ℕ
bang = 0x21

abbrev pub slash : ℕ
slash = 0x2f

abbrev pub backslash : ℕ
backslash = 0x5c

-- strings.HasPrefix(s, string(c)) for one character
abbrev pub starts_with_char : ℕ → Text → Bool
starts_with_char c [] = false
starts_with_char c (d ∷ s) = eqb d c

-- strings.TrimPrefix(s, string(c)) for one character
abbrev pub trim_char : ℕ → Text → Text
trim_char c [] = []
trim_char c (d ∷ s) = if eqb d c then s else d ∷ s

-- strings.TrimLeft(s, cutset)
abbrev pub trim_left : (ℕ → Bool) → Text → Text
trim_left cut [] = []
trim_left cut (d ∷ s) = let rest = trim_left cut s in if cut d then rest else d ∷ s

abbrev pub is_prefix : Text → Text → Bool
is_prefix [] s = true
is_prefix (c ∷ p) [] = false
is_prefix (c ∷ p) (d ∷ s) = eqb c d && is_prefix p s

-- strings.Contains(s, p)
unfoldable pub contains : Text → Text → Bool
contains [] p = is_prefix p []
contains (c ∷ s) p = is_prefix p (c ∷ s) || contains s p

-- The texts before and after the last slash, by strings.LastIndex(s, "/").
unfoldable pub split_last : Text → Option (Text × Text)
split_last [] = none
split_last (c ∷ s) = elim (split_last s) [
  | some (before, after) ↦ some (c ∷ before, after)
  | none ↦ if eqb c slash then some ([], s) else none
]

-- The interface patternMatcher, with its two implementations.
pub data Pattern : Type 0 where
  string_pattern : (pattern clean : Text) (inverse : Bool) → Pattern
  regex_pattern : (pattern : Text) (re : Text → Bool) (inverse : Bool) → Pattern

unfoldable pub matches : Pattern → Text → Bool
matches (string_pattern pattern clean inverse) line = contains line clean
matches (regex_pattern pattern re inverse) line = re line

unfoldable pub source : Pattern → Text
source (string_pattern pattern clean inverse) = pattern
source (regex_pattern pattern re inverse) = pattern

unfoldable pub is_inverse : Pattern → Bool
is_inverse (string_pattern pattern clean inverse) = inverse
is_inverse (regex_pattern pattern re inverse) = inverse

-- newStringPattern
unfoldable pub new_string_pattern : Text → Pattern
new_string_pattern str =
    string_pattern str (trim_left (λ c. eqb c backslash || (eqb c slash || eqb c bang)) str)
      (starts_with_char bang str)

abbrev pub is_nil : Text → Bool
is_nil [] = true
is_nil (c ∷ s) = false

-- newRegexPattern behind the "!": one leading backslash or slash is dropped, then what stands
-- behind the last slash becomes inline flags. `cleanStr[0]` panics on an empty text.
unfoldable pub strip_delimiters : Text → Result Text
strip_delimiters [] = panic
strip_delimiters (c ∷ rest) =
    let stripped = if eqb c backslash || eqb c slash then rest else c ∷ rest in
    elim (split_last stripped) [
      | none ↦ ok stripped
      | some (body, flags) ↦
          ok (if is_nil flags then body else codes "(?" ++ (flags ++ (codes ")" ++ body)))
    ]

-- The text that newRegexPattern hands to regexp.Compile.
unfoldable pub regex_source : Text → Result Text
unfolding strip_delimiters
regex_source str = strip_delimiters (trim_char bang str)

-- newRegexPattern
unfoldable pub new_regex_pattern : (Text → Result (Text → Bool)) → Text → Result Pattern
unfolding regex_source
new_regex_pattern compile str = do
  clean ← regex_source str
  re ← compile clean
  ok (regex_pattern str re (starts_with_char bang str))

-- 'i', 'm', 's'
abbrev pub is_flag : ℕ → Bool
is_flag c = eqb c b'i' || (eqb c b'm' || eqb c b's')

-- isRegexPattern behind the "!"
unfoldable pub is_delimited : Text → Bool
is_delimited [] = false
is_delimited (c ∷ rest) =
    if eqb c slash
    then elim (split_last rest) [ none ↦ false | some (body, flags) ↦ all_of is_flag flags ]
    else false

-- isRegexPattern
unfoldable pub is_regex_pattern : Text → Bool
unfolding is_delimited
is_regex_pattern s = is_delimited (trim_char bang s)

abbrev pub to_pattern : (Text → Result (Text → Bool)) → Text → Result Pattern
to_pattern compile s =
    if is_regex_pattern s then new_regex_pattern compile s else ok (new_string_pattern s)

-- sliceToPatterns
unfoldable pub slice_to_patterns : (Text → Result (Text → Bool)) → List Text → Result (List Pattern)
slice_to_patterns compile [] = ok []
slice_to_patterns compile (s ∷ slice) = do
  pat ← to_pattern compile s
  rest ← slice_to_patterns compile slice
  ok (pat ∷ rest)

pub record Scan : Type 0 where
  pub lines : List Text
  pub failure : Option Error

-- One round of the scan loop: what stays in `notfound`, and what is added to `found`.
abbrev pub still_missing : Text → List Pattern → List Pattern
still_missing line notfound = keep (λ p. not (matches p line)) notfound

abbrev pub newly_found : Text → List Pattern → List Pattern
newly_found line notfound = keep (λ p. matches p line && not (is_inverse p)) notfound

abbrev pub none_left : List Pattern → Bool
none_left [] = true
none_left (p ∷ ps) = false

-- scanner.Err(), behind the loop
abbrev pub scan_end {ℓ} : {A : Type ℓ} → Option Error → A → Result A
scan_end none a = ok a
scan_end (some e) a = err e

-- The loop ends by `break` when nothing is left, and then never sees the scanner's error.
unfoldable pub scan_loop :
    Option Error
    → List Text
    → (notfound found : List Pattern) → Result (List Pattern × List Pattern)
scan_loop failure [] notfound found = scan_end failure (notfound, found)
scan_loop failure (line ∷ lines) notfound found =
    let missing = still_missing line notfound in
    let found' = found ++ newly_found line notfound in
    let rest = scan_loop failure lines missing found' in
    if none_left missing then ok (missing, found') else rest

-- Patterns that were not met count as found if they are inverse, or empty.
abbrev pub met_by_absence : Pattern → Bool
met_by_absence p = is_inverse p || is_nil (source p)

-- What Match leaves in `foundElements`.
unfoldable pub find_patterns : Scan → List Pattern → Result (List Pattern)
unfolding scan_loop
find_patterns scan pats = do
  (notfound, found) ← scan_loop scan.failure scan.lines pats []
  ok (found ++ keep met_by_absence notfound)

-- The rest of Match behind its short circuit on an empty list of patterns.
unfoldable pub all_found : Scan → ℕ → List Pattern → Result Bool
unfolding find_patterns
all_found scan count [] = ok true
all_found scan count (p ∷ pats) = do
  found ← find_patterns scan (p ∷ pats)
  ok (eqb count (length found))

-- (*HavePatternsMatcher).Match, on the elements as texts
unfoldable pub have_patterns : (Text → Result (Text → Bool)) → Scan → List Text → Result Bool
unfolding all_found slice_to_patterns
have_patterns compile scan elements = do
  pats ← slice_to_patterns compile elements
  all_found scan (length elements) pats
