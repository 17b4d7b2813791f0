-- ===== src/Patterns/Syntax.antt =====
-- The /regex/flags notation of isRegexPattern and newRegexPattern.
use goss.Base.{
  ◌≡◌, refl, inl, inr, true, none, some, [], ◌∷◌, ◌++◌, arith, if◌then◌else◌, Option-cases, all_of,
}
use goss.Patterns.{
  is_delimited, strip_delimiters, bang, codes, is_flag, slash, is_nil, trim_char, Text, split_last,
  regex_source, is_regex_pattern,
}
use goss.Errors.{ok}

-- The last slash is where `split_last` says.
split_last-append :
    (s : Text) (before after : Text)
    → split_last s ≡ some (before, after)
    → s ≡ before ++ slash ∷ after
unfolding split_last
split_last-append [] before after e = cc
split_last-append (c ∷ s) before after e = elim (Option-cases (split_last s)) [
  | inl nothing ↦ ground (arith, nothing)
  | inr (parts, found) ↦ ground (arith, found, split_last-append s parts.0 parts.1 found)
]

-- A text of flag letters has no slash.
split_last-flags : (flags : Text) → all_of is_flag flags ≡ true → split_last flags ≡ none
unfolding split_last
split_last-flags [] h = refl
split_last-flags (c ∷ flags) h = ground (arith, split_last-flags flags)

split_last-literal :
    (body flags : Text)
    → all_of is_flag flags ≡ true
    → split_last (body ++ slash ∷ flags) ≡ some (body, flags)
unfolding split_last
split_last-literal [] flags h = rw (split_last-flags flags h)
split_last-literal (c ∷ body) flags h = rw (split_last-literal body flags h)

-- The source of a Go regular expression with inline flags.
abbrev pub with_flags : Text → Text → Text
with_flags flags body = if is_nil flags then body else codes "(?" ++ (flags ++ (codes ")" ++ body))

-- A text /body/flags whose flags are all of i, m and s is taken for a regular expression, and what
-- is compiled is the body, behind the inline flags if there are any. (The body may hold slashes.)
pub regex_literal :
    (body flags : Text)
    → all_of is_flag flags ≡ true
    → (is_regex_pattern (slash ∷ (body ++ slash ∷ flags)) ≡ true)
      × (regex_source (slash ∷ (body ++ slash ∷ flags)) ≡ ok (with_flags flags body))
unfolding is_regex_pattern regex_source
regex_literal body flags h =
    let last = split_last-literal body flags h in (ground (arith, last), ground (arith, last))

-- A literal behind its optional "!".
abbrev pub Literal : Text → Text → Text → Type 0
Literal t body flags =
    (t ≡ slash ∷ (body ++ slash ∷ flags))
    × (all_of is_flag flags ≡ true)
    × (strip_delimiters t ≡ ok (with_flags flags body))

is_delimited-Literal :
    (t : Text) → is_delimited t ≡ true → (body : Text) × (flags : Text) × Literal t body flags
unfolding is_delimited strip_delimiters
is_delimited-Literal [] h = cc
is_delimited-Literal (c ∷ rest) h = elim (Option-cases (split_last rest)) [
  | inl nothing ↦ absurd (ground (arith, nothing))
  | inr (parts, found) ↦ (
    parts.0,
    parts.1,
    (
      ground (arith, found, split_last-append rest parts.0 parts.1 found),
      ground (arith, found),
      ground (arith, found),
    ),
  )
]

-- Whatever is taken for a regular expression is, behind an optional leading "!", a text
-- /body/flags with flags out of i, m and s, and newRegexPattern compiles it without a panic: the
-- body, behind the inline flags if there are any.
pub is_regex_pattern-inv :
    (s : Text)
    → is_regex_pattern s ≡ true
    → (body : Text) × (flags : Text) × (trim_char bang s ≡ slash ∷ (body ++ slash ∷ flags))
      × (all_of is_flag flags ≡ true)
      × (regex_source s ≡ ok (with_flags flags body))
unfolding is_regex_pattern regex_source
is_regex_pattern-inv s h =
    let (body, flags, l) = is_delimited-Literal (trim_char bang s) h in (body, flags, l.0, l.1, l.2)
