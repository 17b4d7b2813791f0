-- ===== src/Patterns/Search.antt =====
-- What (*HavePatternsMatcher).Match decides, against a description of each pattern by itself.
use goss.Patterns.{
  to_pattern, slice_to_patterns, all_found, have_patterns, Scan, find_patterns, none_left,
  scan_loop, Text, Pattern, matches, is_inverse, still_missing, newly_found, met_by_absence,
}
use goss.Errors.{Result, >>=-eq-ok, ok, Error}
use goss.Base.{
  ℕ, ◌+◌, ◌≤◌, ◌≡◌, refl, ap, ◌∙◌, inl, inr, Bool, true, ◌||◌, not, Option, none, some, List, [],
  ◌∷◌, ◌++◌, arith, eqb, if◌then◌else◌, Bool-cases, length, length-append, any_of, all_of, count_of,
  keep,
}

-- A pattern on its own: an inverse one is met if no line has it, another one if some line has it
-- or if it is the empty text.
abbrev pub met : List Text → Pattern → Bool
met lines p =
    if is_inverse p
    then not (any_of (matches p) lines)
    else any_of (matches p) lines || met_by_absence p

-- One line moves a pattern at most once.
count-round :
    (line : Text) (lines : List Text) (pats : List Pattern)
    → length (newly_found line pats) + count_of (met lines) (still_missing line pats)
      ≡ count_of (met (line ∷ lines)) pats
count-round line lines [] = omega arith
count-round line lines (p ∷ pats) = ground (arith, count-round line lines pats)

length-keep : (p : Pattern → Bool) (pats : List Pattern) → length (keep p pats) ≡ count_of p pats
length-keep p [] = refl
length-keep p (x ∷ pats) = ground (arith, length-keep p pats)

count-met-nil : (pats : List Pattern) → count_of (met []) pats ≡ count_of met_by_absence pats
count-met-nil [] = refl
count-met-nil (p ∷ pats) = ground (arith, count-met-nil pats)

count-nil : (lines : List Text) (pats : List Pattern) → pats ≡ [] → count_of (met lines) pats ≡ 0
count-nil lines [] e = refl
count-nil lines (p ∷ pats) e = cc

none_left-nil : (pats : List Pattern) → none_left pats ≡ true → pats ≡ []
none_left-nil [] h = refl
none_left-nil (p ∷ pats) h = cc

abbrev Counted : Option Error → List Text → (notfound found : List Pattern) → Type 0
Counted failure lines notfound found =
    (notfound' found' : List Pattern)
    → scan_loop failure lines notfound found ≡ ok (notfound', found')
    → length found' + count_of met_by_absence notfound'
      ≡ length found + count_of (met lines) notfound

scan_end-count :
    (failure : Option Error) (notfound found : List Pattern) → Counted failure [] notfound found
unfolding scan_loop
scan_end-count none notfound found notfound' found' e = ground (arith, count-met-nil notfound)
scan_end-count (some x) notfound found notfound' found' e = cc

scan_loop-count :
    (failure : Option Error) (lines : List Text) (notfound found : List Pattern)
    → Counted failure lines notfound found
unfolding scan_loop
scan_loop-count failure [] notfound found notfound' found' e =
    scan_end-count failure notfound found notfound' found' e
scan_loop-count failure (line ∷ lines) notfound found notfound' found' e =
    let missing = still_missing line notfound in
    elim (Bool-cases (none_left missing)) [
      | inl done ↦ ground (
        arith,
        count-round line lines notfound,
        length-append found (newly_found line notfound),
        count-nil lines missing (none_left-nil missing done),
        none_left-nil missing done,
      )
      | inr more ↦ ground (
        arith,
        count-round line lines notfound,
        length-append found (newly_found line notfound),
        scan_loop-count failure lines missing (found ++ newly_found line notfound) notfound' found'
            (rw more at e),
      )
    ]

-- The patterns that Match counts are those that are met.
find_patterns-count :
    (scan : Scan) (pats found : List Pattern)
    → find_patterns scan pats ≡ ok found
    → length found ≡ count_of (met scan.lines) pats
unfolding find_patterns
find_patterns-count scan pats found e =
    let (state, looped, ends) =
      >>=-eq-ok (scan_loop scan.failure scan.lines pats [])
        (λ s. ok (s.1 ++ keep met_by_absence s.0)) e in
    ground (
      arith,
      scan_loop-count scan.failure scan.lines pats [] state.0 state.1 looped,
      length-append state.1 (keep met_by_absence state.0),
      length-keep met_by_absence state.0,
    )

count_of-le : (p : Pattern → Bool) (pats : List Pattern) → count_of p pats ≤ length pats
count_of-le p [] = omega arith
count_of-le p (x ∷ pats) = ground (arith, count_of-le p pats)

-- A count that reaches the length is a test that every element passes.
count_of-all :
    (p : Pattern → Bool) (pats : List Pattern) → eqb (length pats) (count_of p pats) ≡ all_of p pats
count_of-all p [] = refl
count_of-all p (x ∷ pats) = ground (arith, count_of-le p pats, count_of-all p pats)

length-slice_to_patterns :
    (compile : Text → Result (Text → Bool)) (elements : List Text) (pats : List Pattern)
    → slice_to_patterns compile elements ≡ ok pats
    → length pats ≡ length elements
unfolding slice_to_patterns
length-slice_to_patterns compile [] pats e = cc
length-slice_to_patterns compile (s ∷ elements) pats e =
    let (pat, _, e') = >>=-eq-ok (to_pattern compile s) _ e in
    let (rest, rests, e'') = >>=-eq-ok (slice_to_patterns compile elements) _ e' in
    ground (arith, length-slice_to_patterns compile elements rest rests, e'')

all_found-eq-met :
    (scan : Scan) (pats : List Pattern) (b : Bool)
    → all_found scan (length pats) pats ≡ ok b
    → b ≡ all_of (met scan.lines) pats
unfolding all_found
all_found-eq-met scan [] b e = cc
all_found-eq-met scan (p ∷ pats) b e =
    let (found, searched, e') =
      >>=-eq-ok (find_patterns scan (p ∷ pats))
        (λ found. ok (eqb (length (p ∷ pats)) (length found))) e in
    cc (
      e',
      ap (λ (n : ℕ). eqb (length (p ∷ pats)) n)
          (find_patterns-count scan (p ∷ pats) found searched),
      count_of-all (met scan.lines) (p ∷ pats),
    )

-- Without a scanner error the loop ends with a result.
scan_loop-total :
    (lines : List Text) (notfound found : List Pattern)
    → (s : List Pattern × List Pattern) × (scan_loop none lines notfound found ≡ ok s)
unfolding scan_loop
scan_loop-total [] notfound found = ((notfound, found), refl)
scan_loop-total (line ∷ lines) notfound found =
    let (s, e) =
      scan_loop-total lines (still_missing line notfound) (found ++ newly_found line notfound) in
    elim (Bool-cases (none_left (still_missing line notfound))) [
      | inl done ↦ ((still_missing line notfound, found ++ newly_found line notfound), rw done)
      | inr more ↦ (s, rw more e)
    ]

all_found-total :
    (scan : Scan) (pats : List Pattern)
    → scan.failure ≡ none
    → (b : Bool) × (all_found scan (length pats) pats ≡ ok b)
unfolding all_found find_patterns
all_found-total scan [] e = (true, refl)
all_found-total scan (p ∷ pats) e =
    let (s, looped) = scan_loop-total scan.lines (p ∷ pats) [] in
    (eqb (length (p ∷ pats)) (length (s.1 ++ keep met_by_absence s.0)), rw (e, looped))

-- If the patterns compile and the scanner reads the whole input without an error, Match succeeds
-- without an error and answers whether every pattern is met: each inverse pattern by no line, and
-- each other pattern by some line or by being empty.
pub have_patterns-eq-met :
    (compile : Text → Result (Text → Bool)) (scan : Scan) (elements : List Text)
    (pats : List Pattern)
    → slice_to_patterns compile elements ≡ ok pats
    → scan.failure ≡ none
    → have_patterns compile scan elements ≡ ok (all_of (met scan.lines) pats)
unfolding have_patterns
have_patterns-eq-met compile scan elements pats parsed fine =
    let (b, e) = all_found-total scan pats fine in
    rw (parsed, ← length-slice_to_patterns compile elements pats parsed)
      (e ∙ ap ok (all_found-eq-met scan pats b e))

-- Also when the scanner ends with an error, an answer that Match gives without an error is the one
-- of every pattern met, provided that every element became a pattern.
pub have_patterns_ok :
    (compile : Text → Result (Text → Bool)) (scan : Scan) (elements : List Text)
    (pats : List Pattern) (b : Bool)
    → slice_to_patterns compile elements ≡ ok pats
    → have_patterns compile scan elements ≡ ok b
    → b ≡ all_of (met scan.lines) pats
unfolding have_patterns
have_patterns_ok compile scan elements pats b parsed e =
    all_found-eq-met scan pats b
      (rw (length-slice_to_patterns compile elements pats parsed) (rw parsed at e))
