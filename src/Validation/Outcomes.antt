-- ===== src/Validation/Outcomes.antt =====
-- What one check can end with, and which checks a Validate method skips.
use goss.Value.{bool, Value}
use goss.TestResult.{is_success, should_skip, Span, TestResult, Subject, success, fail, skip}
use goss.Errors.{Error, ok-injective, Result, ok, err, panic, ◌>>=◌, >>=-eq-ok}
use goss.Base.{
  String, ◌≡◌, refl, sym, ◌≢◌, ◌⊎◌, inl, inr, Bool, true, false, ◌||◌, not, none, some, List, [],
  ◌∷◌, arith, Option-cases, All,
}
use goss.Validation.{
  adapt, run_check, run_checks, run_gated, Check, validate_value, Clock, prepare, Getter, conclude,
  settle,
}
use goss.Matcher.Report.{failure, MatcherResult}
use goss.Matcher.{match, Matcher}
use goss.Libraries.{Libraries}

cons-injective {ℓ} : {A : Type ℓ} {x y : A} {xs ys : List A} → x ∷ xs ≡ y ∷ ys → (x ≡ y) × (xs ≡ ys)
cons-injective e = (cc, cc)

or-true : (b : Bool) → (b || true) ≡ true
or-true true = refl
or-true false = refl

-- A result that closes the gate before the other properties: it is not a success, or has an error,
-- or its value was found to be false.
abbrev pub Closes : TestResult → Type 0
Closes t =
    (t.result ≢ success)
    ⊎ (((e : Error) × (t.failure ≡ some e)) ⊎ (t.matcher_result.actual ≡ bool false))

Closes-should_skip : (t : TestResult) → Closes t → should_skip (t ∷ []) ≡ true
unfolding should_skip
Closes-should_skip t (inl other) = ground (arith, other)
Closes-should_skip t (inr (inl (e, q))) = rw q refl
Closes-should_skip t (inr (inr q)) = elim (Option-cases t.failure) [
  | inl fine ↦ rw fine (rw q (or-true (not (is_success t.result))))
  | inr (e, bad) ↦ rw bad refl
]

abbrev pub IsSkipped : TestResult → Type 0
IsSkipped t = (t.result ≡ skip) × (t.skipped ≡ true)

-- The ways in which a check that is not skipped ends.
abbrev pub Judged : Result Bool → TestResult → Type 0
Judged answer t =
    ((answer ≡ ok true) × (t.result ≡ success) × (t.failure ≡ none))
    ⊎ ((answer ≢ ok true) × (t.result ≡ fail))

module _ (lib : Libraries) (s : Subject) (property : String) (span : Span) where
  conclude-Judged :
      (expected found : Value) (answer : Result Bool) (report : Result MatcherResult)
      (t : TestResult)
      → conclude lib s property span expected found answer report ≡ ok t
      → Judged answer t
  unfolding conclude
  conclude-Judged expected found (ok true) report t e = ground arith
  conclude-Judged expected found (ok false) report t e =
      let (r, _, e') = >>=-eq-ok report _ e in ground arith
  conclude-Judged expected found (err x) report t e =
      let (r, _, e') = >>=-eq-ok report _ e in ground arith
  conclude-Judged expected found panic report t e = ground arith

  -- Fetching the value, building the matcher and matching, as one answer.
  abbrev pub verdict : Value → Getter → Result Bool
  verdict expected getter = prepare lib s property span expected getter >>= λ p. match lib p.1 p.0

  settle-Judged :
      (expected : Value) (r : Result (Value × Matcher)) (t : TestResult)
      → settle lib s property span expected r ≡ ok t
      → Judged (r >>= λ p. match lib p.1 p.0) t
  unfolding settle
  settle-Judged expected (ok (found, m)) t e =
      conclude-Judged expected found (match lib m found) (failure lib m found) t e
  settle-Judged expected (err x) t e = ground arith
  settle-Judged expected panic t e = ground arith

  -- Where a check that is not skipped returns a result, this is a success without an error exactly if
  -- the value could be fetched, the matcher could be built and Match said true; in every other case in
  -- which a result is returned, it is a FAIL. A check that panics returns none.
  pub validate_value-Judged :
      (expected : Value) (getter : Getter) (t : TestResult)
      → validate_value lib s property span expected getter false ≡ ok t
      → Judged (verdict expected (adapt lib s property span expected getter)) t
  unfolding validate_value
  validate_value-Judged expected getter t e =
      settle-Judged expected
        (prepare lib s property span expected (adapt lib s property span expected getter)) t e

  pub validate_value-IsSkipped :
      (expected : Value) (getter : Getter) (t : TestResult)
      → validate_value lib s property span expected getter true ≡ ok t
      → IsSkipped t
  unfolding validate_value
  validate_value-IsSkipped expected getter t e = ground arith

module _ (lib : Libraries) (s : Subject) (clock : Clock) where
  run_check-IsSkipped :
      (c : Check) (t : TestResult) → run_check lib s clock true c ≡ ok t → IsSkipped t
  unfolding run_check
  run_check-IsSkipped c t e =
      let (expected, _, e') = >>=-eq-ok c.expected _ e in
      validate_value-IsSkipped lib s c.property (clock c.property) expected c.getter t e'

  pub run_checks-IsSkipped :
      (cs : List Check) (rs : List TestResult)
      → run_checks lib s clock true cs ≡ ok rs
      → All IsSkipped rs
  unfolding run_checks
  run_checks-IsSkipped [] rs e = rw (← ok-injective e) tt
  run_checks-IsSkipped (c ∷ cs) rs e =
      let (t, one, e') = >>=-eq-ok (run_check lib s clock true c) _ e in
      let (ts, more, e'') = >>=-eq-ok (run_checks lib s clock true cs) _ e' in
      rw (← ok-injective e'') (run_check-IsSkipped c t one, run_checks-IsSkipped cs ts more)

  -- What a run behind a first check looks like.
  pub run_gated-inv :
      (skipped : Bool) (first : Check) (rest : List Check) (rs : List TestResult)
      → run_gated lib s clock skipped first rest ≡ ok rs
      → (t : TestResult) × (ts : List TestResult) × (rs ≡ t ∷ ts)
        × (run_check lib s clock skipped first ≡ ok t)
        × (run_checks lib s clock (skipped || should_skip (t ∷ [])) rest ≡ ok ts)
  unfolding run_gated
  run_gated-inv skipped first rest rs e =
      let (t, one, e') = >>=-eq-ok (run_check lib s clock skipped first) _ e in
      let (ts, more, e'') =
        >>=-eq-ok (run_checks lib s clock (skipped || should_skip (t ∷ [])) rest) _ e' in
      (t, ts, sym (ok-injective e''), one, more)

  pub run_gated-IsSkipped :
      (first : Check) (rest : List Check) (rs : List TestResult)
      → run_gated lib s clock true first rest ≡ ok rs
      → All IsSkipped rs
  run_gated-IsSkipped first rest rs e =
      let (t, ts, split, one, more) = run_gated-inv true first rest rs e in
      rw split (run_check-IsSkipped first t one, run_checks-IsSkipped rest ts more)

  -- If the first check did not succeed, gave an error, or found `false`, the others are skipped.
  pub run_gated-rest :
      (skipped : Bool) (first : Check) (rest : List Check) (t : TestResult) (ts : List TestResult)
      → run_gated lib s clock skipped first rest ≡ ok (t ∷ ts)
      → Closes t
      → All IsSkipped ts
  run_gated-rest skipped first rest t ts e closes =
      let h = Closes-should_skip t closes in
      let (u, us, split, one, more) = run_gated-inv skipped first rest (t ∷ ts) e in
      rw (cons-injective split).1
        (run_checks-IsSkipped rest us (rw (← (cons-injective split).0, h, or-true skipped) at more))
