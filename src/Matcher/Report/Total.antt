-- ===== src/Matcher/Report/Total.antt =====
-- When a report exists, and when asking for it panics.
use goss.Base.{
  ◌≡◌, refl, ◌≢◌, ◌⊎◌, inl, inr, Bool, true, false, not, some, List, ◌++◌, arith, Bool-cases,
}
use goss.Matcher.Report.{
  first_successful, first_failed, own_link, static_negated, static_failure, fresh_failure, negated,
  chain_of, chained, MatcherResult, failure,
}
use goss.Errors.{transform_failed, Error, wrap, >>=-eq-ok, Result, ok, err, panic}
use goss.Matcher.{
  empty, more, disjunction, match_all, match_any, Matchers, conjunction, negation,
  with_safe_transform, Matcher, match,
}
use goss.Transform.{transform, Transformer}
use goss.Value.{Value, Value, Value, Value}
use goss.Libraries.{Libraries}

abbrev Reports : Result MatcherResult → Type 0
Reports r = (x : MatcherResult) × (r ≡ ok x)

chained-Reports :
    (link : List Transformer) (m : Matcher) (v : Value) (r : Result MatcherResult)
    → Reports r
    → Reports (chained link m v r)
chained-Reports link m v r (x, e) =
    (record x { transformer_chain = link ++ chain_of m x; untransformed = some v }, rw e)

wrap-eq-ok {ℓ} :
    {A : Type ℓ} (f : Error → Error) {a : A} (r : Result A) → wrap f r ≡ ok a → r ≡ ok a
wrap-eq-ok f (ok a) h = h
wrap-eq-ok f (err e) h = cc
wrap-eq-ok f panic h = cc

match_all-empty : (lib : Libraries) (v : Value) → match_all lib empty v ≢ ok false
unfolding match
match_all-empty lib v e = cc

match_any-empty : (lib : Libraries) (v : Value) → match_any lib empty v ≢ ok true
unfolding match
match_any-empty lib v e = cc

-- Inversion of the answers of `and`, `or`, `not` and of a transform.
match-negation :
    (lib : Libraries) (m : Matcher) (v : Value) (b : Bool)
    → match lib (negation m) v ≡ ok b
    → match lib m v ≡ ok (not b)
unfolding match
match-negation lib m v b e = let (c, e', f) = >>=-eq-ok (match lib m v) _ e in ground (arith, e', f)

match-transform :
    (lib : Libraries) (t : Transformer) (m : Matcher) (v : Value) (b : Bool)
    → match lib (with_safe_transform t m) v ≡ ok b
    → (w : Value) × (transform lib t v ≡ ok w) × (match lib m w ≡ ok b)
unfolding match
match-transform lib t m v b e =
    let (w, e', f) = >>=-eq-ok (wrap transform_failed (transform lib t v)) (match lib m) e in
    (w, wrap-eq-ok transform_failed (transform lib t v) e', f)

match-conjunction :
    (lib : Libraries) (ms : Matchers) (v : Value) (b : Bool)
    → match lib (conjunction ms) v ≡ ok b
    → match_all lib ms v ≡ ok b
unfolding match
match-conjunction lib ms v b e = e

match-disjunction :
    (lib : Libraries) (ms : Matchers) (v : Value) (b : Bool)
    → match lib (disjunction ms) v ≡ ok b
    → match_any lib ms v ≡ ok b
unfolding match
match-disjunction lib ms v b e = e

match_all-more :
    (lib : Libraries) (m : Matcher) (ms : Matchers) (v : Value)
    → match_all lib (more m ms) v ≡ ok false
    → (match lib m v ≡ ok false) ⊎ ((match lib m v ≡ ok true) × (match_all lib ms v ≡ ok false))
unfolding match
match_all-more lib m ms v e =
    let (c, e', f) = >>=-eq-ok (match lib m v) _ e in
    elim (Bool-cases c) [ inl h ↦ inr (rw h at e', rw h at f) | inr h ↦ inl (rw h at e') ]

match_any-more :
    (lib : Libraries) (m : Matcher) (ms : Matchers) (v : Value)
    → match_any lib (more m ms) v ≡ ok true
    → (match lib m v ≡ ok true) ⊎ ((match lib m v ≡ ok false) × (match_any lib ms v ≡ ok true))
unfolding match
match_any-more lib m ms v e =
    let (c, e', f) = >>=-eq-ok (match lib m v) _ e in
    elim (Bool-cases c) [ inl h ↦ inl (rw h at e') | inr h ↦ inr (rw h at e', rw h at f) ]

mutual
  unfolding failure static_failure static_negated

  failure-total :
      (lib : Libraries) (m : Matcher) (v : Value)
      → match lib m v ≡ ok false
      → Reports (failure lib m v)
  failure-total lib (negation m) v e = negated-total lib m v (match-negation lib m v false e)
  failure-total lib (conjunction ms) v e =
      first_failed-total lib ms v (match-conjunction lib ms v false e)
  failure-total lib (with_safe_transform t m) v e =
      let (w, applied, e') = match-transform lib t m v false e in
      rw (applied, failure)
        (chained-Reports (own_link lib t v w) m v (failure lib m w) (failure-total lib m w e'))
  failure-total lib _ v e = (_, refl)

  negated-total :
      (lib : Libraries) (m : Matcher) (v : Value)
      → match lib m v ≡ ok true
      → Reports (negated lib m v)
  negated-total lib (negation m) v e = failure-total lib m v (match-negation lib m v true e)
  negated-total lib (disjunction ms) v e =
      first_successful-total lib ms v (match-disjunction lib ms v true e)
  negated-total lib (with_safe_transform t m) v e =
      let (w, applied, e') = match-transform lib t m v true e in
      rw (applied, negated)
        (chained-Reports (own_link lib t v w) m v (negated lib m w) (negated-total lib m w e'))
  negated-total lib _ v e = (_, refl)

  first_failed-total :
      (lib : Libraries) (ms : Matchers) (v : Value)
      → match_all lib ms v ≡ ok false
      → Reports (first_failed lib ms v)
  first_failed-total lib empty v e = absurd (match_all-empty lib v e)
  first_failed-total lib (more m ms) v e = elim (match_all-more lib m ms v e) [
    | inl failed ↦ rw (failed, first_failed) (failure-total lib m v failed)
    | inr (passed, later) ↦ rw (passed, first_failed) (first_failed-total lib ms v later)
  ]

  first_successful-total :
      (lib : Libraries) (ms : Matchers) (v : Value)
      → match_any lib ms v ≡ ok true
      → Reports (first_successful lib ms v)
  first_successful-total lib empty v e = absurd (match_any-empty lib v e)
  first_successful-total lib (more m ms) v e = elim (match_any-more lib m ms v e) [
    | inl passed ↦ rw (passed, first_successful) (negated-total lib m v passed)
    | inr (failed, later) ↦ rw (failed, first_successful) (first_successful-total lib ms v later)
  ]

-- Whatever matcher a gossfile gives: behind a Match that fails without an error, FailureResult
-- returns a result, and behind one that succeeds, NegatedFailureResult does. No call goes through
-- `firstFailedMatcher` or `firstSuccessfulMatcher` while it is nil.
pub report-total :
    (lib : Libraries) (m : Matcher) (v : Value)
    → (match lib m v ≡ ok false → (x : MatcherResult) × (failure lib m v ≡ ok x))
      × (match lib m v ≡ ok true → (x : MatcherResult) × (negated lib m v ≡ ok x))
report-total lib m v = (failure-total lib m v, negated-total lib m v)

-- After an error this is no longer so. If a transform fails in front of a conjunction, Match gives an
-- error and FailureResult, which ValidateGomegaValue calls all the same, panics.
pub failure_after_transform_error :
    (lib : Libraries) (t : Transformer) (ms : Matchers) (v : Value) (e : Error)
    → transform lib t v ≡ err e
    → (match lib (with_safe_transform t (conjunction ms)) v ≡ err (transform_failed e))
      × (failure lib (with_safe_transform t (conjunction ms)) v ≡ panic)
unfolding match failure fresh_failure
failure_after_transform_error lib t ms v e h = (rw h, rw (h, failure))

-- If the first matcher of a negated disjunction gives an error, the disjunction has no successful
-- matcher, and the report panics too.
pub failure_after_or_error :
    (lib : Libraries) (m : Matcher) (ms : Matchers) (v : Value) (e : Error)
    → match lib m v ≡ err e
    → (match lib (negation (disjunction (more m ms))) v ≡ err e)
      × (failure lib (negation (disjunction (more m ms))) v ≡ panic)
unfolding match failure
failure_after_or_error lib m ms v e h = (rw h, rw (h, failure))
