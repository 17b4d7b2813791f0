-- ===== src/Matcher/Connectives.antt =====
-- The laws of `not`, `and` and `or`, errors included.
use goss.Matcher.{
  match_all, match_any, conjunction, disjunction, empty, negation, more, match, Matchers,
}
use goss.Value.{Value}
use goss.Base.{◌≡◌, refl, Bool, true, false, not, if◌then◌else◌}
use goss.Errors.{Result, ok, err, panic, ◌>>=◌}
use goss.Libraries.{Libraries}

abbrev pub negate_all : Matchers → Matchers
negate_all empty = empty
negate_all (more m ms) = more (negation m) (negate_all ms)

-- An answer and its rest, by the three ways in which the first matcher ends.
not-or-step :
    (r s t : Result Bool)
    → (s >>= λ b. ok (not b)) ≡ t
    → ((r >>= λ b. if b then ok true else s) >>= λ b. ok (not b))
      ≡ ((r >>= λ b. ok (not b)) >>= λ b. if b then t else ok false)
not-or-step (ok true) s t e = refl
not-or-step (ok false) s t e = e
not-or-step (err x) s t e = refl
not-or-step panic s t e = refl

not-and-step :
    (r s t : Result Bool)
    → (s >>= λ b. ok (not b)) ≡ t
    → ((r >>= λ b. if b then s else ok false) >>= λ b. ok (not b))
      ≡ ((r >>= λ b. ok (not b)) >>= λ b. if b then ok true else t)
not-and-step (ok true) s t e = e
not-and-step (ok false) s t e = refl
not-and-step (err x) s t e = refl
not-and-step panic s t e = refl

-- De Morgan's laws hold of Match on every value, errors and panics included: `not: {or: ms}` answers
-- as `and` of the negated matchers, and `not: {and: ms}` as `or` of them.
pub de_morgan :
    (lib : Libraries) (ms : Matchers) (v : Value)
    → (match lib (negation (disjunction ms)) v ≡ match lib (conjunction (negate_all ms)) v)
      × (match lib (negation (conjunction ms)) v ≡ match lib (disjunction (negate_all ms)) v)
unfolding match
de_morgan lib empty v = (refl, refl)
de_morgan lib (more m ms) v =
    let (any, all) = de_morgan lib ms v in
    (
      not-or-step (match lib m v) (match_any lib ms v) (match_all lib (negate_all ms) v) any,
      not-and-step (match lib m v) (match_all lib ms v) (match_any lib (negate_all ms) v) all,
    )
