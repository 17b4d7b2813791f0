-- ===== src/System/Dns/Setup/Answers.antt =====
-- What the getters of a DNS object answer.
use goss.Base.{
  ℕ, zero, suc, ◌+◌, ◌≤◌, ◌<◌, String, ◌≡◌, refl, sym, ap, ◌∙◌, ◌⊎◌, inl, inr, true, false, Option,
  none, some, List, [], ◌∷◌, arith,
}
use goss.System.Dns.Setup.{
  DefDns, fresh_dns, Attempt, answered, attempt_panics, by_attempt, attempts, setup,
}
use goss.System.Dns.{LookupError, dns_error, other_error}
use goss.Errors.{Error, Result, ok, ok-injective}

module _ (sort : List String → List String) (attempt : ℕ → Attempt) where
  -- An attempt up to `n` that gave addresses.
  abbrev Found : ℕ → DefDns → Type 0
  Found n d =
      (i : ℕ) × (a : String) × (more : List String) × (i < n)
      × (attempt i ≡ answered (a ∷ more) none)
      × (d.addrs ≡ sort (a ∷ more))

  -- A name resolves only by an answer.
  abbrev pub Told : ℕ → DefDns → Option LookupError → Type 0
  Told n d e =
      ((d.resolvable ≡ true) × (e ≡ none) × (d.problem ≡ none) × Found n d)
      ⊎ ((d.resolvable ≡ false) × (d.addrs ≡ []))

  by_attempt-Told :
      (n i : ℕ) (d d' : DefDns) (a : Attempt) (e : Option LookupError)
      → (next : DefDns → Result (DefDns × Option LookupError)) → (attempt i ≡ a)
      → i < n
      → ((d1 : DefDns)
          → (d1.resolvable ≡ false)
          → (d1.addrs ≡ [])
          → next d1 ≡ ok (d', e)
          → Told n d' e)
      → by_attempt sort attempt d a next ≡ ok (d', e)
      → Told n d' e
  by_attempt-Told n i d d' attempt_panics e next q h ih r = absurd (cc r)
  by_attempt-Told n i d d' (answered addrs (some dns_error)) e next q h ih r =
      let s = ok-injective r in inr (ap (λ x. x.0.resolvable) (sym s), ap (λ x. x.0.addrs) (sym s))
  by_attempt-Told n i d d' (answered addrs (some (other_error x))) e next q h ih r =
      ih _ refl refl r
  by_attempt-Told n i d d' (answered [] none) e next q h ih r = ih _ refl refl r
  by_attempt-Told n i d d' (answered (a ∷ more) none) e next q h ih r =
      let s = ok-injective r in
      inl (
        ap (λ x. x.0.resolvable) (sym s),
        ap (λ x. x.1) (sym s),
        ap (λ x. x.0.problem) (sym s),
        (i, a, more, h, q, ap (λ x. x.0.addrs) (sym s)),
      )

  attempts-Told :
      (n left i : ℕ) (d d' : DefDns) (e : Option LookupError)
      → i + left ≤ n
      → (d.resolvable ≡ false)
      → (d.addrs ≡ [])
      → attempts sort attempt left i d ≡ ok (d', e)
      → Told n d' e
  unfolding attempts
  attempts-Told n zero i d d' e h unresolved empty r =
      let s = ok-injective r in
      inr (ap (λ x. x.0.resolvable) (sym s) ∙ unresolved, ap (λ x. x.0.addrs) (sym s) ∙ empty)
  attempts-Told n (suc left) i d d' e h unresolved empty r =
      by_attempt-Told n i d d' (attempt i) e (attempts sort attempt left (suc i)) refl
        (omega (arith, h))
        (λ d1 u m r1. attempts-Told n left (suc i) d1 d' e (omega (arith, h)) u m r1) r

  -- A name resolves only if one of three attempts gave at least one address without an error, and the
  -- addresses are then that attempt's, sorted, and no error is returned or kept; otherwise it has no
  -- addresses.
  pub setup-answers :
      (d : DefDns) (e : Option LookupError)
      → setup sort attempt fresh_dns ≡ ok (d, e)
      → ((d.resolvable ≡ true)
          × (e ≡ none)
          × (d.problem ≡ none)
          × ((i : ℕ) × (a : String) × (more : List String) × (i < 3)
              × (attempt i ≡ answered (a ∷ more) none)
              × (d.addrs ≡ sort (a ∷ more))))
        ⊎ ((d.resolvable ≡ false) × (d.addrs ≡ []))
  unfolding setup
  setup-answers d e r =
      attempts-Told 3 3 0 (record fresh_dns { loaded = true }) d e (omega arith) refl refl r

  -- A getter that is called second may give an error that the first one did not: behind an attempt
  -- that fails with an error, one that says that there is no such host ends setup without an error,
  -- but the older error is kept, and the next call of setup returns it.
  pub setup-stale :
      (x : Error) (ts us : List String)
      → (attempt 0 ≡ answered ts (some (other_error x)))
      → (attempt 1 ≡ answered us (some dns_error))
      → (d : DefDns) × (setup sort attempt fresh_dns ≡ ok (d, none))
        × (setup sort attempt d ≡ ok (d, some (other_error x)))
  unfolding setup attempts
  setup-stale x ts us first second = (
    record { loaded = true; resolvable = false; addrs = []; problem = some (other_error x) },
    rw first (rw second refl),
    refl,
  )
