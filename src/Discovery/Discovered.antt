-- ===== src/Discovery/Discovered.antt =====
-- What the discovery phase hands to the templates.
use goss.Base.{
  ◌≤◌, String, ◌≡◌, refl, sym, ap, ◌∙◌, ◌≢◌, ◌↔◌, ◌⊎◌, inl, inr, Bool, true, false, none, some,
  List, [], ◌∷◌, map, arith, ◌==◌, eq_iff, map-In, In,
}
use goss.Discovery.Entries.{named, entries_named, entries-decides}
use goss.Discovery.{
  collect, no_fail, validate_entries, validate_discovery, DiscoveryEntry, entry_of, entries,
}
use goss.Config.{Sections, resources_of}
use goss.Resource.{register, Resource}
use goss.Errors.{ok, >>=-eq-ok, ok-injective}
use goss.TestResult.{TestResult, Outcome, fail, success, skip, unknown}
use goss.Base.Maps.{lookup, insert, Dict, lookup-insert}

-- A result that is no failure is passed over.
Fail-cases :
    (o : Outcome)
    → (o ≡ fail)
      ⊎ ((o ≢ fail)
          × ((rs : List TestResult) (r : TestResult)
              → r.result ≡ o
              → no_fail (r ∷ rs) ≡ no_fail rs))
unfolding no_fail
Fail-cases fail = inl refl
Fail-cases success = inr (λ e. absurd (cc e), λ rs r e. rw (e, no_fail) refl)
Fail-cases skip = inr (λ e. absurd (cc e), λ rs r e. rw (e, no_fail) refl)
Fail-cases unknown = inr (λ e. absurd (cc e), λ rs r e. rw (e, no_fail) refl)

-- The answer for a register: no result of its test is a failure.
no_fail-decides :
    (results : List TestResult)
    → (no_fail results ≡ false) ↔ (t : TestResult) × In t results × (t.result ≡ fail)
unfolding no_fail
no_fail-decides [] = (λ e. absurd (cc e), λ (t, h, e). absurd h)
no_fail-decides (r ∷ results) = elim (Fail-cases r.result) [
  | inl e ↦ (λ h. (r, inl refl, e), λ h. rw (e, no_fail) refl)
  | inr (ne, go) ↦ (
    (λ h.
        let (t, there, e) = (no_fail-decides results).0 (sym (go results r refl) ∙ h) in
        (t, inr there, e)),
    λ (t, there, e). elim there [
      | inl q ↦ absurd (ne (ap (λ x. x.result) q ∙ e))
      | inr h ↦ go results r refl ∙ (no_fail-decides results).1 (t, h, e)
    ],
  )
]

module _ (run : Resource → List TestResult) where
  collect-other :
      (es : List DiscoveryEntry) (m : Dict Bool) (k : String)
      → (entries_named k es ≡ 0)
      → lookup k (collect run m es) ≡ lookup k m
  unfolding collect
  collect-other [] m k h = refl
  collect-other (e ∷ es) m k h =
      let rest =
        collect-other es (insert e.register (no_fail (run e.resource)) m) k (ground (arith, h)) in
      ground (arith, rest, lookup-insert e.register k (no_fail (run e.resource)) m, h)

  lookup-collect :
      (es : List DiscoveryEntry) (m : Dict Bool) (e : DiscoveryEntry)
      → entries_named e.register es ≤ 1
      → In e es
      → lookup e.register (collect run m es) ≡ some (no_fail (run e.resource))
  unfolding collect
  lookup-collect [] m e once h = absurd h
  lookup-collect (x ∷ es) m e once (inr h) =
      lookup-collect es (insert x.register (no_fail (run x.resource)) m) e (ground (arith, once)) h
  lookup-collect (x ∷ es) m e once (inl q) =
      let same : x.register == e.register ≡ true =
        (eq_iff x.register e.register).1 (ap (λ y. y.register) q) in
      let rest =
        collect-other es (insert x.register (no_fail (run x.resource)) m) e.register
          (ground (arith, once, same)) in
      rest
      ∙ ground (arith, lookup-insert x.register e.register (no_fail (run x.resource)) m, same)
      ∙ ap (λ y. some (no_fail (run y.resource))) q

  module _ (order : List DiscoveryEntry → List DiscoveryEntry)
      (order-In : (es : List DiscoveryEntry) (e : DiscoveryEntry) → In e (order es) ↔ In e es)
      (order-count : (k : String) (es : List DiscoveryEntry)
        → entries_named k (order es) ≡ entries_named k es) where
    entries_named-map :
        (k : String) (rs : List Resource) → entries_named k (map entry_of rs) ≡ named k rs
    entries_named-map k [] = refl
    entries_named-map k (r ∷ rs) = ground (arith, entries_named-map k rs)

    validated-collect :
        (es : List DiscoveryEntry) (discovered : Dict Bool)
        → validate_entries run order es ≡ ok discovered
        → collect run [] (order es) ≡ discovered
    validated-collect [] discovered e = absurd (cc e)
    validated-collect (x ∷ es) discovered e = ok-injective e

    -- If the discovery phase succeeds, the register of every discovery test is set, to false exactly
    -- if some result of that very test is a failure, in whatever order the workers finish; and a name
    -- that is no register of a test is not set.
    pub validate_discovery-lookup :
        (c : Sections) (discovered : Dict Bool)
        → validate_discovery run order c ≡ ok discovered
        → ((r : Resource)
            → In r (resources_of c)
            → (answer : Bool) × (lookup (register r) discovered ≡ some answer)
              × ((answer ≡ false) ↔ (t : TestResult) × In t (run r) × (t.result ≡ fail)))
          × ((k : String) → (named k (resources_of c) ≡ 0) → lookup k discovered ≡ none)
    unfolding validate_discovery lookup
    validate_discovery-lookup c discovered e =
        let (es, got, e') = >>=-eq-ok (entries c) _ e in
        elim (entries-decides c) [
          | inl (accepted, names, once) ↦
              let q : es ≡ map entry_of (resources_of c) = ok-injective (sym got ∙ accepted) in
              let d = validated-collect es discovered e' in
              let count = λ (k : String).
                order-count k es ∙ ap (entries_named k) q ∙ entries_named-map k (resources_of c) in
              (
                (λ r h. (
                  no_fail (run r),
                  rw (← d) (
                      lookup-collect (order es) [] (entry_of r)
                        (rw (count (register r)) (once (register r)))
                        ((order-In es (entry_of r)).1
                          (rw q (map-In entry_of (resources_of c) r h)))),
                  no_fail-decides (run r),
                )),
                λ k h. rw (← d) (collect-other (order es) [] k (count k ∙ h)),
              )
          | inr (inl (r, here, unnamed, refused)) ↦ absurd (cc)
          | inr (inr (k, twice, refused)) ↦ absurd (cc)
        ]
