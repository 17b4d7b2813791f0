-- ===== src/Schedule/Cycles/Refuses.antt =====
-- A reference that a search ends at with an error lies on a cycle.
use goss.Base.Maps.{lookup-insert, insert, Dict, lookup}
use goss.Schedule.Cycles.{
  Walk-cases, finish, Walk, Mark, Mark-cases, visit_all, visit_ref, visiting, visited, walked,
  cycle_at,
}
use goss.Base.{
  ℕ, zero, suc, String, ◌≡◌, refl, inl, inr, some, List, [], ◌∷◌, arith, ◌==◌, eq_iff, Bool-cases,
  In,
}
use goss.Schedule.Cycles.Accepts.{Needs}

module _ (deps_of : String → List String) where
  -- A chain of one dependency or more, from `a` down to `b`.
  pub data Chain (a : String) : String → Type 0 where
    last : {b : String} → Needs deps_of b a → Chain a b
    further : {b c : String} → Chain a b → Needs deps_of c b → Chain a c

  -- Every reference with an open visit leads to the one that is to be visited.
  abbrev Leads : Dict Mark → String → Type 0
  Leads marks ref = (r : String) → (lookup r marks ≡ some visiting) → Chain r ref

  -- A visit without an error leaves no new visit open.
  abbrev Shuts : Dict Mark → Dict Mark → Type 0
  Shuts marks marks' =
      (r : String) → (lookup r marks' ≡ some visiting) → lookup r marks ≡ some visiting

  abbrev Finds : (Dict Mark → String → Walk) → Type 0
  Finds visit =
      (marks : Dict Mark) (ref : String)
      → Leads marks ref
      → ((marks' : Dict Mark) → visit marks ref ≡ walked marks' → Shuts marks marks')
        × ((c : String) → visit marks ref ≡ cycle_at c → Chain c c)

  nothing : (marks marks' : Dict Mark) → walked marks ≡ walked marks' → Shuts marks marks'
  nothing marks marks' e r k = let q : marks ≡ marks' = cc in rw q k

  visit_all-Finds :
      (visit : Dict Mark → String → Walk)
      → Finds visit
      → (deps : List String) (marks : Dict Mark) → ((d : String) → In d deps → Leads marks d)
      → ((marks' : Dict Mark) → visit_all visit deps marks ≡ walked marks' → Shuts marks marks')
        × ((c : String) → visit_all visit deps marks ≡ cycle_at c → Chain c c)
  visit_all-Finds visit f [] marks h = (nothing marks, λ c e. absurd (cc))
  visit_all-Finds visit f (dep ∷ deps) marks h = elim (Walk-cases (visit marks dep)) [
    | inl (m, one) ↦
        let shut = (f marks dep (h dep (inl refl))).0 m one in
        let rest = visit_all-Finds visit f deps m (λ d here r k. h d (inr here) r (shut r k)) in
        (
          (λ m' e r k. shut r (rest.0 m' (rw (one, visit_all) at e) r k)),
          λ c e. rest.1 c (rw (one, visit_all) at e),
        )
    | inr (inl (c', one)) ↦
        let found = (f marks dep (h dep (inl refl))).1 c' one in
        (
          (λ m e. absurd (cc (rw (one, visit_all) at e))),
          λ c e. let q : c' ≡ c = cc (rw (one, visit_all) at e) in rw (← q) found,
        )
    | inr (inr one) ↦ (
      (λ m e. absurd (cc (rw (one, visit_all) at e))),
      λ c e. absurd (cc (rw (one, visit_all) at e)),
    )
  ]

  start-Leads :
      (marks : Dict Mark) (ref : String)
      → Leads marks ref
      → (d : String) → In d (deps_of ref)
      → Leads (insert ref visiting marks) d
  start-Leads marks ref h d here r k = elim (Bool-cases (ref == r)) [
    | inl same ↦ rw (← (eq_iff ref r).0 same) (last here)
    | inr other ↦ further (h r (ground (arith, lookup-insert ref r visiting marks, other, k))) here
  ]

  end-Shuts :
      (marks m : Dict Mark) (ref : String)
      → Shuts (insert ref visiting marks) m
      → Shuts marks (insert ref visited m)
  end-Shuts marks m ref h r k =
      let inside : lookup r m ≡ some visiting =
        ground (arith, lookup-insert ref r visited m, eq_iff ref r, k) in
      let before = h r inside in
      ground (
        arith,
        lookup-insert ref r visiting marks,
        lookup-insert ref r visited m,
        eq_iff ref r,
        k,
        before,
      )

  fresh-Finds :
      (visit : Dict Mark → String → Walk)
      → Finds visit
      → (marks : Dict Mark) (ref : String) → Leads marks ref
      → let w = finish ref (visit_all visit (deps_of ref) (insert ref visiting marks)) in
        ((marks' : Dict Mark) → w ≡ walked marks' → Shuts marks marks')
        × ((c : String) → w ≡ cycle_at c → Chain c c)
  fresh-Finds visit f marks ref h =
      let start = insert ref visiting marks in
      let inner = visit_all-Finds visit f (deps_of ref) start (start-Leads marks ref h) in
      elim (Walk-cases (visit_all visit (deps_of ref) start)) [
        | inl (m, all) ↦ (
          (λ m' e.
              let q : insert ref visited m ≡ m' = cc (rw (all, finish) at e) in
              rw (← q) (end-Shuts marks m ref (inner.0 m all))),
          λ c e. absurd (cc (rw (all, finish) at e)),
        )
        | inr (inl (c', all)) ↦ (
          (λ m e. absurd (cc (rw (all, finish) at e))),
          λ c e. let q : c' ≡ c = cc (rw (all, finish) at e) in rw (← q) (inner.1 c' all),
        )
        | inr (inr all) ↦ (
          (λ m e. absurd (cc (rw (all, finish) at e))),
          λ c e. absurd (cc (rw (all, finish) at e)),
        )
      ]

  visit_ref-Finds : (fuel : ℕ) → Finds (visit_ref deps_of fuel)
  unfolding visit_ref
  visit_ref-Finds zero marks ref h = ((λ m e. absurd (cc)), λ c e. absurd (cc))
  visit_ref-Finds (suc fuel) marks ref h = elim (Mark-cases (lookup ref marks)) [
    | inl new ↦
        let found = fresh-Finds (visit_ref deps_of fuel) (visit_ref-Finds fuel) marks ref h in
        ((λ m e. found.0 m (rw (new, visit_ref) at e)), λ c e. found.1 c (rw (new, visit_ref) at e))
    | inr (inl open_yet) ↦ (
      (λ m e. absurd (cc (rw (open_yet, visit_ref) at e))),
      λ c e. let q : ref ≡ c = cc (rw (open_yet, visit_ref) at e) in rw (← q) (h ref open_yet),
    )
    | inr (inr done) ↦ (
      (λ m e. nothing marks m (rw (done, visit_ref) at e)),
      λ c e. absurd (cc (rw (done, visit_ref) at e)),
    )
  ]

  pub visit_all-Chain :
      (fuel : ℕ) (roots : List String) (c : String)
      → visit_all (visit_ref deps_of fuel) roots [] ≡ cycle_at c
      → Chain c c
  unfolding lookup
  visit_all-Chain fuel roots c e =
      (visit_all-Finds (visit_ref deps_of fuel) (visit_ref-Finds fuel) roots []
          (λ d here r k. absurd (cc))).1
        c e
