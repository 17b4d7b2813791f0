-- ===== src/Schedule/Cycles/Accepts.antt =====
-- What a search without an error proves: no reference reaches itself.
use goss.Schedule.Cycles.{
  finish, Walk-cases, walked, visit_all, Mark-cases, Walk, visit_ref, Mark, visiting, visited,
}
use goss.Base.{
  ℕ, zero, suc, String, ◌≡◌, inl, inr, none, some, List, [], ◌∷◌, arith, ◌==◌, eq_iff, Bool-cases,
  In,
}
use goss.Base.Maps.{lookup-insert, insert, lookup, Dict}
use mathlib.Core.WellFounded.{Acc}

module _ (deps_of : String → List String) where
  -- `d` is a dependency of `ref`.
  abbrev pub Needs : String → String → Type 0
  Needs d ref = In d (deps_of ref)

  -- Behind a visited reference no chain of dependencies goes on forever.
  abbrev Ends : Dict Mark → Type 0
  Ends marks = (ref : String) → (lookup ref marks ≡ some visited) → Acc Needs ref

  abbrev Keeps : Dict Mark → Dict Mark → Type 0
  Keeps marks marks' =
      (ref : String) → (lookup ref marks ≡ some visited) → lookup ref marks' ≡ some visited

  insert-Keeps :
      (marks : Dict Mark) (ref : String)
      → (lookup ref marks ≡ none)
      → Keeps marks (insert ref visiting marks)
  insert-Keeps marks ref h d e =
      ground (arith, lookup-insert ref d visiting marks, eq_iff ref d, h, e)

  -- What a visit without an error leaves.
  abbrev Leaves : Dict Mark → Dict Mark → Type 0
  Leaves marks marks' = Ends marks' × Keeps marks marks'

  abbrev Visits : (Dict Mark → String → Walk) → Type 0
  Visits visit =
      (marks : Dict Mark) (ref : String) (marks' : Dict Mark)
      → Ends marks
      → visit marks ref ≡ walked marks'
      → Leaves marks marks' × (lookup ref marks' ≡ some visited)

  visit_all-Leaves :
      (visit : Dict Mark → String → Walk)
      → Visits visit
      → (deps : List String) (marks marks' : Dict Mark) → Ends marks
      → visit_all visit deps marks ≡ walked marks'
      → Leaves marks marks' × ((d : String) → In d deps → lookup d marks' ≡ some visited)
  visit_all-Leaves visit v [] marks marks' h e =
      let q : marks ≡ marks' = cc in ((rw (← q) h, λ r k. rw (← q) k), λ d m. absurd m)
  visit_all-Leaves visit v (dep ∷ deps) marks marks' h e = elim (Walk-cases (visit marks dep)) [
    | inl (m, one) ↦
        let (left, at_dep) = v marks dep m h one in
        let (rest, all) =
          visit_all-Leaves visit v deps m marks' left.0 (rw (one, visit_all) at e) in
        (
          (rest.0, λ r k. rest.1 r (left.1 r k)),
          λ d here. elim here [ inl q ↦ rw (← q) (rest.1 dep at_dep) | inr there ↦ all d there ],
        )
    | inr (inl (r, one)) ↦ absurd (cc (rw (one, visit_all) at e))
    | inr (inr one) ↦ absurd (cc (rw (one, visit_all) at e))
  ]

  insert-visited-Ends :
      (marks : Dict Mark) (ref : String)
      → Ends marks
      → Acc Needs ref
      → Ends (insert ref visited marks)
  insert-visited-Ends marks ref h a d e = elim (Bool-cases (ref == d)) [
    | inl same ↦ rw (← (eq_iff ref d).0 same) a
    | inr other ↦ h d (ground (arith, lookup-insert ref d visited marks, other, e))
  ]

  insert-visiting-Ends :
      (marks : Dict Mark) (ref : String) → Ends marks → Ends (insert ref visiting marks)
  insert-visiting-Ends marks ref h d e =
      h d (ground (arith, lookup-insert ref d visiting marks, eq_iff ref d, e))

  insert-visited-Keeps :
      (marks : Dict Mark) (ref : String)
      → Keeps marks (insert ref visited marks)
        × (lookup ref (insert ref visited marks) ≡ some visited)
  insert-visited-Keeps marks ref = (
    λ d e. ground (arith, lookup-insert ref d visited marks, eq_iff ref d, e),
    ground (arith, lookup-insert ref ref visited marks, eq_iff ref ref),
  )

  -- The visit of a reference without a mark, from what the visits of its dependencies do.
  fresh-Visits :
      (visit : Dict Mark → String → Walk)
      → Visits visit
      → (marks : Dict Mark) (ref : String) (marks' : Dict Mark) → Ends marks
      → (lookup ref marks ≡ none)
      → finish ref (visit_all visit (deps_of ref) (insert ref visiting marks)) ≡ walked marks'
      → Leaves marks marks' × (lookup ref marks' ≡ some visited)
  fresh-Visits visit v marks ref marks' h new e =
      elim (Walk-cases (visit_all visit (deps_of ref) (insert ref visiting marks))) [
        | inl (m, all) ↦
            let q : insert ref visited m ≡ marks' = cc (rw (all, finish) at e) in
            let (left, deps) =
              visit_all-Leaves visit v (deps_of ref) (insert ref visiting marks) m
                (insert-visiting-Ends marks ref h) all in
            let a : Acc Needs ref = Acc.intro ref (λ d here. left.0 d (deps d here)) in
            let (kept, at_ref) = insert-visited-Keeps m ref in
            rw (← q) (
              (
                insert-visited-Ends m ref left.0 a,
                λ d k. kept d (left.1 d (insert-Keeps marks ref new d k)),
              ),
              at_ref,
            )
        | inr (inl (r, one)) ↦ absurd (cc (rw (one, finish) at e))
        | inr (inr one) ↦ absurd (cc (rw (one, finish) at e))
      ]

  visit_ref-Visits : (fuel : ℕ) → Visits (visit_ref deps_of fuel)
  unfolding visit_ref
  visit_ref-Visits zero marks ref marks' h e = cc
  visit_ref-Visits (suc fuel) marks ref marks' h e = elim (Mark-cases (lookup ref marks)) [
    | inl new ↦
        fresh-Visits (visit_ref deps_of fuel) (visit_ref-Visits fuel) marks ref marks' h new
          (rw (new, visit_ref) at e)
    | inr (inl open_yet) ↦ absurd (cc (rw (open_yet, visit_ref) at e))
    | inr (inr done) ↦
        let q : marks ≡ marks' = cc (rw (done, visit_ref) at e) in
        ((rw (← q) h, λ r k. rw (← q) k), rw (← q) done)
  ]

  -- A search from no marks that ends without an error: every root ends.
  pub visit_all-Acc :
      (fuel : ℕ) (roots : List String) (marks : Dict Mark)
      → visit_all (visit_ref deps_of fuel) roots [] ≡ walked marks
      → (ref : String) → In ref roots
      → Acc Needs ref
  unfolding lookup
  visit_all-Acc fuel roots marks e ref here =
      let (left, all) =
        visit_all-Leaves (visit_ref deps_of fuel) (visit_ref-Visits fuel) roots [] marks
          (λ r k. absurd (cc)) e in
      left.0 ref (all ref here)
