-- ===== src/Schedule/Cycles/Fuel.antt =====
-- The fuel of the search is enough: each visit that goes deeper marks one more reference.
use goss.Base.{
  ℕ, zero, suc, ◌≤◌, ◌<◌, String, ◌≡◌, refl, ◌≢◌, inl, inr, Bool, true, false, Option, none, some,
  List, [], ◌∷◌, arith, eq_iff, Bool-cases, length, count_of, In,
}
use goss.Base.Maps.{lookup-insert, insert, lookup, Dict}
use goss.Schedule.Cycles.{
  Walk-cases, finish, Walk, Mark, Mark-cases, visit_ref, visit_all, visiting, visited, walked,
  exhausted,
}

abbrev pub is_none {ℓ} : {A : Type ℓ} → Option A → Bool
is_none none = true
is_none (some a) = false

-- A narrower test counts no more, and less if some element shows the difference.
count_of-le :
    (p q : String → Bool) (us : List String)
    → ((u : String) → p u ≡ true → q u ≡ true)
    → count_of p us ≤ count_of q us
count_of-le p q [] h = omega arith
count_of-le p q (u ∷ us) h = elim (Bool-cases (p u)) [
  | inl yes_p ↦ ground (arith, yes_p, h u yes_p, count_of-le p q us h)
  | inr no_p ↦ ground (arith, no_p, count_of-le p q us h)
]

count_of-lt :
    (p q : String → Bool) (us : List String) (u : String)
    → ((v : String) → p v ≡ true → q v ≡ true)
    → In u us
    → (p u ≡ false)
    → (q u ≡ true)
    → count_of p us < count_of q us
count_of-lt p q [] u h here pu qu = absurd here
count_of-lt p q (v ∷ us) u h (inl e) pu qu =
    let pv : p v ≡ false = rw e pu in
    let qv : q v ≡ true = rw e qu in ground (arith, pv, qv, count_of-le p q us h)
count_of-lt p q (v ∷ us) u h (inr there) pu qu =
    let rest = count_of-lt p q us u h there pu qu in
    elim (Bool-cases (p v)) [
      | inl yes_p ↦ ground (arith, yes_p, h v yes_p, rest)
      | inr no_p ↦ ground (arith, no_p, rest)
    ]

module _ (deps_of : String → List String) (all_refs : List String)
    (closed : (ref d : String) → In d (deps_of ref) → In d all_refs) where
  abbrev unmarked : Dict Mark → ℕ
  unmarked marks = count_of (λ u. is_none (lookup u marks)) all_refs

  -- Marks are never taken away.
  abbrev Grows : Dict Mark → Dict Mark → Type 0
  Grows marks marks' =
      (u : String) → is_none (lookup u marks') ≡ true → is_none (lookup u marks) ≡ true

  abbrev Suffices : ℕ → (Dict Mark → String → Walk) → Type 0
  Suffices fuel visit =
      (marks : Dict Mark) (ref : String)
      → In ref all_refs
      → unmarked marks < fuel
      → (visit marks ref ≢ exhausted)
        × ((marks' : Dict Mark) → visit marks ref ≡ walked marks' → Grows marks marks')

  visit_all-Suffices :
      (fuel : ℕ) (visit : Dict Mark → String → Walk)
      → Suffices fuel visit
      → (deps : List String) (marks : Dict Mark) → ((d : String) → In d deps → In d all_refs)
      → unmarked marks < fuel
      → (visit_all visit deps marks ≢ exhausted)
        × ((marks' : Dict Mark) → visit_all visit deps marks ≡ walked marks' → Grows marks marks')
  visit_all-Suffices fuel visit f [] marks h lt =
      ((λ e. cc), λ m e u k. let q : marks ≡ m = cc in rw q k)
  visit_all-Suffices fuel visit f (dep ∷ deps) marks h lt =
      let now = f marks dep (h dep (inl refl)) lt in
      elim (Walk-cases (visit marks dep)) [
        | inl (m, one) ↦
            let grown = now.1 m one in
            let fewer =
              count_of-le (λ u. is_none (lookup u m)) (λ u. is_none (lookup u marks)) all_refs
                grown in
            let rest =
              visit_all-Suffices fuel visit f deps m (λ d here. h d (inr here))
                (omega (arith, fewer, lt)) in
            (
              (λ e. rest.0 (rw (one, visit_all) at e)),
              λ m' e u k. grown u (rest.1 m' (rw (one, visit_all) at e) u k),
            )
        | inr (inl (c, one)) ↦
            ((λ e. cc (rw (one, visit_all) at e)), λ m e. absurd (cc (rw (one, visit_all) at e)))
        | inr (inr one) ↦ absurd (now.0 one)
      ]

  insert-Grows :
      (marks : Dict Mark) (ref : String) (mark : Mark) → Grows marks (insert ref mark marks)
  insert-Grows marks ref mark u k = ground (arith, lookup-insert ref u mark marks, eq_iff ref u, k)

  insert-unmarked :
      (marks : Dict Mark) (ref : String)
      → In ref all_refs
      → (lookup ref marks ≡ none)
      → unmarked (insert ref visiting marks) < unmarked marks
  insert-unmarked marks ref here new =
      count_of-lt (λ u. is_none (lookup u (insert ref visiting marks)))
        (λ u. is_none (lookup u marks)) all_refs ref (insert-Grows marks ref visiting) here
        (ground (arith, lookup-insert ref ref visiting marks, eq_iff ref ref)) (rw new refl)

  fresh-Suffices :
      (fuel : ℕ) (visit : Dict Mark → String → Walk)
      → Suffices fuel visit
      → (marks : Dict Mark) (ref : String) → In ref all_refs
      → unmarked marks < suc fuel
      → (lookup ref marks ≡ none)
      → let w = finish ref (visit_all visit (deps_of ref) (insert ref visiting marks)) in
        (w ≢ exhausted) × ((marks' : Dict Mark) → w ≡ walked marks' → Grows marks marks')
  fresh-Suffices fuel visit f marks ref here lt new =
      let start = insert ref visiting marks in
      let fewer = insert-unmarked marks ref here new in
      let inner =
        visit_all-Suffices fuel visit f (deps_of ref) start (closed ref)
          (omega (arith, fewer, lt)) in
      elim (Walk-cases (visit_all visit (deps_of ref) start)) [
        | inl (m, all) ↦ (
          (λ e. cc (rw (all, finish) at e)),
          λ m' e u k.
              let q : insert ref visited m ≡ m' = cc (rw (all, finish) at e) in
              insert-Grows marks ref visiting u
                (inner.1 m all u (insert-Grows m ref visited u (rw q k))),
        )
        | inr (inl (c, all)) ↦
            ((λ e. cc (rw (all, finish) at e)), λ m e. absurd (cc (rw (all, finish) at e)))
        | inr (inr all) ↦ absurd (inner.0 all)
      ]

  visit_ref-Suffices : (fuel : ℕ) → Suffices fuel (visit_ref deps_of fuel)
  unfolding visit_ref
  visit_ref-Suffices zero marks ref here lt = absurd (omega (arith, lt))
  visit_ref-Suffices (suc fuel) marks ref here lt = elim (Mark-cases (lookup ref marks)) [
    | inl new ↦
        let found =
          fresh-Suffices fuel (visit_ref deps_of fuel) (visit_ref-Suffices fuel) marks ref here lt
            new in
        ((λ e. found.0 (rw (new, visit_ref) at e)), λ m e. found.1 m (rw (new, visit_ref) at e))
    | inr (inl open_yet) ↦ (
      (λ e. cc (rw (open_yet, visit_ref) at e)),
      λ m e. absurd (cc (rw (open_yet, visit_ref) at e)),
    )
    | inr (inr done) ↦ (
      (λ e. cc (rw (done, visit_ref) at e)),
      λ m e u k. let q : marks ≡ m = cc (rw (done, visit_ref) at e) in rw q k,
    )
  ]

  count_of-length : (p : String → Bool) (us : List String) → count_of p us ≤ length us
  count_of-length p [] = omega arith
  count_of-length p (u ∷ us) = ground (arith, count_of-length p us)

  pub visit_all-ne-exhausted :
      (roots : List String)
      → ((d : String) → In d roots → In d all_refs)
      → visit_all (visit_ref deps_of (suc (length all_refs))) roots [] ≢ exhausted
  visit_all-ne-exhausted roots h =
      (visit_all-Suffices (suc (length all_refs)) (visit_ref deps_of (suc (length all_refs)))
        (visit_ref-Suffices (suc (length all_refs))) roots [] h
        (omega (arith, count_of-length (λ u. is_none {A = Mark} (lookup u [])) all_refs))).0
