-- ===== src/Schedule/Invariant.antt =====
-- What holds between two steps of validateWithDependencies.
use goss.Base.{
  ℕ, String, ◌≡◌, refl, ◌≢◌, ◌↔◌, inl, inr, false, none, some, List, [], ◌∷◌, arith, ◌==◌, eq_iff,
  Bool-cases, Option-cases, All, In, All-append,
}
use goss.Schedule.{
  skip_sent, scan, place, Sent, Gate, each, Item, visit, blocked, clear, skip_for, Round,
}
use goss.Schedule.Trace.{told_or, outcome_in, told, Decided, gate-Decided, Grounded}
use goss.Base.Maps.{lookup-insert, insert, lookup, Dict}
use goss.TestResult.{Outcome, success, skip}

-- The map of outcomes and the sends tell the same.
abbrev pub Agree : Dict Outcome → List Sent → Type 0
Agree done trace = (d : String) → lookup d done ≡ outcome_in d trace

abbrev pub Ready : Dict Outcome → Item → Type 0
Ready done item =
    All (λ d. lookup d done ≡ some success) item.deps × (lookup item.ref done ≢ some success)

abbrev pub Unready : Dict Outcome → Item → Type 0
Unready done item = (d : String) × In d item.deps × (lookup d done ≢ some success)

abbrev pub Visited : Round → Type 0
Visited r =
    Agree r.done r.trace
    × Grounded r.trace
    × All (Ready r.done) r.runnable
    × All (Unready r.done) r.waiting

-- A send that completes its item, recorded in both.
pub Agree-insert :
    (done : Dict Outcome) (trace : List Sent) (s : Sent) (o : Outcome)
    → (told s.cause s.results ≡ some o)
    → Agree done trace
    → Agree (insert s.item.ref o done) (s ∷ trace)
Agree-insert done trace s o h a d = elim (Bool-cases (s.item.ref == d)) [
  | inl e ↦ rw (lookup-insert s.item.ref d o done) (rw (e, told_or) (rw (h, told_or) refl))
  | inr e ↦ rw (lookup-insert s.item.ref d o done) (rw (e, told_or) (a d))
]

pub lookup-skipped :
    (done : Dict Outcome) (k d : String)
    → (lookup k done ≡ none)
    → (lookup d done ≡ some success) ↔ (lookup d (insert k skip done) ≡ some success)
lookup-skipped done k d h = ground (arith, lookup-insert k d skip done, eq_iff k d)

pub All-map {κ λ'} :
    {A : Type 0} {P : A → Type κ} {Q : A → Type λ'}
    → ((a : A) → P a → Q a)
    → (xs : List A) → All P xs
    → All Q xs
All-map f [] h = tt
All-map f (x ∷ xs) h = (f x h.0, All-map f xs h.1)

module _ (done : Dict Outcome) (k : String) (h : lookup k done ≡ none) where
  Ready-skipped : (item : Item) → Ready done item → Ready (insert k skip done) item
  Ready-skipped item r = (
    All-map (λ d. (lookup-skipped done k d h).0) item.deps r.0,
    λ e. r.1 ((lookup-skipped done k item.ref h).1 e),
  )

  Unready-skipped : (item : Item) → Unready done item → Unready (insert k skip done) item
  Unready-skipped item r = (r.0, r.1, λ e. r.2 ((lookup-skipped done k r.0 h).1 e))

module _ (now : ℕ) where
  place-Visited :
      (r : Round) (item : Item) (g : Gate)
      → (lookup item.ref r.done ≡ none)
      → Decided r.done none false item.deps g
      → Visited r
      → Visited (place now r item g)
  place-Visited r item clear h d v =
      (v.0, v.1, All-append (Ready r.done) r.runnable _ v.2 ((d.2, λ e. cc), tt), v.3)
  place-Visited r item blocked h (inl d) v = cc
  place-Visited r item blocked h (inr d) v =
      (v.0, v.1, v.2, All-append (Unready r.done) r.waiting _ v.3 (d, tt))
  place-Visited r item (skip_for x) h (inl d) v = cc
  place-Visited r item (skip_for x) h (inr d) v = (
    Agree-insert r.done r.trace (skip_sent now item x) skip refl v.0,
    ((d.0, rw (← v.0 x) d.1), v.1),
    All-map (Ready-skipped r.done item.ref h) r.runnable v.2,
    All-map (Unready-skipped r.done item.ref h) r.waiting v.3,
  )

  visit-Visited : (r : Round) (item : Item) → Visited r → Visited (visit now r item)
  unfolding visit
  visit-Visited r item v = elim (Option-cases (lookup item.ref r.done)) [
    | inl h ↦ rw (h, visit) (place-Visited r item _ h (gate-Decided r.done item) v)
    | inr (o, h) ↦ rw (h, visit) v
  ]

  visits-Visited : (items : List Item) (r : Round) → Visited r → Visited (each (visit now) r items)
  visits-Visited [] r v = v
  visits-Visited (i ∷ items) r v = visits-Visited items _ (visit-Visited r i v)

  pub scan-Visited :
      (r : Round) (pending : List Item)
      → Agree r.done r.trace
      → Grounded r.trace
      → Visited (scan now r pending)
  unfolding scan
  scan-Visited r pending a g = visits-Visited pending _ (a, g, tt, tt)
