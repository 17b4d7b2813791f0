-- ===== src/Schedule/Trace.antt =====
-- What each send of the schedule rests on: the sends before it.
use goss.Base.{
  String, ◌≡◌, refl, ◌≢◌, ◌⊎◌, inl, inr, Bool, true, false, Option, none, some, List, [], ◌∷◌, ◌==◌,
  All, In,
}
use goss.Schedule.{
  Item, gate, scan_deps, unsatisfied, blocked, clear, skip_for, ran, status_of, skipped_for, Gate,
  decide_gate, Cause, Sent,
}
use goss.TestResult.{unknown, TestResult, Outcome, success, fail, skip}
use goss.Base.Maps.{lookup, Dict}

-- What a send says of its item's completion.
abbrev pub told : Cause → List TestResult → Option Outcome
told ran results = some (status_of results)
told (skipped_for d) results = some skip
told unsatisfied results = none

abbrev pub told_or : Bool → Option Outcome → Option Outcome → Option Outcome
told_or true (some o) rest = some o
told_or true none rest = rest
told_or false o rest = rest

-- The outcome of a reference, read from the sends alone, the newest first.
abbrev pub outcome_in : String → List Sent → Option Outcome
outcome_in d [] = none
outcome_in d (s ∷ ss) = told_or (s.item.ref == d) (told s.cause s.results) (outcome_in d ss)

abbrev pub Bad : Option Outcome → Type 0
Bad o = (o ≡ some fail) ⊎ (o ≡ some skip)

-- Why a send is right, given the sends before it: a resource runs behind its dependencies, all of
-- them passed; it is skipped for one of its dependencies, failed or skipped; and it is left
-- unsatisfied when one of them has not passed.
abbrev pub Grounds : Cause → List String → List Sent → Type 0
Grounds ran deps before = All (λ d. outcome_in d before ≡ some success) deps
Grounds (skipped_for d) deps before = In d deps × Bad (outcome_in d before)
Grounds unsatisfied deps before = (d : String) × In d deps × (outcome_in d before ≢ some success)

abbrev pub Grounded : List Sent → Type 0
Grounded [] = Unit
Grounded (s ∷ ss) = Grounds s.cause s.item.deps ss × Grounded ss

-- The same, of what the loop over the dependencies decides.
abbrev pub Decided : Dict Outcome → Option String → Bool → List String → Gate → Type 0
Decided done reason b deps clear =
    (reason ≡ none) × (b ≡ false) × All (λ d. lookup d done ≡ some success) deps
Decided done reason b deps (skip_for d) = (reason ≡ some d) ⊎ (In d deps × Bad (lookup d done))
Decided done reason b deps blocked =
    (b ≡ true) ⊎ ((d : String) × In d deps × (lookup d done ≢ some success))

decide_gate-Decided :
    (done : Dict Outcome) (reason : Option String) (b : Bool)
    → Decided done reason b [] (decide_gate reason b)
decide_gate-Decided done (some d) b = inl refl
decide_gate-Decided done none true = inl refl
decide_gate-Decided done none false = (refl, refl, tt)

module _ (done : Dict Outcome) (dep : String) where
  -- A dependency in front of what the loop decides on the others: one that passed,
  passed-Decided :
      (reason : Option String) (b : Bool) (deps : List String) (g : Gate)
      → (lookup dep done ≡ some success)
      → Decided done reason b deps g
      → Decided done reason b (dep ∷ deps) g
  passed-Decided reason b deps clear h d = (d.0, d.1, (h, d.2))
  passed-Decided reason b deps (skip_for x) h (inl e) = inl e
  passed-Decided reason b deps (skip_for x) h (inr e) = inr (inr e.0, e.1)
  passed-Decided reason b deps blocked h (inl e) = inl e
  passed-Decided reason b deps blocked h (inr e) = inr (e.0, inr e.1, e.2)

  -- one that failed or was skipped,
  failed-Decided :
      (reason : Option String) (b : Bool) (deps : List String) (g : Gate)
      → Bad (lookup dep done)
      → Decided done (some dep) b deps g
      → Decided done reason b (dep ∷ deps) g
  failed-Decided reason b deps clear h d = cc
  failed-Decided reason b deps (skip_for x) h (inl e) =
      let q : dep ≡ x = cc in inr (inl q, rw q at h)
  failed-Decided reason b deps (skip_for x) h (inr e) = inr (inr e.0, e.1)
  failed-Decided reason b deps blocked h (inl e) = inl e
  failed-Decided reason b deps blocked h (inr e) = inr (e.0, inr e.1, e.2)

  -- and one of an unknown outcome.
  unknown-Decided :
      (reason : Option String) (b : Bool) (deps : List String) (g : Gate)
      → (lookup dep done ≡ some unknown)
      → Decided done reason true deps g
      → Decided done reason b (dep ∷ deps) g
  unknown-Decided reason b deps clear h d = cc
  unknown-Decided reason b deps (skip_for x) h (inl e) = inl e
  unknown-Decided reason b deps (skip_for x) h (inr e) = inr (inr e.0, e.1)
  unknown-Decided reason b deps blocked h d = inr (dep, inl refl, λ e. cc)

Outcome-cases :
    (o : Option Outcome) → (o ≡ none) ⊎ ((o ≡ some success) ⊎ (Bad o ⊎ (o ≡ some unknown)))
Outcome-cases none = inl refl
Outcome-cases (some success) = inr (inl refl)
Outcome-cases (some fail) = inr (inr (inl (inl refl)))
Outcome-cases (some skip) = inr (inr (inl (inr refl)))
Outcome-cases (some unknown) = inr (inr (inr refl))

missing-Decided :
    (done : Dict Outcome) (dep : String) (deps : List String) (reason : Option String) (b : Bool)
    → (lookup dep done ≡ none)
    → Decided done reason b (dep ∷ deps) (decide_gate reason true)
missing-Decided done dep deps (some d) b h = inl refl
missing-Decided done dep deps none b h = inr (dep, inl refl, λ e. cc)

scan_deps-Decided :
    (done : Dict Outcome) (reason : Option String) (b : Bool) (deps : List String)
    → Decided done reason b deps (scan_deps done reason b deps)
unfolding scan_deps
scan_deps-Decided done reason b [] = decide_gate-Decided done reason b
scan_deps-Decided done reason b (dep ∷ deps) = elim (Outcome-cases (lookup dep done)) [
  | inl h ↦ rw (h, scan_deps) (missing-Decided done dep deps reason b h)
  | inr (inl h) ↦
      rw (h, scan_deps)
        (passed-Decided done dep reason b deps _ h (scan_deps-Decided done reason b deps))
  | inr (inr (inl (inl h))) ↦
      rw (h, scan_deps)
        (failed-Decided done dep reason b deps _ (inl h) (scan_deps-Decided done (some dep) b deps))
  | inr (inr (inl (inr h))) ↦
      rw (h, scan_deps)
        (failed-Decided done dep reason b deps _ (inr h) (scan_deps-Decided done (some dep) b deps))
  | inr (inr (inr h)) ↦
      rw (h, scan_deps)
        (unknown-Decided done dep reason b deps _ h (scan_deps-Decided done reason true deps))
]

pub gate-Decided :
    (done : Dict Outcome) (item : Item) → Decided done none false item.deps (gate done item)
unfolding gate
gate-Decided done item = scan_deps-Decided done none false item.deps
