-- ===== src/Schedule/Cycles.antt =====
-- dependency_scheduler.go: detectDependencyCycles, a depth-first search that marks references. The
-- order in which `for ref := range byRef` visits them is the argument `range`; a reference that
-- byRef does not hold has no dependencies. The search recurs on fuel, one for each reference that a
-- schedule mentions and one more.
pub mod Accepts
pub mod Refuses
pub mod Fuel
pub mod Decides
pub mod Tests
use goss.Base.{
  ℕ, zero, suc, String, ◌≡◌, refl, ◌⊎◌, inl, inr, Option, none, some, List, [], ◌∷◌, ◌++◌, length,
}
use goss.Errors.{panic, err, ok, Result, dependency_cycle}
use goss.Base.Maps.{lookup, keys, Dict, insert}
use goss.Schedule.{Item}

-- state[ref]: 1, 2, and 0 for a reference that has no mark.
pub data Mark : Type 0 where
  visiting visited : Mark

-- How a visit ends. `exhausted` says that the fuel is used up.
pub data Walk : Type 0 where
  walked : (marks : Dict Mark) → Walk
  cycle_at : (ref : String) → Walk
  exhausted : Walk

abbrev pub finish : String → Walk → Walk
finish ref (walked marks) = walked (insert ref visited marks)
finish ref w = w

-- for _, dep := range deps { if err := visit(dep); err != nil { return err } }
abbrev pub visit_all : (Dict Mark → String → Walk) → List String → Dict Mark → Walk
visit_all visit [] marks = walked marks
visit_all visit (dep ∷ deps) marks = elim (visit marks dep) [
  | walked marks' ↦ visit_all visit deps marks'
  | cycle_at ref ↦ cycle_at ref
  | exhausted ↦ exhausted
]

-- switch state[ref], where `rest` is what stands behind the switch
abbrev pub by_mark : String → Dict Mark → Option Mark → Walk → Walk
by_mark ref marks (some visiting) rest = cycle_at ref
by_mark ref marks (some visited) rest = walked marks
by_mark ref marks none rest = rest

unfoldable pub visit_ref : (String → List String) → ℕ → Dict Mark → String → Walk
visit_ref deps_of zero marks ref = exhausted
visit_ref deps_of (suc fuel) marks ref =
    let rest =
      finish ref (visit_all (visit_ref deps_of fuel) (deps_of ref) (insert ref visiting marks)) in
    by_mark ref marks (lookup ref marks) rest

-- byRef
unfoldable pub by_ref_of : List Item → Dict Item → Dict Item
by_ref_of [] m = m
by_ref_of (i ∷ items) m = by_ref_of items (insert i.ref i m)

abbrev pub deps_in : Option Item → List String
deps_in (some i) = i.deps
deps_in none = []

unfoldable pub deps_of : List Item → String → List String
deps_of items ref = deps_in (lookup ref (by_ref_of items []))

-- Every reference that a schedule mentions.
unfoldable pub mentioned : List Item → List String
mentioned [] = []
mentioned (i ∷ items) = i.ref ∷ i.deps ++ mentioned items

abbrev pub walk_error : Walk → Result (Unit {0})
walk_error (walked marks) = ok tt
walk_error (cycle_at ref) = err (dependency_cycle ref)
walk_error exhausted = panic

unfoldable pub walk_schedule : (List String → List String) → List Item → Walk
walk_schedule range items =
    visit_all (visit_ref (deps_of items) (suc (length (mentioned items))))
      (range (keys (by_ref_of items []))) []

unfoldable pub detect_dependency_cycles :
    (List String → List String) → List Item → Result (Unit {0})
detect_dependency_cycles range items = walk_error (walk_schedule range items)

pub Walk-cases :
    (w : Walk)
    → ((m : Dict Mark) × (w ≡ walked m)) ⊎ (((r : String) × (w ≡ cycle_at r)) ⊎ (w ≡ exhausted))
Walk-cases (walked m) = inl (m, refl)
Walk-cases (cycle_at r) = inr (inl (r, refl))
Walk-cases exhausted = inr (inr refl)

pub Mark-cases : (o : Option Mark) → (o ≡ none) ⊎ ((o ≡ some visiting) ⊎ (o ≡ some visited))
Mark-cases none = inl refl
Mark-cases (some visiting) = inr (inl refl)
Mark-cases (some visited) = inr (inr refl)
