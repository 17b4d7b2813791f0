-- ===== src/Schedule/Results.antt =====
-- dependency_scheduler.go: what is true of the results of every validation and of every skip is true
-- of all that a schedule sends.
use goss.Base.{
  ℕ, zero, suc, inl, inr, List, [], ◌∷◌, List-cases, Option-cases, length, All, All-append,
}
use goss.Schedule.{
  start, Item, Sent, Round, Gate, clear, blocked, skip_for, place, visit, scan, execute, each,
  unsatisfied_sent, rounds, run_schedule, gate,
}
use mathlib.Core.Path.{subst}
use goss.Errors.{dependency_failed, unsatisfied_dependency, Error}
use goss.Resource.{Resource, skip_resource_results}
use goss.TestResult.{TestResult}
use goss.Base.Maps.{lookup}

module _ (now : ℕ) (run : Resource → List TestResult) (P : List TestResult → Type 0)
    (skips : (r : Resource) (e : Error) → P (skip_resource_results now r e)) where
  abbrev Gives : Item → Type 0
  Gives i = P (run i.resource)

  abbrev Sends : Sent → Type 0
  Sends s = P s.results

  abbrev Holds : Round → Type 0
  Holds r = All Sends r.trace × All Gives r.runnable × All Gives r.waiting

  place-Holds : (r : Round) (i : Item) (g : Gate) → Gives i → Holds r → Holds (place now r i g)
  place-Holds r i clear p h = (h.0, All-append Gives r.runnable (i ∷ []) h.1 (p, tt), h.2)
  place-Holds r i blocked p h = (h.0, h.1, All-append Gives r.waiting (i ∷ []) h.2 (p, tt))
  place-Holds r i (skip_for dep) p h = ((skips i.resource (dependency_failed dep), h.0), h.1, h.2)

  visit-Holds : (r : Round) (i : Item) → Gives i → Holds r → Holds (visit now r i)
  unfolding visit
  visit-Holds r i p h = elim (Option-cases (lookup i.ref r.done)) [
    | inl e ↦ rw (e, visit) (place-Holds r i (gate r.done i) p h)
    | inr (o, e) ↦ rw (e, visit) h
  ]

  visits-Holds :
      (items : List Item) (r : Round) → All Gives items → Holds r → Holds (each (visit now) r items)
  visits-Holds [] r p h = h
  visits-Holds (i ∷ items) r p h = visits-Holds items (visit now r i) p.1 (visit-Holds r i p.0 h)

  scan-Holds :
      (r : Round) (items : List Item)
      → All Gives items
      → All Sends r.trace
      → Holds (scan now r items)
  unfolding scan
  scan-Holds r items p h =
      visits-Holds items (record r { runnable = []; waiting = [] }) p (h, tt, tt)

  executes-Sends :
      (items : List Item) (r : Round)
      → All Gives items
      → All Sends r.trace
      → All Sends (each (execute now run) r items).trace
  unfolding execute
  executes-Sends [] r p h = h
  executes-Sends (i ∷ items) r p h = executes-Sends items (execute now run r i) p.1 (p.0, h)

  left-Sends :
      (items : List Item) (trace : List Sent)
      → All Sends trace
      → All Sends (each (unsatisfied_sent now) trace items)
  left-Sends [] trace h = h
  left-Sends (i ∷ items) trace h =
      left-Sends items (unsatisfied_sent now trace i) (skips i.resource unsatisfied_dependency, h)

  module _ (order : List Item → List Item)
      (order-All : (Q : Item → Type 0) (xs : List Item) → All Q xs → All Q (order xs)) where
    rounds-Sends :
        (fuel : ℕ) (r : Round) (pending : List Item)
        → All Gives pending
        → All Sends r.trace
        → All Sends (rounds now run order fuel r pending)
    unfolding rounds
    rounds-Sends zero r pending p h = h
    rounds-Sends (suc fuel) r [] p h = h
    rounds-Sends (suc fuel) r (i ∷ pending) p h =
        let r' = scan now r (i ∷ pending) in
        let (sent, runs, waits) = scan-Holds r (i ∷ pending) p h in
        elim (List-cases r'.runnable) [
          | inl e ↦ rw (e, rounds) (left-Sends r'.waiting r'.trace sent)
          | inr (j, items, e) ↦
              rw (e, rounds)
                (rounds-Sends fuel (each (execute now run) r' (order (j ∷ items))) r'.waiting waits
                  (executes-Sends (order (j ∷ items)) r'
                    (order-All Gives (j ∷ items) (subst (All Gives) e runs)) sent))
        ]

    pub run_schedule-All :
        (items : List Item) → All Gives items → All Sends (run_schedule now run order items)
    unfolding run_schedule
    run_schedule-All items p = rounds-Sends (length items) (start now run order) items p tt
