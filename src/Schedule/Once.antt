-- ===== src/Schedule/Once.antt =====
-- Every item of the schedule of validateWithDependencies is reported once.
use goss.Base.{
  ℕ, zero, suc, ◌+◌, ◌≤◌, String, ◌≡◌, refl, ap, inl, inr, List, [], ◌∷◌, arith, List-cases, length,
}
use goss.Schedule.{
  start, ran_sent, left_sent, unsatisfied_sent, each, Sent, execute, Item, scan, Round, rounds,
  run_schedule,
}
use goss.Schedule.Counts.{
  visits-total, Open-insert, total, sends_of, visits-Fits, items_of, Fits, Open,
}
use goss.Base.Maps.{lookup}
use goss.TestResult.{TestResult}
use goss.Resource.{Resource}

module _ (k : String) (now : ℕ) (run : Resource → List TestResult) where
  executes-sends :
      (items : List Item) (r : Round)
      → Open k r.done r.trace
      → let r' = each (execute now run) r items in
        (sends_of k r'.trace ≡ sends_of k r.trace + items_of k items) × Open k r'.done r'.trace
  unfolding execute
  executes-sends [] r o = (ground arith, o)
  executes-sends (i ∷ items) r o =
      let rest = executes-sends items _ (Open-insert k r.done r.trace (ran_sent now run i) _ o) in
      (ground (arith, rest.0), rest.1)

  unsatisfied-sends :
      (items : List Item) (trace : List Sent)
      → sends_of k (each (unsatisfied_sent now) trace items) ≡ sends_of k trace + items_of k items
  unsatisfied-sends [] trace = ground arith
  unsatisfied-sends (i ∷ items) trace =
      ground (arith, unsatisfied-sends items (left_sent now i ∷ trace))

  scan-sends :
      (r : Round) (pending : List Item)
      → Open k r.done r.trace
      → sends_of k r.trace + items_of k pending ≤ 1
      → let r' = scan now r pending in
        (total k r' ≡ sends_of k r.trace + items_of k pending) × Open k r'.done r'.trace
  unfolding scan
  scan-sends r pending o h =
      let v =
        visits-total k now pending (record r { runnable = []; waiting = [] }) o
          (ground (arith, h)) in
      (ground (arith, v.0), v.1)

  scan-Fits : (r : Round) (pending : List Item) → Fits (length pending) (scan now r pending)
  unfolding scan
  scan-Fits r pending =
      let v =
        visits-Fits k now 0 pending (record r { runnable = []; waiting = [] }) (omega arith) in
      omega (arith, v)

  module _ (order : List Item → List Item)
      (order-items_of : (items : List Item) → items_of k (order items) ≡ items_of k items) where
    rounds-sends :
        (fuel : ℕ) (r : Round) (pending : List Item)
        → Open k r.done r.trace
        → sends_of k r.trace + items_of k pending ≤ 1
        → length pending ≤ fuel
        → sends_of k (rounds now run order fuel r pending) ≡ sends_of k r.trace + items_of k pending
    unfolding rounds
    rounds-sends zero r [] o h f = ground arith
    rounds-sends zero r (p ∷ pending) o h f = ground arith
    rounds-sends (suc fuel) r [] o h f = ground arith
    rounds-sends (suc fuel) r (p ∷ pending) o h f =
        let v = scan-sends r (p ∷ pending) o h in
        let fits = scan-Fits r (p ∷ pending) in
        elim (List-cases (scan now r (p ∷ pending)).runnable) [
          | inl e ↦
              rw (e, rounds)
                (ground (
                  arith,
                  v.0,
                  e,
                  unsatisfied-sends (scan now r (p ∷ pending)).waiting
                      (scan now r (p ∷ pending)).trace,
                ))
          | inr (i, items, e) ↦
              let after = executes-sends (order (i ∷ items)) (scan now r (p ∷ pending)) v.1 in
              let some_ran = ap (λ xs. items_of k xs) e in
              let kept = order-items_of (i ∷ items) in
              let rest =
                rounds-sends fuel
                  (each (execute now run) (scan now r (p ∷ pending)) (order (i ∷ items)))
                  (scan now r (p ∷ pending)).waiting after.1
                  (omega (arith, after.0, some_ran, kept, v.0, h)) (ground (arith, fits, e, f)) in
              rw (e, rounds) (omega (arith, rest, after.0, some_ran, kept, v.0))
        ]

    -- Every reference that the schedule names at most once is reported exactly as often as the
    -- schedule names it, whatever the validations return, in whatever order the workers of a round
    -- finish (`order` keeps how often an item occurs), and on fuel of one round for each item.
    pub run_schedule-sends :
        (schedule : List Item)
        → items_of k schedule ≤ 1
        → sends_of k (run_schedule now run order schedule) ≡ items_of k schedule
    unfolding run_schedule lookup
    run_schedule-sends schedule h =
        let all =
          rounds-sends (length schedule) (start now run order) schedule (inl refl)
            (omega (arith, h)) (omega arith) in
        omega (arith, all)
