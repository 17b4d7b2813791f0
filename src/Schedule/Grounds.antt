-- ===== src/Schedule/Grounds.antt =====
-- Every result of validateWithDependencies rests on the results sent before it.
use goss.Base.{
  ℕ, zero, suc, String, ◌≡◌, refl, ◌≢◌, inl, inr, none, some, List, [], ◌∷◌, ◌==◌, eq_iff,
  Bool-cases, List-cases, length, All, In, All-In,
}
use goss.Schedule.{
  ran_sent, left_sent, scan, unsatisfied_sent, each, Sent, execute, Item, Round, rounds,
  run_schedule,
}
use goss.Schedule.Trace.{told_or, told, outcome_in, Grounded}
use goss.Schedule.Invariant.{scan-Visited, All-map, Agree-insert, Unready, Agree, Ready}
use goss.Base.Maps.{lookup-insert, insert, lookup, Dict}
use goss.TestResult.{Outcome, TestResult, success}
use goss.Resource.{Resource}

abbrev Kept : Dict Outcome → Dict Outcome → Type 0
Kept old done = (d : String) → (lookup d old ≡ some success) → lookup d done ≡ some success

In-All : {A : Type 0} (P : A → Type 0) (xs : List A) → ((a : A) → In a xs → P a) → All P xs
In-All P [] f = tt
In-All P (x ∷ xs) f = (f x (inl refl), In-All P xs (λ a m. f a (inr m)))

Kept-insert :
    (old done : Dict Outcome) (k : String) (o : Outcome)
    → (lookup k old ≢ some success)
    → Kept old done
    → Kept old (insert k o done)
Kept-insert old done k o h kept d e = elim (Bool-cases (k == d)) [
  | inl same ↦ let q : k ≡ d = (eq_iff k d).0 same in absurd (h (rw q e))
  | inr other ↦ rw (lookup-insert k d o done) (rw other (kept d e))
]

unsatisfied-Agree :
    (s : Sent) (done : Dict Outcome) (trace : List Sent)
    → (told s.cause s.results ≡ none)
    → Agree done trace
    → Agree done (s ∷ trace)
unsatisfied-Agree s done trace n a d = elim (Bool-cases (s.item.ref == d)) [
  | inl e ↦ rw (e, told_or) (rw (n, told_or) (a d))
  | inr e ↦ rw (e, told_or) (a d)
]

module _ (now : ℕ) (run : Resource → List TestResult) where
  executes-Grounded :
      (old : Dict Outcome) (items : List Item) (r : Round)
      → All (Ready old) items
      → Kept old r.done
      → Agree r.done r.trace
      → Grounded r.trace
      → let r' = each (execute now run) r items in Agree r'.done r'.trace × Grounded r'.trace
  unfolding execute
  executes-Grounded old [] r ready kept a g = (a, g)
  executes-Grounded old (i ∷ items) r ready kept a g =
      executes-Grounded old items _ ready.1 (Kept-insert old r.done i.ref _ ready.0.1 kept)
        (Agree-insert r.done r.trace (ran_sent now run i) _ refl a)
        (
          All-map {Q = λ d. outcome_in d r.trace ≡ some success} (λ d e. rw (← a d) (kept d e))
              i.deps ready.0.0,
          g,
        )

  unsatisfied-Grounded :
      (items : List Item) (done : Dict Outcome) (trace : List Sent)
      → All (Unready done) items
      → Agree done trace
      → Grounded trace
      → Grounded (each (unsatisfied_sent now) trace items)
  unsatisfied-Grounded [] done trace u a g = g
  unsatisfied-Grounded (i ∷ items) done trace u a g =
      unsatisfied-Grounded items done _ u.1 (unsatisfied-Agree (left_sent now i) done trace refl a)
        ((u.0.0, u.0.1, λ e. u.0.2 (rw (a u.0.0) e)), g)

  module _ (order : List Item → List Item)
      (order-In : (items : List Item) (i : Item) → In i (order items) → In i items) where
    rounds-Grounded :
        (fuel : ℕ) (r : Round) (pending : List Item)
        → Agree r.done r.trace
        → Grounded r.trace
        → Grounded (rounds now run order fuel r pending)
    unfolding rounds
    rounds-Grounded zero r pending a g = g
    rounds-Grounded (suc fuel) r [] a g = g
    rounds-Grounded (suc fuel) r (p ∷ pending) a g =
        let v = scan-Visited now r (p ∷ pending) a g in
        elim (List-cases (scan now r (p ∷ pending)).runnable) [
          | inl h ↦ rw (h, rounds) (unsatisfied-Grounded _ _ _ v.3 v.0 v.1)
          | inr (i, items, h) ↦
              let done =
                executes-Grounded (scan now r (p ∷ pending)).done (order (i ∷ items)) _
                  (In-All _ _
                    (λ j m. All-In _ (i ∷ items) j (rw h at v.2) (order-In (i ∷ items) j m)))
                  (λ d e. e) v.0 v.1 in
              rw (h, rounds) (rounds-Grounded fuel _ _ done.0 done.1)
        ]

    -- Whatever the resources' validations return and in whatever order the workers of a round
    -- finish, every send of the schedule has its grounds in the sends before it: a resource is
    -- validated only behind all its dependencies, each of them passed; it is skipped for one of
    -- its dependencies, which failed or was skipped; and it is reported as unsatisfied only if
    -- one of its dependencies has not passed.
    pub run_schedule-Grounded :
        (schedule : List Item) → Grounded (run_schedule now run order schedule)
    unfolding run_schedule lookup
    run_schedule-Grounded schedule = rounds-Grounded (length schedule) _ schedule (λ d. refl) tt
