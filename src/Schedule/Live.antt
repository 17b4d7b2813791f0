-- ===== src/Schedule/Live.antt =====
-- A schedule without cycles is run to its end, if every validation passes.
use goss.Base.{
  ℕ, zero, suc, String, ◌≡◌, refl, ap, ◌↔◌, ◌⊎◌, inl, inr, true, some, List, [], ◌∷◌, arith, ◌==◌,
  eq_iff, Bool-cases, List-cases, All, In,
}
use goss.Schedule.Advance.{scan-Unready, scan-Scans, Succeeds, Over, Held}
use goss.Schedule.Deadlock.{no_deadlock, Closed, Needed}
use goss.Schedule.Invariant.{Unready}
use goss.Schedule.{scan, status_of, each, Sent, Round, Item, rounds, ran, execute}
use goss.Base.Maps.{lookup-insert, insert, Dict, lookup}
use goss.TestResult.{passed, TestResult, success, Outcome}
use goss.Resource.{Resource}
use mathlib.Core.WellFounded.{Acc}

abbrev pub Ran : Sent → Type 0
Ran s = s.cause ≡ ran

module _ (now : ℕ) (run : Resource → List TestResult) where
  abbrev Passes : Item → Type 0
  Passes i = passed (run i.resource) ≡ true

  insert-Succeeds :
      (done : Dict Outcome) (k : String) → Succeeds done → Succeeds (insert k success done)
  insert-Succeeds done k s d o e = elim (Bool-cases (k == d)) [
    | inl same ↦ ground (arith, lookup-insert k d success done, same, e)
    | inr other ↦ s d o (ground (arith, lookup-insert k d success done, other, e))
  ]

  insert-success :
      (done : Dict Outcome) (k d : String)
      → (lookup d done ≡ some success)
      → lookup d (insert k success done) ≡ some success
  insert-success done k d e = ground (arith, lookup-insert k d success done, e)

  insert-new :
      (done : Dict Outcome) (k d : String) → k ≡ d → lookup d (insert k success done) ≡ some success
  insert-new done k d e = ground (arith, lookup-insert k d success done, (eq_iff k d).1 e)

  -- What running the items of a round leaves.
  abbrev Completes : List Item → Round → Round → Type 0
  Completes items r r' =
      Succeeds r'.done
      × All Ran r'.trace
      × ((d : String) → (lookup d r.done ≡ some success) → lookup d r'.done ≡ some success)
      × ((i : Item) → In i items → Over i r'.done)

  executes-Completes :
      (items : List Item) (r : Round)
      → ((i : Item) → In i items → Passes i)
      → Succeeds r.done
      → All Ran r.trace
      → Completes items r (each (execute now run) r items)
  unfolding execute
  executes-Completes [] r p s t = (s, t, (λ d e. e), λ i n. absurd n)
  executes-Completes (i ∷ items) r p s t =
      let passes : status_of (run i.resource) ≡ success = ground (arith, p i (inl refl)) in
      let r1 = execute now run r i in
      let rest =
        executes-Completes items r1 (λ j h. p j (inr h))
          (rw (passes, execute) (insert-Succeeds r.done i.ref s)) (refl, t) in
      (
        rest.0,
        rest.1,
        (λ d e. rest.2 d (rw (passes, execute) (insert-success r.done i.ref d e))),
        λ j h. elim h [
          | inl e ↦
              rest.2 j.ref
                (rw (passes, execute) (insert-new r.done i.ref j.ref (ap (λ x. x.ref) e)))
          | inr h' ↦ rest.3 j h'
        ],
      )

  module _ (order : List Item → List Item)
      (order-In : (items : List Item) (i : Item) → In i (order items) ↔ In i items)
      (items : List Item) (closed : Closed items)
      (grounded : (i : Item) → In i items → Acc (Needed items) i.ref)
      (passes : (i : Item) → In i items → Passes i) where
    stuck-Empty :
        (r : Round)
        → ((i : Item) → Held i r → In i items)
        → ((i : Item) → In i items → Over i r.done ⊎ Held i r)
        → All (Unready r.done) r.waiting
        → (r.runnable ≡ [])
        → r.waiting ≡ []
    stuck-Empty r from left unready idle = elim (List-cases r.waiting) [
      | inl e ↦ e
      | inr (w, ws, e) ↦
          let here : In w r.waiting = rw e (inl refl) in
          absurd (
            no_deadlock items r.waiting r.done (λ i h. from i (inr h)) closed
              (λ i h. elim (left i h) [
                | inl o ↦ inl o
                | inr (inl k) ↦ absurd (rw idle at k)
                | inr (inr k) ↦ inr k
              ])
              unready w.ref (grounded w (from w (inr here))) w here refl)
    ]

    scan-Left :
        (r : Round) (pending : List Item)
        → Succeeds r.done
        → ((i : Item) → In i items → Over i r.done ⊎ In i pending)
        → (i : Item) → In i items
        → Over i (scan now r pending).done ⊎ Held i (scan now r pending)
    scan-Left r pending s left i h =
        let v = scan-Scans now r pending s in
        elim (left i h) [
          | inl o ↦ inl (rw v.0 o)
          | inr k ↦ elim (v.2 i k) [ inl o ↦ inl (rw v.0 o) | inr k' ↦ inr k' ]
        ]

    runs-Left :
        (r : Round) (run_now : List Item)
        → r.runnable ≡ run_now
        → ((i : Item) → In i items → Over i r.done ⊎ Held i r)
        → Completes (order run_now) r (each (execute now run) r (order run_now))
        → (i : Item) → In i items
        → Over i (each (execute now run) r (order run_now)).done ⊎ In i r.waiting
    runs-Left r run_now e left c i h = elim (left i h) [
      | inl o ↦ inl (c.2 i.ref o)
      | inr (inl k) ↦ inl (c.3 i ((order-In run_now i).1 (rw e at k)))
      | inr (inr k) ↦ inr k
    ]

    pub rounds-Ran :
        (fuel : ℕ) (r : Round) (pending : List Item)
        → Succeeds r.done
        → All Ran r.trace
        → ((i : Item) → In i pending → In i items)
        → ((i : Item) → In i items → Over i r.done ⊎ In i pending)
        → All Ran (rounds now run order fuel r pending)
    unfolding rounds
    rounds-Ran zero r pending s t from left = t
    rounds-Ran (suc fuel) r [] s t from left = t
    rounds-Ran (suc fuel) r (p ∷ pending) s t from left =
        let v = scan-Scans now r (p ∷ pending) s in
        let r' = scan now r (p ∷ pending) in
        let s' : Succeeds r'.done = rw v.0 s in
        let t' : All Ran r'.trace = rw v.1 t in
        let from' : ((i : Item) → Held i r' → In i items) = λ i h. from i (v.3 i h) in
        let left' = scan-Left r (p ∷ pending) s left in
        let unready : All (Unready r'.done) r'.waiting =
          rw v.0 (scan-Unready now r (p ∷ pending) s) in
        elim (List-cases r'.runnable) [
          | inl e ↦ rw (e, rounds) (rw (stuck-Empty r' from' left' unready e) t')
          | inr (i, more, e) ↦
              let c =
                executes-Completes (order (i ∷ more)) r'
                  (λ j h. passes j (from' j (inl (rw e ((order-In (i ∷ more) j).0 h))))) s' t' in
              rw (e, rounds)
                (rounds-Ran fuel (each (execute now run) r' (order (i ∷ more))) r'.waiting c.0 c.1
                  (λ j h. from' j (inr h)) (runs-Left r' (i ∷ more) e left' c))
        ]
