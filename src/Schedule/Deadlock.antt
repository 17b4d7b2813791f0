-- ===== src/Schedule/Deadlock.antt =====
-- Items that all wait for one another would be a cycle of dependencies.
use goss.Base.{String, ◌≡◌, ◌⊎◌, inl, inr, List, All, In, All-In}
use goss.Schedule.Advance.{Over}
use goss.Schedule.Invariant.{Unready}
use goss.Schedule.{Item}
use goss.Base.Maps.{Dict}
use mathlib.Core.WellFounded.{Acc}
use goss.TestResult.{Outcome}

-- The dependencies of the items, as references of items.
module _ (items : List Item) where
  abbrev pub Closed : Type 0
  Closed =
      (i : Item) → In i items → (d : String) → In d i.deps → (j : Item) × In j items × (j.ref ≡ d)

  -- Some item with the reference has the dependency.
  abbrev pub Needed : String → String → Type 0
  Needed d ref = (i : Item) × In i items × (i.ref ≡ ref) × In d i.deps

  -- Items that all wait for one another do not exist.
  pub no_deadlock :
      (waiting : List Item) (done : Dict Outcome)
      → ((i : Item) → In i waiting → In i items)
      → Closed
      → ((i : Item) → In i items → Over i done ⊎ In i waiting)
      → All (Unready done) waiting
      → (ref : String) → Acc Needed ref
      → (i : Item) → In i waiting
      → i.ref ≡ ref
      → ⊥
  no_deadlock waiting done from closed left stuck ref (Acc.intro _ smaller) i here e =
      let (d, need, unmet) = All-In (Unready done) waiting i stuck here in
      let (j, there, q) = closed i (from i here) d need in
      elim (left j there) [
        | inl over ↦ absurd (unmet (rw q at over))
        | inr waits ↦
            no_deadlock waiting done from closed left stuck d (smaller d (i, from i here, e, need))
              j waits q
      ]
