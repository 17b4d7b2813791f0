-- ===== src/Schedule/Finishes.antt =====
-- A schedule that buildSchedule accepts is run to its end, if every validation passes.
use goss.Base.{
  ℕ, ◌≤◌, String, ◌≡◌, refl, ap, ◌∙◌, ◌↔◌, inl, inr, true, some, List, [], ◌∷◌, arith, ◌==◌, eq_iff,
  Bool-cases, length, All, In, All-In,
}
use goss.Schedule.Once.{run_schedule-sends}
use goss.Schedule.{start, ran, run_schedule, Item}
use goss.Schedule.Build.Resolved.{refs_of, build_items-Resolves, Resolves}
use goss.Schedule.Counts.{sends_of, items_of}
use goss.Schedule.Cycles.Decides.{detect_dependency_cycles-decides}
use goss.TestResult.{passed, TestResult}
use goss.Schedule.Cycles.{detect_dependency_cycles, deps_in, deps_of, by_ref_of}
use goss.Schedule.Build.{build_items}
use goss.Resource.{Resource}
use goss.Schedule.Cycles.Accepts.{Needs}
use goss.Schedule.Advance.{Succeeds}
use goss.Schedule.Deadlock.{Needed, Closed}
use goss.Base.Maps.{lookup-insert, insert, Dict, lookup}
use mathlib.Core.WellFounded.{Acc}
use goss.Errors.{>>=-eq-ok, ok-injective, ok}
use goss.Schedule.Live.{rounds-Ran}
use goss.Schedule.Start.{build_schedule}

by_ref_of-unnamed :
    (items : List Item) (m : Dict Item) (k : String)
    → (items_of k items ≡ 0)
    → lookup k (by_ref_of items m) ≡ lookup k m
unfolding by_ref_of
by_ref_of-unnamed [] m k h = refl
by_ref_of-unnamed (j ∷ items) m k h =
    let rest = by_ref_of-unnamed items (insert j.ref j m) k (ground (arith, h)) in
    ground (arith, rest, lookup-insert j.ref k j m, h)

by_ref_of-only :
    (items : List Item) (m : Dict Item) (i : Item)
    → items_of i.ref items ≤ 1
    → In i items
    → lookup i.ref (by_ref_of items m) ≡ some i
unfolding by_ref_of
by_ref_of-only [] m i h n = absurd n
by_ref_of-only (j ∷ items) m i h (inr n) =
    by_ref_of-only items (insert j.ref j m) i (ground (arith, h)) n
by_ref_of-only (j ∷ items) m i h (inl e) =
    let same : j.ref == i.ref ≡ true = (eq_iff j.ref i.ref).1 (ap (λ x. x.ref) e) in
    let rest = by_ref_of-unnamed items (insert j.ref j m) i.ref (ground (arith, h, same)) in
    rest ∙ ground (arith, lookup-insert j.ref i.ref j m, same) ∙ ap some e

items_of-In :
    (items : List Item) (k : String) → 1 ≤ items_of k items → (j : Item) × In j items × (j.ref ≡ k)
items_of-In [] k h = absurd (omega (arith, h))
items_of-In (j ∷ items) k h = elim (Bool-cases (j.ref == k)) [
  | inl same ↦ (j, inl refl, (eq_iff j.ref k).0 same)
  | inr other ↦
      let (i, there, e) = items_of-In items k (ground (arith, h, other)) in (i, inr there, e)
]

Resolves-Closed : (rs : List Resource) (items : List Item) → Resolves rs items → Closed items
Resolves-Closed rs items b i h d need = items_of-In items d (
    All-In (λ d. 1 ≤ items_of d items) i.deps d
      (All-In (λ i. All (λ d. 1 ≤ items_of d items) i.deps) items i b.2 h) need)

module _ (items : List Item) (only : (k : String) → items_of k items ≤ 1) where
  Needed-Needs : (d ref : String) → Needed items d ref → Needs (deps_of items) d ref
  unfolding deps_of
  Needed-Needs d ref (i, h, e, need) =
      rw (← e) (rw (by_ref_of-only items [] i (only i.ref) h, deps_in) need)

  Acc-Needed : (ref : String) → Acc (Needs (deps_of items)) ref → Acc (Needed items) ref
  Acc-Needed ref (Acc.intro _ smaller) =
      Acc.intro ref (λ d need. Acc-Needed d (smaller d (Needed-Needs d ref need)))

no_start : Succeeds []
unfolding lookup
no_start d o e = absurd (cc e)

module _ (range : List String → List String)
    (range-In : (ks : List String) (k : String) → In k (range ks) ↔ In k ks) where
  build_schedule-Sound :
      (rs : List Resource) (items : List Item)
      → build_schedule range rs ≡ ok items
      → Resolves rs items × ((i : Item) → In i items → Acc (Needed items) i.ref)
  unfolding build_schedule
  build_schedule-Sound rs items e =
      let (built, resolved, e') = >>=-eq-ok (build_items rs) _ e in
      let (sound, accepted, e'') = >>=-eq-ok (detect_dependency_cycles range built) _ e' in
      let q : built ≡ items = ok-injective e'' in
      let b : Resolves rs items = build_items-Resolves rs items (rw (← q) resolved) in
      elim (detect_dependency_cycles-decides range range-In built) [
        | inl (fine, acc) ↦
            let acc' : ((i : Item) → In i items → Acc (Needs (deps_of items)) i.ref) =
              rw (← q) acc in
            (b, λ i h. Acc-Needed items b.0 i.ref (acc' i h))
        | inr (c, refused, chain) ↦ absurd (cc)
      ]

  -- A run of a schedule makes progress to its end: if buildSchedule accepts the resources and every
  -- validation passes, then every resource is run, none is skipped or left waiting, and each
  -- reference is reported exactly as often as a resource has it. This holds whatever order the map
  -- of references is visited in, and in whatever order the workers of a round finish.
  pub run_schedule-finishes :
      (now : ℕ) (run : Resource → List TestResult) (order : List Item → List Item)
      → ((items : List Item) (i : Item) → In i (order items) ↔ In i items)
      → ((k : String) (items : List Item) → items_of k (order items) ≡ items_of k items)
      → (rs : List Resource) (items : List Item) → build_schedule range rs ≡ ok items
      → ((i : Item) → In i items → passed (run i.resource) ≡ true)
      → All (λ s. s.cause ≡ ran) (run_schedule now run order items)
        × ((k : String) → sends_of k (run_schedule now run order items) ≡ refs_of k rs)
  unfolding run_schedule
  run_schedule-finishes now run order order-In keeps rs items e passes =
      let (b, acc) = build_schedule-Sound rs items e in
      (
        rounds-Ran now run order order-In items (Resolves-Closed rs items b) acc passes
            (length items) (start now run order) items no_start tt (λ i h. h) (λ i h. inr h),
        λ k. run_schedule-sends k now run order (keeps k) items (b.0 k) ∙ b.1 k,
      )
