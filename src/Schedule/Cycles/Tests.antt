-- ===== src/Schedule/Cycles/Tests.antt =====
-- The search for cycles, and runs of what it accepts.
use goss.Base.{String, ◌≡◌, refl, ◌⊎◌, List, [], ◌∷◌, All, In}
use goss.Resource.{ref}
use goss.Base.Maps.{insert, lookup}
use goss.Schedule.Build.{
  resolve_dependency_ref, resolve_all, schedule_items, index_refs, build_items,
}
use goss.Schedule.Cycles.{
  mentioned, by_ref_of, visit_ref, deps_of, walk_schedule, detect_dependency_cycles,
}
use goss.Schedule.Cycles.Refuses.{Chain}
use goss.Schedule.Build.Resolved.{refs_of}
use goss.Schedule.Counts.{sends_of}
use goss.Schedule.Cycles.Accepts.{Needs}
use goss.Schedule.{run_schedule, ran, Item}
use goss.Schedule.Start.{build_schedule}
use goss.Errors.{ok, err, dependency_cycle}
use mathlib.Core.WellFounded.{Acc}
use goss.Schedule.Tests.{files, files_items, small, as_given, item_of, nothing_found}
use goss.Schedule.Cycles.Decides.{detect_dependency_cycles-decides}
use goss.Schedule.Finishes.{run_schedule-finishes}

abbrev pub as_listed : List String → List String
as_listed refs = refs

-- `a` needs `b`, `b` needs `c`, and `c` needs `b`.
abbrev ring : List Item
ring = item_of "a" ("b" ∷ []) ∷ item_of "b" ("c" ∷ []) ∷ item_of "c" ("b" ∷ []) ∷ []

ring_is_refused : detect_dependency_cycles as_listed ring ≡ err (dependency_cycle "b")
unfolding detect_dependency_cycles walk_schedule visit_ref by_ref_of deps_of mentioned lookup insert
ring_is_refused = refl

small_is_accepted : detect_dependency_cycles as_listed small ≡ ok tt
unfolding detect_dependency_cycles walk_schedule visit_ref by_ref_of deps_of mentioned lookup insert
small_is_accepted = refl

detect_dependency_cycles-decides_example :
    ((detect_dependency_cycles as_listed ring ≡ ok tt)
      × ((i : Item) → In i ring → Acc (Needs (deps_of ring)) i.ref))
    ⊎ ((c : String) × (detect_dependency_cycles as_listed ring ≡ err (dependency_cycle c))
        × Chain (deps_of ring) c c)
detect_dependency_cycles-decides_example =
    detect_dependency_cycles-decides as_listed (λ ks k. (λ h. h, λ h. h)) ring

pub files_build : build_schedule as_listed files ≡ ok files_items
unfolding build_schedule build_items index_refs schedule_items resolve_all resolve_dependency_ref
    ref detect_dependency_cycles walk_schedule visit_ref by_ref_of deps_of mentioned lookup insert
files_build = refl

run_schedule-finishes_example :
    All (λ s. s.cause ≡ ran) (run_schedule 0 nothing_found as_given files_items)
    × ((k : String)
        → sends_of k (run_schedule 0 nothing_found as_given files_items) ≡ refs_of k files)
run_schedule-finishes_example =
    run_schedule-finishes as_listed (λ ks k. (λ h. h, λ h. h)) 0 nothing_found as_given
      (λ items i. (λ h. h, λ h. h)) (λ k items. refl) files files_items files_build (λ i h. refl)
