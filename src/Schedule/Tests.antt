-- ===== src/Schedule/Tests.antt =====
-- Runs of a small schedule: `b` needs `a`, `c` needs `b`, and `d` stands alone.
use goss.Base.{◌≤◌, String, ◌≡◌, refl, false, List, [], ◌∷◌, map, arith}
use goss.Kinds.{FileResource}
use goss.Errors.{reference_not_found, ok, err}
use goss.Resource.{ref, file, Resource}
use goss.Schedule.Build.{
  resolve_dependency_ref, resolve_all, schedule_items, index_refs, build_items,
}
use goss.Schedule.Whole.{run_schedule-build_items}
use goss.Schedule.Build.Resolved.{build_items-Resolves, Resolves, refs_of}
use goss.Samples.{plain_common, sample_file, unset, absent_file}
use goss.Schedule.Grounds.{run_schedule-Grounded}
use goss.Schedule.Once.{run_schedule-sends}
use goss.Schedule.{
  unsatisfied, execute, scan_deps, gate, visit, scan, rounds, Item, Sent, run_schedule, Cause, ran,
  skipped_for,
}
use goss.Base.Maps.{insert, lookup}
use goss.TestResult.{fail, TestResult}
use goss.Schedule.Counts.{items_of, sends_of}
use goss.Schedule.Trace.{Grounded}

abbrev pub item_of : String → List String → Item
item_of name deps = record { ref = name; resource = absent_file; deps = deps }

abbrev pub small : List Item
small = item_of "c" ("b" ∷ []) ∷ item_of "b" ("a" ∷ []) ∷ item_of "a" [] ∷ item_of "d" [] ∷ []

abbrev pub nothing_found : Resource → List TestResult
nothing_found r = unset ∷ []

abbrev fails : Resource → List TestResult
fails r = record unset { result = fail } ∷ []

abbrev pub as_given : List Item → List Item
as_given items = items

causes : List Sent → List (String × Cause)
causes trace = map (λ s. (s.item.ref, s.cause)) trace

-- The newest send stands first.
passes_in_order :
    causes (run_schedule 0 nothing_found as_given small)
    ≡ ("c", ran) ∷ ("b", ran) ∷ ("d", ran) ∷ ("a", ran) ∷ []
unfolding causes run_schedule rounds scan visit gate scan_deps execute lookup insert
passes_in_order = refl

-- `c` was passed over in the round that skips `b`, behind it in the list, and no later round is run.
failure_spreads :
    causes (run_schedule 0 fails as_given small)
    ≡ ("c", unsatisfied) ∷ ("b", skipped_for "a") ∷ ("d", ran) ∷ ("a", ran) ∷ []
unfolding causes run_schedule rounds scan visit gate scan_deps execute lookup insert
failure_spreads = refl

run_schedule-Grounded_example : Grounded (run_schedule 0 fails as_given small)
run_schedule-Grounded_example = run_schedule-Grounded 0 fails as_given (λ items i m. m) small

run_schedule-sends_example : sends_of "b" (run_schedule 0 fails as_given small) ≡ items_of "b" small
run_schedule-sends_example =
    run_schedule-sends "b" 0 fails as_given (λ items. refl) small (omega arith)

abbrev pub needing_file : String → List String → FileResource
needing_file path deps = record (sample_file path false) {
  common = record (plain_common path false) { depends_on = deps };
}

abbrev needing : String → List String → Resource
needing path deps = file (needing_file path deps)

-- A bare key and a reference with its type.
abbrev pub files : List Resource
files = needing "/b" ("/a" ∷ []) ∷ needing "/a" [] ∷ needing "/c" ("file:/a" ∷ []) ∷ []

abbrev pub files_items : List Item
files_items =
    record { ref = "file:/b"; resource = needing "/b" ("/a" ∷ []); deps = "file:/a" ∷ [] }
    ∷ record { ref = "file:/a"; resource = needing "/a" []; deps = [] }
    ∷ record { ref = "file:/c"; resource = needing "/c" ("file:/a" ∷ []); deps = "file:/a" ∷ [] }
    ∷ []

files_resolve : build_items files ≡ ok files_items
unfolding build_items index_refs schedule_items resolve_all resolve_dependency_ref ref lookup insert
files_resolve = refl

unnamed_fails : build_items (needing "/b" ("/x" ∷ []) ∷ []) ≡ err (reference_not_found "/x")
unfolding build_items index_refs schedule_items resolve_all resolve_dependency_ref ref lookup insert
unnamed_fails = refl

files-Resolves : Resolves files files_items
files-Resolves = build_items-Resolves files files_items files_resolve

run_schedule-build_items_example :
    (sends_of "file:/a" (run_schedule 0 fails as_given files_items) ≡ refs_of "file:/a" files)
    × (refs_of "file:/a" files ≤ 1)
run_schedule-build_items_example =
    run_schedule-build_items 0 fails as_given (λ k items. refl) files files_items files_resolve
      "file:/a"
