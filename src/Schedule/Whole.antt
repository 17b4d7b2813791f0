-- ===== src/Schedule/Whole.antt =====
-- validateWithDependencies as a whole: a schedule that was built, and its run.
use goss.Schedule.Once.{run_schedule-sends}
use goss.Schedule.Build.Resolved.{build_items-Resolves, refs_of}
use goss.Schedule.{run_schedule, Item}
use goss.Schedule.Counts.{sends_of, items_of}
use goss.Errors.{ok}
use goss.Schedule.Build.{build_items}
use goss.TestResult.{TestResult}
use goss.Resource.{Resource}
use goss.Base.{ℕ, ◌≤◌, String, ◌≡◌, ◌∙◌, List}

-- If buildSchedule resolves all references, then every resource is reported exactly once: each
-- reference is sent as often as a resource has it, and that is at most once. This holds whatever
-- the validations return and in whatever order the workers of a round finish.
pub run_schedule-build_items :
    (now : ℕ) (run : Resource → List TestResult) (order : List Item → List Item)
    → ((k : String) (items : List Item) → items_of k (order items) ≡ items_of k items)
    → (rs : List Resource) (items : List Item) → build_items rs ≡ ok items
    → (k : String)
    → (sends_of k (run_schedule now run order items) ≡ refs_of k rs) × (refs_of k rs ≤ 1)
run_schedule-build_items now run order keeps rs items e k =
    let built = build_items-Resolves rs items e in
    let once = run_schedule-sends k now run order (keeps k) items (built.0 k) in
    let count = built.1 k in (once ∙ count, rw (← count) (built.0 k))
