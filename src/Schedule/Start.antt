-- ===== src/Schedule/Start.antt =====
-- dependency_scheduler.go: buildSchedule with its call of detectDependencyCycles, and
-- validateWithDependencies, which starts the run of a schedule. What it returns are the sends of
-- its goroutine, the newest first.
use goss.Errors.{ok, ◌>>=◌, Result}
use goss.TestResult.{TestResult}
use goss.Base.{ℕ, String, List}
use goss.Resource.{Resource}
use goss.Schedule.{Item, Sent, run_schedule}
use goss.Schedule.Build.{build_items}
use goss.Schedule.Cycles.{detect_dependency_cycles}

unfoldable pub build_schedule : (List String → List String) → List Resource → Result (List Item)
build_schedule range resources = do
  schedule ← build_items resources
  sound ← detect_dependency_cycles range schedule
  ok schedule

unfoldable pub validate_with_dependencies :
    ℕ
    → (Resource → List TestResult)
    → (List Item → List Item)
    → (List String → List String)
    → List Resource
    → Result (List Sent)
validate_with_dependencies now run order range resources = do
  schedule ← build_schedule range resources
  ok (run_schedule now run order schedule)
