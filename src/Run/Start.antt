-- ===== src/Run/Start.antt =====
-- validate.go: runValidation. What it returns are the groups of results in the order in which they
-- are sent; `run` is what Validate returns, `order` and `schedule_order` are the orders in which the
-- workers finish, and `range` is the order in which Go visits a map.
use goss.Base.{ℕ, String, Bool, List, [], ◌∷◌, if◌then◌else◌}
use goss.Run.Disabled.{apply_disabled_types}
use goss.Run.Parallel.{validate_parallel}
use goss.Schedule.Build.{has_dependencies}
use goss.Schedule.Start.{validate_with_dependencies}
use goss.Schedule.{Item, Sent}
use goss.Config.{GossConfig, resources}
use goss.Outputs.{Groups}
use goss.Resource.{Resource}
use goss.TestResult.{TestResult}
use goss.Errors.{◌>>=◌, Result, ok}
use goss.Base.Int.{ℤ}

-- The channel `out` of a schedule, whose sends stand the newest first.
abbrev pub received : Groups → List Sent → Groups
received later [] = later
received later (s ∷ ss) = received (s.results ∷ later) ss

module _ (equal_fold : String → String → Bool) (cpus now : ℕ) (run : Resource → List TestResult)
    (order : List Resource → List Resource) (schedule_order : List Item → List Item)
    (range : List String → List String) where
  unfoldable pub run_validation :
      GossConfig → (skips : List String) (max_concurrent : ℤ) → Result Groups
  run_validation config skips max_concurrent =
      let rs = apply_disabled_types equal_fold (resources config) skips in
      if has_dependencies rs
      then (do
        sent ← validate_with_dependencies now run schedule_order range rs
        ok (received [] sent))
      else ok (validate_parallel cpus max_concurrent run order rs)
