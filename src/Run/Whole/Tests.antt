-- ===== src/Run/Whole/Tests.antt =====
-- validate.go: the theorems on whole runs, tried on gossfiles with and without dependencies.
use goss.Schedule.Build.{has_dependencies, has_dependencies}
use goss.Base.{◌≡◌, refl, true, false, List, [], ◌∷◌, arith, eqb, if◌then◌else◌, ◌==◌}
use goss.Run.Whole.{Reorders, run_validation-output, run_validation-output_scheduled}
use goss.Run.Start.{run_validation}
use goss.Run.Disabled.{apply_disabled_types}
use goss.Schedule.{run_schedule}
use goss.Schedule.Tests.{needing_file, files, files_items}
use goss.Schedule.Cycles.Tests.{files_build, as_listed}
use goss.Config.{GossConfig, new_goss_config, no_sections, resources, resources_of}
use goss.Outputs.{output, json, nagios, failure_code}
use goss.Outputs.Exit.{fails_in, sum_of}
use goss.Resource.{Resource}
use goss.TestResult.{TestResult, success, fail}
use goss.Samples.{unset, sample_file, absent_file}
use goss.Errors.{ok, ◌>>=◌}
use goss.Base.Int.{pos}
use goss.Base.Maps.{Dict}
use goss.Kinds.{FileResource}

abbrev same_list : {A : Type 0} → List A → List A
same_list xs = xs

same_list-Reorders : {A : Type 0} → Reorders {A = A} same_list
same_list-Reorders = ((λ P xs h. h), λ w xs. refl)

abbrev one_failure : Resource → List TestResult
one_failure r = record unset { result = fail } ∷ record unset { result = success } ∷ []

abbrev config_of : Dict FileResource → GossConfig
config_of fs = record new_goss_config { sections = record no_sections { files = fs } }

abbrev alone : GossConfig
alone = config_of (("/etc/none", sample_file "/etc/none" false) ∷ [])

alone_is_read : apply_disabled_types ◌==◌ (resources alone) [] ≡ absent_file ∷ []
unfolding apply_disabled_types resources resources_of
alone_is_read = refl

alone_is_free : has_dependencies (absent_file ∷ []) ≡ false
unfolding has_dependencies
alone_is_free = refl

together_is_bound : has_dependencies files ≡ true
unfolding has_dependencies
together_is_bound = refl

run_validation-output_example :
    (run_validation ◌==◌ 2 0 one_failure same_list same_list as_listed alone [] (pos 50)
      >>= output nagios same_list true)
    ≡ ok 2
run_validation-output_example =
    run_validation-output ◌==◌ 2 0 one_failure same_list same_list as_listed same_list
      same_list-Reorders same_list-Reorders alone [] (pos 50) nagios true (absent_file ∷ [])
      (omega arith) refl alone_is_read alone_is_free ((refl, (refl, (refl, tt))), tt)

abbrev bound_together : GossConfig
bound_together = config_of (
    ("/b", needing_file "/b" ("/a" ∷ []))
    ∷ ("/a", needing_file "/a" [])
    ∷ ("/c", needing_file "/c" ("file:/a" ∷ []))
    ∷ [])

together_is_read : apply_disabled_types ◌==◌ (resources bound_together) [] ≡ files
unfolding apply_disabled_types resources resources_of
together_is_read = refl

-- Two results of the three resources are skips.
run_validation-output_scheduled_example :
    (run_validation ◌==◌ 2 0 one_failure same_list same_list as_listed bound_together [] (pos 50)
      >>= output json same_list false)
    ≡ ok (
        if eqb
          (sum_of (λ s. fails_in s.results) (run_schedule 0 one_failure same_list files_items))
          0
        then 0
        else failure_code json)
run_validation-output_scheduled_example =
    run_validation-output_scheduled ◌==◌ 2 0 one_failure same_list same_list as_listed same_list
      same_list-Reorders same_list-Reorders bound_together [] (pos 50) json false files files_items
      together_is_read together_is_bound files_build
      ((refl, (refl, (refl, tt))), ((refl, (refl, (refl, tt))), ((refl, (refl, (refl, tt))), tt)))
