-- ===== src/Outputs/Tests.antt =====
-- Runs of the output formats on two groups of results.
use goss.Outputs.Exit.{output-exit, fails_in, sum_of}
use goss.Outputs.{
  failure_code, count_results, count_groups, Groups, output, overall_outcome, json, nagios,
  structured,
}
use goss.Samples.{unset}
use goss.Outputs.Overall.{overall_last_group}
use goss.Errors.{ok, panic}
use goss.TestResult.{TestResult, success, fail, unknown}
use goss.Base.{◌≡◌, refl, true, [], ◌∷◌, ◌++◌, eqb, if◌then◌else◌}

abbrev passing : TestResult
passing = record unset { result = success }

abbrev failing : TestResult
failing = record unset { result = fail }

abbrev two_groups : Groups
two_groups = (failing ∷ passing ∷ []) ∷ (passing ∷ []) ∷ []

abbrev unsorted : Groups → Groups
unsorted gs = gs

output-exit_example :
    output nagios unsorted true two_groups
    ≡ ok (if eqb (sum_of fails_in two_groups) 0 then 0 else failure_code nagios)
output-exit_example =
    output-exit unsorted (λ P gs h. h) (λ w gs. refl) nagios true two_groups
      ((refl, (refl, (refl, tt))), ((refl, (refl, tt)), tt))

nagios_is_critical : output nagios unsorted true two_groups ≡ ok 2
unfolding output count_groups count_results
nagios_is_critical = refl

structured_says_nothing : output structured unsorted true two_groups ≡ ok 0
unfolding output count_groups count_results
structured_says_nothing = refl

-- A group without results, which a service without properties gives.
sorting_an_empty_group : output json unsorted true ((passing ∷ []) ∷ [] ∷ []) ≡ panic
unfolding output
sorting_an_empty_group = refl

last_group_decides :
    overall_outcome unknown (((failing ∷ []) ∷ []) ++ (passing ∷ []) ∷ [])
    ≡ overall_outcome unknown ((passing ∷ []) ∷ [])
last_group_decides = overall_last_group unknown ((failing ∷ []) ∷ []) passing []

failures_pass : overall_outcome unknown two_groups ≡ success
unfolding overall_outcome
failures_pass = refl
