-- ===== src/Run/Whole.antt =====
-- validate.go and outputs/: a run without dependencies, from the merged gossfile to the exit code.
pub mod Tests
use goss.Base.{
  ℕ, zero, suc, ◌+◌, ◌≤◌, String, ◌≡◌, refl, ap, ◌∙◌, Bool, true, false, List, [], ◌∷◌, map, arith,
  eqb, if◌then◌else◌, All,
}
use goss.Errors.{Error, ◌>>=◌, Result, ok}
use goss.Resource.{skip_resource_results, Resource}
use goss.Schedule.{Sent, run_schedule, Item}
use goss.Run.Parallel.{
  sent_by, validate_parallel, worker_count, validate_parallel-sum_of, is_positive,
}
use goss.Run.Start.{run_validation, received}
use goss.Run.Disabled.{apply_disabled_types}
use goss.Schedule.Start.{validate_with_dependencies, build_schedule}
use goss.Schedule.Results.{run_schedule-All}
use goss.Schedule.Build.{has_dependencies}
use goss.Config.{GossConfig, resources}
use goss.Outputs.{Groups, Format, output, failure_code}
use goss.Outputs.Exit.{Clean, fails_in, sum_of, output-exit}
use goss.TestResult.{TestResult}
use goss.Base.Int.{ℤ}

-- The orders in which workers finish and in which results are sorted: they only reorder.
abbrev pub Reorders : {A : Type 0} → (List A → List A) → Type 1
Reorders {A = A} order =
    ((P : A → Type 0) (xs : List A) → All P xs → All P (order xs))
    × ((w : A → ℕ) (xs : List A) → sum_of w (order xs) ≡ sum_of w xs)

All-map :
    (P : List TestResult → Type 0) (run : Resource → List TestResult) (rs : List Resource)
    → All (λ r. P (run r)) rs
    → All P (map run rs)
All-map P run [] h = tt
All-map P run (r ∷ rs) h = (h.0, All-map P run rs h.1)

module _ (order : List Resource → List Resource) (reorders : Reorders order) where
  validate_parallel-All :
      (P : List TestResult → Type 0) (cpus : ℕ) (max_concurrent : ℤ)
      (run : Resource → List TestResult) (rs : List Resource)
      → All (λ r. P (run r)) rs
      → All P (validate_parallel cpus max_concurrent run order rs)
  unfolding validate_parallel
  validate_parallel-All P cpus max_concurrent run rs h = sent (worker_count cpus max_concurrent)
    where
      sent : (n : ℕ) → All P (sent_by n (map run (order rs)))
      sent zero = tt
      sent (suc n) = All-map P run (order rs) (reorders.0 (λ r. P (run r)) rs h)

-- The exit code of `goss validate` for a gossfile without dependencies: if there is a processor, at
-- least one test may run at once, and every resource's results are not empty and have the codes
-- SUCCESS, FAIL or SKIP, then the run returns, and every format ends with the exit code zero if no
-- result of any resource is a FAIL, and with the failure code of the format if one is. The resources
-- are those of the gossfile behind the disabling of types. This holds for all orders of the workers
-- and all sortings of the results that only reorder.
pub run_validation-output :
    (equal_fold : String → String → Bool) (cpus now : ℕ) (run : Resource → List TestResult)
    (order : List Resource → List Resource) (schedule_order : List Item → List Item)
    (range : List String → List String) (sort : Groups → Groups)
    → Reorders order
    → Reorders sort
    → (config : GossConfig) (skips : List String) (max_concurrent : ℤ) (f : Format) (sorting : Bool)
      (rs : List Resource)
    → 1 ≤ cpus
    → is_positive max_concurrent ≡ true
    → apply_disabled_types equal_fold (resources config) skips ≡ rs
    → has_dependencies rs ≡ false
    → All (λ r. Clean (run r)) rs
    → (run_validation equal_fold cpus now run order schedule_order range config skips max_concurrent
        >>= output f sort sorting)
      ≡ ok (if eqb (sum_of (λ r. fails_in (run r)) rs) 0 then 0 else failure_code f)
unfolding run_validation
run_validation-output equal_fold cpus now run order schedule_order range sort reorders sorts config
      skips max_concurrent f sorting rs some_cpu positive these free clean =
    ap (λ qs. chosen (has_dependencies qs) qs) these
    ∙ ap (λ b. chosen b rs) free
    ∙ output-exit sort sorts.0 sorts.1 f sorting
        (validate_parallel cpus max_concurrent run order rs)
        (validate_parallel-All order reorders Clean cpus max_concurrent run rs clean)
    ∙ ap (λ n. ok (if eqb n 0 then 0 else failure_code f))
        (validate_parallel-sum_of order reorders.1 cpus max_concurrent run rs fails_in some_cpu
          ∙ ap (λ b. if b then sum_of (λ r. fails_in (run r)) rs else 0) positive)
  where
    chosen : Bool → List Resource → Result ℕ
    chosen b qs =
        (if b
          then (validate_with_dependencies now run schedule_order range qs >>= λ sent.
              ok (received [] sent))
          else ok (validate_parallel cpus max_concurrent run order qs))
        >>= output f sort sorting

received-sum_of :
    (w : List TestResult → ℕ) (later : Groups) (ss : List Sent)
    → sum_of w (received later ss) ≡ sum_of (λ s. w s.results) ss + sum_of w later
received-sum_of w later [] = omega arith
received-sum_of w later (s ∷ ss) = omega (arith, received-sum_of w (s.results ∷ later) ss)

received-All :
    (P : List TestResult → Type 0) (later : Groups) (ss : List Sent)
    → All (λ s. P s.results) ss
    → All P later
    → All P (received later ss)
received-All P later [] h l = l
received-All P later (s ∷ ss) h l = received-All P (s.results ∷ later) ss h.1 (h.0, l)

skip-Clean : (now : ℕ) (r : Resource) (e : Error) → Clean (skip_resource_results now r e)
unfolding skip_resource_results
skip-Clean now r e = (refl, (refl, tt))

-- The exit code of `goss validate` for a gossfile with dependencies that buildSchedule accepts, where
-- what each validation returns is not empty and has the codes SUCCESS, FAIL or SKIP: the run returns,
-- and every format ends with the exit code zero if no result that the schedule sends is a FAIL, and
-- with the failure code of the format if one is. The resources are those of the gossfile behind the
-- disabling of types. This holds for all orders of the workers of a round and all sortings of the
-- results that only reorder, and for every limit on how many tests run at once.
pub run_validation-output_scheduled :
    (equal_fold : String → String → Bool) (cpus now : ℕ) (run : Resource → List TestResult)
    (order : List Resource → List Resource) (schedule_order : List Item → List Item)
    (range : List String → List String) (sort : Groups → Groups)
    → Reorders schedule_order
    → Reorders sort
    → (config : GossConfig) (skips : List String) (max_concurrent : ℤ) (f : Format) (sorting : Bool)
      (rs : List Resource) (items : List Item)
    → apply_disabled_types equal_fold (resources config) skips ≡ rs
    → has_dependencies rs ≡ true
    → build_schedule range rs ≡ ok items
    → All (λ i. Clean (run i.resource)) items
    → (run_validation equal_fold cpus now run order schedule_order range config skips max_concurrent
        >>= output f sort sorting)
      ≡ ok (
          if eqb (sum_of (λ s. fails_in s.results) (run_schedule now run schedule_order items)) 0
          then 0
          else failure_code f)
unfolding run_validation validate_with_dependencies
run_validation-output_scheduled equal_fold cpus now run order schedule_order range sort reorders
      sorts config skips max_concurrent f sorting rs items these bound built clean =
    ap (λ qs. chosen (has_dependencies qs) qs) these
    ∙ ap (λ b. chosen b rs) bound
    ∙ ap
        (λ s.
          (s >>= λ schedule. ok (run_schedule now run schedule_order schedule))
          >>= (λ sent. ok (received [] sent))
          >>= output f sort sorting)
        built
    ∙ output-exit sort sorts.0 sorts.1 f sorting (received [] sent) (
        received-All Clean [] sent
          (run_schedule-All now run Clean (skip-Clean now) schedule_order reorders.0 items clean)
          tt)
    ∙ ap (λ n. ok (if eqb n 0 then 0 else failure_code f))
        (omega (arith, received-sum_of fails_in [] sent))
  where
    sent : List Sent
    sent = run_schedule now run schedule_order items

    chosen : Bool → List Resource → Result ℕ
    chosen b qs =
        (if b
          then (validate_with_dependencies now run schedule_order range qs >>= λ sent.
              ok (received [] sent))
          else ok (validate_parallel cpus max_concurrent run order qs))
        >>= output f sort sorting
