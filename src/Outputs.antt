-- ===== src/Outputs.antt =====
-- outputs/*.go: what each output format counts and the exit code that it returns, over the groups of
-- results in the order in which they arrive. What is written is outside this module, except where
-- writing it panics. `sort` is sort.Slice on the groups, by the sort key of their first result.
pub mod Exit
pub mod Overall
pub mod Tests
use goss.Base.{ℕ, zero, suc, Bool, true, false, ◌&&◌, List, [], ◌∷◌, if◌then◌else◌, any_of}
use goss.TestResult.{is_fail, to_outcome, TestResult, Outcome, success, fail, skip, unknown}
use goss.Errors.{panic, ok, ◌>>=◌, Result}

pub data Format : Type 0 where
  documentation json junit nagios prometheus rspecish silent structured tap : Format

-- testCount, failed and skipped
pub record Tally : Type 0 where
  pub tests : ℕ
  pub failed : ℕ
  pub skips : ℕ

abbrev pub nothing_counted : Tally
nothing_counted = record { tests = 0; failed = 0; skips = 0 }

abbrev pub Groups : Type 0
Groups = List (List TestResult)

abbrev plus : Bool → ℕ → ℕ
plus true n = suc n
plus false n = n

abbrev is_skip : Outcome → Bool
is_skip skip = true
is_skip o = false

abbrev pub is_unknown : Outcome → Bool
is_unknown unknown = true
is_unknown o = false

-- switch testResult.Result
abbrev count_outcome : Outcome → Tally → Tally
count_outcome o n = record {
  tests = suc n.tests;
  failed = plus (is_fail o) n.failed;
  skips = plus (is_skip o) n.skips;
}

-- Json counts the field Skipped, and not the code SKIP; Tap and Structured count no skipped results,
-- Silent counts failures alone, and Prometheus has counters of its own.
abbrev pub counted : Format → TestResult → Tally → Tally
counted json t n = record {
  tests = suc n.tests;
  failed = plus (is_fail t.result) n.failed;
  skips = plus t.skipped n.skips;
}
counted tap t n = record n { tests = suc n.tests; failed = plus (is_fail t.result) n.failed }
counted structured t n = record n { tests = suc n.tests; failed = plus (is_fail t.result) n.failed }
counted silent t n = record n { failed = plus (is_fail t.result) n.failed }
counted prometheus t n = n
counted f t n = count_outcome t.result n

-- The formats that write every result by humanizeResult, which panics on a code that is none of the
-- three; Tap has a panic of its own. The others pass over such a result.
abbrev pub writes_all : Format → Bool
writes_all json = true
writes_all junit = true
writes_all structured = true
writes_all tap = true
writes_all f = false

-- The body of the loop over a group's results.
abbrev pub count_result : Format → TestResult → Tally → Result Tally
count_result f t n = if is_unknown t.result && writes_all f then panic else ok (counted f t n)

unfoldable pub count_results : Format → List TestResult → Tally → Result Tally
count_results f [] n = ok n
count_results f (t ∷ ts) n = count_result f t n >>= count_results f ts

-- Documentation takes resultGroup[0] for the header.
abbrev pub count_group : Format → List TestResult → Tally → Result Tally
count_group documentation [] n = panic
count_group f ts n = count_results f ts n

unfoldable pub count_groups : Format → Groups → Tally → Result Tally
count_groups f [] n = ok n
count_groups f (g ∷ gs) n = count_group f g n >>= count_groups f gs

abbrev pub is_sortable : Format → Bool
is_sortable nagios = false
is_sortable silent = false
is_sortable prometheus = false
is_sortable f = true

abbrev pub is_empty : List TestResult → Bool
is_empty [] = true
is_empty (t ∷ ts) = false

-- getResults: the comparison takes the first result of both groups.
abbrev pub get_results : (Groups → Groups) → Bool → Groups → Result Groups
get_results sort false gs = ok gs
get_results sort true [] = ok (sort [])
get_results sort true (g ∷ []) = ok (sort (g ∷ []))
get_results sort true (g ∷ h ∷ gs) =
    if any_of is_empty (g ∷ h ∷ gs) then panic else ok (sort (g ∷ h ∷ gs))

abbrev pub failure_code : Format → ℕ
failure_code nagios = 2
failure_code structured = 0
failure_code prometheus = 0
failure_code f = 1

-- if failed > 0
abbrev pub exit_of : Format → ℕ → ℕ
exit_of f zero = 0
exit_of f (suc n) = failure_code f

-- Output, to its exit code. Prometheus can also return -1, when its registry or its encoder fails.
unfoldable pub output : Format → (Groups → Groups) → (sorting : Bool) → Groups → Result ℕ
output f sort sorting gs = do
  sorted ← get_results sort (is_sortable f && sorting) gs
  n ← count_groups f sorted nothing_counted
  ok (exit_of f n.failed)

-- canChangeOverallOutcome
abbrev pub can_change : Outcome → Outcome → Bool
can_change skip result = true
can_change fail result = false
can_change success skip = false
can_change success result = true
can_change unknown fail = true
can_change unknown result = false

-- Prometheus.Output: the outcome of a run. The first result of every group replaces it.
abbrev pub rest_outcome : Outcome → List TestResult → Outcome
rest_outcome o [] = o
rest_outcome o (t ∷ ts) = rest_outcome (if can_change o (t.result) then t.result else o) ts

abbrev pub group_outcome : Outcome → List TestResult → Outcome
group_outcome o [] = o
group_outcome o (t ∷ ts) = rest_outcome (t.result) ts

unfoldable pub overall_outcome : Outcome → Groups → Outcome
overall_outcome o [] = o
overall_outcome o (g ∷ gs) = overall_outcome (group_outcome o g) gs
