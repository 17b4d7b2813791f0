-- ===== src/Schedule.antt =====
-- dependency_scheduler.go: resources in the order of their dependencies. Build resolves the
-- references, and this module runs the schedule.
-- The maps `status` and `completed` are written together and are one map here. `order` is the order
-- in which the workers of a round finish, and `run` is what Validate returns; `now` is the time.
pub mod Build
pub mod Cycles
pub mod Trace
pub mod Invariant
pub mod Grounds
pub mod Counts
pub mod Once
pub mod Advance
pub mod Deadlock
pub mod Live
pub mod Start
pub mod Finishes
pub mod Results
pub mod Whole
pub mod Tests
use goss.Base.{
  ℕ, zero, suc, String, Bool, true, false, Option, none, some, List, [], ◌∷◌, ◌++◌, if◌then◌else◌,
  length,
}
use goss.Errors.{dependency_failed, unsatisfied_dependency}
use goss.TestResult.{passed, TestResult, Outcome, success, fail, skip, unknown}
use goss.Resource.{skip_resource_results, Resource}
use goss.Base.Maps.{Dict, lookup, insert}

-- scheduledResource
pub record Item : Type 0 where
  pub ref : String
  pub resource : Resource
  pub deps : List String

pub data Cause : Type 0 where
  ran : Cause
  skipped_for : (dep : String) → Cause
  unsatisfied : Cause

-- A send on the channel `out`, with the item and the branch that sent it.
pub record Sent : Type 0 where
  pub item : Item
  pub cause : Cause
  pub results : List TestResult

-- What the loop over an item's dependencies decides.
pub data Gate : Type 0 where
  clear blocked : Gate
  skip_for : (dep : String) → Gate

-- `if skip`, `if blocked`, behind the loop
abbrev pub decide_gate : Option String → Bool → Gate
decide_gate (some dep) is_blocked = skip_for dep
decide_gate none true = blocked
decide_gate none false = clear

-- The loop over the dependencies: one that is not completed ends it, a failed or skipped one is
-- the reason to skip, the last such one counting.
unfoldable pub scan_deps : Dict Outcome → Option String → Bool → List String → Gate
scan_deps done reason is_blocked [] = decide_gate reason is_blocked
scan_deps done reason is_blocked (dep ∷ deps) = elim (lookup dep done) [
  | none ↦ decide_gate reason true
  | some success ↦ scan_deps done reason is_blocked deps
  | some fail ↦ scan_deps done (some dep) is_blocked deps
  | some skip ↦ scan_deps done (some dep) is_blocked deps
  | some unknown ↦ scan_deps done reason true deps
]

unfoldable pub gate : Dict Outcome → Item → Gate
unfolding scan_deps
gate done item = scan_deps done none false item.deps

-- The variables of a round: the newest send stands first in `trace`.
pub record Round : Type 0 where
  pub done : Dict Outcome
  pub trace : List Sent
  pub runnable : List Item
  pub waiting : List Item

abbrev pub status_of : List TestResult → Outcome
status_of results = if passed results then success else fail

-- for _, x := range xs { state = step(state, x) }
abbrev pub each {ℓ κ} : {S : Type ℓ} {A : Type κ} → (S → A → S) → S → List A → S
each step s [] = s
each step s (x ∷ xs) = each step (step s x) xs

module _ (now : ℕ) where
  abbrev pub skip_sent : Item → String → Sent
  skip_sent item dep = record {
    item = item;
    cause = skipped_for dep;
    results = skip_resource_results now item.resource (dependency_failed dep);
  }

  abbrev pub place : Round → Item → Gate → Round
  place r item clear = record r { runnable = r.runnable ++ item ∷ [] }
  place r item blocked = record r { waiting = r.waiting ++ item ∷ [] }
  place r item (skip_for dep) = record r {
    done = insert item.ref skip r.done;
    trace = skip_sent item dep ∷ r.trace;
  }

  -- The body of the loop over `pending`.
  unfoldable pub visit : Round → Item → Round
  unfolding gate
  visit r item = elim (lookup item.ref r.done) [
    | some o ↦ r
    | none ↦ place r item (gate r.done item)
  ]

  abbrev pub left_sent : Item → Sent
  left_sent item = record {
    item = item;
    cause = unsatisfied;
    results = skip_resource_results now item.resource unsatisfied_dependency;
  }

  abbrev pub unsatisfied_sent : List Sent → Item → List Sent
  unsatisfied_sent trace item = left_sent item ∷ trace

  -- The loop over `pending`, with nothing runnable or pending for the next round yet.
  unfoldable pub scan : Round → List Item → Round
  scan r pending = each visit (record r { runnable = []; waiting = [] }) pending

  module _ (run : Resource → List TestResult) where
    abbrev pub ran_sent : Item → Sent
    ran_sent item = record { item = item; cause = ran; results = run item.resource }

    -- A worker's handling of one item.
    unfoldable pub execute : Round → Item → Round
    execute r item = record r {
      done = insert item.ref (status_of (run item.resource)) r.done;
      trace = ran_sent item ∷ r.trace;
    }

    module _ (order : List Item → List Item) where
      -- `for len(pending) > 0`, on fuel: a round that does not end the loop runs some item.
      unfoldable pub rounds : ℕ → Round → List Item → List Sent
      rounds zero r pending = r.trace
      rounds (suc fuel) r [] = r.trace
      rounds (suc fuel) r (p ∷ pending) =
          let r' = scan r (p ∷ pending) in
          elim r'.runnable [
            | [] ↦ each unsatisfied_sent r'.trace r'.waiting
            | i ∷ items ↦ rounds fuel (each execute r' (order (i ∷ items))) r'.waiting
          ]

      abbrev pub start : Round
      start = record { done = []; trace = []; runnable = []; waiting = [] }

      -- The goroutine of validateWithDependencies: all sends, the newest first.
      unfoldable pub run_schedule : List Item → List Sent
      run_schedule schedule = rounds (length schedule) start schedule
