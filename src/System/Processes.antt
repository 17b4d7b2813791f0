-- ===== src/System/Processes.antt =====
-- system/process.go, and ProcMap of system/system.go: the processes by name, and the answers about
-- one name. The process table (gopsutil) and lo.Uniq are arguments; a process is known by the
-- number under which these describe it.
pub mod Answers
use goss.Base.{
  String, Bool, true, false, Option, none, some, List, [], ◌∷◌, ◌++◌, listed, append_at,
}
use goss.System.{SysProcess}
use goss.Errors.{Error, Result, ok, err, panic}
use goss.Base.Maps.{Dict, lookup}
use goss.Base.Int.{ℤ}

-- What the functions listProcesses, processName, processStatus and processUser return.
pub record ProcessTable : Type 0 where
  pub processes : Result (List ℤ)
  pub name : ℤ → Result String
  pub status : ℤ → Result (List String)
  pub user : ℤ → Result String

-- A map of processes together with the error beside it.
pub record ProcMap : Type 0 where
  pub procs : Dict (List ℤ)
  pub problem : Option Error

module _ (t : ProcessTable) where
  -- The loop of GetProcs: a process without a name is passed over.
  unfoldable pub add_procs : List ℤ → Dict (List ℤ) → Dict (List ℤ)
  add_procs [] pmap = pmap
  add_procs (p ∷ ps) pmap =
      add_procs ps
        (elim (t.name p) [ ok name ↦ append_at name p pmap | err e ↦ pmap | panic ↦ pmap ])

  abbrev pub procs_from : Result (List ℤ) → ProcMap
  procs_from (ok ps) = record { procs = add_procs ps []; problem = none }
  procs_from (err e) = record { procs = []; problem = some e }
  procs_from panic = record { procs = []; problem = none }

  unfoldable pub get_procs : ProcMap
  get_procs = procs_from t.processes

  -- ProcMap, where `kept` is the field procMap, filled once: the error is not kept.
  unfoldable pub proc_map : (kept : Option (Dict (List ℤ))) → Option (Dict (List ℤ)) × ProcMap
  proc_map none = (some get_procs.procs, get_procs)
  proc_map (some procs) = (some procs, record { procs = procs; problem = none })

module _ (t : ProcessTable) (uniq : List String → List String) where
  -- `if p.err != nil`
  abbrev pub unless_unlisted {ℓ} : {A : Type ℓ} → Option Error → A → Result A
  unless_unlisted (some e) a = err e
  unless_unlisted none a = ok a

  abbrev pub has_name : Option (List ℤ) → Bool
  has_name (some ps) = true
  has_name none = false

  unfoldable pub process_running : ProcMap → String → Result Bool
  process_running m executable = unless_unlisted m.problem (has_name (lookup executable m.procs))

  -- The loops of Status and User: a process that cannot be read is passed over.
  unfoldable pub statuses_of : List ℤ → List String
  statuses_of [] = []
  statuses_of (p ∷ ps) = elim (t.status p) [
    | ok s ↦ s ++ statuses_of ps
    | err e ↦ statuses_of ps
    | panic ↦ statuses_of ps
  ]

  unfoldable pub users_of : List ℤ → List String
  users_of [] = []
  users_of (p ∷ ps) = elim (t.user p) [
    | ok u ↦ u ∷ users_of ps
    | err e ↦ users_of ps
    | panic ↦ users_of ps
  ]

  unfoldable pub process_status : ProcMap → String → Result (List String)
  process_status m executable =
      unless_unlisted m.problem (uniq (statuses_of (listed (lookup executable m.procs))))

  unfoldable pub process_user : ProcMap → String → Result (List String)
  process_user m executable =
      unless_unlisted m.problem (uniq (users_of (listed (lookup executable m.procs))))

  -- Pids: a process is known by its number.
  unfoldable pub process_pids : ProcMap → String → Result (List ℤ)
  process_pids m executable = unless_unlisted m.problem (listed (lookup executable m.procs))

  -- NewDefProcess with its getters
  unfoldable pub new_def_process :
      Option (Dict (List ℤ)) → String → Option (Dict (List ℤ)) × SysProcess
  new_def_process kept executable =
      let (kept', m) = proc_map t kept in
      (
        kept',
        record {
          executable = executable;
          exists = process_running m executable;
          pids = process_pids m executable;
          running = process_running m executable;
          status = process_status m executable;
          user = process_user m executable;
        },
      )
