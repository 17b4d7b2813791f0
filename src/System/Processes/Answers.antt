-- ===== src/System/Processes/Answers.antt =====
-- The answers about processes, read off the process table.
pub mod Tests
use goss.System.Processes.{
  unless_unlisted, procs_from, ProcessTable, ProcMap, add_procs, get_procs, proc_map,
  new_def_process, process_running, process_status, process_user, has_name, statuses_of, users_of,
}
use goss.Base.{
  String, ◌≡◌, refl, ap, ◌∙◌, inl, inr, false, not, none, some, List, [], ◌∷◌, arith, eqb, length,
  listed, append_at, group, under, extended, lookup-group,
}
use goss.System.{SysProcess}
use goss.Errors.{Error, Result, ok, err, panic, Result-cases}
use goss.Base.Maps.{Dict, lookup}
use goss.Base.Int.{ℤ}

module _ (t : ProcessTable) where
  abbrev pub with_name : ℤ → Result String → List (String × ℤ) → List (String × ℤ)
  with_name p (ok name) rest = (name, p) ∷ rest
  with_name p (err e) rest = rest
  with_name p panic rest = rest

  -- The processes that have a name, with it.
  abbrev pub named_procs : List ℤ → List (String × ℤ)
  named_procs [] = []
  named_procs (p ∷ ps) = with_name p (t.name p) (named_procs ps)

  add_procs-group : (ps : List ℤ) (m : Dict (List ℤ)) → add_procs t ps m ≡ group (named_procs ps) m
  unfolding add_procs
  add_procs-group [] m = refl
  add_procs-group (p ∷ ps) m = elim (Result-cases (t.name p)) [
    | inl (name, e) ↦ rw e (add_procs-group ps (append_at name p m))
    | inr (inl (x, e)) ↦ rw e (add_procs-group ps m)
    | inr (inr e) ↦ rw e (add_procs-group ps m)
  ]

  has_name-extended :
      (uniq : List String → List String) (xs : List ℤ)
      → (has_name t uniq (extended none xs) ≡ not (eqb (length xs) 0))
        × (listed (extended none xs) ≡ xs)
  has_name-extended uniq [] = (refl, refl)
  has_name-extended uniq (x ∷ xs) = (ground arith, refl)

  found-answers :
      (uniq : List String → List String) (executable : String) (m : ProcMap) (found : List ℤ)
      → (m.problem ≡ none)
      → (lookup executable m.procs ≡ extended none found)
      → (process_running t uniq m executable ≡ ok (not (eqb (length found) 0)))
        × (process_status t uniq m executable ≡ ok (uniq (statuses_of t uniq found)))
        × (process_user t uniq m executable ≡ ok (uniq (users_of t uniq found)))
  unfolding process_running process_status process_user
  found-answers uniq executable m found fine looked =
      let (some_there, all_there) = has_name-extended uniq found in
      (
        ap (λ o. unless_unlisted t uniq o (has_name t uniq (lookup executable m.procs))) fine
            ∙ ap (λ o. ok (has_name t uniq o)) looked
            ∙ ap ok some_there,
        ap
              (λ o.
                unless_unlisted t uniq o
                  (uniq (statuses_of t uniq (listed (lookup executable m.procs)))))
              fine
            ∙ ap (λ o. ok (uniq (statuses_of t uniq (listed o)))) looked
            ∙ ap (λ xs. ok (uniq (statuses_of t uniq xs))) all_there,
        ap
              (λ o.
                unless_unlisted t uniq o
                  (uniq (users_of t uniq (listed (lookup executable m.procs)))))
              fine
            ∙ ap (λ o. ok (uniq (users_of t uniq (listed o)))) looked
            ∙ ap (λ xs. ok (uniq (users_of t uniq xs))) all_there,
      )

  failed-answers :
      (uniq : List String → List String) (executable : String) (m : ProcMap) (e : Error)
      → (m.problem ≡ some e)
      → (process_running t uniq m executable ≡ err e)
        × (process_status t uniq m executable ≡ err e)
        × (process_user t uniq m executable ≡ err e)
  unfolding process_running process_status process_user
  failed-answers uniq executable m e bad = (
    ap (λ o. unless_unlisted t uniq o (has_name t uniq (lookup executable m.procs))) bad,
    ap
        (λ o.
          unless_unlisted t uniq o (uniq (statuses_of t uniq (listed (lookup executable m.procs)))))
        bad,
    ap (λ o. unless_unlisted t uniq o (uniq (users_of t uniq (listed (lookup executable m.procs)))))
        bad,
  )

  -- What the first process test of a run answers: if the process table could be listed, then its
  -- three properties tell of exactly the processes of that name, those without a readable name left
  -- out; otherwise all three are the error.
  pub new_def_process-answers :
      (uniq : List String → List String) (executable : String)
      → ((ps : List ℤ)
          → (t.processes ≡ ok ps)
          → let found = under executable (named_procs ps) in
            let p = (new_def_process t uniq none executable).1 in
            (p.running ≡ ok (not (eqb (length found) 0)))
            × (p.status ≡ ok (uniq (statuses_of t uniq found)))
            × (p.user ≡ ok (uniq (users_of t uniq found))))
        × ((e : Error)
            → (t.processes ≡ err e)
            → let p = (new_def_process t uniq none executable).1 in
              (p.running ≡ err e) × (p.status ≡ err e) × (p.user ≡ err e))
  unfolding new_def_process proc_map get_procs lookup
  new_def_process-answers uniq executable = (
    (λ ps all.
        found-answers uniq executable (procs_from t t.processes) (under executable (named_procs ps))
          (ap (λ r. (procs_from t r).problem) all)
          (ap (λ r. lookup executable (procs_from t r).procs) all
            ∙ ap (lookup executable) (add_procs-group ps [])
            ∙ lookup-group executable (named_procs ps) [])),
    λ e failed.
        failed-answers uniq executable (procs_from t t.processes) e
          (ap (λ r. (procs_from t r).problem) failed),
  )

  -- An error is reported once: if the process table cannot be listed, then the first process test of
  -- a run gives the error, and every later one finds, without an error, that its process is not
  -- running, that it has no status and no user.
  pub new_def_process-forgets :
      (uniq : List String → List String) (e : Error) (one other : String)
      → (t.processes ≡ err e)
      → let (kept, p) = new_def_process t uniq none one in
        let q = (new_def_process t uniq kept other).1 in
        (p.running ≡ err e)
        × (q.running ≡ ok false)
        × (q.status ≡ ok (uniq []))
        × (q.user ≡ ok (uniq []))
  unfolding new_def_process proc_map get_procs lookup statuses_of users_of
  new_def_process-forgets uniq e one other failed =
      let first =
        failed-answers uniq one (procs_from t t.processes) e
          (ap (λ r. (procs_from t r).problem) failed) in
      let later =
        found-answers uniq other
          (record { procs = (procs_from t t.processes).procs; problem = none }) [] refl
          (ap (λ r. lookup other (procs_from t r).procs) failed) in
      (first.0, later.0, later.1, later.2)
