-- ===== src/System/Processes/Answers/Tests.antt =====
-- A small process table, and one that cannot be listed.
use goss.Base.{
  ℕ, String, ◌≡◌, refl, false, not, none, List, [], ◌∷◌, eqb, if◌then◌else◌, length, under,
}
use goss.System.Processes.{
  ProcessTable, new_def_process, statuses_of, users_of, proc_map, get_procs, add_procs,
  process_status,
}
use goss.System.Processes.Answers.{new_def_process-answers, new_def_process-forgets, named_procs}
use goss.Errors.{Error, Result, ok, err, external}
use goss.Base.Int.{ℤ, pos, negsuc}
use goss.Base.Maps.{lookup, insert}

abbrev name_of : ℕ → Result String
name_of n = if eqb n 1 then ok "init" else if eqb n 3 then err (external "gone") else ok "sshd"

abbrev names : ℤ → Result String
names (pos n) = name_of n
names (negsuc n) = ok "sshd"

abbrev small_table : ProcessTable
small_table = record {
  processes = ok (pos 1 ∷ pos 2 ∷ pos 3 ∷ pos 4 ∷ []);
  name = names;
  status = λ p. ok ("sleep" ∷ []);
  user = λ p. ok "root";
}

abbrev no_table : ProcessTable
no_table = record small_table { processes = err (external "no table") }

abbrev all_of_them : List String → List String
all_of_them ts = ts

sshd_sleeps :
    (new_def_process small_table all_of_them none "sshd").1.status ≡ ok ("sleep" ∷ "sleep" ∷ [])
unfolding new_def_process proc_map get_procs add_procs process_status statuses_of lookup insert
sshd_sleeps = refl

new_def_process-answers_example :
    ((ps : List ℤ)
      → (small_table.processes ≡ ok ps)
      → let found = under "sshd" (named_procs small_table ps) in
        let p = (new_def_process small_table all_of_them none "sshd").1 in
        (p.running ≡ ok (not (eqb (length found) 0)))
        × (p.status ≡ ok (all_of_them (statuses_of small_table all_of_them found)))
        × (p.user ≡ ok (all_of_them (users_of small_table all_of_them found))))
    × ((e : Error)
        → (small_table.processes ≡ err e)
        → let p = (new_def_process small_table all_of_them none "sshd").1 in
          (p.running ≡ err e) × (p.status ≡ err e) × (p.user ≡ err e))
new_def_process-answers_example = new_def_process-answers small_table all_of_them "sshd"

error_is_forgotten :
    let (kept, p) = new_def_process no_table all_of_them none "init" in
    let q = (new_def_process no_table all_of_them kept "sshd").1 in
    (p.running ≡ err (external "no table"))
    × (q.running ≡ ok false)
    × (q.status ≡ ok (all_of_them []))
    × (q.user ≡ ok (all_of_them []))
error_is_forgotten =
    new_def_process-forgets no_table all_of_them (external "no table") "init" "sshd" refl
