-- ===== src/System/Ports/Answers.antt =====
-- The answers about a port, read off the connection tables.
use goss.Base.{
  ℕ, String, ◌≡◌, refl, sym, ap, ◌∙◌, ◌≢◌, ◌⊎◌, inl, inr, Bool, true, false, not, Option, none,
  some, List, [], ◌∷◌, ◌++◌, map, arith, ◌==◌, eqb, Bool-cases, List-cases, Option-cases, length,
  keep, All, listed, append_at, group, under, extended, lookup-group, split_colon,
  split_colon-joins, split_colon-join, keep-cons,
}
use goss.System.Ports.{
  Connection, Table, PortTables, with_colon, add_conns, get_ports, new_def_port, listening, port_ip,
  port_pid, sys_port, normalize_port, split_port, is_zero_pid, is_found, problems, joined,
}
use mathlib.Core.List.{append_assoc}
use goss.Errors.{Error, ok, err}
use goss.Base.Maps.{Dict, lookup}

group-append :
    {V : Type 0} (xs ys : List (String × V)) (m : Dict (List V))
    → group (xs ++ ys) m ≡ group ys (group xs m)
group-append [] ys m = refl
group-append ((k, v) ∷ xs) ys m = group-append xs ys (append_at k v m)

abbrev pub is_counted : (listen_only : Bool) → Connection → Bool
is_counted true c = c.status == "LISTEN"
is_counted false c = true

module _ (format_uint : ℕ → String) (join : List Error → Error) where
  -- The connections of a table that count, each under the name of its port.
  abbrev pub ports_of :
      (prefix : String) → (listen_only : Bool) → Table → List (String × Connection)
  ports_of prefix listen_only t =
      map (λ c. (with_colon (prefix, format_uint c.port), c))
        (keep (is_counted listen_only) t.conns)

  abbrev pub all_ports : PortTables → List (String × Connection)
  all_ports t =
      ports_of "tcp" true t.tcp4
      ++ (ports_of "tcp6" true t.tcp6
          ++ (ports_of "udp" false t.udp4 ++ ports_of "udp6" false t.udp6))

  add_conns-group :
      (prefix : String) (only : Bool) (conns : List Connection) (problem : Option Error)
      → (m : Dict (List Connection))
      → add_conns format_uint join prefix only conns m
        ≡ group (ports_of prefix only (record { conns = conns; problem = problem })) m
  unfolding add_conns
  add_conns-group prefix only [] problem m = refl
  add_conns-group prefix false (c ∷ conns) problem m =
      add_conns-group prefix false conns problem
        (append_at (with_colon (prefix, format_uint c.port)) c m)
  add_conns-group prefix true (c ∷ conns) problem m = elim (Bool-cases (c.status == "LISTEN")) [
    | inl listens ↦ rw listens (
        add_conns-group prefix true conns problem
          (append_at (with_colon (prefix, format_uint c.port)) c m)
        ∙ ap (λ cs. group (map (λ c. (with_colon (prefix, format_uint c.port), c)) cs) m)
            (sym (keep-cons (is_counted true) c conns true listens)))
    | inr other ↦ rw other (
        add_conns-group prefix true conns problem m
        ∙ ap (λ cs. group (map (λ c. (with_colon (prefix, format_uint c.port), c)) cs) m)
            (sym (keep-cons (is_counted true) c conns false other)))
  ]

  lookup-get_ports :
      (t : PortTables) (k : String)
      → lookup k (get_ports format_uint join t).0 ≡ extended none (under k (all_ports t))
  unfolding get_ports lookup
  lookup-get_ports t k =
      let tcp = ports_of "tcp" true t.tcp4 in
      let tcp6 = ports_of "tcp6" true t.tcp6 in
      let udp = ports_of "udp" false t.udp4 in
      let udp6 = ports_of "udp6" false t.udp6 in
      ap (lookup k) (
        add_conns-group "udp6" false t.udp6.conns t.udp6.problem _
        ∙ ap (group udp6) (
            add_conns-group "udp" false t.udp4.conns t.udp4.problem _
            ∙ ap (group udp) (
                add_conns-group "tcp6" true t.tcp6.conns t.tcp6.problem _
                ∙ ap (group tcp6) (add_conns-group "tcp" true t.tcp4.conns t.tcp4.problem []))
            ∙ sym (group-append tcp6 udp (group tcp [])))
        ∙ sym (group-append (tcp6 ++ udp) udp6 (group tcp []))
        ∙ ap (λ es. group es (group tcp [])) (append_assoc tcp6 udp udp6)
        ∙ sym (group-append tcp (tcp6 ++ (udp ++ udp6)) []))
      ∙ lookup-group k (all_ports t) []

  extended-facts :
      (xs : List Connection)
      → (is_found (extended none xs) ≡ not (eqb (length xs) 0)) × (listed (extended none xs) ≡ xs)
  extended-facts [] = (refl, refl)
  extended-facts (x ∷ xs) = (ground arith, refl)

  some-problems :
      (os : List (Option Error)) → map some (problems format_uint join os) ≡ keep is_found os
  some-problems [] = refl
  some-problems (some e ∷ os) =
      ap (λ es. some e ∷ es) (some-problems os) ∙ sym (keep-cons is_found (some e) os true refl)
  some-problems (none ∷ os) = some-problems os ∙ sym (keep-cons is_found none os false refl)

  problems-eq-nil :
      (os : List (Option Error)) → problems format_uint join os ≡ [] → All (λ o. o ≡ none) os
  problems-eq-nil [] e = tt
  problems-eq-nil (some x ∷ os) e = absurd (cc e)
  problems-eq-nil (none ∷ os) e = (refl, problems-eq-nil os e)

  -- No table failed, or the errors of those that did are joined.
  problem_of :
      (os : List (Option Error))
      → (All (λ o. o ≡ none) os × (joined format_uint join (problems format_uint join os) ≡ none))
        ⊎ ((es : List Error) × (es ≢ [])
            × (map some es ≡ keep is_found os)
            × (joined format_uint join (problems format_uint join os) ≡ some (join es)))
  problem_of os = elim (List-cases (problems format_uint join os)) [
    | inl fine ↦ inl (problems-eq-nil os fine, ap (joined format_uint join) fine)
    | inr (e, es, bad) ↦ inr (
      e ∷ es,
      (λ q. cc q),
      ap (map some) (sym bad) ∙ some-problems os,
      ap (joined format_uint join) bad,
    )
  ]

  abbrev pub table_problems : PortTables → List (Option Error)
  table_problems t = t.tcp4.problem ∷ t.tcp6.problem ∷ t.udp4.problem ∷ t.udp6.problem ∷ []

  -- What the three properties of a port answer: if none of the four tables has an error, then they
  -- tell of exactly the connections that stand under the port's name, those of TCP only while they
  -- listen; otherwise all three are the join of the errors that the tables have, in their order.
  pub sys_port-answers :
      (t : PortTables) (port : String)
      → let found = under (normalize_port port) (all_ports t) in
        let s = sys_port (new_def_port format_uint join t port) in
        (All (λ o. o ≡ none) (table_problems t)
          × ((s.listening ≡ ok (not (eqb (length found) 0)))
              × (s.ip ≡ ok (map (λ c. c.ip) found))
              × (s.pid ≡ ok (keep (λ n. not (is_zero_pid n)) (map (λ c. c.pid) found)))))
        ⊎ ((es : List Error) × (es ≢ [])
            × (map some es ≡ keep is_found (table_problems t))
            × ((s.listening ≡ err (join es)) × (s.ip ≡ err (join es)) × (s.pid ≡ err (join es))))
  unfolding new_def_port listening port_ip port_pid get_ports
  sys_port-answers t port =
      let found = under (normalize_port port) (all_ports t) in
      let looked = lookup-get_ports t (normalize_port port) in
      let (some_there, all_there) = extended-facts found in
      elim (problem_of (table_problems t)) [
        | inl (none_fails, fine) ↦ inl (
          none_fails,
          (
            rw fine (ap (λ o. ok (is_found o)) looked ∙ ap ok some_there),
            rw fine (
                ap (λ o. ok (map (λ c. c.ip) (listed o))) looked
                ∙ ap (λ xs. ok (map (λ c. c.ip) xs)) all_there),
            rw fine (
                ap (λ o. ok (keep (λ n. not (is_zero_pid n)) (map (λ c. c.pid) (listed o)))) looked
                ∙ ap (λ xs. ok (keep (λ n. not (is_zero_pid n)) (map (λ c. c.pid) xs))) all_there),
          ),
        )
        | inr (es, some_fails, named, bad) ↦
            inr (es, some_fails, named, (rw bad refl, rw bad refl, rw bad refl))
      ]

-- Normalizing keeps the network and the port that are meant: the network is tcp if none is named.
pub split_port-normalize_port : (s : String) → split_port (normalize_port s) ≡ split_port s
unfolding normalize_port split_port
split_port-normalize_port s = elim (Option-cases (split_colon s)) [
  | inl bare ↦
      rw (bare, split_port)
        (ap (λ o. elim o [ some p ↦ p | none ↦ ("tcp", normalize_port s) ])
          (split_colon-join "tcp" s refl))
  | inr ((network, port), e) ↦
      rw (e, split_port) (rw (split_colon-joins s network port e) (rw e refl))
]
