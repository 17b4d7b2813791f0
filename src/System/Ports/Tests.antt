-- ===== src/System/Ports/Tests.antt =====
-- Two small connection tables.
use goss.Base.{
  ℕ, String, ◌≡◌, refl, ◌≢◌, ◌⊎◌, false, not, none, some, List, [], ◌∷◌, map, eqb, if◌then◌else◌,
  length, keep, All, under,
}
use goss.System.Ports.{
  Connection, Table, PortTables, get_ports, add_conns, new_def_port, normalize_port, split_port,
  sys_port, is_zero_pid, is_found, listening, port_ip,
}
use goss.System.Ports.Answers.{
  sys_port-answers, split_port-normalize_port, all_ports, table_problems,
}
use goss.Errors.{Error, external, ok, err}
use goss.Base.Int.{pos}
use goss.Base.Maps.{lookup, insert}

abbrev digits : ℕ → String
digits n = if eqb n 22 then "22" else "80"

abbrev first_of : List Error → Error
first_of [] = external ""
first_of (e ∷ es) = e

abbrev connection : String → ℕ → String → ℕ → Connection
connection ip port status pid = record { ip = ip; port = port; status = status; pid = pos pid }

abbrev empty_table : Table
empty_table = record { conns = []; problem = none }

abbrev tables : PortTables
tables = record {
  tcp4 = record {
    conns =
        connection "0.0.0.0" 22 "LISTEN" 7
        ∷ connection "10.0.0.1" 80 "ESTABLISHED" 8
        ∷ connection "127.0.0.1" 22 "LISTEN" 0
        ∷ [];
    problem = none;
  };
  tcp6 = empty_table;
  udp4 = record { conns = connection "0.0.0.0" 80 "" 9 ∷ []; problem = none };
  udp6 = empty_table;
}

ssh_listens :
    (sys_port (new_def_port digits first_of tables "22")).ip ≡ ok ("0.0.0.0" ∷ "127.0.0.1" ∷ [])
unfolding new_def_port get_ports add_conns normalize_port split_port lookup insert port_ip
ssh_listens = refl

web_does_not_listen : (sys_port (new_def_port digits first_of tables "tcp:80")).listening ≡ ok false
unfolding new_def_port get_ports add_conns normalize_port split_port lookup insert listening
web_does_not_listen = refl

sys_port-answers_example :
    let found = under (normalize_port "22") (all_ports digits first_of tables) in
    let s = sys_port (new_def_port digits first_of tables "22") in
    (All (λ o. o ≡ none) (table_problems digits first_of tables)
      × ((s.listening ≡ ok (not (eqb (length found) 0)))
          × (s.ip ≡ ok (map (λ c. c.ip) found))
          × (s.pid ≡ ok (keep (λ n. not (is_zero_pid n)) (map (λ c. c.pid) found)))))
    ⊎ ((es : List Error) × (es ≢ [])
        × (map some es ≡ keep is_found (table_problems digits first_of tables))
        × ((s.listening ≡ err (first_of es))
            × (s.ip ≡ err (first_of es))
            × (s.pid ≡ err (first_of es))))
sys_port-answers_example = sys_port-answers digits first_of tables "22"

udp_is_kept : split_port (normalize_port "udp:80") ≡ split_port "udp:80"
udp_is_kept = split_port-normalize_port "udp:80"
