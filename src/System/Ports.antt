-- ===== src/System/Ports.antt =====
-- system/port.go: the listening ports that the connection tables name, and the answers about one of
-- them. The tables (gopsutil), the decimal digits of a port and errors.Join are arguments.
pub mod Answers
pub mod Tests
use goss.Base.{
  ℕ, String, Bool, true, false, ◌&&◌, not, Option, none, some, List, [], ◌∷◌, map, ◌==◌, eqb,
  if◌then◌else◌, keep, listed, append_at, split_colon,
}
use goss.System.{SysPort}
use goss.Errors.{Error, Result, ok, err}
use goss.Base.Maps.{Dict, lookup}
use goss.Base.Int.{ℤ, pos}
use Prim.Native.String.{◌++◌ as str_append}

-- net.ConnectionStat, the fields that are read
pub record Connection : Type 0 where
  pub ip : String
  pub port : ℕ
  pub status : String
  pub pid : ℤ

-- splitPort
unfoldable pub split_port : String → String × String
split_port full = elim (split_colon full) [
  | some (network, port) ↦ (network, port)
  | none ↦ ("tcp", full)
]

abbrev pub with_colon : String × String → String
with_colon p = str_append p.0 (str_append ":" p.1)

unfoldable pub normalize_port : String → String
normalize_port full = with_colon (split_port full)

-- A table, and the error of reading it: what could be read comes with the error.
pub record Table : Type 0 where
  pub conns : List Connection
  pub problem : Option Error

pub record PortTables : Type 0 where
  pub tcp4 : Table
  pub tcp6 : Table
  pub udp4 : Table
  pub udp6 : Table

-- DefPort
pub record DefPort : Type 0 where
  pub port : String
  pub sys_ports : Dict (List Connection)
  pub problem : Option Error

module _ (format_uint : ℕ → String) (join : List Error → Error) where
  -- addConns, its loop
  unfoldable pub add_conns :
      (prefix : String)
      → (listen_only : Bool) → List Connection
      → Dict (List Connection)
      → Dict (List Connection)
  add_conns prefix listen_only [] ports = ports
  add_conns prefix listen_only (entry ∷ conns) ports = add_conns prefix listen_only conns (
      if listen_only && not (entry.status == "LISTEN")
      then ports
      else append_at (with_colon (prefix, format_uint entry.port)) entry ports)

  abbrev pub problems : List (Option Error) → List Error
  problems [] = []
  problems (some e ∷ errs) = e ∷ problems errs
  problems (none ∷ errs) = problems errs

  abbrev pub joined : List Error → Option Error
  joined [] = none
  joined (e ∷ es) = some (join (e ∷ es))

  unfoldable pub get_ports : PortTables → Dict (List Connection) × Option Error
  get_ports t = (
    add_conns "udp6" false t.udp6.conns (
        add_conns "udp" false t.udp4.conns
          (add_conns "tcp6" true t.tcp6.conns (add_conns "tcp" true t.tcp4.conns []))),
    joined (problems (t.tcp4.problem ∷ t.tcp6.problem ∷ t.udp4.problem ∷ t.udp6.problem ∷ [])),
  )

  -- NewDefPort
  unfoldable pub new_def_port : PortTables → String → DefPort
  new_def_port t port =
      let found = get_ports t in
      record { port = normalize_port port; sys_ports = found.0; problem = found.1 }

-- `if p.err != nil`
abbrev pub unless_failed {ℓ} : {A : Type ℓ} → Option Error → A → Result A
unless_failed (some e) a = err e
unless_failed none a = ok a

abbrev pub is_found {ℓ} : {A : Type ℓ} → Option A → Bool
is_found (some a) = true
is_found none = false

unfoldable pub listening : DefPort → Result Bool
listening p = unless_failed p.problem (is_found (lookup p.port p.sys_ports))

unfoldable pub port_ip : DefPort → Result (List String)
port_ip p = unless_failed p.problem (map (λ e. e.ip) (listed (lookup p.port p.sys_ports)))

abbrev pub is_zero_pid : ℤ → Bool
is_zero_pid (pos n) = eqb n 0
is_zero_pid _ = false

-- PID: an owner that is not known is left out.
unfoldable pub port_pid : DefPort → Result (List ℤ)
port_pid p =
    unless_failed p.problem
      (keep (λ n. not (is_zero_pid n)) (map (λ e. e.pid) (listed (lookup p.port p.sys_ports))))

abbrev pub sys_port : DefPort → SysPort
sys_port p = record {
  port = p.port;
  exists = listening p;
  listening = listening p;
  ip = port_ip p;
  pid = port_pid p;
}
