-- ===== src/Add/Auto.antt =====
-- add.go: AutoAddResource, which tries the kinds of test in turn.
use goss.Base.{◌-◌, String, Bool, true, false, ◌||◌, List, [], ◌∷◌, ◌++◌, ltb, eqb, if◌then◌else◌}
use goss.Add.Maps.{
  with_packages, with_services, with_files, with_groups, with_ports, with_users, with_processes,
}
use goss.ResourceMaps.Kinds.{
  package_map_kind, service_map_kind, file_map_kind, group_map_kind, port_map_kind, user_map_kind,
  process_map_kind,
}
use goss.ResourceMaps.Getters.{or_zero}
use goss.ResourceMaps.IfExists.{
  append_file_if_exists, append_user_if_exists, append_group_if_exists, append_service_if_exists,
  append_package_if_exists, append_port_if_exists, append_process_if_exists,
}
use goss.System.{SysProcess, System}
use goss.Add.{Announcement, Session, resource_print}
use goss.Options.{RuntimeConfig}
use goss.Config.{GossConfig}
use goss.Base.Maps.{Dict}
use goss.ResourceMaps.{AddHost, MapKind}
use goss.Errors.{Result, ok, ◌>>=◌}
use goss.Base.Int.{ℤ, pos, negsuc}
use goss.System.Ports.{Connection}
use Prim.Native.Nat.{◌%◌}
use Prim.Native.Char.{code}

-- int32(n) on an int: the two's complement of the low 32 bits
unfoldable pub int32 : ℤ → ℤ
int32 (pos n) =
    let low = n % 0x100000000 in if ltb low 0x80000000 then pos low else negsuc (0xffffffff - low)
int32 (negsuc n) =
    let low = n % 0x100000000 in if ltb low 0x80000000 then negsuc low else pos (0xffffffff - low)

abbrev pub same_int : ℤ → ℤ → Bool
same_int (pos a) (pos b) = eqb a b
same_int (negsuc a) (negsuc b) = eqb a b
same_int _ _ = false

-- strings.Contains(key, "/")
unfoldable pub has_slash : String → Bool
has_slash String.[] = false
has_slash (String.◌∷◌ c s) = eqb (code c) 0x2f || has_slash s

-- What follows an AppendSysResourceIfExists: the maps, and a line if the object was added.
abbrev pub put_found :
    {R O : Type 0}
    → MapKind R O
    → (file_name : String) → (announce : Bool) → (store : Dict R → GossConfig) → List Announcement
    → R × O × Bool × Dict R
    → Session
put_found kind file_name announce store printed (res, sysres, there, m) =
    if there
    then (store m, printed ++ resource_print kind.reads.typ file_name (kind.id res) announce)
    else (store m, printed)

module _ (host : AddHost) (sys : System) (get_ports : Result (Dict (List Connection))) where
  module _ (file_name : String) (config : RuntimeConfig) where
    unfoldable pub auto_add_file : (key : String) → Session → Result Session
    auto_add_file key (c, printed) = do
      appended ← append_file_if_exists host sys key c.sections.files
      ok (
          put_found (file_map_kind host) file_name config.announce_to_cli (with_files c) printed
            appended)

    unfoldable pub auto_add_group : (key : String) → Session → Result Session
    auto_add_group key (c, printed) = do
      appended ← append_group_if_exists host sys key c.sections.groups
      ok (
          put_found (group_map_kind host) file_name config.announce_to_cli (with_groups c) printed
            appended)

    unfoldable pub auto_add_package : (key : String) → Session → Result Session
    auto_add_package key (c, printed) = do
      appended ← append_package_if_exists host sys key c.sections.packages
      ok (
          put_found (package_map_kind host) file_name config.announce_to_cli (with_packages c)
            printed appended)

    unfoldable pub auto_add_port : (key : String) → Session → Result Session
    auto_add_port key (c, printed) = do
      appended ← append_port_if_exists host sys key c.sections.ports
      ok (
          put_found (port_map_kind host) file_name config.announce_to_cli (with_ports c) printed
            appended)

    unfoldable pub auto_add_service : (key : String) → Session → Result Session
    auto_add_service key (c, printed) = do
      appended ← append_service_if_exists host sys key c.sections.services
      ok (
          put_found (service_map_kind host) file_name config.announce_to_cli (with_services c)
            printed appended)

    unfoldable pub auto_add_user : (key : String) → Session → Result Session
    auto_add_user key (c, printed) = do
      appended ← append_user_if_exists host sys key c.sections.users
      ok (
          put_found (user_map_kind host) file_name config.announce_to_cli (with_users c) printed
            appended)

    -- The loop over the connections of a port, for one process
    unfoldable pub auto_add_entries :
        (pid : ℤ) → (port : String) → List Connection → Session → Result Session
    auto_add_entries pid port [] s = ok s
    auto_add_entries pid port (entry ∷ entries) s =
        if same_int entry.pid (int32 pid)
        then auto_add_port port s >>= auto_add_entries pid port entries
        else auto_add_entries pid port entries s

    unfoldable pub auto_add_ports : (pid : ℤ) → Dict (List Connection) → Session → Result Session
    auto_add_ports pid [] s = ok s
    auto_add_ports pid ((port, entries) ∷ ports) s =
        auto_add_entries pid port entries s >>= auto_add_ports pid ports

    unfoldable pub auto_add_pids : List ℤ → Dict (List Connection) → Session → Result Session
    auto_add_pids [] ports s = ok s
    auto_add_pids (pid ∷ pids) ports s = auto_add_ports pid ports s >>= auto_add_pids pids ports

    abbrev pub process_ports : (there : Bool) → SysProcess → Session → Result Session
    process_ports false sysres s = ok s
    process_ports true sysres s = do
      ports ← get_ports
      pids ← or_zero [] sysres.pids
      auto_add_pids pids ports s

    -- A process, and the ports that it listens on
    unfoldable pub auto_add_process : (key : String) → Session → Result Session
    auto_add_process key (c, printed) = do
      (res, sysres, there, m) ← append_process_if_exists host sys key c.sections.processes
      process_ports there sysres (
          put_found (process_map_kind host) file_name config.announce_to_cli (with_processes c)
            printed (res, sysres, there, m))

    -- AutoAddResource
    unfoldable pub auto_add_resource : (key : String) → Session → Result Session
    auto_add_resource key start = do
      s ← if has_slash key then auto_add_file key start else ok start
      s2 ← auto_add_group key s
      s3 ← auto_add_package key s2
      s4 ← auto_add_port key s3
      s5 ← auto_add_process key s4
      s6 ← auto_add_service key s5
      auto_add_user key s6
