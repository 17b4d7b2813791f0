-- ===== src/Add/AutoFrame.antt =====
-- add.go: what AutoAddResource keeps of a gossfile.
use goss.Base.{String, ◌≡◌, refl, Bool, true, false, List, [], ◌∷◌, if◌then◌else◌}
use goss.ResourceMaps.Lawful.{process_map_kind-IsLawful}
use goss.Add.AutoKinds.{
  auto_add_user-Keeps, auto_add_service-Keeps, auto_add_package-Keeps, auto_add_group-Keeps,
  auto_add_port-Keeps, auto_add_file-Keeps, Keeps, ok-Keeps, >>=-Keeps, if-Keeps, put_found-Keeps,
}
use goss.Add.OneMap.{with_processes-KeepsSection}
use goss.Add.Maps.{with_processes}
use goss.ResourceMaps.Getters.{or_zero}
use goss.ResourceMaps.Kinds.{process_map_kind}
use goss.ResourceMaps.IfExists.{append_process_if_exists}
use goss.System.{SysProcess, System}
use goss.Options.{RuntimeConfig}
use goss.System.Ports.{Connection}
use goss.Base.Maps.{Dict}
use goss.Add.Sections.{KeepsTests, KeepsTests-trans}
use goss.Add.Labels.{append_sys_resource_if_exists-KeepsLabels}
use goss.Add.Auto.{
  put_found, auto_add_resource, auto_add_file, auto_add_group, auto_add_package, auto_add_port,
  auto_add_process, auto_add_service, auto_add_user, auto_add_entries, auto_add_ports,
  auto_add_pids, process_ports, same_int, int32, has_slash,
}
use goss.Errors.{Result, ok, ◌>>=◌, >>=-eq-ok}
use goss.ResourceMaps.{AddHost}
use goss.Add.{Session}
use goss.Base.Int.{ℤ}

module _ (host : AddHost) where
  module _ (sys : System) (get_ports : Result (Dict (List Connection))) (file_name : String)
      (config : RuntimeConfig) where
    auto_add_entries-Keeps :
        (pid : ℤ) (port : String) (entries : List Connection)
        → Keeps host (auto_add_entries host sys get_ports file_name config pid port entries)
    unfolding auto_add_entries
    auto_add_entries-Keeps pid port [] = ok-Keeps host
    auto_add_entries-Keeps pid port (entry ∷ entries) =
        if-Keeps host (same_int entry.pid (int32 pid))
          (λ s.
            auto_add_port host sys get_ports file_name config port s
            >>= auto_add_entries host sys get_ports file_name config pid port entries)
          (auto_add_entries host sys get_ports file_name config pid port entries)
          (>>=-Keeps host (auto_add_port host sys get_ports file_name config port)
            (auto_add_entries host sys get_ports file_name config pid port entries)
            (auto_add_port-Keeps host sys get_ports file_name config port)
            (auto_add_entries-Keeps pid port entries))
          (auto_add_entries-Keeps pid port entries)

    auto_add_ports-Keeps :
        (pid : ℤ) (ports : Dict (List Connection))
        → Keeps host (auto_add_ports host sys get_ports file_name config pid ports)
    unfolding auto_add_ports
    auto_add_ports-Keeps pid [] = ok-Keeps host
    auto_add_ports-Keeps pid ((port, entries) ∷ ports) =
        >>=-Keeps host (auto_add_entries host sys get_ports file_name config pid port entries)
          (auto_add_ports host sys get_ports file_name config pid ports)
          (auto_add_entries-Keeps pid port entries) (auto_add_ports-Keeps pid ports)

    auto_add_pids-Keeps :
        (pids : List ℤ) (ports : Dict (List Connection))
        → Keeps host (auto_add_pids host sys get_ports file_name config pids ports)
    unfolding auto_add_pids
    auto_add_pids-Keeps [] ports = ok-Keeps host
    auto_add_pids-Keeps (pid ∷ pids) ports =
        >>=-Keeps host (auto_add_ports host sys get_ports file_name config pid ports)
          (auto_add_pids host sys get_ports file_name config pids ports)
          (auto_add_ports-Keeps pid ports) (auto_add_pids-Keeps pids ports)

    process_ports-Keeps :
        (there : Bool) (sysres : SysProcess)
        → Keeps host (process_ports host sys get_ports file_name config there sysres)
    process_ports-Keeps false sysres s t e = ok-Keeps host s t e
    process_ports-Keeps true sysres s t e =
        let (ports, q, e') =
          >>=-eq-ok get_ports
            (λ ports. or_zero [] sysres.pids >>= λ pids.
              auto_add_pids host sys get_ports file_name config pids ports s)
            e in
        let (pids, q', e2) =
          >>=-eq-ok (or_zero [] sysres.pids)
            (λ pids. auto_add_pids host sys get_ports file_name config pids ports s) e' in
        auto_add_pids-Keeps pids ports s t e2

    auto_add_process-Keeps :
        (key : String) → Keeps host (auto_add_process host sys get_ports file_name config key)
    unfolding auto_add_process append_process_if_exists
    auto_add_process-Keeps key (c, printed) t e =
        let (p, q, e') =
          >>=-eq-ok (append_process_if_exists host sys key c.sections.processes)
            (λ p. process_ports host sys get_ports file_name config p.2 p.1 (
              put_found (process_map_kind host) file_name config.announce_to_cli (with_processes c)
                printed p))
            e in
        let u =
          put_found (process_map_kind host) file_name config.announce_to_cli (with_processes c)
            printed p in
        KeepsTests-trans host c u.0 t.0
          (put_found-Keeps host (process_map_kind host) file_name config.announce_to_cli c
            (with_processes c) printed p.0 p.1 p.2 p.3
            (
              refl,
              refl,
              with_processes-KeepsSection host c p.3 (
                  append_sys_resource_if_exists-KeepsLabels (process_map_kind host)
                    (process_map_kind-IsLawful host) (sys.new_process key) c.sections.processes p.3
                    p.0 p.1 p.2 q),
            ))
          (process_ports-Keeps p.2 p.1 u t e')

    -- When AutoAddResource returns without an error, every key of the maps that it may add to is there
    -- with its title and its meta data, and the matching tests and the discovery section are the same.
    -- This holds of all that it adds on the way: the file, group, package, port, process, service and
    -- user of that name, and the ports of the process.
    pub auto_add_resource-KeepsTests :
        (key : String) (s t : Session)
        → (auto_add_resource host sys get_ports file_name config key s ≡ ok t)
        → KeepsTests host s.0 t.0
    unfolding auto_add_resource
    auto_add_resource-KeepsTests key =
        >>=-Keeps host
          (λ s.
            if has_slash key then auto_add_file host sys get_ports file_name config key s else ok s)
          _
          (if-Keeps host (has_slash key) (auto_add_file host sys get_ports file_name config key) ok
            (auto_add_file-Keeps host sys get_ports file_name config key) (ok-Keeps host))
          (>>=-Keeps host (auto_add_group host sys get_ports file_name config key) _
            (auto_add_group-Keeps host sys get_ports file_name config key)
            (>>=-Keeps host (auto_add_package host sys get_ports file_name config key) _
              (auto_add_package-Keeps host sys get_ports file_name config key)
              (>>=-Keeps host (auto_add_port host sys get_ports file_name config key) _
                (auto_add_port-Keeps host sys get_ports file_name config key)
                (>>=-Keeps host (auto_add_process host sys get_ports file_name config key) _
                  (auto_add_process-Keeps key)
                  (>>=-Keeps host (auto_add_service host sys get_ports file_name config key)
                    (auto_add_user host sys get_ports file_name config key)
                    (auto_add_service-Keeps host sys get_ports file_name config key)
                    (auto_add_user-Keeps host sys get_ports file_name config key))))))
