-- ===== src/Add/Frame.antt =====
-- add.go: what AddResource keeps of a gossfile.
use goss.Base.{String, ◌≡◌, refl, ap, Bool, true, false, List, ◌++◌, ◌==◌, if◌then◌else◌}
use goss.Errors.{undefined_resource, Result, Error, ok, err, >>=-eq-ok, ok-injective}
use goss.Add.OneMap.{
  with_registries-KeepsSection, with_https-KeepsSection, with_interfaces-KeepsSection,
  with_mounts-KeepsSection, with_kernel_params-KeepsSection, with_gossfiles-KeepsSection,
  with_users-KeepsSection, with_services-KeepsSection, with_processes-KeepsSection,
  with_ports-KeepsSection, with_packages-KeepsSection, with_groups-KeepsSection,
  with_files-KeepsSection, with_dns_tests-KeepsSection, with_commands-KeepsSection,
  with_addrs-KeepsSection,
}
use goss.Add.Maps.{
  with_registries, with_https, with_interfaces, with_mounts, with_kernel_params, with_gossfiles,
  with_users, with_services, with_processes, with_ports, with_packages, with_groups, with_files,
  with_dns_tests, with_commands, with_addrs,
}
use goss.ResourceMaps.Lawful.{
  registry_map_kind-IsLawful, http_map_kind-IsLawful, interface_map_kind-IsLawful,
  mount_map_kind-IsLawful, kernel_param_map_kind-IsLawful, gossfile_map_kind-IsLawful,
  user_map_kind-IsLawful, service_map_kind-IsLawful, process_map_kind-IsLawful,
  port_map_kind-IsLawful, package_map_kind-IsLawful, group_map_kind-IsLawful,
  file_map_kind-IsLawful, dns_map_kind-IsLawful, command_map_kind-IsLawful, addr_map_kind-IsLawful,
  IsLawful,
}
use goss.ResourceMaps.Kinds.{
  registry_map_kind, http_map_kind, interface_map_kind, mount_map_kind, kernel_param_map_kind,
  gossfile_map_kind, user_map_kind, service_map_kind, process_map_kind, port_map_kind,
  package_map_kind, group_map_kind, file_map_kind, dns_map_kind, command_map_kind, addr_map_kind,
}
use goss.ResourceMaps.Appends.{
  append_registry, append_http, append_interface, append_mount, append_kernel_param,
  append_gossfile, append_user, append_service, append_process, append_port, append_package,
  append_group, append_file, append_dns, append_command, append_addr,
}
use goss.Add.{resource_print, Announcement, Session, put_added, add_resource}
use goss.Options.{RuntimeConfig}
use goss.System.{System}
use goss.Base.Maps.{Dict}
use goss.Add.Sections.{KeepsTests, KeepsLabels}
use goss.Add.Labels.{append_sys_resource-KeepsLabels}
use goss.ResourceMaps.{append_sys_resource, MapKind, AddHost}
use goss.Config.{GossConfig}
use mathlib.Core.Path.{subst}

-- A property of both branches holds of the conditional.
if_either : {A : Type 0} (P : A → Type 0) (b : Bool) (x y : A) → P x → P y → P (if b then x else y)
if_either P true x y px py = px
if_either P false x y px py = py

module _ (host : AddHost) where
  -- Whatever the call returns as its new state keeps the tests of the old one.
  abbrev pub Keeping : GossConfig → Result Session → Type 0
  Keeping c r = (s : Session) → (r ≡ ok s) → KeepsTests host c s.0

  err-Keeping : (c : GossConfig) (e : Error) → Keeping c (err e)
  err-Keeping c e s q = absurd (cc q)

  put_added-Keeping :
      {R O : Type 0} (kind : MapKind R O) (lawful : IsLawful kind) (file_name : String)
      (announce : Bool) (c : GossConfig) (store : Dict R → GossConfig) (printed : List Announcement)
      (sysres : O) (config : RuntimeConfig) (m : Dict R)
      → ((n : Dict R) → KeepsLabels kind m n → KeepsTests host c (store n))
      → Keeping c (
          put_added kind file_name announce store printed
            (append_sys_resource kind sysres config m))
  put_added-Keeping kind lawful file_name announce c store printed sysres config m keeps s e =
      let (p, q, put) =
        >>=-eq-ok (append_sys_resource kind sysres config m)
          (λ p.
            ok (
              store p.1,
              printed ++ resource_print kind.reads.typ file_name (kind.id p.0) announce,
            ))
          e in
      subst (λ d. KeepsTests host c d) (ap (λ t. t.0) (ok-injective put))
        (keeps p.1 (append_sys_resource-KeepsLabels kind lawful sysres config m p.1 p.0 q))

  module _ (sys : System) (file_name : String) where
    -- When AddResource returns without an error, every key of the maps that it may add to is there with
    -- its title and its meta data, and the matching tests and the discovery section are the same.
    pub add_resource-KeepsTests :
        (resource_name key : String) (config : RuntimeConfig) (c : GossConfig)
        (printed : List Announcement) (s : Session)
        → (add_resource host sys file_name resource_name key config (c, printed) ≡ ok s)
        → KeepsTests host c s.0
    unfolding add_resource append_addr append_command append_dns append_file append_group
        append_package append_port append_process append_service append_user append_gossfile
        append_kernel_param append_mount append_interface append_http append_registry
    add_resource-KeepsTests resource_name key config c printed =
        (if_either (Keeping c) (resource_name == "Addr") _ _
          (put_added-Keeping (addr_map_kind host) (addr_map_kind-IsLawful host) file_name
            config.announce_to_cli c (with_addrs c) printed _ config _
            (λ n h. (refl, refl, with_addrs-KeepsSection host c n h)))
          (if_either (Keeping c) (resource_name == "Command") _ _
            (put_added-Keeping (command_map_kind host) (command_map_kind-IsLawful host) file_name
              config.announce_to_cli c (with_commands c) printed _ config _
              (λ n h. (refl, refl, with_commands-KeepsSection host c n h)))
            (if_either (Keeping c) (resource_name == "DNS") _ _
              (put_added-Keeping (dns_map_kind host) (dns_map_kind-IsLawful host) file_name
                config.announce_to_cli c (with_dns_tests c) printed _ config _
                (λ n h. (refl, refl, with_dns_tests-KeepsSection host c n h)))
              (if_either (Keeping c) (resource_name == "File") _ _
                (put_added-Keeping (file_map_kind host) (file_map_kind-IsLawful host) file_name
                  config.announce_to_cli c (with_files c) printed _ config _
                  (λ n h. (refl, refl, with_files-KeepsSection host c n h)))
                (if_either (Keeping c) (resource_name == "Group") _ _
                  (put_added-Keeping (group_map_kind host) (group_map_kind-IsLawful host) file_name
                    config.announce_to_cli c (with_groups c) printed _ config _
                    (λ n h. (refl, refl, with_groups-KeepsSection host c n h)))
                  (if_either (Keeping c) (resource_name == "Package") _ _
                    (put_added-Keeping (package_map_kind host) (package_map_kind-IsLawful host)
                      file_name config.announce_to_cli c (with_packages c) printed _ config _
                      (λ n h. (refl, refl, with_packages-KeepsSection host c n h)))
                    (if_either (Keeping c) (resource_name == "Port") _ _
                      (put_added-Keeping (port_map_kind host) (port_map_kind-IsLawful host)
                        file_name config.announce_to_cli c (with_ports c) printed _ config _
                        (λ n h. (refl, refl, with_ports-KeepsSection host c n h)))
                      (if_either (Keeping c) (resource_name == "Process") _ _
                        (put_added-Keeping (process_map_kind host) (process_map_kind-IsLawful host)
                          file_name config.announce_to_cli c (with_processes c) printed _ config _
                          (λ n h. (refl, refl, with_processes-KeepsSection host c n h)))
                        (if_either (Keeping c) (resource_name == "Service") _ _
                          (put_added-Keeping (service_map_kind host)
                            (service_map_kind-IsLawful host) file_name config.announce_to_cli c
                            (with_services c) printed _ config _
                            (λ n h. (refl, refl, with_services-KeepsSection host c n h)))
                          (if_either (Keeping c) (resource_name == "User") _ _
                            (put_added-Keeping (user_map_kind host) (user_map_kind-IsLawful host)
                              file_name config.announce_to_cli c (with_users c) printed _ config _
                              (λ n h. (refl, refl, with_users-KeepsSection host c n h)))
                            (if_either (Keeping c) (resource_name == "Gossfile") _ _
                              (put_added-Keeping (gossfile_map_kind host)
                                (gossfile_map_kind-IsLawful host) file_name config.announce_to_cli c
                                (with_gossfiles c) printed _ config _
                                (λ n h. (refl, refl, with_gossfiles-KeepsSection host c n h)))
                              (if_either (Keeping c) (resource_name == "KernelParam") _ _
                                (put_added-Keeping (kernel_param_map_kind host)
                                  (kernel_param_map_kind-IsLawful host) file_name
                                  config.announce_to_cli c (with_kernel_params c) printed _ config _
                                  (λ n h. (refl, refl, with_kernel_params-KeepsSection host c n h)))
                                (if_either (Keeping c) (resource_name == "Mount") _ _
                                  (put_added-Keeping (mount_map_kind host)
                                    (mount_map_kind-IsLawful host) file_name config.announce_to_cli
                                    c (with_mounts c) printed _ config _
                                    (λ n h. (refl, refl, with_mounts-KeepsSection host c n h)))
                                  (if_either (Keeping c) (resource_name == "Interface") _ _
                                    (put_added-Keeping (interface_map_kind host)
                                      (interface_map_kind-IsLawful host) file_name
                                      config.announce_to_cli c (with_interfaces c) printed _ config
                                      _
                                      (λ n h.
                                        (refl, refl, with_interfaces-KeepsSection host c n h)))
                                    (if_either (Keeping c) (resource_name == "HTTP") _ _
                                      (put_added-Keeping (http_map_kind host)
                                        (http_map_kind-IsLawful host) file_name
                                        config.announce_to_cli c (with_https c) printed _ config _
                                        (λ n h. (refl, refl, with_https-KeepsSection host c n h)))
                                      (if_either (Keeping c) (resource_name == "Registry") _ _
                                        (put_added-Keeping (registry_map_kind host)
                                          (registry_map_kind-IsLawful host) file_name
                                          config.announce_to_cli c (with_registries c) printed _
                                          config _
                                          (λ n h.
                                            (refl, refl, with_registries-KeepsSection host c n h)))
                                        (λ s e.
                                          err-Keeping c (undefined_resource resource_name) s
                                            e)))))))))))))))))
