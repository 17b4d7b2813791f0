-- ===== src/Add/OneMap.antt =====
-- add.go: changing one map of a gossfile changes no other.
use goss.Add.Sections.{
  addrs_section, commands_section, dns_tests_section, files_section, groups_section,
  packages_section, ports_section, processes_section, services_section, users_section,
  kernel_params_section, mounts_section, interfaces_section, https_section, registries_section,
  gossfiles_section, Section, KeepsLabels, KeepsSection,
}
use goss.Add.Maps.{
  with_addrs, with_commands, with_dns_tests, with_files, with_groups, with_packages, with_ports,
  with_processes, with_services, with_users, with_kernel_params, with_mounts, with_interfaces,
  with_https, with_registries, with_gossfiles,
}
use goss.ResourceMaps.Kinds.{
  addr_map_kind, command_map_kind, dns_map_kind, file_map_kind, group_map_kind, package_map_kind,
  port_map_kind, process_map_kind, service_map_kind, user_map_kind, kernel_param_map_kind,
  mount_map_kind, interface_map_kind, http_map_kind, registry_map_kind, gossfile_map_kind,
}
use goss.Kinds.{
  AddrResource, HttpResource, KernelParamResource, PortResource, CommandResource, FileResource,
  DnsResource, PackageResource, UserResource, RegistryResource, ProcessResource, GroupResource,
  ServiceResource, MountResource, InterfaceResource,
}
use goss.Base.Maps.{Dict}
use goss.ResourceMaps.{AddHost}
use goss.Config.{GossConfig, Gossfile}

module _ (host : AddHost) where
  pub with_addrs-KeepsSection :
      (c : GossConfig) (m : Dict AddrResource)
      → KeepsLabels (addr_map_kind host) c.sections.addrs m
      → (s : Section) → KeepsSection host c (with_addrs c m) s
  with_addrs-KeepsSection c m h addrs_section = h
  with_addrs-KeepsSection c m h _ = λ key l e. e

  pub with_commands-KeepsSection :
      (c : GossConfig) (m : Dict CommandResource)
      → KeepsLabels (command_map_kind host) c.sections.commands m
      → (s : Section) → KeepsSection host c (with_commands c m) s
  with_commands-KeepsSection c m h commands_section = h
  with_commands-KeepsSection c m h _ = λ key l e. e

  pub with_dns_tests-KeepsSection :
      (c : GossConfig) (m : Dict DnsResource)
      → KeepsLabels (dns_map_kind host) c.sections.dns_tests m
      → (s : Section) → KeepsSection host c (with_dns_tests c m) s
  with_dns_tests-KeepsSection c m h dns_tests_section = h
  with_dns_tests-KeepsSection c m h _ = λ key l e. e

  pub with_files-KeepsSection :
      (c : GossConfig) (m : Dict FileResource)
      → KeepsLabels (file_map_kind host) c.sections.files m
      → (s : Section) → KeepsSection host c (with_files c m) s
  with_files-KeepsSection c m h files_section = h
  with_files-KeepsSection c m h _ = λ key l e. e

  pub with_groups-KeepsSection :
      (c : GossConfig) (m : Dict GroupResource)
      → KeepsLabels (group_map_kind host) c.sections.groups m
      → (s : Section) → KeepsSection host c (with_groups c m) s
  with_groups-KeepsSection c m h groups_section = h
  with_groups-KeepsSection c m h _ = λ key l e. e

  pub with_packages-KeepsSection :
      (c : GossConfig) (m : Dict PackageResource)
      → KeepsLabels (package_map_kind host) c.sections.packages m
      → (s : Section) → KeepsSection host c (with_packages c m) s
  with_packages-KeepsSection c m h packages_section = h
  with_packages-KeepsSection c m h _ = λ key l e. e

  pub with_ports-KeepsSection :
      (c : GossConfig) (m : Dict PortResource)
      → KeepsLabels (port_map_kind host) c.sections.ports m
      → (s : Section) → KeepsSection host c (with_ports c m) s
  with_ports-KeepsSection c m h ports_section = h
  with_ports-KeepsSection c m h _ = λ key l e. e

  pub with_processes-KeepsSection :
      (c : GossConfig) (m : Dict ProcessResource)
      → KeepsLabels (process_map_kind host) c.sections.processes m
      → (s : Section) → KeepsSection host c (with_processes c m) s
  with_processes-KeepsSection c m h processes_section = h
  with_processes-KeepsSection c m h _ = λ key l e. e

  pub with_services-KeepsSection :
      (c : GossConfig) (m : Dict ServiceResource)
      → KeepsLabels (service_map_kind host) c.sections.services m
      → (s : Section) → KeepsSection host c (with_services c m) s
  with_services-KeepsSection c m h services_section = h
  with_services-KeepsSection c m h _ = λ key l e. e

  pub with_users-KeepsSection :
      (c : GossConfig) (m : Dict UserResource)
      → KeepsLabels (user_map_kind host) c.sections.users m
      → (s : Section) → KeepsSection host c (with_users c m) s
  with_users-KeepsSection c m h users_section = h
  with_users-KeepsSection c m h _ = λ key l e. e

  pub with_kernel_params-KeepsSection :
      (c : GossConfig) (m : Dict KernelParamResource)
      → KeepsLabels (kernel_param_map_kind host) c.sections.kernel_params m
      → (s : Section) → KeepsSection host c (with_kernel_params c m) s
  with_kernel_params-KeepsSection c m h kernel_params_section = h
  with_kernel_params-KeepsSection c m h _ = λ key l e. e

  pub with_mounts-KeepsSection :
      (c : GossConfig) (m : Dict MountResource)
      → KeepsLabels (mount_map_kind host) c.sections.mounts m
      → (s : Section) → KeepsSection host c (with_mounts c m) s
  with_mounts-KeepsSection c m h mounts_section = h
  with_mounts-KeepsSection c m h _ = λ key l e. e

  pub with_interfaces-KeepsSection :
      (c : GossConfig) (m : Dict InterfaceResource)
      → KeepsLabels (interface_map_kind host) c.sections.interfaces m
      → (s : Section) → KeepsSection host c (with_interfaces c m) s
  with_interfaces-KeepsSection c m h interfaces_section = h
  with_interfaces-KeepsSection c m h _ = λ key l e. e

  pub with_https-KeepsSection :
      (c : GossConfig) (m : Dict HttpResource)
      → KeepsLabels (http_map_kind host) c.sections.https m
      → (s : Section) → KeepsSection host c (with_https c m) s
  with_https-KeepsSection c m h https_section = h
  with_https-KeepsSection c m h _ = λ key l e. e

  pub with_registries-KeepsSection :
      (c : GossConfig) (m : Dict RegistryResource)
      → KeepsLabels (registry_map_kind host) c.sections.registries m
      → (s : Section) → KeepsSection host c (with_registries c m) s
  with_registries-KeepsSection c m h registries_section = h
  with_registries-KeepsSection c m h _ = λ key l e. e

  pub with_gossfiles-KeepsSection :
      (c : GossConfig) (m : Dict Gossfile)
      → KeepsLabels (gossfile_map_kind host) c.gossfiles m
      → (s : Section) → KeepsSection host c (with_gossfiles c m) s
  with_gossfiles-KeepsSection c m h gossfiles_section = h
  with_gossfiles-KeepsSection c m h _ = λ key l e. e
