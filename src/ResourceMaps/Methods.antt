-- ===== src/ResourceMaps/Methods.antt =====
-- resource/resource_list.go and matching.go: UnmarshalJSON and UnmarshalYAML of all map types at once.
pub mod Returns
use goss.Base.{String}
use goss.ResourceMaps.Unmarshals.{
  unmarshal_gossfiles_yaml, unmarshal_gossfiles_json, unmarshal_registries_yaml,
  unmarshal_registries_json, unmarshal_matchings_yaml, unmarshal_matchings_json,
  unmarshal_https_yaml, unmarshal_https_json, unmarshal_interfaces_yaml, unmarshal_interfaces_json,
  unmarshal_mounts_yaml, unmarshal_mounts_json, unmarshal_kernel_params_yaml,
  unmarshal_kernel_params_json, unmarshal_processes_yaml, unmarshal_processes_json,
  unmarshal_dns_tests_yaml, gossfile_reads, unmarshal_dns_tests_json, registry_reads,
  unmarshal_commands_yaml, matching_reads, unmarshal_commands_json, http_reads,
  unmarshal_groups_yaml, interface_reads, unmarshal_groups_json, mount_reads, unmarshal_users_yaml,
  kernel_param_reads, unmarshal_users_json, process_reads, unmarshal_services_yaml, dns_reads,
  unmarshal_services_json, command_reads, unmarshal_ports_yaml, group_reads, unmarshal_ports_json,
  user_reads, unmarshal_addrs_yaml, service_reads, unmarshal_addrs_json, port_reads,
  unmarshal_packages_yaml, addr_reads, package_reads, unmarshal_packages_json, file_reads,
  unmarshal_files_yaml, unmarshal_files_json,
}
use goss.ResourceMaps.Structs.{
  gossfile_struct, registry_struct, matching_struct, http_struct, interface_struct, mount_struct,
  kernel_param_struct, process_struct, dns_struct, command_struct, group_struct, user_struct,
  service_struct, port_struct, addr_struct, package_struct, file_struct,
}
use goss.Value.{Fields}
use goss.Errors.{Result, ok}
use goss.ResourceMaps.{Parsed, ReadKind, unmarshal_map}
use goss.Base.Maps.{Dict, Dict}
use goss.Options.Whitelist.{Struct, TagFormat, json_format, yaml_format}
use goss.Config.Merge.{
  Kind, Entry, files_kind, packages_kind, addrs_kind, ports_kind, services_kind, users_kind,
  groups_kind, commands_kind, dns_tests_kind, processes_kind, kernel_params_kind, mounts_kind,
  interfaces_kind, https_kind, matchings_kind, registries_kind,
}
use mathlib.Core.Path.{subst}
use goss.Config.{Gossfile}

-- The map types of a gossfile: those of the sixteen kinds of tests, and that of the included gossfiles.
pub data MapType : Type 0 where
  tests_map : Kind → MapType
  gossfiles_map : MapType

abbrev pub Row : MapType → Type 0
Row (tests_map k) = Entry k
Row gossfiles_map = Gossfile

abbrev pub struct_of : MapType → Struct
struct_of (tests_map files_kind) = file_struct
struct_of (tests_map packages_kind) = package_struct
struct_of (tests_map addrs_kind) = addr_struct
struct_of (tests_map ports_kind) = port_struct
struct_of (tests_map services_kind) = service_struct
struct_of (tests_map users_kind) = user_struct
struct_of (tests_map groups_kind) = group_struct
struct_of (tests_map commands_kind) = command_struct
struct_of (tests_map dns_tests_kind) = dns_struct
struct_of (tests_map processes_kind) = process_struct
struct_of (tests_map kernel_params_kind) = kernel_param_struct
struct_of (tests_map mounts_kind) = mount_struct
struct_of (tests_map interfaces_kind) = interface_struct
struct_of (tests_map https_kind) = http_struct
struct_of (tests_map matchings_kind) = matching_struct
struct_of (tests_map registries_kind) = registry_struct
struct_of gossfiles_map = gossfile_struct

-- An entry with the field that holds its ID set
abbrev pub with_id : (t : MapType) → String → Row t → Row t
with_id (tests_map files_kind) id r = record r { common = record r.common { id = id } }
with_id (tests_map packages_kind) id r = record r { common = record r.common { id = id } }
with_id (tests_map addrs_kind) id r = record r { common = record r.common { id = id } }
with_id (tests_map ports_kind) id r = record r { common = record r.common { id = id } }
with_id (tests_map services_kind) id r = record r { common = record r.common { id = id } }
with_id (tests_map users_kind) id r = record r { common = record r.common { id = id } }
with_id (tests_map groups_kind) id r = record r { common = record r.common { id = id } }
with_id (tests_map commands_kind) id r = record r { common = record r.common { id = id } }
with_id (tests_map dns_tests_kind) id r = record r { common = record r.common { id = id } }
with_id (tests_map processes_kind) id r = record r { common = record r.common { id = id } }
with_id (tests_map kernel_params_kind) id r = record r { common = record r.common { id = id } }
with_id (tests_map mounts_kind) id r = record r { common = record r.common { id = id } }
with_id (tests_map interfaces_kind) id r = record r { common = record r.common { id = id } }
with_id (tests_map https_kind) id r = record r { common = record r.common { id = id } }
with_id (tests_map matchings_kind) id r = record r { common = record r.common { id = id } }
with_id (tests_map registries_kind) id r = record r { common = record r.common { id = id } }
with_id gossfiles_map id g = record g { path = id }

-- The methods, by map type and format
abbrev pub read_map : (t : MapType) → TagFormat → Parsed (Row t) → Result (Dict (Row t))
read_map (tests_map files_kind) json_format parsed = unmarshal_files_json parsed
read_map (tests_map files_kind) yaml_format parsed = unmarshal_files_yaml parsed
read_map (tests_map packages_kind) json_format parsed = unmarshal_packages_json parsed
read_map (tests_map packages_kind) yaml_format parsed = unmarshal_packages_yaml parsed
read_map (tests_map addrs_kind) json_format parsed = unmarshal_addrs_json parsed
read_map (tests_map addrs_kind) yaml_format parsed = unmarshal_addrs_yaml parsed
read_map (tests_map ports_kind) json_format parsed = unmarshal_ports_json parsed
read_map (tests_map ports_kind) yaml_format parsed = unmarshal_ports_yaml parsed
read_map (tests_map services_kind) json_format parsed = unmarshal_services_json parsed
read_map (tests_map services_kind) yaml_format parsed = unmarshal_services_yaml parsed
read_map (tests_map users_kind) json_format parsed = unmarshal_users_json parsed
read_map (tests_map users_kind) yaml_format parsed = unmarshal_users_yaml parsed
read_map (tests_map groups_kind) json_format parsed = unmarshal_groups_json parsed
read_map (tests_map groups_kind) yaml_format parsed = unmarshal_groups_yaml parsed
read_map (tests_map commands_kind) json_format parsed = unmarshal_commands_json parsed
read_map (tests_map commands_kind) yaml_format parsed = unmarshal_commands_yaml parsed
read_map (tests_map dns_tests_kind) json_format parsed = unmarshal_dns_tests_json parsed
read_map (tests_map dns_tests_kind) yaml_format parsed = unmarshal_dns_tests_yaml parsed
read_map (tests_map processes_kind) json_format parsed = unmarshal_processes_json parsed
read_map (tests_map processes_kind) yaml_format parsed = unmarshal_processes_yaml parsed
read_map (tests_map kernel_params_kind) json_format parsed = unmarshal_kernel_params_json parsed
read_map (tests_map kernel_params_kind) yaml_format parsed = unmarshal_kernel_params_yaml parsed
read_map (tests_map mounts_kind) json_format parsed = unmarshal_mounts_json parsed
read_map (tests_map mounts_kind) yaml_format parsed = unmarshal_mounts_yaml parsed
read_map (tests_map interfaces_kind) json_format parsed = unmarshal_interfaces_json parsed
read_map (tests_map interfaces_kind) yaml_format parsed = unmarshal_interfaces_yaml parsed
read_map (tests_map https_kind) json_format parsed = unmarshal_https_json parsed
read_map (tests_map https_kind) yaml_format parsed = unmarshal_https_yaml parsed
read_map (tests_map matchings_kind) json_format parsed = unmarshal_matchings_json parsed
read_map (tests_map matchings_kind) yaml_format parsed = unmarshal_matchings_yaml parsed
read_map (tests_map registries_kind) json_format parsed = unmarshal_registries_json parsed
read_map (tests_map registries_kind) yaml_format parsed = unmarshal_registries_yaml parsed
read_map gossfiles_map json_format parsed = unmarshal_gossfiles_json parsed
read_map gossfiles_map yaml_format parsed = unmarshal_gossfiles_yaml parsed
