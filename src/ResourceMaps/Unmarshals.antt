-- ===== src/ResourceMaps/Unmarshals.antt =====
-- resource/resource_list.go and matching.go: UnmarshalJSON and UnmarshalYAML of each map type.
use goss.Base.{String}
use goss.Options.Whitelist.{yaml_format, json_format}
use goss.Base.Maps.{Dict}
use goss.ResourceMaps.Structs.{
  addr_struct, command_struct, dns_struct, file_struct, group_struct, package_struct, port_struct,
  process_struct, service_struct, user_struct, kernel_param_struct, mount_struct, interface_struct,
  http_struct, registry_struct, matching_struct, gossfile_struct,
}
use goss.Kinds.{
  GroupResource, CommandResource, PackageResource, MountResource, FileResource, ProcessResource,
  InterfaceResource, PortResource, AddrResource, ServiceResource, HttpResource, KernelParamResource,
  MatchingResource, Common, DnsResource, UserResource, RegistryResource,
}
use goss.Errors.{Result}
use goss.ResourceMaps.{unmarshal_map, Parsed, ReadKind}
use goss.Config.{Gossfile}

-- SetID of the kinds that have the common fields
abbrev common_set_id : String → Common → Common
common_set_id id c = record c { id = id }

abbrev pub addr_reads : ReadKind AddrResource
addr_reads = record {
  typ = "Addr";
  struct = addr_struct;
  set_id = λ id r. record r { common = common_set_id id r.common };
}

unfoldable pub unmarshal_addrs_json : Parsed AddrResource → Result (Dict AddrResource)
unfolding unmarshal_map
unmarshal_addrs_json parsed = unmarshal_map addr_reads json_format parsed

unfoldable pub unmarshal_addrs_yaml : Parsed AddrResource → Result (Dict AddrResource)
unfolding unmarshal_map
unmarshal_addrs_yaml parsed = unmarshal_map addr_reads yaml_format parsed

abbrev pub command_reads : ReadKind CommandResource
command_reads = record {
  typ = "Command";
  struct = command_struct;
  set_id = λ id r. record r { common = common_set_id id r.common };
}

unfoldable pub unmarshal_commands_json : Parsed CommandResource → Result (Dict CommandResource)
unfolding unmarshal_map
unmarshal_commands_json parsed = unmarshal_map command_reads json_format parsed

unfoldable pub unmarshal_commands_yaml : Parsed CommandResource → Result (Dict CommandResource)
unfolding unmarshal_map
unmarshal_commands_yaml parsed = unmarshal_map command_reads yaml_format parsed

abbrev pub dns_reads : ReadKind DnsResource
dns_reads = record {
  typ = "DNS";
  struct = dns_struct;
  set_id = λ id r. record r { common = common_set_id id r.common };
}

unfoldable pub unmarshal_dns_tests_json : Parsed DnsResource → Result (Dict DnsResource)
unfolding unmarshal_map
unmarshal_dns_tests_json parsed = unmarshal_map dns_reads json_format parsed

unfoldable pub unmarshal_dns_tests_yaml : Parsed DnsResource → Result (Dict DnsResource)
unfolding unmarshal_map
unmarshal_dns_tests_yaml parsed = unmarshal_map dns_reads yaml_format parsed

abbrev pub file_reads : ReadKind FileResource
file_reads = record {
  typ = "File";
  struct = file_struct;
  set_id = λ id r. record r { common = common_set_id id r.common };
}

unfoldable pub unmarshal_files_json : Parsed FileResource → Result (Dict FileResource)
unfolding unmarshal_map
unmarshal_files_json parsed = unmarshal_map file_reads json_format parsed

unfoldable pub unmarshal_files_yaml : Parsed FileResource → Result (Dict FileResource)
unfolding unmarshal_map
unmarshal_files_yaml parsed = unmarshal_map file_reads yaml_format parsed

abbrev pub gossfile_reads : ReadKind Gossfile
gossfile_reads = record {
  typ = "Gossfile";
  struct = gossfile_struct;
  set_id = λ id g. record g { path = id };
}

unfoldable pub unmarshal_gossfiles_json : Parsed Gossfile → Result (Dict Gossfile)
unfolding unmarshal_map
unmarshal_gossfiles_json parsed = unmarshal_map gossfile_reads json_format parsed

unfoldable pub unmarshal_gossfiles_yaml : Parsed Gossfile → Result (Dict Gossfile)
unfolding unmarshal_map
unmarshal_gossfiles_yaml parsed = unmarshal_map gossfile_reads yaml_format parsed

abbrev pub group_reads : ReadKind GroupResource
group_reads = record {
  typ = "Group";
  struct = group_struct;
  set_id = λ id r. record r { common = common_set_id id r.common };
}

unfoldable pub unmarshal_groups_json : Parsed GroupResource → Result (Dict GroupResource)
unfolding unmarshal_map
unmarshal_groups_json parsed = unmarshal_map group_reads json_format parsed

unfoldable pub unmarshal_groups_yaml : Parsed GroupResource → Result (Dict GroupResource)
unfolding unmarshal_map
unmarshal_groups_yaml parsed = unmarshal_map group_reads yaml_format parsed

abbrev pub package_reads : ReadKind PackageResource
package_reads = record {
  typ = "Package";
  struct = package_struct;
  set_id = λ id r. record r { common = common_set_id id r.common };
}

unfoldable pub unmarshal_packages_json : Parsed PackageResource → Result (Dict PackageResource)
unfolding unmarshal_map
unmarshal_packages_json parsed = unmarshal_map package_reads json_format parsed

unfoldable pub unmarshal_packages_yaml : Parsed PackageResource → Result (Dict PackageResource)
unfolding unmarshal_map
unmarshal_packages_yaml parsed = unmarshal_map package_reads yaml_format parsed

abbrev pub port_reads : ReadKind PortResource
port_reads = record {
  typ = "Port";
  struct = port_struct;
  set_id = λ id r. record r { common = common_set_id id r.common };
}

unfoldable pub unmarshal_ports_json : Parsed PortResource → Result (Dict PortResource)
unfolding unmarshal_map
unmarshal_ports_json parsed = unmarshal_map port_reads json_format parsed

unfoldable pub unmarshal_ports_yaml : Parsed PortResource → Result (Dict PortResource)
unfolding unmarshal_map
unmarshal_ports_yaml parsed = unmarshal_map port_reads yaml_format parsed

abbrev pub process_reads : ReadKind ProcessResource
process_reads = record {
  typ = "Process";
  struct = process_struct;
  set_id = λ id r. record r { common = common_set_id id r.common };
}

unfoldable pub unmarshal_processes_json : Parsed ProcessResource → Result (Dict ProcessResource)
unfolding unmarshal_map
unmarshal_processes_json parsed = unmarshal_map process_reads json_format parsed

unfoldable pub unmarshal_processes_yaml : Parsed ProcessResource → Result (Dict ProcessResource)
unfolding unmarshal_map
unmarshal_processes_yaml parsed = unmarshal_map process_reads yaml_format parsed

abbrev pub service_reads : ReadKind ServiceResource
service_reads = record {
  typ = "Service";
  struct = service_struct;
  set_id = λ id r. record r { common = common_set_id id r.common };
}

unfoldable pub unmarshal_services_json : Parsed ServiceResource → Result (Dict ServiceResource)
unfolding unmarshal_map
unmarshal_services_json parsed = unmarshal_map service_reads json_format parsed

unfoldable pub unmarshal_services_yaml : Parsed ServiceResource → Result (Dict ServiceResource)
unfolding unmarshal_map
unmarshal_services_yaml parsed = unmarshal_map service_reads yaml_format parsed

abbrev pub user_reads : ReadKind UserResource
user_reads = record {
  typ = "User";
  struct = user_struct;
  set_id = λ id r. record r { common = common_set_id id r.common };
}

unfoldable pub unmarshal_users_json : Parsed UserResource → Result (Dict UserResource)
unfolding unmarshal_map
unmarshal_users_json parsed = unmarshal_map user_reads json_format parsed

unfoldable pub unmarshal_users_yaml : Parsed UserResource → Result (Dict UserResource)
unfolding unmarshal_map
unmarshal_users_yaml parsed = unmarshal_map user_reads yaml_format parsed

abbrev pub kernel_param_reads : ReadKind KernelParamResource
kernel_param_reads = record {
  typ = "KernelParam";
  struct = kernel_param_struct;
  set_id = λ id r. record r { common = common_set_id id r.common };
}

unfoldable pub unmarshal_kernel_params_json :
    Parsed KernelParamResource → Result (Dict KernelParamResource)
unfolding unmarshal_map
unmarshal_kernel_params_json parsed = unmarshal_map kernel_param_reads json_format parsed

unfoldable pub unmarshal_kernel_params_yaml :
    Parsed KernelParamResource → Result (Dict KernelParamResource)
unfolding unmarshal_map
unmarshal_kernel_params_yaml parsed = unmarshal_map kernel_param_reads yaml_format parsed

abbrev pub mount_reads : ReadKind MountResource
mount_reads = record {
  typ = "Mount";
  struct = mount_struct;
  set_id = λ id r. record r { common = common_set_id id r.common };
}

unfoldable pub unmarshal_mounts_json : Parsed MountResource → Result (Dict MountResource)
unfolding unmarshal_map
unmarshal_mounts_json parsed = unmarshal_map mount_reads json_format parsed

unfoldable pub unmarshal_mounts_yaml : Parsed MountResource → Result (Dict MountResource)
unfolding unmarshal_map
unmarshal_mounts_yaml parsed = unmarshal_map mount_reads yaml_format parsed

abbrev pub interface_reads : ReadKind InterfaceResource
interface_reads = record {
  typ = "Interface";
  struct = interface_struct;
  set_id = λ id r. record r { common = common_set_id id r.common };
}

unfoldable pub unmarshal_interfaces_json :
    Parsed InterfaceResource → Result (Dict InterfaceResource)
unfolding unmarshal_map
unmarshal_interfaces_json parsed = unmarshal_map interface_reads json_format parsed

unfoldable pub unmarshal_interfaces_yaml :
    Parsed InterfaceResource → Result (Dict InterfaceResource)
unfolding unmarshal_map
unmarshal_interfaces_yaml parsed = unmarshal_map interface_reads yaml_format parsed

abbrev pub http_reads : ReadKind HttpResource
http_reads = record {
  typ = "HTTP";
  struct = http_struct;
  set_id = λ id r. record r { common = common_set_id id r.common };
}

unfoldable pub unmarshal_https_json : Parsed HttpResource → Result (Dict HttpResource)
unfolding unmarshal_map
unmarshal_https_json parsed = unmarshal_map http_reads json_format parsed

unfoldable pub unmarshal_https_yaml : Parsed HttpResource → Result (Dict HttpResource)
unfolding unmarshal_map
unmarshal_https_yaml parsed = unmarshal_map http_reads yaml_format parsed

abbrev pub registry_reads : ReadKind RegistryResource
registry_reads = record {
  typ = "Registry";
  struct = registry_struct;
  set_id = λ id r. record r { common = common_set_id id r.common };
}

unfoldable pub unmarshal_registries_json : Parsed RegistryResource → Result (Dict RegistryResource)
unfolding unmarshal_map
unmarshal_registries_json parsed = unmarshal_map registry_reads json_format parsed

unfoldable pub unmarshal_registries_yaml : Parsed RegistryResource → Result (Dict RegistryResource)
unfolding unmarshal_map
unmarshal_registries_yaml parsed = unmarshal_map registry_reads yaml_format parsed

abbrev pub matching_reads : ReadKind MatchingResource
matching_reads = record {
  typ = "Matching";
  struct = matching_struct;
  set_id = λ id r. record r { common = common_set_id id r.common };
}

unfoldable pub unmarshal_matchings_json : Parsed MatchingResource → Result (Dict MatchingResource)
unfolding unmarshal_map
unmarshal_matchings_json parsed = unmarshal_map matching_reads json_format parsed

unfoldable pub unmarshal_matchings_yaml : Parsed MatchingResource → Result (Dict MatchingResource)
unfolding unmarshal_map
unmarshal_matchings_yaml parsed = unmarshal_map matching_reads yaml_format parsed
