-- ===== src/ResourceMaps/Appends.antt =====
-- resource/resource_list.go: AppendSysResource of each map type.
use goss.ResourceMaps.Kinds.{
  package_map_kind, service_map_kind, dns_map_kind, addr_map_kind, command_map_kind,
  gossfile_map_kind, registry_map_kind, mount_map_kind, user_map_kind, kernel_param_map_kind,
  port_map_kind, http_map_kind, file_map_kind, process_map_kind, group_map_kind, interface_map_kind,
}
use goss.Kinds.{
  InterfaceResource, GroupResource, UserResource, PackageResource, ProcessResource, DnsResource,
  FileResource, KernelParamResource, PortResource, CommandResource, ServiceResource, MountResource,
  RegistryResource, AddrResource, HttpResource,
}
use goss.Errors.{Result}
use goss.Options.{timeout_milliseconds, RuntimeConfig}
use goss.Base.Maps.{
  Dict, Dict, Dict, Dict, Dict, Dict, Dict, Dict, Dict, Dict, Dict, Dict, Dict, Dict, Dict, Dict,
}
use goss.System.{HttpConfig, System}
use goss.Base.{String}
use goss.ResourceMaps.{append_sys_resource, AddHost}
use goss.Config.{Gossfile}

-- The part of the configuration that NewDefHTTP reads.
abbrev pub http_config : RuntimeConfig → HttpConfig
http_config c = record {
  allow_insecure = c.allow_insecure;
  no_follow_redirects = c.no_follow_redirects;
  timeout = timeout_milliseconds c;
  method = c.method;
  request_header = c.request_header;
  request_query_params = c.request_query_params;
  request_body = c.request_body;
  username = c.username;
  password = c.password;
  ca_file = c.ca_file;
  cert_file = c.cert_file;
  key_file = c.key_file;
  proxy = c.proxy;
}

module _ (host : AddHost) (sys : System) where
  unfoldable pub append_addr :
      String → RuntimeConfig → Dict AddrResource → Result (AddrResource × Dict AddrResource)
  unfolding append_sys_resource
  append_addr sr config m =
      append_sys_resource (addr_map_kind host)
        (sys.new_addr sr (timeout_milliseconds config) config.local_address) config m

  unfoldable pub append_command :
      String
      → RuntimeConfig
      → Dict CommandResource
      → Result (CommandResource × Dict CommandResource)
  unfolding append_sys_resource
  append_command sr config m =
      append_sys_resource (command_map_kind host) (sys.new_command sr (timeout_milliseconds config))
        config m

  unfoldable pub append_dns :
      String → RuntimeConfig → Dict DnsResource → Result (DnsResource × Dict DnsResource)
  unfolding append_sys_resource
  append_dns sr config m =
      append_sys_resource (dns_map_kind host)
        (sys.new_dns sr (timeout_milliseconds config) config.server) config m

  unfoldable pub append_file :
      String → RuntimeConfig → Dict FileResource → Result (FileResource × Dict FileResource)
  unfolding append_sys_resource
  append_file sr config m = append_sys_resource (file_map_kind host) (sys.new_file sr) config m

  unfoldable pub append_gossfile :
      String → RuntimeConfig → Dict Gossfile → Result (Gossfile × Dict Gossfile)
  unfolding append_sys_resource
  append_gossfile sr config m =
      append_sys_resource (gossfile_map_kind host) (sys.new_gossfile sr) config m

  unfoldable pub append_group :
      String → RuntimeConfig → Dict GroupResource → Result (GroupResource × Dict GroupResource)
  unfolding append_sys_resource
  append_group sr config m = append_sys_resource (group_map_kind host) (sys.new_group sr) config m

  unfoldable pub append_package :
      String
      → RuntimeConfig
      → Dict PackageResource
      → Result (PackageResource × Dict PackageResource)
  unfolding append_sys_resource
  append_package sr config m =
      append_sys_resource (package_map_kind host) (sys.new_package sr) config m

  unfoldable pub append_port :
      String → RuntimeConfig → Dict PortResource → Result (PortResource × Dict PortResource)
  unfolding append_sys_resource
  append_port sr config m = append_sys_resource (port_map_kind host) (sys.new_port sr) config m

  unfoldable pub append_process :
      String
      → RuntimeConfig
      → Dict ProcessResource
      → Result (ProcessResource × Dict ProcessResource)
  unfolding append_sys_resource
  append_process sr config m =
      append_sys_resource (process_map_kind host) (sys.new_process sr) config m

  unfoldable pub append_service :
      String
      → RuntimeConfig
      → Dict ServiceResource
      → Result (ServiceResource × Dict ServiceResource)
  unfolding append_sys_resource
  append_service sr config m =
      append_sys_resource (service_map_kind host) (sys.new_service sr) config m

  unfoldable pub append_user :
      String → RuntimeConfig → Dict UserResource → Result (UserResource × Dict UserResource)
  unfolding append_sys_resource
  append_user sr config m = append_sys_resource (user_map_kind host) (sys.new_user sr) config m

  unfoldable pub append_kernel_param :
      String
      → RuntimeConfig
      → Dict KernelParamResource
      → Result (KernelParamResource × Dict KernelParamResource)
  unfolding append_sys_resource
  append_kernel_param sr config m =
      append_sys_resource (kernel_param_map_kind host) (sys.new_kernel_param sr) config m

  unfoldable pub append_mount :
      String → RuntimeConfig → Dict MountResource → Result (MountResource × Dict MountResource)
  unfolding append_sys_resource
  append_mount sr config m =
      append_sys_resource (mount_map_kind host) (sys.new_mount sr (timeout_milliseconds config))
        config m

  unfoldable pub append_interface :
      String
      → RuntimeConfig
      → Dict InterfaceResource
      → Result (InterfaceResource × Dict InterfaceResource)
  unfolding append_sys_resource
  append_interface sr config m =
      append_sys_resource (interface_map_kind host) (sys.new_interface sr) config m

  unfoldable pub append_http :
      String → RuntimeConfig → Dict HttpResource → Result (HttpResource × Dict HttpResource)
  unfolding append_sys_resource
  append_http sr config m =
      append_sys_resource (http_map_kind host) (sys.new_http sr (http_config config)) config m

  unfoldable pub append_registry :
      String
      → RuntimeConfig
      → Dict RegistryResource
      → Result (RegistryResource × Dict RegistryResource)
  unfolding append_sys_resource
  append_registry sr config m =
      append_sys_resource (registry_map_kind host) (sys.new_registry sr) config m
