-- ===== src/ResourceMaps/IfExists.antt =====
-- resource/resource_list.go: AppendSysResourceIfExists of each map type.
use goss.Options.{zero_config, timeout_milliseconds}
use goss.ResourceMaps.Appends.{http_config}
use goss.ResourceMaps.Kinds.{
  package_map_kind, service_map_kind, file_map_kind, http_map_kind, addr_map_kind, user_map_kind,
  interface_map_kind, mount_map_kind, dns_map_kind, gossfile_map_kind, process_map_kind,
  command_map_kind, kernel_param_map_kind, port_map_kind, registry_map_kind, group_map_kind,
}
use goss.System.{
  SysAddr, SysCommand, SysDns, SysFile, SysGossfile, SysGroup, SysPackage, SysPort, SysProcess,
  SysService, SysUser, SysKernelParam, SysMount, SysInterface, SysHttp, SysRegistry, System,
}
use goss.Kinds.{
  PortResource, UserResource, KernelParamResource, MountResource, InterfaceResource, FileResource,
  GroupResource, RegistryResource, HttpResource, ServiceResource, AddrResource, PackageResource,
  DnsResource, CommandResource, ProcessResource,
}
use goss.Errors.{Result}
use goss.Base.Maps.{
  Dict, Dict, Dict, Dict, Dict, Dict, Dict, Dict, Dict, Dict, Dict, Dict, Dict, Dict, Dict, Dict,
}
use goss.Base.{String, Bool}
use goss.ResourceMaps.{append_sys_resource_if_exists, AddHost}
use goss.Config.{Gossfile}

module _ (host : AddHost) (sys : System) where
  unfoldable pub append_addr_if_exists :
      String → Dict AddrResource → Result (AddrResource × SysAddr × Bool × Dict AddrResource)
  unfolding append_sys_resource_if_exists
  append_addr_if_exists sr m =
      append_sys_resource_if_exists (addr_map_kind host)
        (sys.new_addr sr (timeout_milliseconds zero_config) zero_config.local_address) m

  unfoldable pub append_command_if_exists :
      String
      → Dict CommandResource
      → Result (CommandResource × SysCommand × Bool × Dict CommandResource)
  unfolding append_sys_resource_if_exists
  append_command_if_exists sr m =
      append_sys_resource_if_exists (command_map_kind host)
        (sys.new_command sr (timeout_milliseconds zero_config)) m

  unfoldable pub append_dns_if_exists :
      String → Dict DnsResource → Result (DnsResource × SysDns × Bool × Dict DnsResource)
  unfolding append_sys_resource_if_exists
  append_dns_if_exists sr m =
      append_sys_resource_if_exists (dns_map_kind host)
        (sys.new_dns sr (timeout_milliseconds zero_config) zero_config.server) m

  unfoldable pub append_file_if_exists :
      String → Dict FileResource → Result (FileResource × SysFile × Bool × Dict FileResource)
  unfolding append_sys_resource_if_exists
  append_file_if_exists sr m =
      append_sys_resource_if_exists (file_map_kind host) (sys.new_file sr) m

  unfoldable pub append_gossfile_if_exists :
      String → Dict Gossfile → Result (Gossfile × SysGossfile × Bool × Dict Gossfile)
  unfolding append_sys_resource_if_exists
  append_gossfile_if_exists sr m =
      append_sys_resource_if_exists (gossfile_map_kind host) (sys.new_gossfile sr) m

  unfoldable pub append_group_if_exists :
      String → Dict GroupResource → Result (GroupResource × SysGroup × Bool × Dict GroupResource)
  unfolding append_sys_resource_if_exists
  append_group_if_exists sr m =
      append_sys_resource_if_exists (group_map_kind host) (sys.new_group sr) m

  unfoldable pub append_package_if_exists :
      String
      → Dict PackageResource
      → Result (PackageResource × SysPackage × Bool × Dict PackageResource)
  unfolding append_sys_resource_if_exists
  append_package_if_exists sr m =
      append_sys_resource_if_exists (package_map_kind host) (sys.new_package sr) m

  unfoldable pub append_port_if_exists :
      String → Dict PortResource → Result (PortResource × SysPort × Bool × Dict PortResource)
  unfolding append_sys_resource_if_exists
  append_port_if_exists sr m =
      append_sys_resource_if_exists (port_map_kind host) (sys.new_port sr) m

  unfoldable pub append_process_if_exists :
      String
      → Dict ProcessResource
      → Result (ProcessResource × SysProcess × Bool × Dict ProcessResource)
  unfolding append_sys_resource_if_exists
  append_process_if_exists sr m =
      append_sys_resource_if_exists (process_map_kind host) (sys.new_process sr) m

  unfoldable pub append_service_if_exists :
      String
      → Dict ServiceResource
      → Result (ServiceResource × SysService × Bool × Dict ServiceResource)
  unfolding append_sys_resource_if_exists
  append_service_if_exists sr m =
      append_sys_resource_if_exists (service_map_kind host) (sys.new_service sr) m

  unfoldable pub append_user_if_exists :
      String → Dict UserResource → Result (UserResource × SysUser × Bool × Dict UserResource)
  unfolding append_sys_resource_if_exists
  append_user_if_exists sr m =
      append_sys_resource_if_exists (user_map_kind host) (sys.new_user sr) m

  unfoldable pub append_kernel_param_if_exists :
      String
      → Dict KernelParamResource
      → Result (KernelParamResource × SysKernelParam × Bool × Dict KernelParamResource)
  unfolding append_sys_resource_if_exists
  append_kernel_param_if_exists sr m =
      append_sys_resource_if_exists (kernel_param_map_kind host) (sys.new_kernel_param sr) m

  unfoldable pub append_mount_if_exists :
      String → Dict MountResource → Result (MountResource × SysMount × Bool × Dict MountResource)
  unfolding append_sys_resource_if_exists
  append_mount_if_exists sr m =
      append_sys_resource_if_exists (mount_map_kind host)
        (sys.new_mount sr (timeout_milliseconds zero_config)) m

  unfoldable pub append_interface_if_exists :
      String
      → Dict InterfaceResource
      → Result (InterfaceResource × SysInterface × Bool × Dict InterfaceResource)
  unfolding append_sys_resource_if_exists
  append_interface_if_exists sr m =
      append_sys_resource_if_exists (interface_map_kind host) (sys.new_interface sr) m

  unfoldable pub append_http_if_exists :
      String → Dict HttpResource → Result (HttpResource × SysHttp × Bool × Dict HttpResource)
  unfolding append_sys_resource_if_exists
  append_http_if_exists sr m =
      append_sys_resource_if_exists (http_map_kind host) (sys.new_http sr (http_config zero_config))
        m

  unfoldable pub append_registry_if_exists :
      String
      → Dict RegistryResource
      → Result (RegistryResource × SysRegistry × Bool × Dict RegistryResource)
  unfolding append_sys_resource_if_exists
  append_registry_if_exists sr m =
      append_sys_resource_if_exists (registry_map_kind host) (sys.new_registry sr) m
