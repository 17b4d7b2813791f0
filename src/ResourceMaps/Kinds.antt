-- ===== src/ResourceMaps/Kinds.antt =====
-- resource/*.go: what the map types of resource_list.go use of each kind of test.
use goss.ResourceMaps.Unmarshals.{
  registry_reads, kernel_param_reads, mount_reads, user_reads, port_reads, command_reads,
  group_reads, interface_reads, process_reads, http_reads, service_reads, package_reads, file_reads,
  gossfile_reads, dns_reads, addr_reads,
}
use goss.ResourceMaps.New.{
  new_dns_resource, new_user_resource, new_port_resource, new_mount_resource, new_file_resource,
  new_command_resource, new_package_resource, new_process_resource, new_interface_resource,
  new_group_resource,
}
use goss.ResourceMaps.NewWhole.{
  new_addr_resource, new_service_resource, new_kernel_param_resource, new_http_resource,
  new_registry_resource, new_gossfile_resource,
}
use goss.System.{
  SysAddr, SysCommand, SysDns, SysFile, SysGroup, SysPackage, SysPort, SysProcess, SysService,
  SysUser, SysKernelParam, SysMount, SysInterface, SysHttp, SysRegistry, SysGossfile,
}
use goss.Kinds.{
  DnsResource, KernelParamResource, ProcessResource, CommandResource, MountResource, PortResource,
  InterfaceResource, ServiceResource, FileResource, UserResource, AddrResource, HttpResource,
  GroupResource, PackageResource, RegistryResource,
}
use goss.Checks.{display_id}
use goss.ResourceMaps.{AddHost, MapKind}
use goss.Config.{Gossfile}

module _ (host : AddHost) where
  unfoldable pub addr_map_kind : MapKind AddrResource SysAddr
  unfolding display_id
  addr_map_kind = record {
    reads = addr_reads;
    create = new_addr_resource;
    exists = λ o. o.exists;
    id = λ r. display_id r.common r.address;
    title = λ r. r.common.title;
    meta = λ r. r.common.meta;
    relabel = λ title meta r. record r { common = record r.common { title = title; meta = meta } };
  }

  unfoldable pub command_map_kind : MapKind CommandResource SysCommand
  unfolding display_id
  command_map_kind = record {
    reads = command_reads;
    create = new_command_resource host;
    exists = λ o. o.exists;
    id = λ r. r.common.id;
    title = λ r. r.common.title;
    meta = λ r. r.common.meta;
    relabel = λ title meta r. record r { common = record r.common { title = title; meta = meta } };
  }

  unfoldable pub dns_map_kind : MapKind DnsResource SysDns
  unfolding display_id
  dns_map_kind = record {
    reads = dns_reads;
    create = new_dns_resource host;
    exists = λ o. o.exists;
    id = λ r. display_id r.common r.resolve;
    title = λ r. r.common.title;
    meta = λ r. r.common.meta;
    relabel = λ title meta r. record r { common = record r.common { title = title; meta = meta } };
  }

  unfoldable pub file_map_kind : MapKind FileResource SysFile
  unfolding display_id
  file_map_kind = record {
    reads = file_reads;
    create = new_file_resource host;
    exists = λ o. o.exists;
    id = λ r. display_id r.common r.path;
    title = λ r. r.common.title;
    meta = λ r. r.common.meta;
    relabel = λ title meta r. record r { common = record r.common { title = title; meta = meta } };
  }

  unfoldable pub gossfile_map_kind : MapKind Gossfile SysGossfile
  unfolding display_id
  gossfile_map_kind = record {
    reads = gossfile_reads;
    create = new_gossfile_resource;
    exists = λ o. o.exists;
    id = λ g. g.path;
    title = λ g. g.title;
    meta = λ g. g.meta;
    relabel = λ title meta g. record g { title = title; meta = meta };
  }

  unfoldable pub group_map_kind : MapKind GroupResource SysGroup
  unfolding display_id
  group_map_kind = record {
    reads = group_reads;
    create = new_group_resource host;
    exists = λ o. o.exists;
    id = λ r. display_id r.common r.groupname;
    title = λ r. r.common.title;
    meta = λ r. r.common.meta;
    relabel = λ title meta r. record r { common = record r.common { title = title; meta = meta } };
  }

  unfoldable pub package_map_kind : MapKind PackageResource SysPackage
  unfolding display_id
  package_map_kind = record {
    reads = package_reads;
    create = new_package_resource host;
    exists = λ o. o.exists;
    id = λ r. display_id r.common r.name;
    title = λ r. r.common.title;
    meta = λ r. r.common.meta;
    relabel = λ title meta r. record r { common = record r.common { title = title; meta = meta } };
  }

  unfoldable pub port_map_kind : MapKind PortResource SysPort
  unfolding display_id
  port_map_kind = record {
    reads = port_reads;
    create = new_port_resource host;
    exists = λ o. o.exists;
    id = λ r. display_id r.common r.port;
    title = λ r. r.common.title;
    meta = λ r. r.common.meta;
    relabel = λ title meta r. record r { common = record r.common { title = title; meta = meta } };
  }

  unfoldable pub process_map_kind : MapKind ProcessResource SysProcess
  unfolding display_id
  process_map_kind = record {
    reads = process_reads;
    create = new_process_resource host;
    exists = λ o. o.exists;
    id = λ r. display_id r.common r.comm;
    title = λ r. r.common.title;
    meta = λ r. r.common.meta;
    relabel = λ title meta r. record r { common = record r.common { title = title; meta = meta } };
  }

  unfoldable pub service_map_kind : MapKind ServiceResource SysService
  unfolding display_id
  service_map_kind = record {
    reads = service_reads;
    create = new_service_resource;
    exists = λ o. o.exists;
    id = λ r. display_id r.common r.name;
    title = λ r. r.common.title;
    meta = λ r. r.common.meta;
    relabel = λ title meta r. record r { common = record r.common { title = title; meta = meta } };
  }

  unfoldable pub user_map_kind : MapKind UserResource SysUser
  unfolding display_id
  user_map_kind = record {
    reads = user_reads;
    create = new_user_resource host;
    exists = λ o. o.exists;
    id = λ r. display_id r.common r.username;
    title = λ r. r.common.title;
    meta = λ r. r.common.meta;
    relabel = λ title meta r. record r { common = record r.common { title = title; meta = meta } };
  }

  unfoldable pub kernel_param_map_kind : MapKind KernelParamResource SysKernelParam
  unfolding display_id
  kernel_param_map_kind = record {
    reads = kernel_param_reads;
    create = new_kernel_param_resource;
    exists = λ o. o.exists;
    id = λ r. display_id r.common r.name;
    title = λ r. r.common.title;
    meta = λ r. r.common.meta;
    relabel = λ title meta r. record r { common = record r.common { title = title; meta = meta } };
  }

  unfoldable pub mount_map_kind : MapKind MountResource SysMount
  unfolding display_id
  mount_map_kind = record {
    reads = mount_reads;
    create = new_mount_resource host;
    exists = λ o. o.exists;
    id = λ r. display_id r.common r.mount_point;
    title = λ r. r.common.title;
    meta = λ r. r.common.meta;
    relabel = λ title meta r. record r { common = record r.common { title = title; meta = meta } };
  }

  unfoldable pub interface_map_kind : MapKind InterfaceResource SysInterface
  unfolding display_id
  interface_map_kind = record {
    reads = interface_reads;
    create = new_interface_resource host;
    exists = λ o. o.exists;
    id = λ r. display_id r.common r.name;
    title = λ r. r.common.title;
    meta = λ r. r.common.meta;
    relabel = λ title meta r. record r { common = record r.common { title = title; meta = meta } };
  }

  unfoldable pub http_map_kind : MapKind HttpResource SysHttp
  unfolding display_id
  http_map_kind = record {
    reads = http_reads;
    create = new_http_resource;
    exists = λ o. o.exists;
    id = λ r. display_id r.common r.url;
    title = λ r. r.common.title;
    meta = λ r. r.common.meta;
    relabel = λ title meta r. record r { common = record r.common { title = title; meta = meta } };
  }

  unfoldable pub registry_map_kind : MapKind RegistryResource SysRegistry
  unfolding display_id
  registry_map_kind = record {
    reads = registry_reads;
    create = new_registry_resource;
    exists = λ o. o.exists;
    id = λ r. display_id r.common r.name;
    title = λ r. r.common.title;
    meta = λ r. r.common.meta;
    relabel = λ title meta r. record r { common = record r.common { title = title; meta = meta } };
  }
