-- ===== src/Add/Maps.antt =====
-- add.go: the configuration with one of its maps changed, as a method of the map changes it.
use goss.Kinds.{
  CommandResource, FileResource, UserResource, KernelParamResource, DnsResource, GroupResource,
  InterfaceResource, ProcessResource, RegistryResource, PortResource, MountResource,
  ServiceResource, HttpResource, AddrResource, PackageResource,
}
use goss.Base.Maps.{Dict}
use goss.Config.{Gossfile, GossConfig}

abbrev pub with_addrs : GossConfig → Dict AddrResource → GossConfig
with_addrs c m = record c { sections = record c.sections { addrs = m } }

abbrev pub with_commands : GossConfig → Dict CommandResource → GossConfig
with_commands c m = record c { sections = record c.sections { commands = m } }

abbrev pub with_dns_tests : GossConfig → Dict DnsResource → GossConfig
with_dns_tests c m = record c { sections = record c.sections { dns_tests = m } }

abbrev pub with_files : GossConfig → Dict FileResource → GossConfig
with_files c m = record c { sections = record c.sections { files = m } }

abbrev pub with_groups : GossConfig → Dict GroupResource → GossConfig
with_groups c m = record c { sections = record c.sections { groups = m } }

abbrev pub with_packages : GossConfig → Dict PackageResource → GossConfig
with_packages c m = record c { sections = record c.sections { packages = m } }

abbrev pub with_ports : GossConfig → Dict PortResource → GossConfig
with_ports c m = record c { sections = record c.sections { ports = m } }

abbrev pub with_processes : GossConfig → Dict ProcessResource → GossConfig
with_processes c m = record c { sections = record c.sections { processes = m } }

abbrev pub with_services : GossConfig → Dict ServiceResource → GossConfig
with_services c m = record c { sections = record c.sections { services = m } }

abbrev pub with_users : GossConfig → Dict UserResource → GossConfig
with_users c m = record c { sections = record c.sections { users = m } }

abbrev pub with_gossfiles : GossConfig → Dict Gossfile → GossConfig
with_gossfiles c m = record c { gossfiles = m }

abbrev pub with_kernel_params : GossConfig → Dict KernelParamResource → GossConfig
with_kernel_params c m = record c { sections = record c.sections { kernel_params = m } }

abbrev pub with_mounts : GossConfig → Dict MountResource → GossConfig
with_mounts c m = record c { sections = record c.sections { mounts = m } }

abbrev pub with_interfaces : GossConfig → Dict InterfaceResource → GossConfig
with_interfaces c m = record c { sections = record c.sections { interfaces = m } }

abbrev pub with_https : GossConfig → Dict HttpResource → GossConfig
with_https c m = record c { sections = record c.sections { https = m } }

abbrev pub with_registries : GossConfig → Dict RegistryResource → GossConfig
with_registries c m = record c { sections = record c.sections { registries = m } }
