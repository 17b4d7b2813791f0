-- ===== src/Add.antt =====
-- add.go: how `goss add` and `goss autoadd` put objects of the machine into a gossfile. The maps of
-- the configuration are shared with the caller in the source; here the configuration is passed on. What
-- the calls print comes with it as a list, which an error does not keep.
pub mod Maps
pub mod Auto
pub mod Files
pub mod Sections
pub mod OneMap
pub mod Labels
pub mod Frame
pub mod AutoKinds
pub mod AutoFrame
pub mod Whole
pub mod Tests
use goss.Base.{String, Bool, List, [], ◌∷◌, ◌++◌, ◌==◌, if◌then◌else◌}
use goss.ResourceMaps.Appends.{
  append_registry, append_http, append_interface, append_mount, append_kernel_param,
  append_gossfile, append_user, append_service, append_process, append_port, append_package,
  append_group, append_file, append_dns, append_command, append_addr,
}
use goss.Add.Maps.{
  with_registries, with_https, with_interfaces, with_mounts, with_kernel_params, with_gossfiles,
  with_users, with_services, with_processes, with_ports, with_packages, with_groups, with_files,
  with_dns_tests, with_commands, with_addrs,
}
use goss.ResourceMaps.Kinds.{
  registry_map_kind, http_map_kind, interface_map_kind, mount_map_kind, kernel_param_map_kind,
  gossfile_map_kind, user_map_kind, service_map_kind, process_map_kind, port_map_kind,
  package_map_kind, group_map_kind, file_map_kind, dns_map_kind, command_map_kind, addr_map_kind,
}
use goss.Options.{RuntimeConfig}
use goss.Base.Maps.{Dict}
use goss.System.{System}
use goss.Config.{GossConfig}
use goss.ResourceMaps.{AddHost, MapKind}
use goss.Errors.{Result, ok, err, ◌>>=◌, undefined_resource}

-- A line that resourcePrint prints.
pub record Announcement : Type 0 where
  pub typ : String
  pub file_name : String
  pub id : String

-- The configuration, and what is printed so far
abbrev pub Session : Type 0
Session = GossConfig × List Announcement

-- resourcePrint, where `typ` is the type name of the resource
unfoldable pub resource_print :
    (typ : String) → (file_name : String) → (id : String) → (announce : Bool) → List Announcement
resource_print typ file_name id announce =
    if announce then record { typ = typ; file_name = file_name; id = id } ∷ [] else []

-- The end of AddResource behind an AppendSysResource: `store` puts the changed map back.
abbrev pub put_added :
    {R O : Type 0}
    → MapKind R O
    → (file_name : String) → (announce : Bool) → (store : Dict R → GossConfig) → List Announcement
    → Result (R × Dict R)
    → Result Session
put_added kind file_name announce store printed appended = do
  (res, m) ← appended
  ok (store m, printed ++ resource_print kind.reads.typ file_name (kind.id res) announce)

module _ (host : AddHost) (sys : System) (file_name : String) where
  -- AddResource
  unfoldable pub add_resource :
      (resource_name key : String) → RuntimeConfig → Session → Result Session
  unfolding resource_print
  add_resource resource_name key config (c, printed) =
      if resource_name == "Addr"
      then put_added (addr_map_kind host) file_name config.announce_to_cli (with_addrs c) printed
          (append_addr host sys key config c.sections.addrs)
      else if resource_name == "Command"
      then put_added (command_map_kind host) file_name config.announce_to_cli (with_commands c)
          printed (append_command host sys key config c.sections.commands)
      else if resource_name == "DNS"
      then put_added (dns_map_kind host) file_name config.announce_to_cli (with_dns_tests c) printed
          (append_dns host sys key config c.sections.dns_tests)
      else if resource_name == "File"
      then put_added (file_map_kind host) file_name config.announce_to_cli (with_files c) printed
          (append_file host sys key config c.sections.files)
      else if resource_name == "Group"
      then put_added (group_map_kind host) file_name config.announce_to_cli (with_groups c) printed
          (append_group host sys key config c.sections.groups)
      else if resource_name == "Package"
      then put_added (package_map_kind host) file_name config.announce_to_cli (with_packages c)
          printed (append_package host sys key config c.sections.packages)
      else if resource_name == "Port"
      then put_added (port_map_kind host) file_name config.announce_to_cli (with_ports c) printed
          (append_port host sys key config c.sections.ports)
      else if resource_name == "Process"
      then put_added (process_map_kind host) file_name config.announce_to_cli (with_processes c)
          printed (append_process host sys key config c.sections.processes)
      else if resource_name == "Service"
      then put_added (service_map_kind host) file_name config.announce_to_cli (with_services c)
          printed (append_service host sys key config c.sections.services)
      else if resource_name == "User"
      then put_added (user_map_kind host) file_name config.announce_to_cli (with_users c) printed
          (append_user host sys key config c.sections.users)
      else if resource_name == "Gossfile"
      then put_added (gossfile_map_kind host) file_name config.announce_to_cli (with_gossfiles c)
          printed (append_gossfile host sys key config c.gossfiles)
      else if resource_name == "KernelParam"
      then put_added (kernel_param_map_kind host) file_name config.announce_to_cli
          (with_kernel_params c) printed
          (append_kernel_param host sys key config c.sections.kernel_params)
      else if resource_name == "Mount"
      then put_added (mount_map_kind host) file_name config.announce_to_cli (with_mounts c) printed
          (append_mount host sys key config c.sections.mounts)
      else if resource_name == "Interface"
      then put_added (interface_map_kind host) file_name config.announce_to_cli (with_interfaces c)
          printed (append_interface host sys key config c.sections.interfaces)
      else if resource_name == "HTTP"
      then put_added (http_map_kind host) file_name config.announce_to_cli (with_https c) printed
          (append_http host sys key config c.sections.https)
      else if resource_name == "Registry"
      then put_added (registry_map_kind host) file_name config.announce_to_cli (with_registries c)
          printed (append_registry host sys key config c.sections.registries)
      else err (undefined_resource resource_name)
