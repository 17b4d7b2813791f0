-- ===== src/Add/Sections.antt =====
-- add.go: what stays of a gossfile that is added to.
use goss.Base.{String, ◌≡◌, refl, ◌∙◌, some, map}
use goss.ResourceMaps.Kinds.{
  gossfile_map_kind, registry_map_kind, http_map_kind, interface_map_kind, mount_map_kind,
  kernel_param_map_kind, user_map_kind, service_map_kind, process_map_kind, port_map_kind,
  package_map_kind, group_map_kind, file_map_kind, dns_map_kind, command_map_kind, addr_map_kind,
}
use goss.Base.Maps.{lookup, Dict}
use goss.ResourceMaps.{AddHost, MapKind}
use goss.Config.{GossConfig}
use goss.Value.{Fields}

-- The maps of a gossfile that AddResource adds to
pub data Section : Type 0 where
  addrs_section : Section
  commands_section : Section
  dns_tests_section : Section
  files_section : Section
  groups_section : Section
  packages_section : Section
  ports_section : Section
  processes_section : Section
  services_section : Section
  users_section : Section
  kernel_params_section : Section
  mounts_section : Section
  interfaces_section : Section
  https_section : Section
  registries_section : Section
  gossfiles_section : Section

-- The titles and the meta data of a map's entries
abbrev pub labels_of : {R O : Type 0} → MapKind R O → Dict R → Dict (String × Fields)
labels_of kind m = map (λ e. (e.0, (kind.title e.1, kind.meta e.1))) m

abbrev pub KeepsLabels : {R O : Type 0} → MapKind R O → Dict R → Dict R → Type 0
KeepsLabels kind m n =
    (key : String) (l : String × Fields)
    → (lookup key (labels_of kind m) ≡ some l)
    → lookup key (labels_of kind n) ≡ some l

module _ (host : AddHost) where
  abbrev pub labels : GossConfig → Section → Dict (String × Fields)
  labels c addrs_section = labels_of (addr_map_kind host) c.sections.addrs
  labels c commands_section = labels_of (command_map_kind host) c.sections.commands
  labels c dns_tests_section = labels_of (dns_map_kind host) c.sections.dns_tests
  labels c files_section = labels_of (file_map_kind host) c.sections.files
  labels c groups_section = labels_of (group_map_kind host) c.sections.groups
  labels c packages_section = labels_of (package_map_kind host) c.sections.packages
  labels c ports_section = labels_of (port_map_kind host) c.sections.ports
  labels c processes_section = labels_of (process_map_kind host) c.sections.processes
  labels c services_section = labels_of (service_map_kind host) c.sections.services
  labels c users_section = labels_of (user_map_kind host) c.sections.users
  labels c kernel_params_section = labels_of (kernel_param_map_kind host) c.sections.kernel_params
  labels c mounts_section = labels_of (mount_map_kind host) c.sections.mounts
  labels c interfaces_section = labels_of (interface_map_kind host) c.sections.interfaces
  labels c https_section = labels_of (http_map_kind host) c.sections.https
  labels c registries_section = labels_of (registry_map_kind host) c.sections.registries
  labels c gossfiles_section = labels_of (gossfile_map_kind host) c.gossfiles

  abbrev pub KeepsSection : GossConfig → GossConfig → Section → Type 0
  KeepsSection c d s =
      (key : String) (l : String × Fields)
      → (lookup key (labels c s) ≡ some l)
      → lookup key (labels d s) ≡ some l

  -- Every entry of the sixteen maps is still there, with its title and its meta data, and the map of
  -- matching tests and the discovery section are the same.
  abbrev pub KeepsTests : GossConfig → GossConfig → Type 0
  KeepsTests c d =
      (d.discovery ≡ c.discovery)
      × (d.sections.matchings ≡ c.sections.matchings)
      × ((s : Section) → KeepsSection c d s)

  pub KeepsTests-trans : (c d e : GossConfig) → KeepsTests c d → KeepsTests d e → KeepsTests c e
  KeepsTests-trans c d e h k = (k.0 ∙ h.0, k.1 ∙ h.1, λ s key l q. k.2 s key l (h.2 s key l q))

  pub KeepsTests-refl : (c : GossConfig) → KeepsTests c c
  KeepsTests-refl c = (refl, refl, λ s key l q. q)
