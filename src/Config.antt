-- ===== src/Config.antt =====
-- goss_config.go and discovery_config.go: a parsed gossfile, and how one is merged into another.
pub mod Merge
pub mod Tests
use goss.Base.{String, Bool, List, [], ◌∷◌, ◌++◌, map, ◌==◌, if◌then◌else◌}
use goss.Value.{Fields}
use goss.Resource.{
  registry, matching, interface, mount, kernel_param, port, group, user, process, file, service,
  pkg, dns, addr, http, command, Resource,
}
use goss.Kinds.{
  RegistryResource, MatchingResource, HttpResource, InterfaceResource, MountResource,
  KernelParamResource, ProcessResource, DnsResource, CommandResource, GroupResource, UserResource,
  ServiceResource, PortResource, AddrResource, PackageResource, FileResource,
}
use goss.Base.Maps.{Dict, lookup, insert, values}

-- The sixteen maps that GossConfig and DiscoveryConfig both have.
pub record Sections : Type 0 where
  pub files : Dict FileResource
  pub packages : Dict PackageResource
  pub addrs : Dict AddrResource
  pub ports : Dict PortResource
  pub services : Dict ServiceResource
  pub users : Dict UserResource
  pub groups : Dict GroupResource
  pub commands : Dict CommandResource
  pub dns_tests : Dict DnsResource
  pub processes : Dict ProcessResource
  pub kernel_params : Dict KernelParamResource
  pub mounts : Dict MountResource
  pub interfaces : Dict InterfaceResource
  pub https : Dict HttpResource
  pub matchings : Dict MatchingResource
  pub registries : Dict RegistryResource

-- resource/gossfile.go
pub record Gossfile : Type 0 where
  pub register : String
  pub depends_on : List String
  pub title : String
  pub meta : Fields
  pub path : String
  pub skip : Bool
  pub file : String

-- GetGossfile
abbrev pub get_gossfile : Gossfile → String
get_gossfile g = if g.file == "" then g.path else g.file

-- GossConfig; DiscoveryConfig is Sections.
pub record GossConfig : Type 0 where
  pub discovery : Sections
  pub sections : Sections
  pub gossfiles : Dict Gossfile

abbrev pub no_sections : Sections
no_sections = record {
  files = [];
  packages = [];
  addrs = [];
  ports = [];
  services = [];
  users = [];
  groups = [];
  commands = [];
  dns_tests = [];
  processes = [];
  kernel_params = [];
  mounts = [];
  interfaces = [];
  https = [];
  matchings = [];
  registries = [];
}

-- NewGossConfig
abbrev pub new_goss_config : GossConfig
new_goss_config = record { discovery = no_sections; sections = no_sections; gossfiles = [] }

-- The loop of mergeType over one map of g2.
unfoldable pub merge_map {ℓ} : {V : Type ℓ} → Dict V → Dict V → Dict V
merge_map m [] = m
merge_map m ((k, v) ∷ g2) = merge_map (insert k v m) g2

-- (*DiscoveryConfig).Merge, and (*GossConfig).Merge on the same maps
unfoldable pub merge_sections : Sections → Sections → Sections
merge_sections c g2 = record {
  files = merge_map c.files g2.files;
  packages = merge_map c.packages g2.packages;
  addrs = merge_map c.addrs g2.addrs;
  ports = merge_map c.ports g2.ports;
  services = merge_map c.services g2.services;
  users = merge_map c.users g2.users;
  groups = merge_map c.groups g2.groups;
  commands = merge_map c.commands g2.commands;
  dns_tests = merge_map c.dns_tests g2.dns_tests;
  processes = merge_map c.processes g2.processes;
  kernel_params = merge_map c.kernel_params g2.kernel_params;
  mounts = merge_map c.mounts g2.mounts;
  interfaces = merge_map c.interfaces g2.interfaces;
  https = merge_map c.https g2.https;
  matchings = merge_map c.matchings g2.matchings;
  registries = merge_map c.registries g2.registries;
}

-- (*GossConfig).Merge, which leaves the gossfiles alone
unfoldable pub merge : GossConfig → GossConfig → GossConfig
unfolding merge_sections
merge c g2 = record c {
  discovery = merge_sections c.discovery g2.discovery;
  sections = merge_sections c.sections g2.sections;
}

-- mergeGoss
unfoldable pub merge_goss : GossConfig → GossConfig → GossConfig
unfolding merge
merge_goss g1 g2 = merge (record g1 { gossfiles = [] }) g2

-- genericConcatMaps over all maps, and the loops over them: the order of the maps is the source's,
-- the order inside a map is the one that the run happens to choose.
unfoldable pub resources_of : Sections → List Resource
resources_of c =
    map command (values c.commands)
    ++ (map http (values c.https)
        ++ (map addr (values c.addrs)
            ++ (map dns (values c.dns_tests)
                ++ (map pkg (values c.packages)
                    ++ (map service (values c.services)
                        ++ (map file (values c.files)
                            ++ (map process (values c.processes)
                                ++ (map user (values c.users)
                                    ++ (map group (values c.groups)
                                        ++ (map port (values c.ports)
                                            ++ (map kernel_param (values c.kernel_params)
                                                ++ (map mount (values c.mounts)
                                                    ++ (map interface (values c.interfaces)
                                                        ++ (map matching (values c.matchings)
                                                            ++ (map registry
                                                            (values c.registries))))))))))))))))

-- (*GossConfig).Resources
unfoldable pub resources : GossConfig → List Resource
unfolding resources_of
resources c = resources_of c.sections
