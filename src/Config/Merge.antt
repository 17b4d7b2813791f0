-- ===== src/Config/Merge.antt =====
-- What a merge keeps and what it overwrites.
use goss.Base.{String, ◌≡◌, refl, Option, none, some, [], ◌∷◌, arith, eq_iff}
use goss.Kinds.{
  RegistryResource, MatchingResource, HttpResource, InterfaceResource, MountResource,
  KernelParamResource, ProcessResource, DnsResource, CommandResource, GroupResource, UserResource,
  ServiceResource, PortResource, AddrResource, PackageResource, FileResource,
}
use goss.Config.{merge_map, merge_sections, merge_goss, Sections, GossConfig}
use goss.Base.Maps.{Dict, lookup, insert, lookup-insert}

-- Go's maps have each key once.
abbrev pub Distinct : {V : Type 0} → Dict V → Type 0
Distinct [] = Unit
Distinct ((k, v) ∷ m) = (lookup k m ≡ none) × Distinct m

abbrev pub or_else {ℓ} : {A : Type ℓ} → Option A → Option A → Option A
or_else (some a) o = some a
or_else none o = o

-- The later map wins.
pub lookup-merge_map :
    {V : Type 0} (j : String) (m g2 : Dict V)
    → Distinct g2
    → lookup j (merge_map m g2) ≡ or_else (lookup j g2) (lookup j m)
unfolding merge_map lookup
lookup-merge_map j m [] d = refl
lookup-merge_map j m ((k, v) ∷ g2) d =
    ground (arith, lookup-merge_map j (insert k v m) g2 d.1, lookup-insert k j v m, d.0, eq_iff k j)

-- The maps of a configuration, by name.
pub data Kind : Type 0 where
  files_kind packages_kind addrs_kind ports_kind services_kind users_kind groups_kind commands_kind
        dns_tests_kind processes_kind kernel_params_kind mounts_kind interfaces_kind https_kind
        matchings_kind registries_kind :
      Kind

abbrev pub Entry : Kind → Type 0
Entry files_kind = FileResource
Entry packages_kind = PackageResource
Entry addrs_kind = AddrResource
Entry ports_kind = PortResource
Entry services_kind = ServiceResource
Entry users_kind = UserResource
Entry groups_kind = GroupResource
Entry commands_kind = CommandResource
Entry dns_tests_kind = DnsResource
Entry processes_kind = ProcessResource
Entry kernel_params_kind = KernelParamResource
Entry mounts_kind = MountResource
Entry interfaces_kind = InterfaceResource
Entry https_kind = HttpResource
Entry matchings_kind = MatchingResource
Entry registries_kind = RegistryResource

abbrev pub section : (k : Kind) → Sections → Dict (Entry k)
section files_kind c = c.files
section packages_kind c = c.packages
section addrs_kind c = c.addrs
section ports_kind c = c.ports
section services_kind c = c.services
section users_kind c = c.users
section groups_kind c = c.groups
section commands_kind c = c.commands
section dns_tests_kind c = c.dns_tests
section processes_kind c = c.processes
section kernel_params_kind c = c.kernel_params
section mounts_kind c = c.mounts
section interfaces_kind c = c.interfaces
section https_kind c = c.https
section matchings_kind c = c.matchings
section registries_kind c = c.registries

pub section-merge :
    (k : Kind) (c g2 : Sections)
    → section k (merge_sections c g2) ≡ merge_map (section k c) (section k g2)
unfolding merge_sections
section-merge files_kind c g2 = refl
section-merge _ c g2 = refl

-- In each of the sixteen maps, for tests and for discovery alike, a key of the merged
-- configuration has the value of the later one if it has the key, and else the earlier value.
-- mergeGoss drops the gossfiles of both.
pub lookup-merge_goss :
    (k : Kind) (j : String) (c g2 : GossConfig)
    → Distinct (section k g2.sections)
    → Distinct (section k g2.discovery)
    → (lookup j (section k (merge_goss c g2).sections)
        ≡ or_else (lookup j (section k g2.sections)) (lookup j (section k c.sections)))
      × (lookup j (section k (merge_goss c g2).discovery)
          ≡ or_else (lookup j (section k g2.discovery)) (lookup j (section k c.discovery)))
      × ((merge_goss c g2).gossfiles ≡ [])
unfolding merge_goss
lookup-merge_goss k j c g2 d e = (
  rw section-merge (lookup-merge_map j (section k c.sections) (section k g2.sections) d),
  rw section-merge (lookup-merge_map j (section k c.discovery) (section k g2.discovery) e),
  refl,
)
