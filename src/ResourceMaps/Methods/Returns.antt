-- ===== src/ResourceMaps/Methods/Returns.antt =====
-- resource/resource_list.go and matching.go: what UnmarshalJSON and UnmarshalYAML return.
use goss.Base.{String, ◌≡◌, refl, sym, ap, ◌∙◌, ◌↔◌, Option, some, [], ◌∷◌}
use goss.ResourceMaps.Methods.{tests_map, gossfiles_map, MapType, Row, struct_of, with_id, read_map}
use goss.ResourceMaps.Unmarshals.{
  unmarshal_gossfiles_yaml, unmarshal_gossfiles_json, unmarshal_registries_yaml,
  unmarshal_registries_json, unmarshal_matchings_yaml, unmarshal_matchings_json,
  unmarshal_https_yaml, unmarshal_https_json, unmarshal_interfaces_yaml, unmarshal_interfaces_json,
  unmarshal_mounts_yaml, unmarshal_mounts_json, unmarshal_kernel_params_yaml,
  unmarshal_kernel_params_json, unmarshal_processes_yaml, unmarshal_processes_json,
  unmarshal_dns_tests_yaml, gossfile_reads, unmarshal_dns_tests_json, registry_reads,
  unmarshal_commands_yaml, matching_reads, unmarshal_commands_json, http_reads,
  unmarshal_groups_yaml, interface_reads, unmarshal_groups_json, mount_reads, unmarshal_users_yaml,
  kernel_param_reads, unmarshal_users_json, process_reads, unmarshal_services_yaml, dns_reads,
  unmarshal_services_json, command_reads, unmarshal_ports_yaml, group_reads, unmarshal_ports_json,
  user_reads, unmarshal_addrs_yaml, service_reads, unmarshal_addrs_json, port_reads,
  unmarshal_packages_yaml, addr_reads, package_reads, unmarshal_packages_json, file_reads,
  unmarshal_files_yaml, unmarshal_files_json,
}
use goss.ResourceMaps.Read.{Identified, unmarshal_map-eq_ok}
use goss.ResourceMaps.Attributes.{AllDeclared}
use goss.Value.{Fields}
use goss.Errors.{ok}
use goss.ResourceMaps.{Parsed, ReadKind, unmarshal_map}
use goss.Base.Maps.{Dict, Dict}
use goss.Options.Whitelist.{TagFormat, json_format, yaml_format}
use goss.Config.Merge.{
  files_kind, packages_kind, addrs_kind, ports_kind, services_kind, users_kind, groups_kind,
  commands_kind, dns_tests_kind, processes_kind, kernel_params_kind, mounts_kind, interfaces_kind,
  https_kind, matchings_kind, registries_kind,
}
use mathlib.Core.Path.{subst}

abbrev reads_of : (t : MapType) → ReadKind (Row t)
reads_of (tests_map files_kind) = file_reads
reads_of (tests_map packages_kind) = package_reads
reads_of (tests_map addrs_kind) = addr_reads
reads_of (tests_map ports_kind) = port_reads
reads_of (tests_map services_kind) = service_reads
reads_of (tests_map users_kind) = user_reads
reads_of (tests_map groups_kind) = group_reads
reads_of (tests_map commands_kind) = command_reads
reads_of (tests_map dns_tests_kind) = dns_reads
reads_of (tests_map processes_kind) = process_reads
reads_of (tests_map kernel_params_kind) = kernel_param_reads
reads_of (tests_map mounts_kind) = mount_reads
reads_of (tests_map interfaces_kind) = interface_reads
reads_of (tests_map https_kind) = http_reads
reads_of (tests_map matchings_kind) = matching_reads
reads_of (tests_map registries_kind) = registry_reads
reads_of gossfiles_map = gossfile_reads

reads_of-struct : (t : MapType) → (reads_of t).struct ≡ struct_of t
reads_of-struct (tests_map files_kind) = refl
reads_of-struct (tests_map packages_kind) = refl
reads_of-struct (tests_map addrs_kind) = refl
reads_of-struct (tests_map ports_kind) = refl
reads_of-struct (tests_map services_kind) = refl
reads_of-struct (tests_map users_kind) = refl
reads_of-struct (tests_map groups_kind) = refl
reads_of-struct (tests_map commands_kind) = refl
reads_of-struct (tests_map dns_tests_kind) = refl
reads_of-struct (tests_map processes_kind) = refl
reads_of-struct (tests_map kernel_params_kind) = refl
reads_of-struct (tests_map mounts_kind) = refl
reads_of-struct (tests_map interfaces_kind) = refl
reads_of-struct (tests_map https_kind) = refl
reads_of-struct (tests_map matchings_kind) = refl
reads_of-struct (tests_map registries_kind) = refl
reads_of-struct gossfiles_map = refl

set_id-with_id : (t : MapType) (id : String) (r : Row t) → (reads_of t).set_id id r ≡ with_id t id r
set_id-with_id (tests_map files_kind) id r = refl
set_id-with_id (tests_map packages_kind) id r = refl
set_id-with_id (tests_map addrs_kind) id r = refl
set_id-with_id (tests_map ports_kind) id r = refl
set_id-with_id (tests_map services_kind) id r = refl
set_id-with_id (tests_map users_kind) id r = refl
set_id-with_id (tests_map groups_kind) id r = refl
set_id-with_id (tests_map commands_kind) id r = refl
set_id-with_id (tests_map dns_tests_kind) id r = refl
set_id-with_id (tests_map processes_kind) id r = refl
set_id-with_id (tests_map kernel_params_kind) id r = refl
set_id-with_id (tests_map mounts_kind) id r = refl
set_id-with_id (tests_map interfaces_kind) id r = refl
set_id-with_id (tests_map https_kind) id r = refl
set_id-with_id (tests_map matchings_kind) id r = refl
set_id-with_id (tests_map registries_kind) id r = refl
set_id-with_id gossfiles_map id g = refl

read_map-unmarshal_map :
    (t : MapType) (format : TagFormat) (parsed : Parsed (Row t))
    → read_map t format parsed ≡ unmarshal_map (reads_of t) format parsed
unfolding unmarshal_files_json unmarshal_files_yaml unmarshal_packages_json unmarshal_packages_yaml
    unmarshal_addrs_json unmarshal_addrs_yaml unmarshal_ports_json unmarshal_ports_yaml
    unmarshal_services_json unmarshal_services_yaml unmarshal_users_json unmarshal_users_yaml
    unmarshal_groups_json unmarshal_groups_yaml unmarshal_commands_json unmarshal_commands_yaml
    unmarshal_dns_tests_json unmarshal_dns_tests_yaml unmarshal_processes_json
    unmarshal_processes_yaml unmarshal_kernel_params_json unmarshal_kernel_params_yaml
    unmarshal_mounts_json unmarshal_mounts_yaml unmarshal_interfaces_json unmarshal_interfaces_yaml
    unmarshal_https_json unmarshal_https_yaml unmarshal_matchings_json unmarshal_matchings_yaml
    unmarshal_registries_json unmarshal_registries_yaml unmarshal_gossfiles_json
    unmarshal_gossfiles_yaml
read_map-unmarshal_map (tests_map files_kind) json_format parsed = refl
read_map-unmarshal_map (tests_map files_kind) yaml_format parsed = refl
read_map-unmarshal_map (tests_map packages_kind) json_format parsed = refl
read_map-unmarshal_map (tests_map packages_kind) yaml_format parsed = refl
read_map-unmarshal_map (tests_map addrs_kind) json_format parsed = refl
read_map-unmarshal_map (tests_map addrs_kind) yaml_format parsed = refl
read_map-unmarshal_map (tests_map ports_kind) json_format parsed = refl
read_map-unmarshal_map (tests_map ports_kind) yaml_format parsed = refl
read_map-unmarshal_map (tests_map services_kind) json_format parsed = refl
read_map-unmarshal_map (tests_map services_kind) yaml_format parsed = refl
read_map-unmarshal_map (tests_map users_kind) json_format parsed = refl
read_map-unmarshal_map (tests_map users_kind) yaml_format parsed = refl
read_map-unmarshal_map (tests_map groups_kind) json_format parsed = refl
read_map-unmarshal_map (tests_map groups_kind) yaml_format parsed = refl
read_map-unmarshal_map (tests_map commands_kind) json_format parsed = refl
read_map-unmarshal_map (tests_map commands_kind) yaml_format parsed = refl
read_map-unmarshal_map (tests_map dns_tests_kind) json_format parsed = refl
read_map-unmarshal_map (tests_map dns_tests_kind) yaml_format parsed = refl
read_map-unmarshal_map (tests_map processes_kind) json_format parsed = refl
read_map-unmarshal_map (tests_map processes_kind) yaml_format parsed = refl
read_map-unmarshal_map (tests_map kernel_params_kind) json_format parsed = refl
read_map-unmarshal_map (tests_map kernel_params_kind) yaml_format parsed = refl
read_map-unmarshal_map (tests_map mounts_kind) json_format parsed = refl
read_map-unmarshal_map (tests_map mounts_kind) yaml_format parsed = refl
read_map-unmarshal_map (tests_map interfaces_kind) json_format parsed = refl
read_map-unmarshal_map (tests_map interfaces_kind) yaml_format parsed = refl
read_map-unmarshal_map (tests_map https_kind) json_format parsed = refl
read_map-unmarshal_map (tests_map https_kind) yaml_format parsed = refl
read_map-unmarshal_map (tests_map matchings_kind) json_format parsed = refl
read_map-unmarshal_map (tests_map matchings_kind) yaml_format parsed = refl
read_map-unmarshal_map (tests_map registries_kind) json_format parsed = refl
read_map-unmarshal_map (tests_map registries_kind) yaml_format parsed = refl
read_map-unmarshal_map gossfiles_map json_format parsed = refl
read_map-unmarshal_map gossfiles_map yaml_format parsed = refl

-- The entries are those that were parsed, none of them empty, each with its key as its ID.
abbrev pub Keyed : (t : MapType) → Dict (Option (Row t)) → Dict (Row t) → Type 0
Keyed t [] m = m ≡ []
Keyed t ((id, o) ∷ entries) m =
    (r : Row t) × (rest : Dict (Row t)) × (o ≡ some r)
    × (m ≡ (id, with_id t id r) ∷ rest)
    × Keyed t entries rest

Identified-Keyed :
    (t : MapType) (entries : Dict (Option (Row t))) (m : Dict (Row t))
    → Identified (reads_of t) entries m ↔ Keyed t entries m
Identified-Keyed t [] m = ((λ h. h), λ h. h)
Identified-Keyed t ((id, o) ∷ entries) m = (
  (λ h.
      let (r, rest, there, here, later) = h in
      (
        r,
        rest,
        there,
        here ∙ ap (λ x. (id, x) ∷ rest) (set_id-with_id t id r),
        (Identified-Keyed t entries rest).0 later,
      )),
  λ h.
      let (r, rest, there, here, later) = h in
      (
        r,
        rest,
        there,
        here ∙ ap (λ x. (id, x) ∷ rest) (sym (set_id-with_id t id r)),
        (Identified-Keyed t entries rest).1 later,
      ),
)

-- UnmarshalJSON and UnmarshalYAML of each map type return a map exactly when the text parses, every
-- attribute of every section is one that the struct of the map's entries declares, by its tags or
-- those of a struct that it embeds, and no entry is empty; the map then has the parsed entries, in
-- their order, each as it was parsed but with its key as its ID.
pub read_map-eq_ok :
    (t : MapType) (format : TagFormat) (parsed : Parsed (Row t)) (m : Dict (Row t))
    → (read_map t format parsed ≡ ok m) ↔ (
        (sections : Dict Fields) × (entries : Dict (Option (Row t))) × (parsed.sections
          ≡ ok sections)
        × (parsed.entries ≡ ok entries)
        × AllDeclared format (struct_of t) sections
        × Keyed t entries m)
read_map-eq_ok t format parsed m =
    let template = unmarshal_map-eq_ok (reads_of t) format parsed m in
    (
      (λ e.
          let (sections, entries, s, p, all, keyed) =
            template.0 (sym (read_map-unmarshal_map t format parsed) ∙ e) in
          (
            sections,
            entries,
            s,
            p,
            subst (λ x. AllDeclared format x sections) (reads_of-struct t) all,
            (Identified-Keyed t entries m).0 keyed,
          )),
      λ found.
          let (sections, entries, s, p, all, keyed) = found in
          read_map-unmarshal_map t format parsed
          ∙ template.1 (
            sections,
            entries,
            s,
            p,
            subst (λ x. AllDeclared format x sections) (sym (reads_of-struct t)) all,
            (Identified-Keyed t entries m).1 keyed,
          ),
    )
