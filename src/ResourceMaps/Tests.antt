-- ===== src/ResourceMaps/Tests.antt =====
-- resource/resource_list.go: the theorems on the map types, tried on a map of files, and the
-- attributes of some of the kinds.
use goss.Base.{String, ◌≡◌, refl, ◌↔◌, ◌⊎◌, true, false, Option, some, [], ◌∷◌, ◌==◌, if◌then◌else◌}
use goss.ResourceMaps.Unmarshals.{file_reads, unmarshal_files_yaml}
use goss.ResourceMaps.Getters.{contains_match}
use goss.ResourceMaps.{
  put_resource, set_ids, AddHost, Parsed, append_sys_resource, append_sys_resource_if_exists,
  unmarshal_map,
}
use goss.Base.Maps.{insert, Dict, lookup}
use goss.Checks.{display_id}
use goss.System.Accounts.{split_on}
use goss.Options.Whitelist.{
  validate_attrs, validate_each, validate_sections, whitelist_attrs, json_format, yaml_format,
}
use goss.Errors.{Error, ◌>>=◌, ok, err, invalid_attribute}
use goss.ResourceMaps.Kinds.{file_map_kind}
use goss.ResourceMaps.Structs.{group_struct}
use goss.ResourceMaps.Lawful.{file_map_kind-IsLawful}
use goss.ResourceMaps.Kept.{
  TakesLabels, append_sys_resource-TakesLabels, append_sys_resource_if_exists-adds,
}
use goss.ResourceMaps.Attributes.{AllDeclared}
use goss.ResourceMaps.Methods.{tests_map, MapType, struct_of}
use goss.ResourceMaps.Methods.Returns.{Keyed, read_map-eq_ok}
use goss.Config.Merge.{files_kind}
use goss.ResourceMaps.New.{new_file_resource}
use goss.Options.{zero_config}
use goss.Value.{Fields, field, end, str, bool, null, strs}
use goss.Samples.{machine, sample_file}
use goss.Kinds.{FileResource}
use goss.System.{SysFile}

abbrev pub add_host : AddHost
add_host = record {
  glob_match = λ pattern name. pattern == name;
  scan_lines = λ text. [];
  trim_space = λ s. s;
}

abbrev motd : SysFile
motd = machine.new_file "/etc/motd"

-- A test of the file that somebody gave a title
abbrev pub titled : FileResource
titled = record (sample_file "/etc/motd" false) {
  common = record (sample_file "/etc/motd" false).common { title = "greeting" };
}

abbrev pub described : FileResource
described = record (sample_file "/etc/motd" false) {
  path = "";
  exists = bool false;
  mode = null;
  contents = strs [];
}

abbrev pub described_with_title : FileResource
described_with_title = record described { common = record described.common { title = "greeting" } }

file_is_added :
    append_sys_resource (file_map_kind add_host) motd zero_config (("/etc/motd", titled) ∷ [])
    ≡ ok (described_with_title, ("/etc/motd", described_with_title) ∷ [])
unfolding append_sys_resource put_resource file_map_kind display_id new_file_resource contains_match
    lookup insert
file_is_added = refl

append_sys_resource-TakesLabels_example :
    (created : FileResource) × ((file_map_kind add_host).create motd zero_config ≡ ok created)
    × ((file_map_kind add_host).id described_with_title ≡ (file_map_kind add_host).id created)
    × TakesLabels
        (file_map_kind add_host)
        (file_map_kind-IsLawful add_host)
        (lookup ((file_map_kind add_host).id created) (("/etc/motd", titled) ∷ []))
        created
        described_with_title
    × ((key : String)
        → lookup key (("/etc/motd", described_with_title) ∷ []) ≡ (
            if (file_map_kind add_host).id created == key
            then some described_with_title
            else lookup key (("/etc/motd", titled) ∷ [])))
append_sys_resource-TakesLabels_example =
    append_sys_resource-TakesLabels (file_map_kind add_host) (file_map_kind-IsLawful add_host) motd
      zero_config (("/etc/motd", titled) ∷ []) (("/etc/motd", described_with_title) ∷ [])
      described_with_title file_is_added

motd_is_described : (file_map_kind add_host).create motd zero_config ≡ ok described
unfolding file_map_kind new_file_resource contains_match
motd_is_described = refl

append_sys_resource_if_exists-adds_example :
    ((((file_map_kind add_host).exists motd ≡ ok false)
        ⊎ ((e : Error) × ((file_map_kind add_host).exists motd ≡ err e)))
      → append_sys_resource_if_exists (file_map_kind add_host) motd []
        ≡ ok (described, motd, false, []))
    × (((file_map_kind add_host).exists motd ≡ ok true)
        → append_sys_resource_if_exists (file_map_kind add_host) motd [] ≡ (
            append_sys_resource (file_map_kind add_host) motd zero_config [] >>= λ p.
            ok (p.0, motd, true, p.1)))
append_sys_resource_if_exists-adds_example =
    append_sys_resource_if_exists-adds (file_map_kind add_host) motd [] described motd_is_described

abbrev files_map : MapType
files_map = tests_map files_kind

abbrev parsed_files : Parsed FileResource
parsed_files = record {
  sections =
      ok (("/etc/motd", field "title" (str "greeting") (field "mode" (str "0644") end)) ∷ []);
  entries = ok (("/etc/motd", some described) ∷ []);
}

read_map-eq_ok_example :
    (unmarshal_files_yaml parsed_files ≡ ok (("/etc/motd", described) ∷ [])) ↔ (
      (sections : Dict Fields) × (entries : Dict (Option FileResource)) × (parsed_files.sections
        ≡ ok sections)
      × (parsed_files.entries ≡ ok entries)
      × AllDeclared yaml_format (struct_of files_map) sections
      × Keyed files_map entries (("/etc/motd", described) ∷ []))
read_map-eq_ok_example =
    read_map-eq_ok files_map yaml_format parsed_files (("/etc/motd", described) ∷ [])

files_are_read :
    unmarshal_map file_reads yaml_format parsed_files ≡ ok (("/etc/motd", described) ∷ [])
unfolding unmarshal_map whitelist_attrs split_on validate_sections validate_each validate_attrs
    set_ids
files_are_read = refl

-- An attribute that no field has is refused.
attribute_is_refused :
    unmarshal_map file_reads yaml_format
      (record parsed_files { sections = ok (("/etc/motd", field "moode" null end) ∷ []) })
    ≡ err (invalid_attribute "File" "/etc/motd" "moode")
unfolding unmarshal_map whitelist_attrs split_on validate_sections validate_each validate_attrs
    set_ids
attribute_is_refused = refl

group_attributes :
    whitelist_attrs json_format group_struct
    ≡ "register" ∷ "depends-on" ∷ "title" ∷ "meta" ∷ "groupname" ∷ "exists" ∷ "gid" ∷ "skip" ∷ []
unfolding whitelist_attrs split_on
group_attributes = refl
