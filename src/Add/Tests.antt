-- ===== src/Add/Tests.antt =====
-- add.go: the theorems, tried on a gossfile with one file, to which the file itself and a group are
-- added.
use goss.Base.{◌≡◌, refl, true, false, [], ◌∷◌, ◌==◌, if◌then◌else◌, any_of}
use goss.Add.Whole.{WritesMore, add_resources-WritesMore, auto_add_resources-WritesMore}
use goss.Add.Files.{
  AddMachine, add_resources, auto_add_resources, set_log_level, read_or_new, add_keys,
}
use goss.Store.{get_store_format_from_file_name, read_json, read_json_data}
use goss.Store.Write.{wrote, write_json, marshal}
use goss.Store.Tests.{plain_host}
use goss.Base.Maps.{keys, lookup, insert}
use goss.Add.{Session, add_resource, resource_print}
use goss.Add.Auto.{
  auto_add_resource, auto_add_group, auto_add_package, auto_add_port, auto_add_process,
  auto_add_service, auto_add_user, has_slash, int32,
}
use goss.Add.Frame.{add_resource-KeepsTests}
use goss.Add.AutoFrame.{auto_add_resource-KeepsTests}
use goss.Add.Sections.{KeepsTests}
use goss.ResourceMaps.Tests.{add_host, titled, described_with_title}
use goss.ResourceMaps.{append_sys_resource, append_sys_resource_if_exists, put_resource}
use goss.ResourceMaps.Getters.{contains_match, common_named}
use goss.ResourceMaps.Kinds.{
  file_map_kind, group_map_kind, package_map_kind, port_map_kind, process_map_kind,
  service_map_kind, user_map_kind,
}
use goss.ResourceMaps.Appends.{append_file}
use goss.ResourceMaps.New.{
  new_file_resource, new_group_resource, new_package_resource, new_port_resource,
  new_process_resource, new_user_resource,
}
use goss.ResourceMaps.NewWhole.{new_service_resource}
use goss.ResourceMaps.IfExists.{
  append_group_if_exists, append_package_if_exists, append_port_if_exists, append_process_if_exists,
  append_service_if_exists, append_user_if_exists,
}
use goss.Options.{RuntimeConfig, zero_config}
use goss.Errors.{ok, err, undefined_resource}
use goss.Base.Int.{pos, negsuc}
use goss.Value.{bool, num, int}
use goss.Samples.{machine}
use goss.Kinds.{GroupResource}
use goss.System.{System}
use goss.Config.{GossConfig, new_goss_config}
use goss.Checks.{display_id}
use goss.Add.Maps.{with_files, with_groups}

abbrev loud : RuntimeConfig
loud = record zero_config { announce_to_cli = true }

abbrev with_motd : GossConfig
with_motd = with_files new_goss_config (("/etc/motd", titled) ∷ [])

abbrev readded : Session
readded = (
  with_files with_motd (("/etc/motd", described_with_title) ∷ []),
  record { typ = "File"; file_name = "goss.yaml"; id = "/etc/motd" } ∷ [],
)

file_is_readded :
    add_resource add_host machine "goss.yaml" "File" "/etc/motd" loud (with_motd, []) ≡ ok readded
unfolding add_resource append_file append_sys_resource put_resource file_map_kind display_id
    new_file_resource contains_match lookup insert resource_print
file_is_readded = refl

motd_is_kept : KeepsTests add_host with_motd readded.0
motd_is_kept =
    add_resource-KeepsTests add_host machine "goss.yaml" "File" "/etc/motd" loud with_motd []
      readded file_is_readded

-- The tests of the struct Matching cannot be added.
matching_is_not_added :
    add_resource add_host machine "goss.yaml" "Matching" "text" loud (with_motd, [])
    ≡ err (undefined_resource "Matching")
unfolding add_resource
matching_is_not_added = refl

-- A machine with the group `wheel`, which runs nothing.
abbrev idle : System
idle = record machine {
  new_group = λ n. record { groupname = n; exists = ok (n == "wheel"); gid = ok (pos 10) };
  new_process = λ n. record {
    executable = n;
    exists = ok false;
    running = ok false;
    status = ok [];
    user = ok [];
    pids = ok [];
  };
  new_service = λ n. record {
    service = n;
    exists = ok false;
    enabled = ok false;
    running = ok false;
    run_levels = ok [];
  };
}

abbrev wheel : GroupResource
wheel = record {
  common = common_named "wheel";
  groupname = "";
  exists = bool true;
  gid = num (int (pos 10));
}

abbrev grouped : Session
grouped = (
  with_groups with_motd (("wheel", wheel) ∷ []),
  record { typ = "Group"; file_name = "goss.yaml"; id = "wheel" } ∷ [],
)

group_is_found :
    auto_add_resource add_host idle (ok []) "goss.yaml" loud "wheel" (with_motd, []) ≡ ok grouped
unfolding auto_add_resource auto_add_group auto_add_package auto_add_port auto_add_process
    auto_add_service auto_add_user has_slash append_group_if_exists append_package_if_exists
    append_port_if_exists append_process_if_exists append_service_if_exists append_user_if_exists
    append_sys_resource_if_exists put_resource group_map_kind package_map_kind port_map_kind
    process_map_kind service_map_kind user_map_kind display_id new_group_resource
    new_package_resource new_port_resource new_process_resource new_service_resource
    new_user_resource contains_match lookup insert resource_print
group_is_found = refl

motd_is_kept_by_autoadd : KeepsTests add_host with_motd grouped.0
motd_is_kept_by_autoadd =
    auto_add_resource-KeepsTests add_host idle (ok []) "goss.yaml" loud "wheel" (with_motd, [])
      grouped group_is_found

-- The process number that int32 makes negative
large_pid : int32 (pos 0xffffffff) ≡ negsuc 0
unfolding int32
large_pid = refl

-- A machine whose gossfile has the one test, and which writes whatever it is given.
abbrev shelf : AddMachine
shelf = record {
  store = record plain_host { read_file = λ path. ok path; yaml_config = λ text. ok with_motd };
  writer = record {
    marshal_json = λ c. ok "";
    marshal_yaml = λ c. ok (
        if any_of (λ k. k == "wheel") (keys c.sections.groups)
        then "wheel"
        else if any_of (λ k. k == "/etc/motd") (keys c.sections.files)
        then "motd"
        else "");
    write_file = λ path text. ok tt;
  };
  resources = add_host;
  is_file = λ path. true;
  new_system = λ manager. idle;
  get_ports = ok [];
  to_upper = λ s. s;
}

abbrev info : RuntimeConfig
info = record loud { log_level = "INFO" }

file_is_written :
    add_resources shelf "goss.yaml" "File" ("/etc/motd" ∷ []) info
    ≡ ok (wrote "goss.yaml" "motd", readded.1)
unfolding add_resources set_log_level get_store_format_from_file_name read_or_new read_json
    read_json_data add_keys write_json marshal add_resource append_file append_sys_resource
    put_resource file_map_kind display_id new_file_resource contains_match lookup insert
    resource_print
file_is_written = refl

add_resources-WritesMore_example : WritesMore shelf "goss.yaml" (wrote "goss.yaml" "motd")
add_resources-WritesMore_example =
    add_resources-WritesMore shelf "goss.yaml" "File" ("/etc/motd" ∷ []) info
      (wrote "goss.yaml" "motd", readded.1) file_is_written

group_is_written :
    auto_add_resources shelf "goss.yaml" ("wheel" ∷ []) loud
    ≡ ok (wrote "goss.yaml" "wheel", grouped.1)
unfolding auto_add_resources get_store_format_from_file_name read_or_new read_json read_json_data
    add_keys write_json marshal auto_add_resource auto_add_group auto_add_package auto_add_port
    auto_add_process auto_add_service auto_add_user has_slash append_group_if_exists
    append_package_if_exists append_port_if_exists append_process_if_exists append_service_if_exists
    append_user_if_exists append_sys_resource_if_exists put_resource group_map_kind package_map_kind
    port_map_kind process_map_kind service_map_kind user_map_kind display_id new_group_resource
    new_package_resource new_port_resource new_process_resource new_service_resource
    new_user_resource contains_match lookup insert resource_print
group_is_written = refl

auto_add_resources-WritesMore_example : WritesMore shelf "goss.yaml" (wrote "goss.yaml" "wheel")
auto_add_resources-WritesMore_example =
    auto_add_resources-WritesMore shelf "goss.yaml" ("wheel" ∷ []) loud
      (wrote "goss.yaml" "wheel", grouped.1) group_is_written
