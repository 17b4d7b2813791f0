-- ===== src/ResourceMaps/Structs.antt =====
-- resource/*.go: the structs of a gossfile as reflection sees them, by the tags of their fields, which
-- are the same for JSON and for YAML.
use goss.Base.{String, List, [], ◌∷◌}
use goss.Options.Whitelist.{Struct, tagged, embedded, no_fields}

abbrev pub tagged_alike : List String → Struct
tagged_alike [] = no_fields
tagged_alike (tag ∷ tags) = tagged tag tag (tagged_alike tags)

-- DiscoveryMeta
abbrev pub discovery_meta_struct : Struct
discovery_meta_struct = tagged_alike ("register,omitempty" ∷ "depends-on,omitempty" ∷ [])

abbrev with_meta : List String → Struct
with_meta tags = embedded discovery_meta_struct (tagged_alike tags)

abbrev pub addr_struct : Struct
addr_struct = with_meta (
    "title,omitempty" ∷ "meta,omitempty" ∷ "-" ∷ "address,omitempty" ∷ "local-address,omitempty"
    ∷ "reachable" ∷ "timeout" ∷ "skip,omitempty" ∷ [])

abbrev pub command_struct : Struct
command_struct = with_meta (
    "title,omitempty" ∷ "meta,omitempty" ∷ "-" ∷ "exec,omitempty" ∷ "exit-status" ∷ "stdout"
    ∷ "stderr" ∷ "timeout" ∷ "skip,omitempty" ∷ [])

abbrev pub dns_struct : Struct
dns_struct = with_meta (
    "title,omitempty" ∷ "meta,omitempty" ∷ "-" ∷ "resolve,omitempty" ∷ "resolveable,omitempty"
    ∷ "resolvable" ∷ "addrs,omitempty" ∷ "timeout" ∷ "server,omitempty" ∷ "skip,omitempty" ∷ [])

abbrev pub file_struct : Struct
file_struct = with_meta (
    "title,omitempty" ∷ "meta,omitempty" ∷ "-" ∷ "path,omitempty" ∷ "exists" ∷ "mode,omitempty"
    ∷ "size,omitempty" ∷ "owner,omitempty" ∷ "uid,omitempty" ∷ "group,omitempty" ∷ "gid,omitempty"
    ∷ "linked-to,omitempty" ∷ "filetype,omitempty" ∷ "contains,omitempty" ∷ "contents"
    ∷ "md5,omitempty" ∷ "sha256,omitempty" ∷ "sha512,omitempty" ∷ "skip,omitempty" ∷ [])

abbrev pub gossfile_struct : Struct
gossfile_struct =
    with_meta
      ("title,omitempty" ∷ "meta,omitempty" ∷ "-" ∷ "skip,omitempty" ∷ "file,omitempty" ∷ [])

abbrev pub group_struct : Struct
group_struct = with_meta (
    "title,omitempty" ∷ "meta,omitempty" ∷ "-" ∷ "groupname,omitempty" ∷ "exists" ∷ "gid,omitempty"
    ∷ "skip,omitempty" ∷ [])

abbrev pub package_struct : Struct
package_struct = with_meta (
    "title,omitempty" ∷ "meta,omitempty" ∷ "-" ∷ "name,omitempty" ∷ "installed"
    ∷ "versions,omitempty" ∷ "skip,omitempty" ∷ [])

abbrev pub port_struct : Struct
port_struct = with_meta (
    "title,omitempty" ∷ "meta,omitempty" ∷ "-" ∷ "port,omitempty" ∷ "listening" ∷ "ip,omitempty"
    ∷ "pid,omitempty" ∷ "skip,omitempty" ∷ [])

abbrev pub process_struct : Struct
process_struct = with_meta (
    "title,omitempty" ∷ "meta,omitempty" ∷ "-" ∷ "comm,omitempty" ∷ "running" ∷ "status,omitempty"
    ∷ "user,omitempty" ∷ "skip,omitempty" ∷ [])

abbrev pub service_struct : Struct
service_struct = with_meta (
    "title,omitempty" ∷ "meta,omitempty" ∷ "-" ∷ "name,omitempty" ∷ "enabled" ∷ "running"
    ∷ "skip,omitempty" ∷ "runlevels,omitempty" ∷ [])

abbrev pub user_struct : Struct
user_struct = with_meta (
    "title,omitempty" ∷ "meta,omitempty" ∷ "-" ∷ "username,omitempty" ∷ "exists" ∷ "uid,omitempty"
    ∷ "gid,omitempty" ∷ "groups,omitempty" ∷ "home,omitempty" ∷ "shell,omitempty" ∷ "skip,omitempty"
    ∷ [])

abbrev pub kernel_param_struct : Struct
kernel_param_struct = with_meta (
    "title,omitempty" ∷ "meta,omitempty" ∷ "-" ∷ "name,omitempty" ∷ "-" ∷ "value" ∷ "skip,omitempty"
    ∷ [])

abbrev pub mount_struct : Struct
mount_struct = with_meta (
    "title,omitempty" ∷ "meta,omitempty" ∷ "-" ∷ "mountpoint,omitempty" ∷ "exists"
    ∷ "opts,omitempty" ∷ "vfs-opts,omitempty" ∷ "source,omitempty" ∷ "filesystem,omitempty"
    ∷ "timeout" ∷ "skip,omitempty" ∷ "usage,omitempty" ∷ [])

abbrev pub interface_struct : Struct
interface_struct = with_meta (
    "title,omitempty" ∷ "meta,omitempty" ∷ "-" ∷ "name,omitempty" ∷ "exists" ∷ "addrs,omitempty"
    ∷ "mtu,omitempty" ∷ "skip,omitempty" ∷ [])

abbrev pub http_struct : Struct
http_struct = with_meta (
    "title,omitempty" ∷ "meta,omitempty" ∷ "-" ∷ "url,omitempty" ∷ "method,omitempty" ∷ "status"
    ∷ "allow-insecure" ∷ "no-follow-redirects" ∷ "timeout,omitempty" ∷ "request-headers,omitempty"
    ∷ "request-query-params,omitempty" ∷ "request-body,omitempty" ∷ "headers,omitempty"
    ∷ "body,omitempty" ∷ "username,omitempty" ∷ "password,omitempty" ∷ "ca-file,omitempty"
    ∷ "cert-file,omitempty" ∷ "key-file,omitempty" ∷ "skip,omitempty" ∷ "proxy,omitempty" ∷ [])

abbrev pub registry_struct : Struct
registry_struct = with_meta (
    "title,omitempty" ∷ "meta,omitempty" ∷ "-" ∷ "name,omitempty" ∷ "exists" ∷ "value,omitempty"
    ∷ "type,omitempty" ∷ "skip,omitempty" ∷ [])

abbrev pub matching_struct : Struct
matching_struct = with_meta (
    "title,omitempty" ∷ "meta,omitempty" ∷ "content,omitempty" ∷ "as-reader,omitempty" ∷ "-"
    ∷ "matches" ∷ "skip,omitempty" ∷ [])
