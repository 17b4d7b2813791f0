-- ===== src/Resource.antt =====
-- resource.Resource: the interface that every kind of test implements, by a constructor for each kind
-- and a clause for each implementation of a method.
pub mod Skips
pub mod Tests
use goss.Base.{ℕ, String, true, some, List, [], ◌∷◌}
use goss.Checks.{
  validate_registry, validate_matching, validate_http, validate_interface, validate_mount,
  validate_kernel_param, validate_process, validate_dns, validate_command, validate_group,
  validate_user, validate_service, validate_port, validate_addr, validate_package, validate_file,
  display_id,
}
use goss.Kinds.{
  RegistryResource, MatchingResource, HttpResource, InterfaceResource, MountResource,
  KernelParamResource, ProcessResource, DnsResource, CommandResource, GroupResource, UserResource,
  ServiceResource, PortResource, AddrResource, PackageResource, FileResource, Common,
}
use goss.TestResult.{no_match, skip, TestResult}
use goss.Validation.{Clock}
use goss.System.{System}
use goss.Libraries.{Libraries}
use goss.Errors.{Error, Result}
use Prim.Native.String.{◌++◌ as str_append}

pub data Resource : Type 0 where
  file : FileResource → Resource
  pkg : PackageResource → Resource
  addr : AddrResource → Resource
  port : PortResource → Resource
  service : ServiceResource → Resource
  user : UserResource → Resource
  group : GroupResource → Resource
  command : CommandResource → Resource
  dns : DnsResource → Resource
  process : ProcessResource → Resource
  kernel_param : KernelParamResource → Resource
  mount : MountResource → Resource
  interface : InterfaceResource → Resource
  http : HttpResource → Resource
  matching : MatchingResource → Resource
  registry : RegistryResource → Resource

abbrev pub common_of : Resource → Common
common_of (file r) = r.common
common_of (pkg r) = r.common
common_of (addr r) = r.common
common_of (port r) = r.common
common_of (service r) = r.common
common_of (user r) = r.common
common_of (group r) = r.common
common_of (command r) = r.common
common_of (dns r) = r.common
common_of (process r) = r.common
common_of (kernel_param r) = r.common
common_of (mount r) = r.common
common_of (interface r) = r.common
common_of (http r) = r.common
common_of (matching r) = r.common
common_of (registry r) = r.common

-- TypeKey
abbrev pub type_key : Resource → String
type_key (file r) = "file"
type_key (pkg r) = "package"
type_key (addr r) = "addr"
type_key (port r) = "port"
type_key (service r) = "service"
type_key (user r) = "user"
type_key (group r) = "group"
type_key (command r) = "command"
type_key (dns r) = "dns"
type_key (process r) = "process"
type_key (kernel_param r) = "kernel-param"
type_key (mount r) = "mount"
type_key (interface r) = "interface"
type_key (http r) = "http"
type_key (matching r) = "mount"
type_key (registry r) = "registry"

-- TypeName
abbrev pub type_name : Resource → String
type_name (file r) = "File"
type_name (pkg r) = "Package"
type_name (addr r) = "Addr"
type_name (port r) = "Port"
type_name (service r) = "Service"
type_name (user r) = "User"
type_name (group r) = "Group"
type_name (command r) = "Command"
type_name (dns r) = "DNS"
type_name (process r) = "Process"
type_name (kernel_param r) = "KernelParam"
type_name (mount r) = "Mount"
type_name (interface r) = "Interface"
type_name (http r) = "HTTP"
type_name (matching r) = "Mount"
type_name (registry r) = "Registry"

abbrev skipped : Common → Common
skipped c = record c { skip = true }

-- SetSkip, which does nothing on a Matching
unfoldable pub set_skip : Resource → Resource
set_skip (file r) = file (record r { common = skipped r.common })
set_skip (pkg r) = pkg (record r { common = skipped r.common })
set_skip (addr r) = addr (record r { common = skipped r.common })
set_skip (port r) = port (record r { common = skipped r.common })
set_skip (service r) = service (record r { common = skipped r.common })
set_skip (user r) = user (record r { common = skipped r.common })
set_skip (group r) = group (record r { common = skipped r.common })
set_skip (command r) = command (record r { common = skipped r.common })
set_skip (dns r) = dns (record r { common = skipped r.common })
set_skip (process r) = process (record r { common = skipped r.common })
set_skip (kernel_param r) = kernel_param (record r { common = skipped r.common })
set_skip (mount r) = mount (record r { common = skipped r.common })
set_skip (interface r) = interface (record r { common = skipped r.common })
set_skip (http r) = http (record r { common = skipped r.common })
set_skip (matching r) = matching r
set_skip (registry r) = registry (record r { common = skipped r.common })

-- ID
abbrev pub id_of : Resource → String
id_of (file r) = display_id r.common r.path
id_of (pkg r) = display_id r.common r.name
id_of (addr r) = display_id r.common r.address
id_of (port r) = display_id r.common r.port
id_of (service r) = display_id r.common r.name
id_of (user r) = display_id r.common r.username
id_of (group r) = display_id r.common r.groupname
id_of (command r) = r.common.id
id_of (dns r) = display_id r.common r.resolve
id_of (process r) = display_id r.common r.comm
id_of (kernel_param r) = display_id r.common r.name
id_of (mount r) = display_id r.common r.mount_point
id_of (interface r) = display_id r.common r.name
id_of (http r) = display_id r.common r.url
id_of (matching r) = r.common.id
id_of (registry r) = display_id r.common r.name

-- YAMLKey: every struct has the field `id`.
abbrev pub yaml_key : Resource → String
yaml_key r = (common_of r).id

-- Ref
unfoldable pub ref : Resource → String
ref r = str_append (type_key r) (str_append ":" (yaml_key r))

abbrev pub register : Resource → String
register r = (common_of r).register

abbrev pub depends_on : Resource → List String
depends_on r = (common_of r).depends_on

-- Validate
module _ (lib : Libraries) (sys : System) (clock : Resource → Clock) where
  unfoldable pub validate : Resource → Result (List TestResult)
  unfolding validate_file validate_package validate_addr validate_port validate_service
      validate_user validate_group validate_command validate_dns validate_process
      validate_kernel_param validate_mount validate_interface validate_http validate_matching
      validate_registry
  validate (file r) = validate_file lib sys (clock (file r)) r
  validate (pkg r) = validate_package lib sys (clock (pkg r)) r
  validate (addr r) = validate_addr lib sys (clock (addr r)) r
  validate (port r) = validate_port lib sys (clock (port r)) r
  validate (service r) = validate_service lib sys (clock (service r)) r
  validate (user r) = validate_user lib sys (clock (user r)) r
  validate (group r) = validate_group lib sys (clock (group r)) r
  validate (command r) = validate_command lib sys (clock (command r)) r
  validate (dns r) = validate_dns lib sys (clock (dns r)) r
  validate (process r) = validate_process lib sys (clock (process r)) r
  validate (kernel_param r) = validate_kernel_param lib sys (clock (kernel_param r)) r
  validate (mount r) = validate_mount lib sys (clock (mount r)) r
  validate (interface r) = validate_interface lib sys (clock (interface r)) r
  validate (http r) = validate_http lib sys (clock (http r)) r
  validate (matching r) = validate_matching lib sys (clock (matching r)) r
  validate (registry r) = validate_registry lib sys (clock (registry r)) r

-- SkipResourceResults, in its first case: every kind implements ResourceRead. `now` is the time.
unfoldable pub skip_resource_results : ℕ → Resource → Error → List TestResult
skip_resource_results now r reason =
    record {
      skipped = true;
      resource_id = id_of r;
      resource_type = type_name r;
      property = "depends-on";
      title = (common_of r).title;
      meta = (common_of r).meta;
      result = skip;
      failure = some reason;
      matcher_result = no_match;
      span = record { start = now; finish = now };
    }
    ∷ []
