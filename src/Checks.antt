-- ===== src/Checks.antt =====
-- resource/*.go: the Validate methods. Each builds a system object and checks the properties that
-- the gossfile sets, in the order of the source. `clock` gives the times of each property's check.
use goss.Base.{ℕ, zero, String, ◌||◌, List, [], ◌∷◌, ◌++◌, ◌==◌, if◌then◌else◌}
use goss.TestResult.{TestResult, Subject}
use goss.Kinds.{
  FileResource, PackageResource, AddrResource, PortResource, ServiceResource, UserResource,
  GroupResource, CommandResource, DnsResource, ProcessResource, KernelParamResource, MountResource,
  InterfaceResource, HttpResource, MatchingResource, RegistryResource, Common,
}
use goss.Validation.{
  Clock, gets_bool, gets_string, gets_int, gets_strings, gets_ints, gets_any, gets_reader, check,
  if_given, if_set, if_given_number, deprecate_atoi, run_checks, run_gated,
}
use goss.System.{System}
use goss.Value.{is_null, Value}
use goss.Libraries.{Libraries}
use goss.Base.Int.{ℤ, pos}
use goss.Errors.{Result, ok}
use Prim.Native.String.{◌++◌ as str_append}

-- GetPath, GetName, ...: the attribute that names the object, or the key of the gossfile.
abbrev pub target : Common → String → String
target c name = if name == "" then c.id else name

-- ID
unfoldable pub display_id : Common → String → String
display_id c name =
    if name == "" || name == c.id then c.id else str_append c.id (str_append ": " name)

abbrev subject : Common → String → String → Subject
subject c name type_name = record {
  id = display_id c name;
  title = c.title;
  meta = c.meta;
  type_name = type_name;
}

-- if x.Timeout == 0 { x.Timeout = default }, which the struct keeps
abbrev or_default : ℤ → ℕ → ℤ
or_default (pos zero) n = pos n
or_default t n = t

abbrev or_older : Value → Value → Value
or_older v w = if is_null v then w else v

module _ (lib : Libraries) (sys : System) (clock : Clock) where
  unfoldable pub validate_file : FileResource → Result (List TestResult)
  unfolding display_id
  validate_file f =
      let s = sys.new_file (target f.common f.path) in
      run_gated lib (subject f.common f.path "File") clock f.common.skip
        (check "exists" f.exists (gets_bool s.exists))
        (if_given "mode" f.mode (gets_string s.mode)
          ++ (if_given "owner" f.owner (gets_string s.owner)
              ++ (if_given "uid" f.uid (gets_int s.uid)
                  ++ (if_given "group" f.group (gets_string s.group)
                      ++ (if_given "gid" f.gid (gets_int s.gid)
                          ++ (if_given "linkedto" f.linked_to (gets_string s.linked_to)
                              ++ (if_given "filetype" f.filetype (gets_string s.filetype)
                                  ++ (if_set "contains" f.contains (gets_reader s.contents)
                                      ++ (if_set "contents" f.contents (gets_reader s.contents)
                                          ++ (if_given "size" f.size (gets_int s.size)
                                              ++ (if_given "md5" f.md5 (gets_string s.md5)
                                                  ++ (if_given "sha256" f.sha256
                                                        (gets_string s.sha256)
                                                      ++ if_given "sha512" f.sha512
                                                          (gets_string s.sha512)))))))))))))

  unfoldable pub validate_package : PackageResource → Result (List TestResult)
  validate_package p =
      let s = sys.new_package (target p.common p.name) in
      run_gated lib (subject p.common p.name "Package") clock p.common.skip
        (check "installed" p.installed (gets_bool s.installed))
        (if_given "version" p.versions (gets_strings s.versions))

  unfoldable pub validate_addr : AddrResource → Result (List TestResult)
  validate_addr a =
      let s = sys.new_addr (target a.common a.address) (or_default a.timeout 500) a.local_address in
      run_checks lib (subject a.common a.address "Addr") clock a.common.skip
        (check "reachable" a.reachable (gets_bool s.reachable) ∷ [])

  unfoldable pub validate_port : PortResource → Result (List TestResult)
  validate_port p =
      let s = sys.new_port (target p.common p.port) in
      run_gated lib (subject p.common p.port "Port") clock p.common.skip
        (check "listening" p.listening (gets_bool s.listening))
        (if_given "ip" p.ip (gets_strings s.ip) ++ if_given "pid" p.pid (gets_ints s.pid))

  -- No property is checked unconditionally, and none decides about the others.
  unfoldable pub validate_service : ServiceResource → Result (List TestResult)
  validate_service r =
      let s = sys.new_service (target r.common r.name) in
      run_checks lib (subject r.common r.name "Service") clock r.common.skip (
        if_given "enabled" r.enabled (gets_bool s.enabled)
        ++ (if_given "running" r.running (gets_bool s.running)
            ++ if_given "runlevels" r.run_levels (gets_strings s.run_levels)))

  unfoldable pub validate_user : UserResource → Result (List TestResult)
  validate_user u =
      let s = sys.new_user (target u.common u.username) in
      run_gated lib (subject u.common u.username "User") clock u.common.skip
        (check "exists" u.exists (gets_bool s.exists))
        (if_given_number lib "uid" u.uid (gets_int s.uid)
          ++ (if_given_number lib "gid" u.gid (gets_int s.gid)
              ++ (if_given "home" u.home (gets_string s.home)
                  ++ (if_given "groups" u.groups (gets_strings s.groups)
                      ++ if_given "shell" u.shell (gets_string s.shell)))))

  unfoldable pub validate_group : GroupResource → Result (List TestResult)
  validate_group g =
      let s = sys.new_group (target g.common g.groupname) in
      run_gated lib (subject g.common g.groupname "Group") clock g.common.skip
        (check "exists" g.exists (gets_bool s.exists))
        (if_given_number lib "gid" g.gid (gets_int s.gid))

  unfoldable pub validate_command : CommandResource → Result (List TestResult)
  validate_command c =
      let s = sys.new_command (target c.common c.exec) (or_default c.timeout 10000) in
      run_checks lib (subject c.common "" "Command") clock c.common.skip (
        record {
          property = "exit-status";
          expected = deprecate_atoi lib c.exit_status;
          getter = gets_int s.exit_status;
        }
        ∷ (if_set "stdout" c.stdout (gets_reader s.stdout)
            ++ if_set "stderr" c.stderr (gets_reader s.stderr)))

  unfoldable pub validate_dns : DnsResource → Result (List TestResult)
  validate_dns d =
      let s = sys.new_dns (target d.common d.resolve) (or_default d.timeout 500) d.server in
      run_gated lib (subject d.common d.resolve "DNS") clock d.common.skip
        (check "resolvable" (or_older d.resolvable d.resolveable) (gets_bool s.resolvable))
        (if_given "addrs" d.addrs (gets_strings s.addrs))

  unfoldable pub validate_process : ProcessResource → Result (List TestResult)
  validate_process p =
      let s = sys.new_process (target p.common p.comm) in
      run_gated lib (subject p.common p.comm "Process") clock p.common.skip
        (check "running" p.running (gets_bool s.running))
        (if_given "status" p.status (gets_strings s.status)
          ++ if_given "user" p.user (gets_strings s.user))

  unfoldable pub validate_kernel_param : KernelParamResource → Result (List TestResult)
  validate_kernel_param k =
      let s = sys.new_kernel_param (target k.common k.name) in
      run_checks lib (subject k.common k.name "KernelParam") clock k.common.skip
        (check "value" k.value (gets_string s.value) ∷ [])

  unfoldable pub validate_mount : MountResource → Result (List TestResult)
  validate_mount m =
      let s = sys.new_mount (target m.common m.mount_point) (or_default m.timeout 1000) in
      run_gated lib (subject m.common m.mount_point "Mount") clock m.common.skip
        (check "exists" m.exists (gets_bool s.exists))
        (if_given "opts" m.opts (gets_strings s.opts)
          ++ (if_given "vfs-opts" m.vfs_opts (gets_strings s.vfs_opts)
              ++ (if_given "source" m.source (gets_string s.source)
                  ++ (if_given "filesystem" m.filesystem (gets_string s.filesystem)
                      ++ if_given "usage" m.usage (gets_int s.usage)))))

  unfoldable pub validate_interface : InterfaceResource → Result (List TestResult)
  validate_interface i =
      let s = sys.new_interface (target i.common i.name) in
      run_gated lib (subject i.common i.name "Interface") clock i.common.skip
        (check "exists" i.exists (gets_bool s.exists))
        (if_given "addrs" i.addrs (gets_strings s.addrs) ++ if_given "mtu" i.mtu (gets_int s.mtu))

  unfoldable pub validate_http : HttpResource → Result (List TestResult)
  validate_http u =
      let config = u.config in
      let s =
        sys.new_http (target u.common u.url)
          (record config { timeout = or_default u.config.timeout 5000 }) in
      run_gated lib (subject u.common u.url "HTTP") clock u.common.skip
        (check "status" u.status (gets_int s.status))
        (if_set "Headers" u.headers (gets_reader s.headers)
          ++ if_set "Body" u.body (gets_reader s.body))

  -- The content of the gossfile itself, as a value or as the text of its "%v".
  unfoldable pub validate_matching : MatchingResource → Result (List TestResult)
  validate_matching a =
      let stub =
        if a.as_reader
        then gets_reader (ok (ok (lib.sprint a.content)))
        else gets_any (ok a.content) in
      run_checks lib (subject a.common "" "Matching") clock a.common.skip
        (check "matches" a.matches stub ∷ [])

  unfoldable pub validate_registry : RegistryResource → Result (List TestResult)
  validate_registry r =
      let s = sys.new_registry (target r.common r.name) in
      run_gated lib (subject r.common r.name "Registry") clock r.common.skip
        (check "exists" r.exists (gets_bool s.exists))
        (if_given "value" r.value (gets_string s.value)
          ++ if_given "type" r.type (gets_string s.type))
