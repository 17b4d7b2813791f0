-- ===== src/ResourceMaps/New.antt =====
-- resource/*.go: the New functions, which describe an object of the machine by a test that it passes
-- now. A getter whose error is dropped answers the zero value beside it. What a New function returns
-- beside an error is not kept, since the map types drop it.
use goss.Base.{String, false, not, [], ◌==◌, if◌then◌else◌, group}
use goss.Options.{timeout_milliseconds, RuntimeConfig}
use goss.Kinds.{
  GroupResource, CommandResource, DnsResource, FileResource, InterfaceResource, MountResource,
  PackageResource, PortResource, ProcessResource, UserResource,
}
use goss.System.{
  SysUser, SysMount, SysInterface, SysProcess, SysDns, SysCommand, SysGroup, SysPackage, SysPort,
  SysFile,
}
use goss.ResourceMaps.{AddHost}
use goss.Errors.{Result, ok, ◌>>=◌}
use goss.Value.{null, bool, str, strs}
use Prim.Native.String.{◌++◌ as str_append}
use goss.ResourceMaps.Getters.{
  common_named, contains_match, unless_ignored, output_value, or_zero, int_value,
}

-- strings.Join([]string{Qtype, Host}, ":"), or the host alone
abbrev pub dns_name : SysDns → String
dns_name s = if not (s.qtype == "") then str_append s.qtype (str_append ":" s.host) else s.host

module _ (host : AddHost) where
  unfoldable pub new_group_resource : SysGroup → RuntimeConfig → Result GroupResource
  new_group_resource s config = do
    exists ← or_zero false s.exists
    gid ← unless_ignored host config "stderr" int_value s.gid
    ok (record {
      common = common_named s.groupname;
      groupname = "";
      exists = bool exists;
      gid = gid;
    })

  unfoldable pub new_command_resource : SysCommand → RuntimeConfig → Result CommandResource
  new_command_resource s config = do
    exit_status ← s.exit_status
    stdout ← output_value host config "stdout" s.stdout
    stderr ← output_value host config "stderr" s.stderr
    ok (record {
      common = common_named s.command;
      exec = "";
      exit_status = int_value exit_status;
      stdout = stdout;
      stderr = stderr;
      timeout = timeout_milliseconds config;
    })

  unfoldable pub new_dns_resource : SysDns → RuntimeConfig → Result DnsResource
  new_dns_resource s config = do
    resolvable ← s.resolvable
    addrs ←
        if contains_match host config.ignore_list "addrs"
        then ok null
        else or_zero [] s.addrs >>= λ a. ok (strs a)
    ok (record {
      common = common_named (dns_name s);
      resolve = "";
      resolveable = null;
      resolvable = bool resolvable;
      addrs = addrs;
      timeout = timeout_milliseconds config;
      server = s.server;
    })

  unfoldable pub new_file_resource : SysFile → RuntimeConfig → Result FileResource
  new_file_resource s config = do
    exists ← s.exists
    mode ← unless_ignored host config "mode" str s.mode
    owner ← unless_ignored host config "owner" str s.owner
    group ← unless_ignored host config "group" str s.group
    linked_to ← unless_ignored host config "linked-to" str s.linked_to
    filetype ← unless_ignored host config "filetype" str s.filetype
    ok (record {
      common = common_named s.path;
      path = "";
      exists = bool exists;
      mode = mode;
      size = null;
      owner = owner;
      uid = null;
      group = group;
      gid = null;
      linked_to = linked_to;
      filetype = filetype;
      contains = null;
      contents = strs [];
      md5 = null;
      sha256 = null;
      sha512 = null;
    })

  unfoldable pub new_interface_resource : SysInterface → RuntimeConfig → Result InterfaceResource
  new_interface_resource s config = do
    exists ← or_zero false s.exists
    addrs ← unless_ignored host config "addrs" strs s.addrs
    mtu ← unless_ignored host config "mtu" int_value s.mtu
    ok (record {
      common = common_named s.name;
      name = "";
      exists = bool exists;
      addrs = addrs;
      mtu = mtu;
    })

  unfoldable pub new_mount_resource : SysMount → RuntimeConfig → Result MountResource
  new_mount_resource s config = do
    exists ← or_zero false s.exists
    opts ← unless_ignored host config "opts" strs s.opts
    vfs_opts ← unless_ignored host config "vfs-opts" strs s.vfs_opts
    source ← unless_ignored host config "source" str s.source
    filesystem ← unless_ignored host config "filesystem" str s.filesystem
    ok (record {
      common = common_named s.mount_point;
      mount_point = "";
      exists = bool exists;
      opts = opts;
      vfs_opts = vfs_opts;
      source = source;
      filesystem = filesystem;
      timeout = timeout_milliseconds config;
      usage = null;
    })

  unfoldable pub new_package_resource : SysPackage → RuntimeConfig → Result PackageResource
  new_package_resource s config = do
    installed ← or_zero false s.installed
    versions ← unless_ignored host config "versions" strs s.versions
    ok (record {
      common = common_named s.name;
      name = "";
      installed = bool installed;
      versions = versions;
    })

  unfoldable pub new_port_resource : SysPort → RuntimeConfig → Result PortResource
  new_port_resource s config = do
    listening ← or_zero false s.listening
    ip ← unless_ignored host config "ip" strs s.ip
    ok (record {
      common = common_named s.port;
      port = "";
      listening = bool listening;
      ip = ip;
      pid = null;
    })

  unfoldable pub new_process_resource : SysProcess → RuntimeConfig → Result ProcessResource
  new_process_resource s config = do
    running ← s.running
    status ← unless_ignored host config "status" strs s.status
    user ← unless_ignored host config "user" strs s.user
    ok (record {
      common = common_named s.executable;
      comm = "";
      running = bool running;
      status = status;
      user = user;
    })

  unfoldable pub new_user_resource : SysUser → RuntimeConfig → Result UserResource
  new_user_resource s config = do
    exists ← or_zero false s.exists
    uid ← unless_ignored host config "uid" int_value s.uid
    gid ← unless_ignored host config "gid" int_value s.gid
    groups ← unless_ignored host config "groups" strs s.groups
    home ← unless_ignored host config "home" str s.home
    shell ← unless_ignored host config "shell" str s.shell
    ok (record {
      common = common_named s.username;
      username = "";
      exists = bool exists;
      uid = uid;
      gid = gid;
      groups = groups;
      home = home;
      shell = shell;
    })
