-- ===== src/Kinds.antt =====
-- resource/*.go: the structs that a gossfile is read into, one for each kind of test. A field of type
-- `matcher` is a Value, `null` where the gossfile leaves it out.
use goss.Base.{String, Bool, List}
use goss.Base.Int.{ℤ}
use goss.Value.{Value, Fields}
use goss.System.{HttpConfig}

-- The fields that every struct has: DiscoveryMeta, Title, Meta, id and Skip.
pub record Common : Type 0 where
  pub register : String
  pub depends_on : List String
  pub title : String
  pub meta : Fields
  pub id : String
  pub skip : Bool

pub record FileResource : Type 0 where
  pub common : Common
  pub path : String
  pub exists : Value
  pub mode : Value
  pub size : Value
  pub owner : Value
  pub uid : Value
  pub group : Value
  pub gid : Value
  pub linked_to : Value
  pub filetype : Value
  pub contains : Value
  pub contents : Value
  pub md5 : Value
  pub sha256 : Value
  pub sha512 : Value

pub record PackageResource : Type 0 where
  pub common : Common
  pub name : String
  pub installed : Value
  pub versions : Value

pub record AddrResource : Type 0 where
  pub common : Common
  pub address : String
  pub local_address : String
  pub reachable : Value
  pub timeout : ℤ

pub record PortResource : Type 0 where
  pub common : Common
  pub port : String
  pub listening : Value
  pub ip : Value
  pub pid : Value

pub record ServiceResource : Type 0 where
  pub common : Common
  pub name : String
  pub enabled : Value
  pub running : Value
  pub run_levels : Value

pub record UserResource : Type 0 where
  pub common : Common
  pub username : String
  pub exists : Value
  pub uid : Value
  pub gid : Value
  pub groups : Value
  pub home : Value
  pub shell : Value

pub record GroupResource : Type 0 where
  pub common : Common
  pub groupname : String
  pub exists : Value
  pub gid : Value

pub record CommandResource : Type 0 where
  pub common : Common
  pub exec : String
  pub exit_status : Value
  pub stdout : Value
  pub stderr : Value
  pub timeout : ℤ

pub record DnsResource : Type 0 where
  pub common : Common
  pub resolve : String
  pub resolveable : Value
  pub resolvable : Value
  pub addrs : Value
  pub timeout : ℤ
  pub server : String

pub record ProcessResource : Type 0 where
  pub common : Common
  pub comm : String
  pub running : Value
  pub status : Value
  pub user : Value

pub record KernelParamResource : Type 0 where
  pub common : Common
  pub name : String
  pub value : Value

pub record MountResource : Type 0 where
  pub common : Common
  pub mount_point : String
  pub exists : Value
  pub opts : Value
  pub vfs_opts : Value
  pub source : Value
  pub filesystem : Value
  pub timeout : ℤ
  pub usage : Value

pub record InterfaceResource : Type 0 where
  pub common : Common
  pub name : String
  pub exists : Value
  pub addrs : Value
  pub mtu : Value

pub record HttpResource : Type 0 where
  pub common : Common
  pub url : String
  pub status : Value
  pub config : HttpConfig
  pub headers : Value
  pub body : Value

pub record MatchingResource : Type 0 where
  pub common : Common
  pub content : Value
  pub as_reader : Bool
  pub matches : Value

pub record RegistryResource : Type 0 where
  pub common : Common
  pub name : String
  pub exists : Value
  pub value : Value
  pub type : Value
