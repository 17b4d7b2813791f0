-- ===== src/System.antt =====
-- system/: what the getters of the system objects return, as one run of a check sees it. How an
-- object finds its answers on the machine is outside this module.
pub mod Ports
pub mod Processes
pub mod Dns
pub mod Mounts
pub mod Detect
pub mod Accounts
pub mod Files
pub mod Http
use goss.Base.{String, Bool, List, group}
use goss.Base.Int.{ℤ}
use goss.Errors.{Result}

pub record SysFile : Type 0 where
  pub path : String
  pub exists : Result Bool
  pub mode : Result String
  pub owner : Result String
  pub uid : Result ℤ
  pub group : Result String
  pub gid : Result ℤ
  pub linked_to : Result String
  pub filetype : Result String
  pub contents : Result (Result String)
  pub size : Result ℤ
  pub md5 : Result String
  pub sha256 : Result String
  pub sha512 : Result String

pub record SysPackage : Type 0 where
  pub name : String
  pub exists : Result Bool
  pub installed : Result Bool
  pub versions : Result (List String)

pub record SysAddr : Type 0 where
  pub address : String
  pub exists : Result Bool
  pub reachable : Result Bool

pub record SysPort : Type 0 where
  pub port : String
  pub exists : Result Bool
  pub listening : Result Bool
  pub ip : Result (List String)
  pub pid : Result (List ℤ)

pub record SysService : Type 0 where
  pub service : String
  pub exists : Result Bool
  pub enabled : Result Bool
  pub running : Result Bool
  pub run_levels : Result (List String)

pub record SysUser : Type 0 where
  pub username : String
  pub exists : Result Bool
  pub uid : Result ℤ
  pub gid : Result ℤ
  pub home : Result String
  pub groups : Result (List String)
  pub shell : Result String

pub record SysGroup : Type 0 where
  pub groupname : String
  pub exists : Result Bool
  pub gid : Result ℤ

pub record SysCommand : Type 0 where
  pub command : String
  pub exists : Result Bool
  pub exit_status : Result ℤ
  pub stdout : Result (Result String)
  pub stderr : Result (Result String)

pub record SysDns : Type 0 where
  pub host : String
  pub qtype : String
  pub server : String
  pub exists : Result Bool
  pub resolvable : Result Bool
  pub addrs : Result (List String)

pub record SysProcess : Type 0 where
  pub executable : String
  pub exists : Result Bool
  pub running : Result Bool
  pub status : Result (List String)
  pub user : Result (List String)
  pub pids : Result (List ℤ)

pub record SysKernelParam : Type 0 where
  pub key : String
  pub exists : Result Bool
  pub value : Result String

pub record SysMount : Type 0 where
  pub mount_point : String
  pub exists : Result Bool
  pub opts : Result (List String)
  pub vfs_opts : Result (List String)
  pub source : Result String
  pub filesystem : Result String
  pub usage : Result ℤ

pub record SysInterface : Type 0 where
  pub name : String
  pub exists : Result Bool
  pub addrs : Result (List String)
  pub mtu : Result ℤ

pub record SysHttp : Type 0 where
  pub http : String
  pub exists : Result Bool
  pub status : Result ℤ
  pub headers : Result (Result String)
  pub body : Result (Result String)

pub record SysRegistry : Type 0 where
  pub key : String
  pub exists : Result Bool
  pub value : Result String
  pub type : Result String

pub record SysGossfile : Type 0 where
  pub path : String
  pub exists : Result Bool

-- The part of util.Config that NewHTTP is given.
pub record HttpConfig : Type 0 where
  pub allow_insecure : Bool
  pub no_follow_redirects : Bool
  pub timeout : ℤ
  pub method : String
  pub request_header : List String
  pub request_query_params : List (String × List String)
  pub request_body : String
  pub username : String
  pub password : String
  pub ca_file : String
  pub cert_file : String
  pub key_file : String
  pub proxy : String

-- The constructors of system.System; a timeout is in milliseconds.
pub record System : Type 0 where
  pub new_file : (path : String) → SysFile
  pub new_package : (name : String) → SysPackage
  pub new_addr : (address : String) → (timeout : ℤ) → (local_address : String) → SysAddr
  pub new_port : (port : String) → SysPort
  pub new_service : (name : String) → SysService
  pub new_user : (username : String) → SysUser
  pub new_group : (groupname : String) → SysGroup
  pub new_command : (exec : String) → (timeout : ℤ) → SysCommand
  pub new_dns : (resolve : String) → (timeout : ℤ) → (server : String) → SysDns
  pub new_process : (comm : String) → SysProcess
  pub new_kernel_param : (name : String) → SysKernelParam
  pub new_mount : (mount_point : String) → (timeout : ℤ) → SysMount
  pub new_interface : (name : String) → SysInterface
  pub new_http : (url : String) → HttpConfig → SysHttp
  pub new_registry : (name : String) → SysRegistry
  pub new_gossfile : (path : String) → SysGossfile
