-- ===== src/ResourceMaps/NewWhole.antt =====
-- resource/*.go: the New functions of the kinds whose attributes are never left out: addresses, kernel
-- parameters, services, requests, registry keys and gossfiles.
use goss.Base.{String, false, not, [], if◌then◌else◌}
use goss.Options.{timeout_milliseconds, RuntimeConfig}
use goss.Kinds.{AddrResource, HttpResource, KernelParamResource, ServiceResource, RegistryResource}
use goss.System.{SysKernelParam, SysGossfile, SysAddr, SysHttp, SysService, SysRegistry}
use goss.Errors.{Result, ok, ◌>>=◌}
use goss.Value.{null, bool, str, strs, end}
use goss.Config.{Gossfile}
use goss.ResourceMaps.Getters.{common_named, or_zero, int_value}

unfoldable pub new_addr_resource : SysAddr → RuntimeConfig → Result AddrResource
new_addr_resource s config = do
  reachable ← s.reachable
  ok (record {
    common = common_named s.address;
    address = "";
    local_address = config.local_address;
    reachable = bool reachable;
    timeout = timeout_milliseconds config;
  })

unfoldable pub new_http_resource : SysHttp → RuntimeConfig → Result HttpResource
new_http_resource s config = do
  status ← s.status
  ok (record {
    common = common_named s.http;
    url = "";
    status = int_value status;
    config = record {
      allow_insecure = config.allow_insecure;
      no_follow_redirects = config.no_follow_redirects;
      timeout = timeout_milliseconds config;
      method = "";
      request_header = [];
      request_query_params = [];
      request_body = "";
      username = config.username;
      password = config.password;
      ca_file = "";
      cert_file = "";
      key_file = "";
      proxy = config.proxy;
    };
    headers = null;
    body = strs [];
  })

unfoldable pub new_kernel_param_resource :
    SysKernelParam → RuntimeConfig → Result KernelParamResource
new_kernel_param_resource s config = do
  value ← s.value
  ok (record { common = common_named s.key; name = ""; value = str value })

unfoldable pub new_service_resource : SysService → RuntimeConfig → Result ServiceResource
new_service_resource s config = do
  enabled ← s.enabled
  running ← s.running
  ok (record {
    common = common_named s.service;
    name = "";
    enabled = bool enabled;
    running = bool running;
    run_levels = null;
  })

abbrev pub absent_key : String → RegistryResource
absent_key key = record {
  common = common_named key;
  name = "";
  exists = bool false;
  value = null;
  type = null;
}

-- An error of Exists is dropped: the key is not there.
unfoldable pub new_registry_resource : SysRegistry → RuntimeConfig → Result RegistryResource
new_registry_resource s config = do
  exists ← or_zero false s.exists
  if not exists then ok (absent_key s.key) else do
    value ← s.value
    type ← s.type
    ok (record (absent_key s.key) { exists = bool exists; value = str value; type = str type })

unfoldable pub new_gossfile_resource : SysGossfile → RuntimeConfig → Result Gossfile
new_gossfile_resource s config = ok (record {
  register = "";
  depends_on = [];
  title = "";
  meta = end;
  path = s.path;
  skip = false;
  file = "";
})
