-- ===== src/Options.antt =====
-- util/config.go: the configuration of a run and the options that build it. A duration is in
-- nanoseconds, and an io.Writer is known by a number; a nil slice is an empty one. What json.Marshal
-- answers is an argument.
pub mod Settings
pub mod Whitelist
pub mod Tests
use goss.Base.{ℕ, zero, suc, String, Bool, true, false, Option, none, some, List, [], ◌∷◌, ◌++◌}
use Prim.Native.Nat.{◌/◌}
use goss.Base.Int.{ℤ, pos, negsuc}
use goss.Errors.{Result, ok, ◌>>=◌}
use goss.Value.{Value}

-- Config
pub record RuntimeConfig : Type 0 where
  pub allow_insecure : Bool
  pub announce_to_cli : Bool
  pub cache : ℤ
  pub debug : Bool
  pub endpoint : String
  pub format_options : List String
  pub ignore_list : List String
  pub listen_address : String
  pub local_address : String
  pub log_level : String
  pub max_concurrent : ℤ
  pub method : String
  pub no_color : Option Bool
  pub no_follow_redirects : Bool
  pub output_format : String
  pub output_writer : Option ℕ
  pub package_manager : String
  pub password : String
  pub request_body : String
  pub proxy : String
  pub request_header : List String
  pub request_query_params : List (String × List String)
  pub retry_timeout : ℤ
  pub run_level : String
  pub server : String
  pub sleep : ℤ
  pub spec : String
  pub timeout : ℤ
  pub username : String
  pub ca_file : String
  pub cert_file : String
  pub key_file : String
  pub vars_files : List String
  pub vars_inline : String
  pub discover_spec : String
  pub disabled_resource_types : List String

-- util.Config{}
abbrev pub zero_config : RuntimeConfig
zero_config = record {
  allow_insecure = false;
  announce_to_cli = false;
  cache = pos 0;
  debug = false;
  endpoint = "";
  format_options = [];
  ignore_list = [];
  listen_address = "";
  local_address = "";
  log_level = "";
  max_concurrent = pos 0;
  method = "";
  no_color = none;
  no_follow_redirects = false;
  output_format = "";
  output_writer = none;
  package_manager = "";
  password = "";
  request_body = "";
  proxy = "";
  request_header = [];
  request_query_params = [];
  retry_timeout = pos 0;
  run_level = "";
  server = "";
  sleep = pos 0;
  spec = "";
  timeout = pos 0;
  username = "";
  ca_file = "";
  cert_file = "";
  key_file = "";
  vars_files = [];
  vars_inline = "";
  discover_spec = "";
  disabled_resource_types = [];
}

-- What NewConfig starts from.
abbrev pub default_config : RuntimeConfig
default_config = record {
  allow_insecure = false;
  announce_to_cli = false;
  cache = pos 5000000000;
  debug = false;
  endpoint = "/healthz";
  format_options = [];
  ignore_list = [];
  listen_address = ":8080";
  local_address = "";
  log_level = "ERROR";
  max_concurrent = pos 50;
  method = "";
  no_color = none;
  no_follow_redirects = false;
  output_format = "structured";
  output_writer = none;
  package_manager = "";
  password = "";
  request_body = "";
  proxy = "";
  request_header = [];
  request_query_params = [];
  retry_timeout = pos 0;
  run_level = "";
  server = "";
  sleep = pos 1000000000;
  spec = "";
  timeout = pos 0;
  username = "";
  ca_file = "";
  cert_file = "";
  key_file = "";
  vars_files = [];
  vars_inline = "";
  discover_spec = "";
  disabled_resource_types = [];
}

-- -n
abbrev pub negative_of : ℕ → ℤ
negative_of zero = pos 0
negative_of (suc n) = negsuc n

-- Go's division rounds towards zero.
abbrev pub in_milliseconds : ℤ → ℤ
in_milliseconds (pos n) = pos (n / 1000000)
in_milliseconds (negsuc n) = negative_of (suc n / 1000000)

-- TimeOutMilliSeconds
unfoldable pub timeout_milliseconds : RuntimeConfig → ℤ
timeout_milliseconds c = in_milliseconds c.timeout

abbrev pub ConfigOption : Type 0
ConfigOption = RuntimeConfig → Result RuntimeConfig

abbrev pub with_spec_file : String → ConfigOption
with_spec_file f c = ok (record c { spec = f })

abbrev pub with_output_format : String → ConfigOption
with_output_format f c = ok (record c { output_format = f })

abbrev pub with_format_options : List String → ConfigOption
with_format_options opts c = ok (record c { format_options = c.format_options ++ opts })

abbrev pub with_result_writer : ℕ → ConfigOption
with_result_writer w c = ok (record c { output_writer = some w })

abbrev pub with_sleep : ℤ → ConfigOption
with_sleep d c = ok (record c { sleep = d })

abbrev pub with_retry_timeout : ℤ → ConfigOption
with_retry_timeout d c = ok (record c { retry_timeout = d })

abbrev pub with_cache : ℤ → ConfigOption
with_cache d c = ok (record c { cache = d })

abbrev pub with_max_concurrency : ℤ → ConfigOption
with_max_concurrency mc c = ok (record c { max_concurrent = mc })

abbrev pub with_no_color : ConfigOption
with_no_color c = ok (record c { no_color = some true })

abbrev pub with_color : ConfigOption
with_color c = ok (record c { no_color = some false })

abbrev pub with_package_manager : String → ConfigOption
with_package_manager p c = ok (record c { package_manager = p })

abbrev pub with_debug : ConfigOption
with_debug c = ok (record c { debug = true })

abbrev pub with_vars_files : List String → ConfigOption
with_vars_files files c = ok (record c { vars_files = files })

abbrev pub with_vars_file : String → ConfigOption
with_vars_file f = with_vars_files (f ∷ [])

abbrev pub with_vars_string : String → ConfigOption
with_vars_string v c = ok (record c { vars_inline = v })

abbrev pub with_vars_data : (marshal : Value → Result String) → Value → ConfigOption
with_vars_data marshal v c = do jv ← marshal v; ok (record c { vars_inline = jv })

-- A byte slice and its text are not told apart.
abbrev pub with_vars_bytes : String → ConfigOption
with_vars_bytes v = with_vars_string v

abbrev pub with_discover_file : String → ConfigOption
with_discover_file f c = ok (record c { discover_spec = f })

abbrev pub with_disabled_resource_types : List String → ConfigOption
with_disabled_resource_types t c =
    ok (record c { disabled_resource_types = c.disabled_resource_types ++ t })

-- The loop of NewConfig over its options
unfoldable pub apply_options : List ConfigOption → ConfigOption
apply_options [] c = ok c
apply_options (opt ∷ opts) c = opt c >>= apply_options opts

-- NewConfig
unfoldable pub new_config : List ConfigOption → Result RuntimeConfig
new_config opts = with_no_color default_config >>= apply_options opts
