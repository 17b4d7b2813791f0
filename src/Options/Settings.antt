-- ===== src/Options/Settings.antt =====
-- util/config.go: what NewConfig returns for a list of options.
use goss.Base.{ℕ, String, ◌≡◌, Bool, true, false, Option, none, some, List, [], ◌∷◌, ◌++◌}
use goss.Options.{
  with_vars_data, with_vars_string, with_vars_file, with_debug, with_color, with_no_color,
  with_result_writer, with_disabled_resource_types, with_format_options, with_discover_file,
  with_vars_files, with_package_manager, with_max_concurrency, with_cache, with_retry_timeout,
  with_sleep, with_output_format, with_spec_file, RuntimeConfig, ConfigOption,
}
use goss.Errors.{Result, ok}
use goss.Base.Int.{ℤ}
use goss.Value.{Value}

-- The calls of the With functions, by what they are given
pub data Setting : Type 0 where
  spec_file : String → Setting
  output_format_named : String → Setting
  sleeping : ℤ → Setting
  retrying : ℤ → Setting
  caching : ℤ → Setting
  concurrency : ℤ → Setting
  package_manager_named : String → Setting
  vars_from : List String → Setting
  discover_file : String → Setting
  more_format_options : List String → Setting
  more_disabled_types : List String → Setting
  result_writer : ℕ → Setting
  without_color with_colors debugging : Setting
  vars_file : String → Setting
  vars_text : String → Setting
  vars_value : Value → Setting

-- The value of the last setting that names the field, and the given one where none does
abbrev pub last_of {ℓ} : {A : Type ℓ} → (Setting → Option A) → A → List Setting → A
last_of named a [] = a
last_of named a (s ∷ ss) = elim (named s) [
  | some b ↦ last_of named b ss
  | none ↦ last_of named a ss
]

-- All that the settings give, in their order
abbrev pub all_given : (Setting → List String) → List Setting → List String
all_given given [] = []
all_given given (s ∷ ss) = given s ++ all_given given ss

abbrev pub spec_of : Setting → Option String
spec_of (spec_file a) = some a
spec_of s = none

abbrev pub output_format_of : Setting → Option String
output_format_of (output_format_named a) = some a
output_format_of s = none

abbrev pub sleep_of : Setting → Option ℤ
sleep_of (sleeping a) = some a
sleep_of s = none

abbrev pub retry_timeout_of : Setting → Option ℤ
retry_timeout_of (retrying a) = some a
retry_timeout_of s = none

abbrev pub cache_of : Setting → Option ℤ
cache_of (caching a) = some a
cache_of s = none

abbrev pub max_concurrent_of : Setting → Option ℤ
max_concurrent_of (concurrency a) = some a
max_concurrent_of s = none

abbrev pub package_manager_of : Setting → Option String
package_manager_of (package_manager_named a) = some a
package_manager_of s = none

abbrev pub vars_files_of : Setting → Option (List String)
vars_files_of (vars_from a) = some a
vars_files_of (vars_file f) = some (f ∷ [])
vars_files_of s = none

abbrev pub discover_spec_of : Setting → Option String
discover_spec_of (discover_file a) = some a
discover_spec_of s = none

abbrev pub no_color_of : Setting → Option (Option Bool)
no_color_of without_color = some (some true)
no_color_of with_colors = some (some false)
no_color_of s = none

abbrev pub debug_of : Setting → Option Bool
debug_of debugging = some true
debug_of s = none

abbrev pub output_writer_of : Setting → Option (Option ℕ)
output_writer_of (result_writer w) = some (some w)
output_writer_of s = none

abbrev pub format_options_of : Setting → List String
format_options_of (more_format_options opts) = opts
format_options_of s = []

abbrev pub disabled_resource_types_of : Setting → List String
disabled_resource_types_of (more_disabled_types types) = types
disabled_resource_types_of s = []

module _ (marshal : Value → Result String) (text : Value → String)
    (marshals : (v : Value) → marshal v ≡ ok (text v)) where
  abbrev pub vars_inline_of : Setting → Option String
  vars_inline_of (vars_text v) = some v
  vars_inline_of (vars_value v) = some (text v)
  vars_inline_of s = none

  abbrev pub option_of : Setting → ConfigOption
  option_of (spec_file a) = with_spec_file a
  option_of (output_format_named a) = with_output_format a
  option_of (sleeping a) = with_sleep a
  option_of (retrying a) = with_retry_timeout a
  option_of (caching a) = with_cache a
  option_of (concurrency a) = with_max_concurrency a
  option_of (package_manager_named a) = with_package_manager a
  option_of (vars_from a) = with_vars_files a
  option_of (discover_file a) = with_discover_file a
  option_of (more_format_options opts) = with_format_options opts
  option_of (more_disabled_types types) = with_disabled_resource_types types
  option_of (result_writer w) = with_result_writer w
  option_of without_color = with_no_color
  option_of with_colors = with_color
  option_of debugging = with_debug
  option_of (vars_file f) = with_vars_file f
  option_of (vars_text v) = with_vars_string v
  option_of (vars_value v) = with_vars_data marshal v

  -- The configuration of the settings over `c`
  abbrev over : RuntimeConfig → List Setting → RuntimeConfig
  over c ss = record c {
    spec = last_of spec_of c.spec ss;
    output_format = last_of output_format_of c.output_format ss;
    sleep = last_of sleep_of c.sleep ss;
    retry_timeout = last_of retry_timeout_of c.retry_timeout ss;
    cache = last_of cache_of c.cache ss;
    max_concurrent = last_of max_concurrent_of c.max_concurrent ss;
    package_manager = last_of package_manager_of c.package_manager ss;
    vars_files = last_of vars_files_of c.vars_files ss;
    discover_spec = last_of discover_spec_of c.discover_spec ss;
    no_color = last_of no_color_of c.no_color ss;
    debug = last_of debug_of c.debug ss;
    output_writer = last_of output_writer_of c.output_writer ss;
    vars_inline = last_of vars_inline_of c.vars_inline ss;
    format_options = c.format_options ++ all_given format_options_of ss;
    disabled_resource_types = c.disabled_resource_types ++ all_given disabled_resource_types_of ss;
  }
