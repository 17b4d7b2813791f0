-- ===== src/Store/Load.antt =====
-- validate.go: loadGossConfig, and discovery_load.go: loadGossConfigWithDiscover, with the globals
-- that they set passed on to what reads them. `run` and `order` are those of the discovery phase.
pub mod Twice
use goss.Errors.{
  panic, ◌>>=◌, Result, ok, err, wrap, no_tests, discover_gossfile, no_discovery_section,
  discover_phase,
}
use goss.Base.{ℕ, String, Bool, true, false, ◌&&◌, some, List, [], ◌==◌, eqb, if◌then◌else◌, length}
use goss.Base.Maps.{Dict, Dict}
use goss.Store.{
  Host, MissingKey, error_key, zero_key, get_store_format_from_data,
  get_store_format_from_file_name, read_json_data, read_json, merge_json_data,
}
use goss.Store.Vars.{new_template_filter}
use goss.Config.{GossConfig, resources}
use goss.Discovery.{is_empty, validate_discovery, DiscoveryEntry}
use goss.Resource.{Resource}
use goss.TestResult.{TestResult}

-- util.Config, the fields that loading reads
pub record LoadOptions : Type 0 where
  pub vars_files : List String
  pub vars_inline : String
  pub spec : String
  pub discover_spec : String
  pub output_format : String

-- The depth at which mergeJSONData gives up is its fuel.
abbrev pub enough : ℕ
enough = 50

-- What the next io.ReadAll of os.Stdin returns: it reads to the end of the file.
abbrev pub Stdin : Type 0
Stdin = Result String

abbrev pub drained : Stdin → Stdin
drained (ok text) = ok ""
drained r = r

module _ (host : Host) where
  abbrev pub missing_key_of : (peek : Bool) → MissingKey
  missing_key_of true = zero_key
  missing_key_of false = error_key

  -- `len(gossConfig.Resources()) == 0 && gossConfig.Discovery.IsEmpty()`
  abbrev pub refuse_empty : String → GossConfig → Result GossConfig
  refuse_empty source c =
      if eqb (length (resources c)) 0 && is_empty c.discovery then err (no_tests source) else ok c

  -- The two branches of `if specFile == "-"`, with what follows them.
  unfoldable pub load_stdin : (String → Result String) → Stdin → Result GossConfig
  load_stdin filter stdin = do
    text ← stdin
    format ← get_store_format_from_data host text
    c ← read_json_data host (some filter) format text true
    merged ← merge_json_data host (read_json host (some filter) format) enough c 0 ""
    refuse_empty "STDIN" merged

  unfoldable pub load_file : (String → Result String) → String → Result GossConfig
  load_file filter spec = do
    format ← get_store_format_from_file_name host spec
    c ← read_json host (some filter) format spec
    merged ← merge_json_data host (read_json host (some filter) format) enough c 0 (host.dir spec)
    refuse_empty spec merged

  abbrev pub load_filtered :
      String → Stdin → Result (String → Result String) → Stdin × Result GossConfig
  load_filtered spec stdin panic = (stdin, panic)
  load_filtered spec stdin (err e) = (stdin, err e)
  load_filtered spec stdin (ok filter) =
      if spec == "-"
      then (drained stdin, load_stdin filter stdin)
      else (stdin, load_file filter spec)

  unfoldable pub load_goss_config :
      List String → String → String → Dict Bool → (peek : Bool) → Stdin → Stdin × Result GossConfig
  load_goss_config vars_files vars_inline spec discovered peek stdin = load_filtered spec stdin (
      new_template_filter host vars_files vars_inline (if peek then [] else discovered)
        (missing_key_of peek))

  abbrev pub get_goss_config : LoadOptions → String → Dict Bool → Stdin → Stdin × Result GossConfig
  get_goss_config c spec discovered stdin =
      load_goss_config c.vars_files c.vars_inline spec discovered false stdin

  abbrev pub get_goss_config_peek : LoadOptions → String → Stdin → Stdin × Result GossConfig
  get_goss_config_peek c spec stdin = load_goss_config c.vars_files c.vars_inline spec [] true stdin

  module _ (run : Resource → List TestResult)
      (order : List DiscoveryEntry → List DiscoveryEntry) where
    -- `if c.DiscoverSpec != ""`; of the look at the inline discovery only the reading matters.
    unfoldable pub load_with_spec : LoadOptions → Stdin → Result GossConfig
    load_with_spec c stdin = do
      let first = get_goss_config c c.discover_spec [] stdin
      discover ← wrap discover_gossfile first.1
      discovered ←
          if is_empty discover.discovery
          then err (no_discovery_section c.discover_spec)
          else wrap discover_phase (validate_discovery run order discover.discovery)
      let left = if c.spec == "" then first.0 else (get_goss_config_peek c c.spec first.0).0
      (get_goss_config c c.spec discovered left).1

    -- What stands behind it.
    unfoldable pub load_inline : LoadOptions → Stdin → Result GossConfig
    load_inline c stdin = do
      let first = get_goss_config_peek c c.spec stdin
      peek ← first.1
      discovered ←
          if is_empty peek.discovery
          then ok []
          else wrap discover_phase (validate_discovery run order peek.discovery)
      (get_goss_config c c.spec discovered first.0).1

    unfoldable pub load_goss_config_with_discover : LoadOptions → Stdin → Result GossConfig
    load_goss_config_with_discover c stdin =
        if c.output_format == "discovery"
        then (get_goss_config c c.spec [] stdin).1
        else if c.discover_spec == ""
        then load_inline c stdin
        else load_with_spec c stdin
