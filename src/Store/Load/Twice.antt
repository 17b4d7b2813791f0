-- ===== src/Store/Load/Twice.antt =====
-- A gossfile on standard input is read twice.
use goss.Base.{
  String, ◌≡◌, refl, sym, ap, ◌∙◌, ◌≢◌, Bool, true, false, some, List, [], ◌==◌, eq_iff,
  if◌then◌else◌,
}
use goss.Store.Load.{
  LoadOptions, Stdin, drained, load_goss_config, load_filtered, load_stdin, load_inline,
  load_goss_config_with_discover, missing_key_of, get_goss_config, get_goss_config_peek,
}
use goss.Store.{
  Host, TmplVars, MissingKey, get_store_format_from_data, read_json_data, read_json,
  merge_json_data, merge_gossfiles, StoreFormat, yaml,
}
use goss.Store.Vars.{new_template_filter, load_vars_for_templates}
use goss.Config.{
  GossConfig, new_goss_config, resources_of, resources, merge_goss, merge_sections, merge_map,
}
use goss.Discovery.{DiscoveryEntry, is_empty, validate_discovery}
use goss.Resource.{Resource}
use goss.TestResult.{TestResult}
use goss.Value.{Value}
use goss.Errors.{
  Error, Result, ok, err, panic, wrap, >>=-eq-ok, ok-injective, vars_failed, no_tests,
  discover_phase,
}
use goss.Base.Maps.{Dict}

-- What the libraries do with an empty text: it is no JSON, it is YAML without a value, and a
-- template without actions.
module _ (host : Host) (e0 : Error) (v0 : Value) (json-empty : host.json_any "" ≡ err e0)
    (yaml-empty : host.yaml_any "" ≡ ok v0)
    (yaml_config-empty : host.yaml_config "" ≡ ok new_goss_config) (sort-empty : host.sort [] ≡ [])
    (execute-empty : (m : MissingKey) (tv : TmplVars) → host.execute m tv "" ≡ ok "") where
  merge_json_data-empty :
      (read : String → Result GossConfig)
      → merge_json_data host read 50 new_goss_config 0 "" ≡ ok new_goss_config
  unfolding merge_json_data merge_gossfiles merge_goss merge_sections merge_map
  merge_json_data-empty read = rw sort-empty refl

  format-empty : get_store_format_from_data host "" ≡ ok yaml
  unfolding get_store_format_from_data
  format-empty = rw (json-empty, get_store_format_from_data) (rw yaml-empty refl)

  read_json_data-empty :
      (filter : String → Result String) (format : StoreFormat)
      → (filter "" ≡ ok "")
      → read_json_data host (some filter) format "" true ≡ ok new_goss_config
  unfolding read_json_data
  read_json_data-empty filter format f = rw f (rw format-empty yaml_config-empty)

  load_stdin-empty :
      (filter : String → Result String)
      → (filter "" ≡ ok "")
      → load_stdin host filter (ok "") ≡ err (no_tests "STDIN")
  unfolding load_stdin resources_of resources
  load_stdin-empty filter f = rw format-empty (
      rw (read_json_data-empty filter yaml f)
        (rw (merge_json_data-empty (read_json host (some filter) yaml)) refl))

  -- The filter leaves an empty text empty.
  filter-empty :
      (files : List String) (inline : String) (discovered : Dict Bool) (m : MissingKey)
      → (filter : String → Result String)
      → new_template_filter host files inline discovered m ≡ ok filter
      → filter "" ≡ ok ""
  unfolding new_template_filter
  filter-empty files inline discovered m filter e =
      let (vars, got, e') =
        >>=-eq-ok (wrap vars_failed (load_vars_for_templates host files inline discovered)) _ e in
      ap (λ f. f "") (sym (ok-injective e')) ∙ execute-empty m _

  load_drained-ne-ok :
      (filter : String → Result String) (stdin : Stdin) (cfg : GossConfig)
      → (filter "" ≡ ok "")
      → load_stdin host filter (drained stdin) ≢ ok cfg
  unfolding load_stdin
  load_drained-ne-ok filter (ok text) cfg f e = absurd (cc (load_stdin-empty filter f))
  load_drained-ne-ok filter (err x) cfg f e = absurd (cc e)
  load_drained-ne-ok filter panic cfg f e = absurd (cc e)

  load_filtered-ne-ok :
      (spec : String) (stdin : Stdin) (r : Result (String → Result String)) (cfg : GossConfig)
      → spec ≡ "-"
      → ((filter : String → Result String) → r ≡ ok filter → filter "" ≡ ok "")
      → (load_filtered host spec (drained stdin) r).1 ≢ ok cfg
  load_filtered-ne-ok spec stdin panic cfg dash f e = absurd (cc e)
  load_filtered-ne-ok spec stdin (err x) cfg dash f e = absurd (cc e)
  load_filtered-ne-ok spec stdin (ok filter) cfg dash f e =
      load_drained-ne-ok filter stdin cfg (f filter refl) (rw ((eq_iff spec "-").1 dash) at e)

  -- A second read of standard input never gives a gossfile.
  load_again-ne-ok :
      (o : LoadOptions) (discovered : Dict Bool) (stdin left : Stdin) (cfg : GossConfig)
      → o.spec ≡ "-"
      → left ≡ drained stdin
      → (get_goss_config host o o.spec discovered left).1 ≢ ok cfg
  unfolding load_goss_config
  load_again-ne-ok o discovered stdin left cfg spec q e =
      load_filtered-ne-ok o.spec stdin
        (new_template_filter host o.vars_files o.vars_inline discovered (missing_key_of host false))
        cfg spec (filter-empty o.vars_files o.vars_inline discovered (missing_key_of host false))
        (rw q at e)

  -- The look at the gossfile reads standard input.
  peek-drained :
      (o : LoadOptions) (stdin : Stdin) (cfg : GossConfig)
      → o.spec ≡ "-"
      → (get_goss_config_peek host o o.spec stdin).1 ≡ ok cfg
      → (get_goss_config_peek host o o.spec stdin).0 ≡ drained stdin
  unfolding load_goss_config
  peek-drained o stdin cfg dash e =
      peek (new_template_filter host o.vars_files o.vars_inline [] (missing_key_of host true)) e
    where
      peek :
          (r : Result (String → Result String))
          → (load_filtered host o.spec stdin r).1 ≡ ok cfg
          → (load_filtered host o.spec stdin r).0 ≡ drained stdin
      peek panic e = absurd (cc e)
      peek (err x) e = absurd (cc e)
      peek (ok filter) e = rw ((eq_iff o.spec "-").1 dash) refl

  load_inline-ne-ok :
      (run : Resource → List TestResult) (order : List DiscoveryEntry → List DiscoveryEntry)
      → (o : LoadOptions) (stdin : Stdin) (cfg : GossConfig) → o.spec ≡ "-"
      → load_inline host run order o stdin ≢ ok cfg
  unfolding load_inline
  load_inline-ne-ok run order o stdin cfg dash e =
      let (peek, looked, e') = >>=-eq-ok (get_goss_config_peek host o o.spec stdin).1 _ e in
      let (discovered, phase, e'') =
        >>=-eq-ok
          (if is_empty peek.discovery
            then ok []
            else wrap discover_phase (validate_discovery run order peek.discovery))
          _ e' in
      load_again-ne-ok o discovered stdin _ cfg dash (peek-drained o stdin peek dash looked) e''

  -- If the libraries take an empty text for no JSON, for YAML without a value and for a template
  -- without actions, then a gossfile on standard input is never loaded: without a gossfile for the
  -- discovery phase, and but for the output format `discovery`, the look at the inline discovery
  -- reads standard input to its end, and the gossfile is then read from nothing.
  pub load_goss_config_with_discover-stdin :
      (run : Resource → List TestResult) (order : List DiscoveryEntry → List DiscoveryEntry)
      → (o : LoadOptions) (stdin : Stdin) (cfg : GossConfig) → o.spec ≡ "-"
      → o.discover_spec ≡ ""
      → (o.output_format == "discovery" ≡ false)
      → load_goss_config_with_discover host run order o stdin ≢ ok cfg
  unfolding load_goss_config_with_discover
  load_goss_config_with_discover-stdin run order o stdin cfg dash inline format =
      rw (format, load_goss_config_with_discover)
        (rw ((eq_iff o.discover_spec "").1 inline) (load_inline-ne-ok run order o stdin cfg dash))
