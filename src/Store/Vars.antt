-- ===== src/Store/Vars.antt =====
-- store.go: loadVars, loadVarsForTemplates and the functions they call; template.go:
-- newTemplateFilter. A map that is written to another map in a loop is merge_map of Config.
pub mod Passed
pub mod Phase
use goss.Base.{String, Bool, Option, some, List, [], ◌∷◌, map, ◌==◌, if◌then◌else◌}
use goss.Store.{Host, MissingKey, get_store_format_from_data, unmarshal_vars}
use goss.Config.{merge_map}
use goss.Value.{Value, obj, Fields, end, field, bool}
use goss.Errors.{
  ◌>>=◌, Result, ok, wrap, bad_vars_file, unmerged_vars, bad_inline_vars, vars_failed,
}
use goss.Base.Maps.{lookup, insert, Dict}

-- A map[string]any as a value, and the loop that copies it.
abbrev pub to_fields : Dict Value → Fields
to_fields [] = end
to_fields ((k, v) ∷ m) = field k v (to_fields m)

abbrev pub copy_fields : Dict Value → Fields → Dict Value
copy_fields m end = m
copy_fields m (field k v fs) = copy_fields (insert k v m) fs

abbrev pub copied : Option Value → Dict Value
copied (some (obj fs)) = copy_fields [] fs
copied _ = []

-- discoveredFromVars
unfoldable pub discovered_from_vars : Dict Value → Dict Value
discovered_from_vars vars = copied (lookup "Discovered" vars)

abbrev pub as_values : Dict Bool → Dict Value
as_values m = map (λ e. (e.0, bool e.1)) m

-- `if len(discovered) > 0` of loadVarsForTemplates
abbrev pub with_discovered : Dict Bool → Dict Value → Dict Value
with_discovered [] vars = vars
with_discovered (d ∷ ds) vars =
    insert "Discovered"
      (obj (to_fields (merge_map (discovered_from_vars vars) (as_values (d ∷ ds))))) vars

module _ (host : Host) where
  abbrev pub vars_from_data : String → Result (Dict Value)
  vars_from_data text = do
    format ← get_store_format_from_data host text
    unmarshal_vars host text format

  unfoldable pub vars_from_file : String → Result (Dict Value)
  vars_from_file file =
      if file == "" then ok [] else do text ← host.read_file file; vars_from_data text

  unfoldable pub vars_from_string : String → Result (Dict Value)
  vars_from_string inline = if inline == "" then ok [] else vars_from_data inline

  -- The loop over the files of variables.
  unfoldable pub load_files : Dict Value → List String → Result (Dict Value)
  load_files merged [] = ok merged
  load_files merged (file ∷ files) = do
    vars ← wrap (bad_vars_file file) (vars_from_file file)
    merged' ← wrap (unmerged_vars file) (host.merge_vars merged vars)
    load_files merged' files

  -- loadVars
  unfoldable pub load_vars : List String → String → Result (Dict Value)
  load_vars files inline = do
    merged ← load_files [] files
    extra ← wrap bad_inline_vars (vars_from_string inline)
    ok (merge_map merged extra)

  unfoldable pub load_vars_for_templates : List String → String → Dict Bool → Result (Dict Value)
  load_vars_for_templates files inline discovered = do
    merged ← load_vars files ""
    extra ← wrap bad_inline_vars (vars_from_string inline)
    ok (merge_map (with_discovered discovered merged) extra)

  -- newTemplateFilter
  unfoldable pub new_template_filter :
      List String → String → Dict Bool → MissingKey → Result (String → Result String)
  new_template_filter files inline discovered missing_key = do
    vars ← wrap vars_failed (load_vars_for_templates files inline discovered)
    ok (host.execute missing_key (record { vars = vars; discovered = discovered_from_vars vars }))
