-- ===== src/Store.antt =====
-- store.go and template.go: how a gossfile is read, its gossfiles merged into it, and how the
-- variables of its templates are loaded. What os, path/filepath, text/template, mergo, encoding/json
-- and the yaml packages answer is the record Host. The globals outStoreFormat and
-- currentTemplateFilter are arguments. The recursion of mergeJSONData runs on fuel, whose end is a
-- panic.
pub mod Depth
pub mod Merged
pub mod Vars
pub mod Load
pub mod Write
pub mod Tests
use goss.Base.{
  ℕ, zero, suc, String, Bool, false, ◌||◌, Option, none, some, List, [], ◌∷◌, ◌==◌, leb, eqb,
  if◌then◌else◌,
}
use goss.Config.{GossConfig, Gossfile, get_gossfile, new_goss_config, merge_goss}
use goss.Errors.{
  ◌>>=◌, Error, Result, ok, err, panic, wrap, unknown_extension, undetermined_format, format_unset,
  unreadable, unmergeable, max_depth, glob_failed, no_matched_files, file_error, vars_failed,
  bad_inline_vars, bad_vars_file, unmerged_vars,
}
use goss.Value.{Value, obj, Fields, end, field, bool}
use goss.Base.Maps.{lookup, insert, Dict, keys}
use Prim.Native.Char.{code}

-- UNSET, JSON, YAML
pub data StoreFormat : Type 0 where
  unset_format json yaml : StoreFormat

-- `missingkey=...`
pub data MissingKey : Type 0 where
  error_key zero_key : MissingKey

-- TmplVars
pub record TmplVars : Type 0 where
  pub vars : Dict Value
  pub discovered : Dict Value

pub record Host : Type 0 where
  pub read_file : String → Result String
  pub glob : String → Result (List String)
  pub ext : String → String
  pub dir : String → String
  pub join : String → String → String
  pub sort : List String → List String
  -- Unmarshal into `any`, into a gossfile, and into variables
  pub json_any : String → Result Value
  pub yaml_any : String → Result Value
  pub json_config : String → Result GossConfig
  pub yaml_config : String → Result GossConfig
  pub json_vars : String → Result (Dict Value)
  pub yaml_vars : String → Result (Dict Value)
  -- mergo.Merge with override
  pub merge_vars : Dict Value → Dict Value → Result (Dict Value)
  -- Parse and Execute
  pub execute : MissingKey → TmplVars → String → Result String

abbrev pub starts_with_slash : String → Bool
starts_with_slash String.[] = false
starts_with_slash (String.◌∷◌ c s) = eqb (code c) 0x2f

module _ (host : Host) where
  unfoldable pub get_store_format_from_file_name : String → Result StoreFormat
  get_store_format_from_file_name f =
      let e = host.ext f in
      if e == ".json"
      then ok json
      else if e == ".yaml" || e == ".yml"
      then ok yaml
      else err (unknown_extension e)

  -- Parsing tells the format: JSON is tried first.
  unfoldable pub get_store_format_from_data : String → Result StoreFormat
  get_store_format_from_data text = elim (host.json_any text) [
    | ok v ↦ ok json
    | err e ↦ elim (host.yaml_any text) [
      | ok v ↦ ok yaml
      | err e' ↦ err undetermined_format
      | panic ↦ panic
    ]
    | panic ↦ panic
  ]

  -- unmarshal into a gossfile
  abbrev pub unmarshal_config : String → StoreFormat → Result GossConfig
  unmarshal_config text json = host.json_config text
  unmarshal_config text yaml = host.yaml_config text
  unmarshal_config text unset_format = err format_unset

  -- unmarshal into variables
  abbrev pub unmarshal_vars : String → StoreFormat → Result (Dict Value)
  unmarshal_vars text json = host.json_vars text
  unmarshal_vars text yaml = host.yaml_vars text
  unmarshal_vars text unset_format = err format_unset

  abbrev pub filtered : Option (String → Result String) → String → Result String
  filtered none text = ok text
  filtered (some filter) text = filter text

  -- ReadJSONData
  unfoldable pub read_json_data :
      Option (String → Result String)
      → StoreFormat
      → String
      → (detect_format : Bool) → Result GossConfig
  read_json_data filter out_format text detect_format = do
    rendered ← filtered filter text
    format ← if detect_format then get_store_format_from_data rendered else ok out_format
    unmarshal_config rendered format

  -- ReadJSON
  unfoldable pub read_json :
      Option (String → Result String) → StoreFormat → String → Result GossConfig
  read_json filter out_format path = do
    text ← wrap file_error (host.read_file path)
    read_json_data filter out_format text false

-- mergeJSONData, where `read` is ReadJSON.
module _ (host : Host) (read : String → Result GossConfig) where
  -- The loop over the matches of a gossfile's path; `deeper` is the recursive call.
  unfoldable pub merge_matches :
      (GossConfig → String → Result GossConfig) → List String → GossConfig → Result GossConfig
  merge_matches deeper [] ret = ok ret
  merge_matches deeper (match ∷ more_matches) ret = do
    j ← wrap (unreadable match) (read match)
    j' ← wrap unmergeable (deeper j (host.dir match))
    merge_matches deeper more_matches (merge_goss ret j')

  abbrev pub gossfile_path : String → Gossfile → String
  gossfile_path path g =
      if starts_with_slash (get_gossfile g) then get_gossfile g else host.join path (get_gossfile g)

  abbrev pub matched : String → List String → Result (List String)
  matched fpath [] = err (no_matched_files fpath)
  matched fpath (m ∷ ms) = ok (m ∷ ms)

  -- The body of the loop over the sorted keys; a key without a gossfile is a nil pointer.
  abbrev pub merge_gossfile :
      (GossConfig → String → Result GossConfig)
      → String
      → Option Gossfile
      → GossConfig
      → Result GossConfig
  merge_gossfile deeper path none ret = panic
  merge_gossfile deeper path (some g) ret = if g.skip then ok ret else do
    matches ← wrap glob_failed (host.glob (gossfile_path path g))
    found ← matched (gossfile_path path g) matches
    merge_matches deeper found ret

  unfoldable pub merge_gossfiles :
      (GossConfig → String → Result GossConfig)
      → String
      → Dict Gossfile
      → List String
      → GossConfig
      → Result GossConfig
  merge_gossfiles deeper path gossfiles [] ret = ok ret
  merge_gossfiles deeper path gossfiles (k ∷ ks) ret = do
    ret' ← merge_gossfile deeper path (lookup k gossfiles) ret
    merge_gossfiles deeper path gossfiles ks ret'

  unfoldable pub merge_json_data : ℕ → GossConfig → (depth : ℕ) → String → Result GossConfig
  merge_json_data zero config depth path = panic
  merge_json_data (suc fuel) config depth path =
      let merged =
        merge_gossfiles (λ j fdir. merge_json_data fuel j (suc depth) fdir) path config.gossfiles
          (host.sort (keys config.gossfiles)) (merge_goss new_goss_config config) in
      if leb 50 (suc depth) then err max_depth else merged
