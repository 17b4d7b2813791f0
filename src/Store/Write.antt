-- ===== src/Store/Write.antt =====
-- store.go: marshal, RenderJSON and WriteJSON. What the json and yaml packages write is an argument,
-- and so is os.WriteFile.
use goss.Base.{String, some, [], ◌==◌, if◌then◌else◌}
use goss.Store.{
  Host, StoreFormat, json, yaml, unset_format, error_key, get_store_format_from_file_name,
  read_json, merge_json_data,
}
use goss.Store.Vars.{new_template_filter}
use goss.Store.Load.{LoadOptions, enough}
use goss.Config.{GossConfig, new_goss_config}
use goss.Errors.{◌>>=◌, Result, ok, err, wrap, format_unset, write_failed, render_failed}

pub record Writer : Type 0 where
  pub marshal_json : GossConfig → Result String
  pub marshal_yaml : GossConfig → Result String
  pub write_file : (path text : String) → Result (Unit {0})

-- What WriteJSON does to the file when it returns without an error.
pub data Written : Type 0 where
  wrote : (path text : String) → Written
  nothing_to_write : Written

module _ (writer : Writer) where
  unfoldable pub marshal : StoreFormat → GossConfig → Result String
  marshal json c = writer.marshal_json c
  marshal yaml c = writer.marshal_yaml c
  marshal unset_format c = err format_unset

  abbrev pub write_unless_empty : String → (data_text empty_text : String) → Result Written
  write_unless_empty path data_text empty_text =
      if empty_text == data_text then ok nothing_to_write else do
        done ← wrap (write_failed path) (writer.write_file path data_text)
        ok (wrote path data_text)

  -- WriteJSON
  unfoldable pub write_json : StoreFormat → String → GossConfig → Result Written
  write_json format path c = do
    data_text ← wrap (write_failed path) (marshal format c)
    empty_text ← wrap (write_failed path) (marshal format new_goss_config)
    write_unless_empty path data_text empty_text

  -- RenderJSON
  unfoldable pub render_json : Host → LoadOptions → Result String
  render_json host o = do
    filter ← new_template_filter host o.vars_files o.vars_inline [] error_key
    format ← get_store_format_from_file_name host o.spec
    c ← read_json host (some filter) format o.spec
    merged ← merge_json_data host (read_json host (some filter) format) enough c 0 (host.dir o.spec)
    wrap render_failed (marshal format merged)
