-- ===== src/Transform.antt =====
-- matchers/type_conversion.go: the transformers that stand in front of a matcher.
use goss.Value.{nil, strs, cons, arr, num, str, Value, Items}
use goss.Base.{String, Option, none, some, List, [], ◌∷◌, if◌then◌else◌}
use goss.Errors.{not_a_string, not_numeric, invalid_json, path_not_found, Result, ok, err, ◌>>=◌}
use goss.Libraries.{Libraries}

pub data Transformer : Type 0 where
  to_numeric to_string to_array : Transformer
  gjson : String → Transformer

module _ (lib : Libraries) where
  abbrev sprint_all : Items → List String
  sprint_all nil = []
  sprint_all (cons v vs) = lib.sprint v ∷ sprint_all vs

  -- ToString.Transform
  unfoldable pub stringify : Value → String
  stringify (arr vs) = lib.join_lines (sprint_all vs)
  stringify (strs vs) = lib.join_lines vs
  stringify v = lib.sprint v

  abbrev numeric_text : String → Result Value
  numeric_text s = do n ← lib.parse_float (lib.trim_space s); ok (num n)

  -- ToNumeric.Transform
  unfoldable pub numerify : Value → Result Value
  unfolding stringify
  numerify (num n) = ok (num n)
  numerify (str s) = numeric_text s
  numerify (strs vs) = numeric_text (stringify (strs vs))
  numerify v = err not_numeric

  abbrev found_at : String → Option Value → Result Value
  found_at path none = err (path_not_found path)
  found_at path (some v) = ok v

  -- Transform of each transformer
  unfoldable pub transform : Transformer → Value → Result Value
  unfolding numerify stringify
  transform to_numeric v = numerify v
  transform to_string v = ok (str (stringify v))
  transform to_array (str s) = ok (strs (lib.split_lines s))
  transform to_array v = ok v
  transform (gjson path) (str s) =
      if lib.json_valid s then found_at path (lib.json_get s path) else err invalid_json
  transform (gjson path) v = err not_a_string
