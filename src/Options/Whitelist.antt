-- ===== src/Options/Whitelist.antt =====
-- util/config.go: which attributes a section of a gossfile may have. A struct type is kept as what
-- reflection finds of it: the tags of its fields, in order, and the structs that it embeds.
use goss.Base.{String, Bool, ◌||◌, List, [], ◌∷◌, ◌++◌, ◌==◌, if◌then◌else◌, any_of}
use goss.System.Accounts.{split_on, comma}
use goss.Errors.{Result, ok, err, ◌>>=◌, invalid_attribute}
use goss.Base.Maps.{Dict}
use goss.Value.{Fields, field_names}

pub data TagFormat : Type 0 where
  json_format yaml_format : TagFormat

pub data Struct : Type 0 where
  no_fields : Struct
  tagged : (json_tag yaml_tag : String) → (rest : Struct) → Struct
  embedded : (inner rest : Struct) → Struct

-- field.Tag.Get
abbrev pub tag_of : TagFormat → (json_tag yaml_tag : String) → String
tag_of json_format json_tag yaml_tag = json_tag
tag_of yaml_format json_tag yaml_tag = yaml_tag

abbrev pub first_part : List String → String
first_part [] = ""
first_part (part ∷ parts) = part

abbrev pub with_attr : (tag : String) → List String → List String
with_attr tag attrs =
    if tag == "" || tag == "-" then attrs else first_part (split_on comma tag) ∷ attrs

-- WhitelistAttrs: the keys that its map holds
unfoldable pub whitelist_attrs : TagFormat → Struct → List String
whitelist_attrs format no_fields = []
whitelist_attrs format (tagged json_tag yaml_tag rest) =
    with_attr (tag_of format json_tag yaml_tag) (whitelist_attrs format rest)
whitelist_attrs format (embedded inner rest) =
    whitelist_attrs format inner ++ whitelist_attrs format rest

-- whitelist[k]
abbrev pub is_listed : List String → String → Bool
is_listed whitelist k = any_of (λ a. a == k) whitelist

-- The loops of ValidateSections; `typ` is the struct's name.
unfoldable pub validate_attrs :
    (typ id : String) → (whitelist : List String) → List String → Result (Unit {0})
validate_attrs typ id whitelist [] = ok tt
validate_attrs typ id whitelist (k ∷ ks) =
    if is_listed whitelist k
    then validate_attrs typ id whitelist ks
    else err (invalid_attribute typ id k)

unfoldable pub validate_each :
    (typ : String) → (whitelist : List String) → Dict Fields → Result (Unit {0})
validate_each typ whitelist [] = ok tt
validate_each typ whitelist ((id, v) ∷ rest) = do
  valid ← validate_attrs typ id whitelist (field_names v)
  validate_each typ whitelist rest

-- ValidateSections; `sections` is what unmarshal answers.
unfoldable pub validate_sections :
    (typ : String)
    → (whitelist : List String) → (sections : Result (Dict Fields)) → Result (Unit {0})
validate_sections typ whitelist sections = do
  to_validate ← sections
  validate_each typ whitelist to_validate
