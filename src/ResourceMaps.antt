-- ===== src/ResourceMaps.antt =====
-- resource/resource_list.go: the maps of a gossfile, one type for each kind of test. The file is
-- generated from one template, resource_list_genny.go; here the template is a function of what it uses
-- of a kind, MapKind, and each map type has an instance.
pub mod Getters
pub mod New
pub mod NewWhole
pub mod Structs
pub mod Kinds
pub mod Appends
pub mod IfExists
pub mod Unmarshals
pub mod Lawful
pub mod Kept
pub mod Attributes
pub mod Read
pub mod Methods
pub mod Tests
use goss.Base.{String, Bool, true, false, not, Option, none, some, List, [], ◌∷◌}
use goss.Options.{RuntimeConfig, zero_config}
use goss.Options.Whitelist.{Struct, TagFormat, whitelist_attrs, validate_sections}
use goss.Errors.{Result, ok, err, panic, ◌>>=◌, could_not_parse}
use goss.Base.Maps.{Dict, lookup, insert}
use goss.Value.{Fields}

-- What reading a map uses of a kind: the type name and the fields of its struct, and SetID.
pub record ReadKind (R : Type 0) : Type 0 where
  pub typ : String
  pub struct : Struct
  pub set_id : String → R → R

-- R is the kind's struct, O its system object: what reading uses, the New function, Exists of the
-- object, and the methods ID, GetTitle and GetMeta of the struct.
pub record MapKind (R O : Type 0) : Type 0 where
  pub reads : ReadKind R
  pub create : O → RuntimeConfig → Result R
  pub exists : O → Result Bool
  pub id : R → String
  pub title : R → String
  pub meta : R → Fields
  -- res.Title = title; res.Meta = meta
  pub relabel : (title : String) → (meta : Fields) → R → R

-- What the two calls of unmarshal answer: into a map of maps, and into a map of the kind's structs,
-- where `none` is a nil pointer.
pub record Parsed (R : Type 0) : Type 0 where
  pub sections : Result (Dict Fields)
  pub entries : Result (Dict (Option R))

module _ {R O : Type 0} (kind : MapKind R O) where
  -- The title and the meta data of the entry that the new one takes the place of
  abbrev pub with_old_labels : Option R → R → R
  with_old_labels none res = res
  with_old_labels (some old_res) res = kind.relabel (kind.title old_res) (kind.meta old_res) res

  -- The end of both functions: the entry under the new resource's ID.
  unfoldable pub put_resource : R → Dict R → R × Dict R
  put_resource created r =
      let res = with_old_labels (lookup (kind.id created) r) created in
      (res, insert (kind.id res) res r)

  -- AppendSysResource
  unfoldable pub append_sys_resource : O → RuntimeConfig → Dict R → Result (R × Dict R)
  append_sys_resource sysres config r = do res ← kind.create sysres config; ok (put_resource res r)

  -- `e, _ := sysres.Exists(); !e`, where an error comes with the value false
  abbrev pub is_absent : Result Bool → Result Bool
  is_absent (ok e) = ok (not e)
  is_absent (err e) = ok true
  is_absent panic = panic

  abbrev pub put_unless : (absent : Bool) → R → O → Dict R → R × O × Bool × Dict R
  put_unless true res sysres r = (res, sysres, false, r)
  put_unless false res sysres r = let (res', r') = put_resource res r in (res', sysres, true, r')

  -- AppendSysResourceIfExists
  unfoldable pub append_sys_resource_if_exists : O → Dict R → Result (R × O × Bool × Dict R)
  append_sys_resource_if_exists sysres r = do
    res ← kind.create sysres zero_config
    absent ← is_absent (kind.exists sysres)
    ok (put_unless absent res sysres r)

module _ {R : Type 0} (kind : ReadKind R) where
  -- The loop over `tmp`
  unfoldable pub set_ids : Dict (Option R) → Result (Dict R)
  set_ids [] = ok []
  set_ids ((id, none) ∷ tmp) = err (could_not_parse kind.typ id)
  set_ids ((id, some res) ∷ tmp) = do rest ← set_ids tmp; ok ((id, kind.set_id id res) ∷ rest)

  -- UnmarshalJSON and UnmarshalYAML
  unfoldable pub unmarshal_map : TagFormat → Parsed R → Result (Dict R)
  unmarshal_map format parsed = do
    valid ← validate_sections kind.typ (whitelist_attrs format kind.struct) parsed.sections
    tmp ← parsed.entries
    set_ids tmp

-- What the resource package calls: filepath.Match without an error, the lines of a bufio.Scanner, and
-- strings.TrimSpace.
pub record AddHost : Type 0 where
  pub glob_match : (pattern name : String) → Bool
  pub scan_lines : String → List String
  pub trim_space : String → String
