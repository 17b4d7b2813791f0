-- ===== src/Schedule/Build.antt =====
-- dependency_scheduler.go: buildSchedule up to its call of detectDependencyCycles, and
-- resolveDependencyRef. A reference is `type:key`, or the bare key of a single resource.
pub mod Resolved
use goss.Base.{
  String, Bool, true, false, ◌||◌, none, some, List, [], ◌∷◌, ◌++◌, ◌==◌, if◌then◌else◌, listed,
  split_colon,
}
use goss.Errors.{
  duplicate_reference, reference_ambiguous, reference_not_found, invalid_reference, ◌>>=◌, ok, err,
  Result, Error,
}
use goss.Resource.{yaml_key, ref, depends_on, Resource}
use goss.Schedule.{Item}
use goss.Base.Maps.{insert, lookup, Dict}
use Prim.Native.String.{◌++◌ as str_append}
use Prim.Native.Char.{code}

-- The maps `index` and `refsByKey`.
pub record Index : Type 0 where
  pub by_ref : Dict Resource
  pub by_key : Dict (List String)

abbrev pub enter : Index → Resource → Index
enter ix r = record {
  by_ref = insert (ref r) r ix.by_ref;
  by_key = insert (yaml_key r) (listed (lookup (yaml_key r) ix.by_key) ++ ref r ∷ []) ix.by_key;
}

unfoldable pub index_refs : Index → List Resource → Result Index
index_refs ix [] = ok ix
index_refs ix (r ∷ rs) = elim (lookup (ref r) ix.by_ref) [
  | some found ↦ err (duplicate_reference (ref r))
  | none ↦ index_refs (enter ix r) rs
]

abbrev pub find_ref : Dict Resource → (dep reference : String) → Result String
find_ref by_ref dep reference = elim (lookup reference by_ref) [
  | some r ↦ ok reference
  | none ↦ err (reference_not_found dep)
]

abbrev pub typed_ref : Dict Resource → String → (kind key : String) → Result String
typed_ref by_ref dep kind key =
    if kind == "" || key == ""
    then err (invalid_reference dep)
    else find_ref by_ref dep (str_append kind (str_append ":" key))

-- switch len(matches)
abbrev pub only_match : String → List String → Result String
only_match dep [] = err (reference_not_found dep)
only_match dep (match ∷ []) = ok match
only_match dep (match ∷ other ∷ more_matches) =
    err (reference_ambiguous dep (match ∷ other ∷ more_matches))

unfoldable pub resolve_dependency_ref : Index → String → Result String
resolve_dependency_ref ix dep = elim (split_colon dep) [
  | some (kind, key) ↦ typed_ref ix.by_ref dep kind key
  | none ↦ only_match dep (listed (lookup dep ix.by_key))
]

unfoldable pub resolve_all : Index → List String → Result (List String)
resolve_all ix [] = ok []
resolve_all ix (dep ∷ deps) = do
  reference ← resolve_dependency_ref ix dep
  references ← resolve_all ix deps
  ok (reference ∷ references)

unfoldable pub schedule_items : Index → List Resource → Result (List Item)
schedule_items ix [] = ok []
schedule_items ix (r ∷ rs) = do
  deps ← resolve_all ix (depends_on r)
  items ← schedule_items ix rs
  ok (record { ref = ref r; resource = r; deps = deps } ∷ items)

abbrev pub no_index : Index
no_index = record { by_ref = []; by_key = [] }

unfoldable pub build_items : List Resource → Result (List Item)
build_items resources = do ix ← index_refs no_index resources; schedule_items ix resources

-- hasDependencies
unfoldable pub has_dependencies : List Resource → Bool
has_dependencies [] = false
has_dependencies (r ∷ rs) = elim (depends_on r) [ [] ↦ has_dependencies rs | dep ∷ deps ↦ true ]
