-- ===== src/Discovery.antt =====
-- discovery_config.go, discovery_validate.go: the tests that run before the templates are rendered,
-- each under the name of a register. The resources come in the order of Config.resources_of. `run`
-- is what Validate returns, and `order` is the order in which the workers finish.
pub mod Entries
pub mod Discovered
pub mod Tests
use goss.Base.Maps.{insert, Dict}
use goss.Errors.{err, ◌>>=◌, ok, Result, missing_register, duplicate_register, no_discovery_tests}
use goss.TestResult.{TestResult, fail, success, skip, unknown}
use goss.Base.{
  String, Bool, true, false, List, [], ◌∷◌, ◌++◌, map, ◌==◌, eqb, if◌then◌else◌, length, any_of,
}
use goss.Config.{resources_of, Sections}
use goss.Resource.{register, type_key, id_of, Resource}
use Prim.Native.String.{◌++◌ as str_append}

-- DiscoveryEntry
pub record DiscoveryEntry : Type 0 where
  pub register : String
  pub resource : Resource

abbrev pub entry_of : Resource → DiscoveryEntry
entry_of r = record { register = register r; resource = r }

-- `id` of the error for a missing register: every resource has an ID.
abbrev pub entry_id : Resource → String
entry_id r = str_append (type_key r) (str_append ":" (id_of r))

abbrev pub is_taken : String → List DiscoveryEntry → Bool
is_taken name entries = any_of (λ e. e.register == name) entries

-- The loops of Entries.
unfoldable pub add_entries : List DiscoveryEntry → List Resource → Result (List DiscoveryEntry)
add_entries found [] = ok found
add_entries found (r ∷ rs) =
    if register r == ""
    then err (missing_register (entry_id r))
    else if is_taken (register r) found
    then err (duplicate_register (register r))
    else add_entries (found ++ entry_of r ∷ []) rs

-- Entries
unfoldable pub entries : Sections → Result (List DiscoveryEntry)
entries c = add_entries [] (resources_of c)

-- entriesWithoutValidation
abbrev pub entries_without_validation : Sections → List DiscoveryEntry
entries_without_validation c = map entry_of (resources_of c)

-- IsEmpty
abbrev pub is_empty : Sections → Bool
is_empty c = eqb (length (entries_without_validation c)) 0

-- The loop of a worker over the results of an entry.
unfoldable pub no_fail : List TestResult → Bool
no_fail [] = true
no_fail (result ∷ results) = elim result.result [
  | fail ↦ false
  | success ↦ no_fail results
  | skip ↦ no_fail results
  | unknown ↦ no_fail results
]

module _ (run : Resource → List TestResult) where
  -- The loop that reads the channel `out`.
  unfoldable pub collect : Dict Bool → List DiscoveryEntry → Dict Bool
  collect discovered [] = discovered
  collect discovered (e ∷ es) = collect (insert e.register (no_fail (run e.resource)) discovered) es

  -- validateDiscovery behind Entries; a worker is always started.
  abbrev pub validate_entries :
      (List DiscoveryEntry → List DiscoveryEntry) → List DiscoveryEntry → Result (Dict Bool)
  validate_entries order [] = err no_discovery_tests
  validate_entries order (e ∷ es) = ok (collect [] (order (e ∷ es)))

  unfoldable pub validate_discovery :
      (List DiscoveryEntry → List DiscoveryEntry) → Sections → Result (Dict Bool)
  validate_discovery order c = do es ← entries c; validate_entries order es
