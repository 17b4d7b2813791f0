-- ===== src/Discovery/Tests.antt =====
-- Discovery on small configurations.
use goss.Resource.{file, register, Resource}
use goss.Base.{
  ◌≤◌, String, ◌≡◌, refl, ◌≢◌, ◌↔◌, ◌⊎◌, Bool, false, none, some, List, [], ◌∷◌, map, In,
}
use goss.Discovery.{
  collect, add_entries, entries, entry_of, validate_discovery, DiscoveryEntry, entry_id, no_fail,
}
use goss.Kinds.{FileResource}
use goss.Discovery.Entries.{entries-decides, named}
use goss.Discovery.Discovered.{validate_discovery-lookup}
use goss.Config.{Sections, no_sections, resources_of}
use goss.Samples.{sample_file, plain_common, unset}
use goss.Errors.{ok, err, missing_register, duplicate_register}
use goss.TestResult.{TestResult, fail}
use goss.Base.Maps.{lookup, insert}

abbrev noted : (path name : String) → FileResource
noted path name = record (sample_file path false) {
  common = record (plain_common path false) { register = name };
}

abbrev pub test_of : (path name : String) → Resource
test_of path name = file (noted path name)

abbrev pub two_tests : Sections
two_tests = record no_sections {
  files = ("/a", noted "/a" "has_a") ∷ ("/b", noted "/b" "has_b") ∷ [];
}

abbrev clashing : Sections
clashing = record no_sections {
  files = ("/a", noted "/a" "has_a") ∷ ("/b", noted "/b" "has_a") ∷ [];
}

abbrev pub any_order : List DiscoveryEntry → List DiscoveryEntry
any_order es = es

abbrev pub fails_everywhere : Resource → List TestResult
fails_everywhere r = unset ∷ record unset { result = fail } ∷ []

clash_is_refused : entries clashing ≡ err (duplicate_register "has_a")
unfolding entries add_entries resources_of
clash_is_refused = refl

pub two_tests_are_answered :
    validate_discovery fails_everywhere any_order two_tests
    ≡ ok (("has_a", false) ∷ ("has_b", false) ∷ [])
unfolding validate_discovery entries add_entries resources_of collect no_fail insert
two_tests_are_answered = refl

entries-decides_example :
    ((entries clashing ≡ ok (map entry_of (resources_of clashing)))
      × ((r : Resource) → In r (resources_of clashing) → register r ≢ "")
      × ((k : String) → named k (resources_of clashing) ≤ 1))
    ⊎ (((r : Resource) × In r (resources_of clashing)
          × (register r ≡ "")
          × (entries clashing ≡ err (missing_register (entry_id r))))
        ⊎ ((k : String) × (2 ≤ named k (resources_of clashing))
            × (entries clashing ≡ err (duplicate_register k))))
entries-decides_example = entries-decides clashing

validate_discovery-lookup_example :
    ((r : Resource)
      → In r (resources_of two_tests)
      → (answer : Bool) × (lookup (register r) (("has_a", false) ∷ ("has_b", false) ∷ [])
          ≡ some answer)
        × ((answer ≡ false) ↔ (t : TestResult) × In t (fails_everywhere r) × (t.result ≡ fail)))
    × ((k : String)
        → (named k (resources_of two_tests) ≡ 0)
        → lookup k (("has_a", false) ∷ ("has_b", false) ∷ []) ≡ none)
validate_discovery-lookup_example =
    validate_discovery-lookup fails_everywhere any_order (λ es e. (λ h. h, λ h. h)) (λ k es. refl)
      two_tests (("has_a", false) ∷ ("has_b", false) ∷ []) two_tests_are_answered
