-- ===== src/Store/Vars/Phase.antt =====
-- The discovery phase and the templates of the gossfile that is rendered behind it.
use goss.Base.{String, ◌≡◌, ◌↔◌, Bool, false, none, some, List, [], ◌∷◌, In}
use goss.Discovery.Discovered.{validate_discovery-lookup}
use goss.Discovery.Entries.{entries_named}
use goss.Discovery.{collect, validate_entries, validate_discovery, DiscoveryEntry, no_fail, entries}
use goss.Store.Vars.Passed.{load_vars_for_templates-discovered, insert-Distinct}
use goss.Store.Vars.{discovered_from_vars, load_vars_for_templates, vars_from_string}
use goss.Store.{Host}
use goss.Config.{Sections, resources_of}
use goss.Config.Merge.{Distinct}
use goss.Resource.{register, Resource}
use goss.TestResult.{TestResult, fail}
use goss.Value.{Value, bool}
use goss.Errors.{ok, >>=-eq-ok, ok-injective}
use goss.Base.Maps.{lookup, insert, Dict}

module _ (run : Resource → List TestResult) where
  collect-Distinct :
      (es : List DiscoveryEntry) (m : Dict Bool) → Distinct m → Distinct (collect run m es)
  unfolding collect
  collect-Distinct [] m d = d
  collect-Distinct (e ∷ es) m d =
      collect-Distinct es (insert e.register (no_fail (run e.resource)) m)
        (insert-Distinct e.register (no_fail (run e.resource)) m d)

  module _ (order : List DiscoveryEntry → List DiscoveryEntry) where
    validate_entries-Distinct :
        (es : List DiscoveryEntry) (discovered : Dict Bool)
        → validate_entries run order es ≡ ok discovered
        → Distinct discovered
    validate_entries-Distinct [] discovered e = absurd (cc e)
    validate_entries-Distinct (x ∷ es) discovered e =
        rw (← ok-injective e) (collect-Distinct (order (x ∷ es)) [] tt)

    validate_discovery-Distinct :
        (c : Sections) (discovered : Dict Bool)
        → validate_discovery run order c ≡ ok discovered
        → Distinct discovered
    unfolding validate_discovery
    validate_discovery-Distinct c discovered e =
        let (es, got, e') = >>=-eq-ok (entries c) _ e in validate_entries-Distinct es discovered e'

    -- The two phases fit together: if the discovery phase succeeds and the variables of the
    -- templates are loaded behind it, with inline variables that have each key once and do not say
    -- `Discovered`, then the templates see the register of every discovery test, and see it false
    -- exactly if a result of that test is a failure, in whatever order the workers finish and
    -- whatever the files of variables say.
    pub load_vars_for_templates-validate_discovery :
        ((es : List DiscoveryEntry) (e : DiscoveryEntry) → In e (order es) ↔ In e es)
        → ((k : String) (es : List DiscoveryEntry)
            → entries_named k (order es) ≡ entries_named k es)
        → (c : Sections) (discovered : Dict Bool) → validate_discovery run order c ≡ ok discovered
        → (host : Host) (files : List String) (inline : String) (extra vars : Dict Value)
        → load_vars_for_templates host files inline discovered ≡ ok vars
        → vars_from_string host inline ≡ ok extra
        → Distinct extra
        → (lookup "Discovered" extra ≡ none)
        → (r : Resource) → In r (resources_of c)
        → (answer : Bool) × (lookup (register r) (discovered_from_vars vars) ≡ some (bool answer))
          × ((answer ≡ false) ↔ (t : TestResult) × In t (run r) × (t.result ≡ fail))
    load_vars_for_templates-validate_discovery order-In order-count c discovered found host files
          inline extra vars loaded inlined d silent r here =
        let (answer, set, why) =
          (validate_discovery-lookup run order order-In order-count c discovered found).0 r here in
        (
          answer,
          load_vars_for_templates-discovered host files inline discovered extra vars (register r)
              answer loaded inlined d silent (validate_discovery-Distinct c discovered found) set,
          why,
        )
