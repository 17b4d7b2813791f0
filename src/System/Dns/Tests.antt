-- ===== src/System/Dns/Tests.antt =====
-- Lookups against resolvers that are told here.
use goss.System.Dns.{
  LookupError, DnsRecord, Resolver, lookup_mx, looked_up, crashed, ptr_record, cname_record,
  mx_record, other_error, dns_error, lookup_ptr, look_up, texts_in,
}
use goss.Base.{
  ℕ, ◌<◌, String, ◌≡◌, refl, ◌⊎◌, true, false, Option, none, some, List, [], ◌∷◌, map, eqb,
  if◌then◌else◌, all_of,
}
use goss.System.Dns.Reverse.{lookup_ptr-decides, is_ptr, ptr_name}
use goss.System.Dns.Setup.{
  DefDns, fresh_dns, Attempt, answered, attempts, setup, new_def_dns, dns_lookup, results,
}
use goss.System.Dns.Setup.Answers.{setup-answers, setup-stale}
use goss.Errors.{ok, external}

abbrev decimal : ℕ → String
decimal n = if eqb n 10 then "10" else "0"

abbrev answering : List DnsRecord → Resolver
answering answer = record {
  exchange = λ qtype name server. (answer, none);
  fqdn = λ host. host;
  reverse_addr = λ addr. ok addr;
  lookup_host = λ host. looked_up [] (some dns_error);
  split_host_port = λ server. none;
  join_host_port = λ host port. host;
}

abbrev delegated : List DnsRecord
delegated = cname_record "1.0.in-addr.arpa." ∷ ptr_record "host." ∷ []

mail_is_found :
    look_up decimal (answering (mx_record 10 "mail." ∷ [])) "example.com" "8.8.8.8" "MX"
    ≡ looked_up ("10 mail." ∷ []) none
unfolding look_up lookup_mx texts_in
mail_is_found = refl

lookup_ptr-decides_example :
    ((all_of is_ptr delegated ≡ true)
      × (lookup_ptr decimal (answering delegated) "10.0.0.1" "8.8.8.8"
          ≡ looked_up (map ptr_name delegated) none))
    ⊎ ((all_of is_ptr delegated ≡ false)
        × (lookup_ptr decimal (answering delegated) "10.0.0.1" "8.8.8.8" ≡ crashed))
lookup_ptr-decides_example =
    lookup_ptr-decides decimal (answering delegated) "10.0.0.1" "8.8.8.8" "10.0.0.1" delegated refl
      refl

-- The error of a lookup is lost when the select takes the other channel.
error_may_be_lost :
    dns_lookup results (looked_up [] (some (other_error (external "refused")))) ≡ answered [] none
unfolding dns_lookup
error_may_be_lost = refl

typed_name :
    new_def_dns "MX:example.com" "8.8.8.8"
    ≡ record { host = "example.com"; server = "8.8.8.8"; qtype = "MX" }
unfolding new_def_dns
typed_name = refl

abbrev as_they_are : List String → List String
as_they_are ts = ts

abbrev second_try : ℕ → Attempt
second_try n =
    if eqb n 0
    then answered [] (some (other_error (external "timeout")))
    else answered ("1.1.1.1" ∷ []) none

abbrev no_such_host : ℕ → Attempt
no_such_host n =
    if eqb n 0
    then answered [] (some (other_error (external "timeout")))
    else answered [] (some dns_error)

abbrev resolved : DefDns
resolved = record { loaded = true; resolvable = true; addrs = "1.1.1.1" ∷ []; problem = none }

second_try_resolves : setup as_they_are second_try fresh_dns ≡ ok (resolved, none)
unfolding setup attempts
second_try_resolves = refl

addrs_are_sorted :
    ((resolved.resolvable ≡ true)
      × (◌≡◌ {A = Option LookupError} none none)
      × (resolved.problem ≡ none)
      × ((i : ℕ) × (a : String) × (more : List String) × (i < 3)
          × (second_try i ≡ answered (a ∷ more) none)
          × (resolved.addrs ≡ as_they_are (a ∷ more))))
    ⊎ ((resolved.resolvable ≡ false) × (resolved.addrs ≡ []))
addrs_are_sorted = setup-answers as_they_are second_try resolved none second_try_resolves

stale_addrs :
    (d : DefDns) × (setup as_they_are no_such_host fresh_dns ≡ ok (d, none))
    × (setup as_they_are no_such_host d ≡ ok (d, some (other_error (external "timeout"))))
stale_addrs = setup-stale as_they_are no_such_host (external "timeout") [] [] refl refl
