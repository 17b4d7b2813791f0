-- ===== src/System/Dns.antt =====
-- system/dns.go: the lookups of each type and what is chosen by the server and the type; Setup has the
-- select of DNSlookup and the three attempts. The resolver (net and miekg/dns) and strconv.Itoa are
-- arguments.
pub mod Setup
pub mod Reverse
pub mod Tests
use goss.Base.{ℕ, String, Option, none, some, List, [], ◌∷◌, ◌++◌, ◌==◌, if◌then◌else◌}
use goss.Errors.{Error, Result, ok, err, panic, external}
use Prim.Native.String.{◌++◌ as str_append}

-- A record of an answer: the types that the lookups tell apart.
pub data DnsRecord : Type 0 where
  a_record aaaa_record cname_record ns_record ptr_record : String → DnsRecord
  mx_record : (preference : ℕ) → (mx : String) → DnsRecord
  srv_record : (priority weight port : ℕ) → (target : String) → DnsRecord
  txt_record : List String → DnsRecord
  caa_record : (flag : ℕ) → (tag value : String) → DnsRecord
  other_record : DnsRecord

-- An error of a lookup, as setup tells it apart: a *net.DNSError or any other.
pub data LookupError : Type 0 where
  dns_error : LookupError
  other_error : Error → LookupError

-- What a lookup returns: the texts and the error beside them, or a panic.
pub data Lookup : Type 0 where
  looked_up : List String → Option LookupError → Lookup
  crashed : Lookup

-- What the packages net and miekg/dns answer: `exchange` are the records and the error of a question
-- that is sent to a server, and `split_host_port` has no answer where there is no port.
pub record Resolver : Type 0 where
  pub exchange : (qtype name server : String) → List DnsRecord × Option Error
  pub fqdn : String → String
  pub reverse_addr : String → Result String
  pub lookup_host : String → Lookup
  pub split_host_port : String → Option (String × String)
  pub join_host_port : (host port : String) → String

module _ (itoa : ℕ → String) where
  abbrev pub spaced : List String → String
  spaced [] = ""
  spaced (s ∷ []) = s
  spaced (s ∷ t ∷ ts) = str_append s (str_append " " (spaced (t ∷ ts)))

  -- The bodies of the loops of LookupA, LookupAAAA, LookupCNAME, LookupMX, LookupNS, LookupSRV,
  -- LookupTXT and LookupCAA: what a record adds.
  abbrev pub texts_of : (qtype : String) → DnsRecord → List String
  texts_of qtype (a_record s) = if qtype == "A" then s ∷ [] else []
  texts_of qtype (aaaa_record s) = if qtype == "AAAA" then s ∷ [] else []
  texts_of qtype (cname_record s) = if qtype == "CNAME" then s ∷ [] else []
  texts_of qtype (ns_record s) = if qtype == "NS" then s ∷ [] else []
  texts_of qtype (mx_record preference mx) =
      if qtype == "MX" then str_append (itoa preference) (str_append " " mx) ∷ [] else []
  texts_of qtype (srv_record priority weight port target) =
      if qtype == "SRV"
      then spaced (itoa priority ∷ itoa weight ∷ itoa port ∷ target ∷ []) ∷ []
      else []
  texts_of qtype (txt_record ts) = if qtype == "TXT" then ts else []
  texts_of qtype (caa_record flag tag value) =
      if qtype == "CAA" then spaced (itoa flag ∷ tag ∷ value ∷ []) ∷ [] else []
  texts_of qtype (ptr_record s) = []
  texts_of qtype other_record = []

  unfoldable pub texts_in : (qtype : String) → List DnsRecord → List String
  texts_in qtype [] = []
  texts_in qtype (r ∷ rs) = texts_of qtype r ++ texts_in qtype rs

  -- The loop of LookupPTR: `ans.(*dns.PTR)` panics on a record of another type.
  unfoldable pub ptr_texts : List String → List DnsRecord → Lookup
  ptr_texts found [] = looked_up found none
  ptr_texts found (ptr_record s ∷ rs) = ptr_texts (found ++ s ∷ []) rs
  ptr_texts found (_ ∷ rs) = crashed

  module _ (resolver : Resolver) where
    unfoldable pub parse_server_string : String → String
    parse_server_string server = elim (resolver.split_host_port server) [
      | some (srvhost, srvport) ↦ resolver.join_host_port srvhost srvport
      | none ↦ resolver.join_host_port server "53"
    ]

    -- What follows the call of Exchange in the lookups, but for LookupPTR.
    abbrev pub texts_or : (qtype : String) → List DnsRecord × Option Error → Lookup
    texts_or qtype (answer, none) = looked_up (texts_in qtype answer) none
    texts_or qtype (answer, some e) = looked_up [] (some (other_error e))

    abbrev pub lookup_type : (qtype host server : String) → Lookup
    lookup_type qtype host server =
        texts_or qtype (resolver.exchange qtype (resolver.fqdn host) (parse_server_string server))

    unfoldable pub lookup_a : (host server : String) → Lookup
    lookup_a host server = lookup_type "A" host server

    unfoldable pub lookup_aaaa : (host server : String) → Lookup
    lookup_aaaa host server = lookup_type "AAAA" host server

    unfoldable pub lookup_cname : (host server : String) → Lookup
    lookup_cname host server = lookup_type "CNAME" host server

    unfoldable pub lookup_mx : (host server : String) → Lookup
    lookup_mx host server = lookup_type "MX" host server

    unfoldable pub lookup_ns : (host server : String) → Lookup
    lookup_ns host server = lookup_type "NS" host server

    unfoldable pub lookup_srv : (host server : String) → Lookup
    lookup_srv host server = lookup_type "SRV" host server

    unfoldable pub lookup_txt : (host server : String) → Lookup
    lookup_txt host server = lookup_type "TXT" host server

    unfoldable pub lookup_caa : (host server : String) → Lookup
    lookup_caa host server = lookup_type "CAA" host server

    abbrev pub ptr_or : List DnsRecord × Option Error → Lookup
    ptr_or (answer, none) = ptr_texts [] answer
    ptr_or (answer, some e) = looked_up [] (some (other_error e))

    abbrev pub lookup_reversed : (server : String) → Result String → Lookup
    lookup_reversed server (ok reverse) =
        ptr_or (resolver.exchange "PTR" reverse (parse_server_string server))
    lookup_reversed server (err e) = looked_up [] (some (other_error e))
    lookup_reversed server panic = crashed

    unfoldable pub lookup_ptr : (addr server : String) → Lookup
    lookup_ptr addr server = lookup_reversed server (resolver.reverse_addr addr)

    abbrev pub texts_only : Lookup → List String
    texts_only (looked_up texts e) = texts
    texts_only crashed = []

    -- LookupHost, which drops the errors
    unfoldable pub lookup_host_by : (host server : String) → Lookup
    lookup_host_by host server =
        looked_up (texts_only (lookup_a host server) ++ texts_only (lookup_aaaa host server)) none

    -- The goroutine of DNSlookup, up to its sends.
    unfoldable pub look_up : (host server qtype : String) → Lookup
    look_up host server qtype =
        if server == ""
        then resolver.lookup_host host
        else if qtype == "A"
        then lookup_a host server
        else if qtype == "AAAA"
        then lookup_aaaa host server
        else if qtype == "PTR"
        then lookup_ptr host server
        else if qtype == "CNAME"
        then lookup_cname host server
        else if qtype == "MX"
        then lookup_mx host server
        else if qtype == "NS"
        then lookup_ns host server
        else if qtype == "SRV"
        then lookup_srv host server
        else if qtype == "TXT"
        then lookup_txt host server
        else if qtype == "CAA"
        then lookup_caa host server
        else lookup_host_by host server
