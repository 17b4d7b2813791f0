-- ===== src/System/Dns/Setup.antt =====
-- system/dns.go: NewDefDNS, the select of DNSlookup, and setup, which both getters call.
pub mod Answers
use goss.Base.{
  ℕ, zero, suc, String, Bool, true, false, ◌&&◌, not, Option, none, some, List, [], ◌∷◌, ◌==◌, leb,
  if◌then◌else◌, split_colon,
}
use goss.System.Dns.{Lookup, looked_up, crashed, LookupError, dns_error, other_error}
use goss.Errors.{Error, Result, ok, err, panic}
use Prim.Native.Char.{code}

-- DefDNS: `question` holds host, server and qtype.
pub record Question : Type 0 where
  pub host : String
  pub server : String
  pub qtype : String

-- `^[A-Z]+$`
abbrev pub all_upper : String → Bool
all_upper String.[] = true
all_upper (String.◌∷◌ c s) = leb 0x41 (code c) && (leb (code c) 0x5a && all_upper s)

abbrev pub is_qtype : String → Bool
is_qtype s = not (s == "") && all_upper s

-- NewDefDNS
unfoldable pub new_def_dns : (resolve server : String) → Question
new_def_dns resolve server = elim (split_colon resolve) [
  | some (qtype, host) ↦
      if is_qtype qtype
      then record { host = host; server = server; qtype = qtype }
      else record { host = resolve; server = server; qtype = "" }
  | none ↦ record { host = resolve; server = server; qtype = "" }
]

pub record DefDns : Type 0 where
  pub loaded : Bool
  pub resolvable : Bool
  pub addrs : List String
  pub problem : Option LookupError

abbrev pub fresh_dns : DefDns
fresh_dns = record { loaded = false; resolvable = false; addrs = []; problem = none }

-- What DNSlookup returns.
pub data Attempt : Type 0 where
  answered : List String → Option LookupError → Attempt
  attempt_panics : Attempt

-- The channel that the select takes: behind an error both have a value, since the addresses are
-- sent as well. `too_late` is the case of time.After.
pub data Channel : Type 0 where
  results errors : Channel
  too_late : Error → Channel

unfoldable pub dns_lookup : Channel → Lookup → Attempt
dns_lookup c crashed = attempt_panics
dns_lookup (too_late e) (looked_up texts problem) = answered [] (some (other_error e))
dns_lookup results (looked_up texts problem) = answered texts none
dns_lookup errors (looked_up texts (some e)) = answered [] (some e)
dns_lookup errors (looked_up texts none) = answered texts none

module _ (sort : List String → List String) (attempt : ℕ → Attempt) where
  abbrev pub gone : DefDns → DefDns
  gone d = record d { resolvable = false; addrs = [] }

  -- The body of the loop, where `next` goes on with it.
  abbrev pub by_attempt :
      DefDns
      → Attempt
      → (DefDns → Result (DefDns × Option LookupError))
      → Result (DefDns × Option LookupError)
  by_attempt d attempt_panics next = panic
  by_attempt d (answered addrs (some dns_error)) next = ok (gone d, none)
  by_attempt d (answered addrs (some (other_error e))) next =
      next (record (gone d) { problem = some (other_error e) })
  by_attempt d (answered [] none) next = next (record (gone d) { problem = none })
  by_attempt d (answered (a ∷ more) none) next =
      ok (record d { resolvable = true; addrs = sort (a ∷ more); problem = none }, none)

  unfoldable pub attempts : (left i : ℕ) → DefDns → Result (DefDns × Option LookupError)
  attempts zero i d = ok (d, d.problem)
  attempts (suc left) i d = let next = attempts left (suc i) in by_attempt d (attempt i) next

  -- setup
  unfoldable pub setup : DefDns → Result (DefDns × Option LookupError)
  setup d =
      let rest = attempts 3 0 (record d { loaded = true }) in
      if d.loaded then ok (d, d.problem) else rest
