-- ===== src/System/Dns/Reverse.antt =====
-- Lookups of type PTR.
use goss.Base.{
  ℕ, String, ◌≡◌, refl, sym, ap, ◌∙◌, ◌⊎◌, inl, inr, Bool, true, false, none, List, [], ◌∷◌, ◌++◌,
  map, all_of,
}
use goss.System.Dns.{
  DnsRecord, looked_up, crashed, a_record, aaaa_record, cname_record, ns_record, ptr_record,
  mx_record, srv_record, txt_record, caa_record, other_record, ptr_texts, lookup_ptr, ptr_or,
  lookup_reversed, parse_server_string, Resolver,
}
use goss.Errors.{ok}
use mathlib.Core.List.{append_assoc, append-nil}

abbrev pub is_ptr : DnsRecord → Bool
is_ptr (ptr_record s) = true
is_ptr _ = false

abbrev pub ptr_name : DnsRecord → String
ptr_name (ptr_record s) = s
ptr_name _ = ""

-- How the loop over the answer ends.
abbrev Names : (itoa : ℕ → String) → List String → List DnsRecord → Type 0
Names itoa found rs =
    ((all_of is_ptr rs ≡ true)
      × (ptr_texts itoa found rs ≡ looked_up (found ++ map ptr_name rs) none))
    ⊎ ((all_of is_ptr rs ≡ false) × (ptr_texts itoa found rs ≡ crashed))

ptr_texts-Names :
    (itoa : ℕ → String) (rs : List DnsRecord) (found : List String) → Names itoa found rs
unfolding ptr_texts
ptr_texts-Names itoa [] found = inl (refl, ap (λ ts. looked_up ts none) (sym (append-nil found)))
ptr_texts-Names itoa (ptr_record s ∷ rs) found = elim (ptr_texts-Names itoa rs (found ++ s ∷ [])) [
  | inl (all, e) ↦
      inl (all, e ∙ ap (λ ts. looked_up ts none) (append_assoc found (s ∷ []) (map ptr_name rs)))
  | inr (some_other, e) ↦ inr (some_other, e)
]
ptr_texts-Names itoa (a_record s ∷ rs) found = inr (refl, refl)
ptr_texts-Names itoa (aaaa_record s ∷ rs) found = inr (refl, refl)
ptr_texts-Names itoa (cname_record s ∷ rs) found = inr (refl, refl)
ptr_texts-Names itoa (ns_record s ∷ rs) found = inr (refl, refl)
ptr_texts-Names itoa (mx_record n s ∷ rs) found = inr (refl, refl)
ptr_texts-Names itoa (srv_record p w n s ∷ rs) found = inr (refl, refl)
ptr_texts-Names itoa (txt_record ts ∷ rs) found = inr (refl, refl)
ptr_texts-Names itoa (caa_record n t v ∷ rs) found = inr (refl, refl)
ptr_texts-Names itoa (other_record ∷ rs) found = inr (refl, refl)

-- A PTR lookup that is answered returns the names of the answer if all its records are of type PTR,
-- and otherwise, for a CNAME in front of a delegated name for instance, it panics.
pub lookup_ptr-decides :
    (itoa : ℕ → String) (resolver : Resolver) (addr server reverse : String)
    → (answer : List DnsRecord) → resolver.reverse_addr addr ≡ ok reverse
    → (resolver.exchange "PTR" reverse (parse_server_string itoa resolver server) ≡ (answer, none))
    → ((all_of is_ptr answer ≡ true)
        × (lookup_ptr itoa resolver addr server ≡ looked_up (map ptr_name answer) none))
      ⊎ ((all_of is_ptr answer ≡ false) × (lookup_ptr itoa resolver addr server ≡ crashed))
unfolding lookup_ptr
lookup_ptr-decides itoa resolver addr server reverse answer r e =
    let path = ap (lookup_reversed itoa resolver server) r ∙ ap (ptr_or itoa resolver) e in
    elim (ptr_texts-Names itoa answer []) [
      | inl (all, q) ↦ inl (all, path ∙ q)
      | inr (some_other, q) ↦ inr (some_other, path ∙ q)
    ]
