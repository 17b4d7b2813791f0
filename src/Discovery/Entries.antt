-- ===== src/Discovery/Entries.antt =====
-- Which discovery tests are accepted.
use mathlib.Core.List.{append-nil, append_assoc}
use goss.Base.{
  ℕ, ◌+◌, ◌≤◌, String, ◌≡◌, refl, sym, ap, ◌∙◌, ◌≢◌, ◌↔◌, ◌⊎◌, inl, inr, true, false, List, [], ◌∷◌,
  ◌++◌, map, arith, ◌==◌, eq_iff, Bool-cases, count_of, In, count_of-append,
}
use goss.Discovery.{entry_id, entry_of, add_entries, entries, DiscoveryEntry, is_taken}
use goss.Errors.{ok, err, missing_register, duplicate_register}
use goss.Config.{Sections, resources_of}
use goss.Resource.{register, Resource}

abbrev pub named : String → List Resource → ℕ
named k rs = count_of (λ r. register r == k) rs

abbrev pub entries_named : String → List DiscoveryEntry → ℕ
entries_named k es = count_of (λ e. e.register == k) es

is_taken-count :
    (k : String) (es : List DiscoveryEntry) → (is_taken k es ≡ true) ↔ (1 ≤ entries_named k es)
is_taken-count k [] = (λ e. absurd (cc e), λ h. absurd (omega (arith, h)))
is_taken-count k (e ∷ es) = elim (Bool-cases (e.register == k)) [
  | inl same ↦ (λ h. ground (arith, same), λ h. ground (arith, same))
  | inr other ↦ (
    λ h. ground (arith, other, h, (is_taken-count k es).0),
    λ h. ground (arith, other, h, (is_taken-count k es).1),
  )
]

-- How adding the resources to the entries found so far ends.
abbrev Adds : List DiscoveryEntry → List Resource → Type 0
Adds found rs =
    ((add_entries found rs ≡ ok (found ++ map entry_of rs))
      × ((r : Resource) → In r rs → register r ≢ "")
      × ((k : String) → 1 ≤ named k rs → entries_named k found + named k rs ≤ 1))
    ⊎ (((r : Resource) × In r rs
          × (register r ≡ "")
          × (add_entries found rs ≡ err (missing_register (entry_id r))))
        ⊎ ((k : String) × (2 ≤ entries_named k found + named k rs)
            × (add_entries found rs ≡ err (duplicate_register k))))

step-Adds :
    (found : List DiscoveryEntry) (r : Resource) (rs : List Resource)
    → (register r == "" ≡ false)
    → (is_taken (register r) found ≡ false)
    → Adds (found ++ entry_of r ∷ []) rs
    → Adds found (r ∷ rs)
unfolding add_entries
step-Adds found r rs full new (inl (e, names, once)) = inl (
  rw (full, add_entries)
      (rw (new, add_entries) (e ∙ ap ok (append_assoc found (entry_of r ∷ []) (map entry_of rs)))),
  (λ x h. elim h [
    | inl q ↦ rw (← q) (λ unset. absurd (cc ((eq_iff (register r) "").1 unset)))
    | inr h' ↦ names x h'
  ]),
  λ k h. ground (
    arith,
    once k,
    h,
    eq_iff (register r) k,
    is_taken-count (register r) found,
    new,
    count_of-append (λ e. e.register == k) found (entry_of r ∷ []),
  ),
)
step-Adds found r rs full new (inr (inl (x, here, unnamed, e))) =
    inr (inl (x, inr here, unnamed, rw (full, add_entries) (rw (new, add_entries) e)))
step-Adds found r rs full new (inr (inr (k, twice, e))) = inr (
    inr (
      k,
      ground (arith, twice, count_of-append (λ e. e.register == k) found (entry_of r ∷ [])),
      rw (full, add_entries) (rw (new, add_entries) e),
    ))

add_entries-Adds : (rs : List Resource) (found : List DiscoveryEntry) → Adds found rs
unfolding add_entries
add_entries-Adds [] found =
    inl (ap ok (sym (append-nil found)), (λ r h. absurd h), λ k h. absurd (omega (arith, h)))
add_entries-Adds (r ∷ rs) found = elim (Bool-cases (register r == "")) [
  | inl bare ↦ inr (inl (r, inl refl, (eq_iff (register r) "").0 bare, rw (bare, add_entries) refl))
  | inr full ↦ elim (Bool-cases (is_taken (register r) found)) [
    | inl taken ↦ inr (
        inr (
          register r,
          ground (
            arith,
            (is_taken-count (register r) found).0 taken,
            (eq_iff (register r) (register r)).1 refl,
          ),
          rw (full, add_entries) (rw (taken, add_entries) refl),
        ))
    | inr new ↦ step-Adds found r rs full new (add_entries-Adds rs (found ++ entry_of r ∷ []))
  ]
]

-- The discovery tests of a configuration are accepted in exactly one case: every one names a
-- register, and no two name the same; the entries are then all the tests, in their order. Otherwise
-- the error names a test that has no register, or a register that two tests name.
pub entries-decides :
    (c : Sections)
    → ((entries c ≡ ok (map entry_of (resources_of c)))
        × ((r : Resource) → In r (resources_of c) → register r ≢ "")
        × ((k : String) → named k (resources_of c) ≤ 1))
      ⊎ (((r : Resource) × In r (resources_of c)
            × (register r ≡ "")
            × (entries c ≡ err (missing_register (entry_id r))))
          ⊎ ((k : String) × (2 ≤ named k (resources_of c))
              × (entries c ≡ err (duplicate_register k))))
unfolding entries
entries-decides c = elim (add_entries-Adds (resources_of c) []) [
  | inl (e, names, once) ↦ inl (e, names, λ k. ground (arith, once k))
  | inr (inl b) ↦ inr (inl b)
  | inr (inr (k, twice, e)) ↦ inr (inr (k, ground (arith, twice), e))
]
