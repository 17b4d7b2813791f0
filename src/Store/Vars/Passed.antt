-- ===== src/Store/Vars/Passed.antt =====
-- What the templates see of the discovery phase.
use goss.Base.{
  String, ◌≡◌, refl, sym, ap, ◌∙◌, inl, inr, Bool, Option, none, some, List, [], ◌∷◌, arith, ◌==◌,
  eq_iff, Bool-cases,
}
use goss.Store.{Host}
use goss.Store.Vars.{
  discovered_from_vars, load_vars_for_templates, load_vars, vars_from_string, with_discovered,
  as_values, to_fields, copy_fields, copied,
}
use goss.Config.{merge_map}
use goss.Config.Merge.{lookup-merge_map, Distinct, or_else}
use goss.Value.{Value, obj, Fields, end, field, bool}
use goss.Errors.{ok, wrap, >>=-eq-ok, ok-injective, bad_inline_vars}
use goss.Store.Merged.{wrap-eq-ok}
use goss.Base.Maps.{lookup, insert, Dict, lookup-insert}

-- A copied map has each key once.
pub insert-Distinct :
    {V : Type 0} (k : String) (v : V) (m : Dict V) → Distinct m → Distinct (insert k v m)
unfolding insert lookup
insert-Distinct k v [] d = (refl, tt)
insert-Distinct k v ((j, w) ∷ m) d = elim (Bool-cases (j == k)) [
  | inl same ↦ rw (same, insert) (rw (← (eq_iff j k).0 same) d.0, d.1)
  | inr other ↦
      rw (other, insert)
        (
          ground (arith, lookup-insert k j v m, d.0, other, eq_iff j k, eq_iff k j),
          insert-Distinct k v m d.1,
        )
]

merge_map-Distinct : {V : Type 0} (m g2 : Dict V) → Distinct m → Distinct (merge_map m g2)
unfolding merge_map
merge_map-Distinct m [] d = d
merge_map-Distinct m ((k, v) ∷ g2) d =
    merge_map-Distinct (insert k v m) g2 (insert-Distinct k v m d)

copy_fields-Distinct : (m : Dict Value) (fs : Fields) → Distinct m → Distinct (copy_fields m fs)
copy_fields-Distinct m end d = d
copy_fields-Distinct m (field k v fs) d =
    copy_fields-Distinct (insert k v m) fs (insert-Distinct k v m d)

copied-Distinct : (o : Option Value) → Distinct (copied o)
copied-Distinct (some (obj fs)) = copy_fields-Distinct [] fs tt
copied-Distinct (some _) = tt
copied-Distinct none = tt

copy_fields-to_fields : (m g2 : Dict Value) → copy_fields m (to_fields g2) ≡ merge_map m g2
unfolding merge_map
copy_fields-to_fields m [] = refl
copy_fields-to_fields m ((k, v) ∷ g2) = copy_fields-to_fields (insert k v m) g2

or_else-none : {A : Type 0} (o : Option A) → or_else o none ≡ o
or_else-none (some a) = refl
or_else-none none = refl

-- A map copied into an empty one answers like the map.
lookup-copied :
    (k : String) (m : Dict Value)
    → Distinct m
    → lookup k (copied (some (obj (to_fields m)))) ≡ lookup k m
unfolding lookup
lookup-copied k m d =
    rw (copy_fields-to_fields [] m) (lookup-merge_map k [] m d ∙ or_else-none (lookup k m))

lookup-as_values :
    (k : String) (b : Bool) (m : Dict Bool)
    → (lookup k m ≡ some b)
    → lookup k (as_values m) ≡ some (bool b)
unfolding lookup
lookup-as_values k b [] e = absurd (cc e)
lookup-as_values k b ((j, x) ∷ m) e = elim (Bool-cases (j == k)) [
  | inl same ↦ rw same (ap (λ o. elim o [ some y ↦ some (bool y) | none ↦ none ]) (rw same at e))
  | inr other ↦ rw other (lookup-as_values k b m (rw other at e))
]

as_values-none : (k : String) (m : Dict Bool) → (lookup k m ≡ none) → lookup k (as_values m) ≡ none
unfolding lookup
as_values-none k [] e = refl
as_values-none k ((j, x) ∷ m) e = elim (Bool-cases (j == k)) [
  | inl same ↦ absurd (cc (rw same at e))
  | inr other ↦ rw other (as_values-none k m (rw other at e))
]

as_values-Distinct : (m : Dict Bool) → Distinct m → Distinct (as_values m)
as_values-Distinct [] d = tt
as_values-Distinct ((j, x) ∷ m) d = (as_values-none j m d.0, as_values-Distinct m d.1)

lookup-with_discovered :
    (discovered : Dict Bool) (vars : Dict Value) (k : String) (answer : Bool)
    → Distinct discovered
    → (lookup k discovered ≡ some answer)
    → lookup k (copied (lookup "Discovered" (with_discovered discovered vars))) ≡ some (bool answer)
unfolding lookup discovered_from_vars
lookup-with_discovered [] vars k answer d set = absurd (cc set)
lookup-with_discovered (x ∷ xs) vars k answer d set =
    let old = copied (lookup "Discovered" vars) in
    let new = as_values (x ∷ xs) in
    let all = merge_map old new in
    rw (lookup-insert "Discovered" "Discovered" (obj (to_fields all)) vars) (
      lookup-copied k all (merge_map-Distinct old new (copied-Distinct (lookup "Discovered" vars)))
      ∙ lookup-merge_map k old new (as_values-Distinct (x ∷ xs) d)
      ∙ ap (λ o. or_else o (lookup k old)) (lookup-as_values k answer (x ∷ xs) set))

module _ (host : Host) where
  -- The templates see what the discovery phase found: if the variables are loaded, and the inline
  -- variables do not say `Discovered` themselves, then every register that was set is there with its
  -- answer, whatever the files of variables say.
  pub load_vars_for_templates-discovered :
      (files : List String) (inline : String) (discovered : Dict Bool) (extra vars : Dict Value)
      → (k : String) (answer : Bool)
      → load_vars_for_templates host files inline discovered ≡ ok vars
      → vars_from_string host inline ≡ ok extra
      → Distinct extra
      → (lookup "Discovered" extra ≡ none)
      → Distinct discovered
      → (lookup k discovered ≡ some answer)
      → lookup k (discovered_from_vars vars) ≡ some (bool answer)
  unfolding load_vars_for_templates discovered_from_vars
  load_vars_for_templates-discovered files inline discovered extra vars k answer e inlined d silent
        ds set =
      let (merged, from_files, e') = >>=-eq-ok (load_vars host files "") _ e in
      let (extra', parsed, e'') =
        >>=-eq-ok (wrap bad_inline_vars (vars_from_string host inline)) _ e' in
      let same : extra' ≡ extra =
        ok-injective (sym (wrap-eq-ok bad_inline_vars _ extra' parsed) ∙ inlined) in
      let top = with_discovered discovered merged in
      let found : lookup "Discovered" vars ≡ lookup "Discovered" top =
        ap (λ m. lookup "Discovered" m) (sym (ok-injective e''))
        ∙ ap (λ m. lookup "Discovered" (merge_map top m)) same
        ∙ lookup-merge_map "Discovered" top extra d
        ∙ ap (λ o. or_else o (lookup "Discovered" top)) silent in
      ap (λ o. lookup k (copied o)) found ∙ lookup-with_discovered discovered merged k answer ds set
