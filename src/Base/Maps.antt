-- ===== src/Base/Maps.antt =====
-- Go's map[string]V as an association list. Iteration visits the entries in list order, which
-- stands for the order that one run of Go happens to choose.
use Prim.Native.String.{String}
use mathlib.Core.Path.{◌≡◌, refl, sym, ◌∙◌}
use mathlib.Core.Option.{Option, none, some}
use mathlib.Core.List.{List, [], ◌∷◌, map}
use text.Mathlib.Text.{◌==◌}
use text.Mathlib.TextEquality.{eq_iff}
use native.Mathlib.Omega.{arith}
use goss.Base.Tests.{if◌then◌else◌, Bool-cases}
use goss.Base.Lists.{In}
use mathlib.Core.Logic.{◌⊎◌, inl, inr}

abbrev pub Dict {ℓ} : Type ℓ → Type ℓ
Dict V = List (String × V)

module _ {ℓ} {V : Type ℓ} where
  -- v, ok := m[key]
  unfoldable pub lookup : String → Dict V → Option V
  lookup key [] = none
  lookup key ((first, x) ∷ rest) = if first == key then some x else lookup key rest

  -- m[key] = x, at the place of the key or else behind all others
  unfoldable pub insert : String → V → Dict V → Dict V
  insert key x [] = (key, x) ∷ []
  insert key x ((first, y) ∷ rest) =
      if first == key then (key, x) ∷ rest else (first, y) ∷ insert key x rest

  pub lookup-insert :
      (key other : String) (x : V) (m : Dict V)
      → lookup other (insert key x m) ≡ (if key == other then some x else lookup other m)
  unfolding lookup insert
  lookup-insert key other x [] = refl
  lookup-insert key other x ((first, y) ∷ rest) =
      let step = lookup-insert key other x rest in
      ground (arith, eq_iff key other, eq_iff first key, eq_iff first other, step)

  abbrev pub values : Dict V → List V
  values m = map (λ e. e.1) m

  abbrev pub keys : Dict V → List String
  keys m = map (λ e. e.0) m

  pub In-keys-insert :
      (k d : String) (v : V) (m : Dict V) → In d (keys (insert k v m)) → (k ≡ d) ⊎ In d (keys m)
  unfolding insert
  In-keys-insert k d v [] (inl e) = inl e
  In-keys-insert k d v [] (inr e) = absurd e
  In-keys-insert k d v ((j, w) ∷ m) here = elim (Bool-cases (j == k)) [
    | inl same ↦ elim (rw (same, insert) at here) [ inl e ↦ inl e | inr e ↦ inr (inr e) ]
    | inr other ↦ elim (rw (other, insert) at here) [
      | inl e ↦ inr (inl e)
      | inr e ↦ elim (In-keys-insert k d v m e) [ inl q ↦ inl q | inr q ↦ inr (inr q) ]
    ]
  ]

  pub insert-In-keys :
      (k d : String) (v : V) (m : Dict V) → (k ≡ d) ⊎ In d (keys m) → In d (keys (insert k v m))
  unfolding insert
  insert-In-keys k d v [] (inl e) = inl e
  insert-In-keys k d v [] (inr e) = absurd e
  insert-In-keys k d v ((j, w) ∷ m) here = elim (Bool-cases (j == k)) [
    | inl same ↦
        rw (same, insert)
          (elim here [
            | inl e ↦ inl e
            | inr (inl e) ↦ inl (sym ((eq_iff j k).0 same) ∙ e)
            | inr (inr e) ↦ inr e
          ])
    | inr other ↦
        rw (other, insert)
          (elim here [
            | inl e ↦ inr (insert-In-keys k d v m (inl e))
            | inr (inl e) ↦ inl e
            | inr (inr e) ↦ inr (insert-In-keys k d v m (inr e))
          ])
  ]
