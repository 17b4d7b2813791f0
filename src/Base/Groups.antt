-- ===== src/Base/Groups.antt =====
-- Maps of lists that are filled entry by entry, `m[key] = append(m[key], x)`, and texts cut at a
-- colon.
use Prim.Native.String.{String, ◌++◌ as str_append}
use Prim.Native.Char.{Char, code, char}
use mathlib.Core.Path.{◌≡◌, refl, sym, ap, ◌∙◌}
use mathlib.Core.Bool.{Bool, true, false}
use mathlib.Core.Option.{Option, none, some}
use mathlib.Core.List.{List, [], ◌∷◌, ◌++◌, map, append_assoc}
use mathlib.Core.Logic.{◌⊎◌, inl, inr}
use text.Mathlib.Text.{◌==◌}
use text.Mathlib.TextEquality.{eq_iff, Char-path}
use text.Mathlib.TextLemmas.{nil-append, cons-append}
use Prim.Native.Nat.{ℕ}
use native.Mathlib.Omega.{arith}
use goss.Base.Tests.{if◌then◌else◌, Bool-cases, eqb}
use goss.Base.Lists.{keep}
use goss.Base.Maps.{Dict, lookup, insert, lookup-insert}

-- A missing list is nil.
abbrev pub listed {ℓ} : {V : Type ℓ} → Option (List V) → List V
listed (some xs) = xs
listed none = []

module _ {V : Type 0} where
  abbrev pub append_at : String → V → Dict (List V) → Dict (List V)
  append_at key x m = insert key (listed (lookup key m) ++ x ∷ []) m

  abbrev pub group : List (String × V) → Dict (List V) → Dict (List V)
  group [] m = m
  group ((key, x) ∷ entries) m = group entries (append_at key x m)

  -- The values of a key, in their order.
  abbrev pub under : String → List (String × V) → List V
  under key entries = map (λ e. e.1) (keep (λ e. e.0 == key) entries)

  -- A list behind what a map holds; an empty one leaves the key out.
  abbrev pub extended : Option (List V) → List V → Option (List V)
  extended o [] = o
  extended o (x ∷ xs) = some (listed o ++ x ∷ xs)

  extended-cons :
      (old : List V) (x : V) (xs : List V)
      → extended (some (old ++ x ∷ [])) xs ≡ some (old ++ x ∷ xs)
  extended-cons old x [] = refl
  extended-cons old x (y ∷ ys) = ap some (append_assoc old (x ∷ []) (y ∷ ys))

  under-here :
      (k key : String) (x : V) (entries : List (String × V))
      → (key == k ≡ true)
      → under k ((key, x) ∷ entries) ≡ x ∷ under k entries
  under-here k key x entries same = ground (arith, same)

  under-there :
      (k key : String) (x : V) (entries : List (String × V))
      → (key == k ≡ false)
      → under k ((key, x) ∷ entries) ≡ under k entries
  under-there k key x entries other = ground (arith, other)

  pub lookup-group :
      (k : String) (entries : List (String × V)) (m : Dict (List V))
      → lookup k (group entries m) ≡ extended (lookup k m) (under k entries)
  lookup-group k [] m = refl
  lookup-group k ((key, x) ∷ entries) m =
      lookup-group k entries (append_at key x m)
      ∙ ap (λ o. extended o (under k entries))
          (lookup-insert key k (listed (lookup key m) ++ x ∷ []) m)
      ∙ step (Bool-cases (key == k))
    where
      step :
          (key == k ≡ true) ⊎ (key == k ≡ false)
          → extended
              (if key == k then some (listed (lookup key m) ++ x ∷ []) else lookup k m)
              (under k entries)
            ≡ extended (lookup k m) (under k ((key, x) ∷ entries))
      step (inl same) = rw same (
          ap (λ j. extended (some (listed (lookup j m) ++ x ∷ [])) (under k entries))
            ((eq_iff key k).0 same)
          ∙ extended-cons (listed (lookup k m)) x (under k entries)
          ∙ ap (extended (lookup k m)) (sym (under-here k key x entries same)))
      step (inr other) =
          rw other (ap (extended (lookup k m)) (sym (under-there k key x entries other)))

-- strings.SplitN(s, ":", 2) of a text with a colon: `is_colon` is the test of the first character.
abbrev pub cut :
    (is_colon : Bool) → Char → String → Option (String × String) → Option (String × String)
cut true c s later = some (String.[], s)
cut false c s (some (kind, key)) = some (String.◌∷◌ c kind, key)
cut false c s none = none

abbrev pub split_colon : String → Option (String × String)
split_colon String.[] = none
split_colon (String.◌∷◌ c s) = cut (eqb (code c) 0x3a) c s (split_colon s)

colon-append : (s : String) → str_append ":" s ≡ String.◌∷◌ (char 0x3a tt) s
colon-append s =
    cons-append (char 0x3a tt) String.[] s ∙ ap (λ t. String.◌∷◌ (char 0x3a tt) t) (nil-append s)

eqb-eq : (a b : ℕ) → (eqb a b ≡ true) → a ≡ b
eqb-eq a b e = ground (arith, e)

cut-joins :
    (b : Bool) (c : Char) (s : String) (later : Option (String × String)) (kind key : String)
    → eqb (code c) 0x3a ≡ b
    → ((k v : String) → (later ≡ some (k, v)) → str_append k (str_append ":" v) ≡ s)
    → (cut b c s later ≡ some (kind, key))
    → str_append kind (str_append ":" key) ≡ String.◌∷◌ c s
cut-joins true c s later kind key q old e =
    let one : String.[] ≡ kind = cc in
    let two : s ≡ key = cc in
    rw (← one) (
      rw (← two) (
        nil-append (str_append ":" s)
        ∙ colon-append s
        ∙ ap (λ d. String.◌∷◌ d s) (Char-path (char 0x3a tt) c (sym (eqb-eq (code c) 0x3a q)))))
cut-joins false c s (some (k, v)) kind key q old e =
    let one : String.◌∷◌ c k ≡ kind = cc in
    let two : v ≡ key = cc in
    rw (← one)
      (rw (← two) (cons-append c k (str_append ":" v) ∙ ap (λ t. String.◌∷◌ c t) (old k v refl)))
cut-joins false c s none kind key q old e = absurd (cc e)

-- Joined again, the two parts are the text.
pub split_colon-joins :
    (s kind key : String)
    → (split_colon s ≡ some (kind, key))
    → str_append kind (str_append ":" key) ≡ s
split_colon-joins String.[] kind key e = absurd (cc e)
split_colon-joins (String.◌∷◌ c s) kind key e =
    cut-joins (eqb (code c) 0x3a) c s (split_colon s) kind key refl (split_colon-joins s) e

cut-eq_none :
    (b : Bool) (c : Char) (s : String) (later : Option (String × String))
    → (cut b c s later ≡ none)
    → (b ≡ false) × (later ≡ none)
cut-eq_none true c s later e = absurd (cc e)
cut-eq_none false c s (some (k, v)) e = absurd (cc e)
cut-eq_none false c s none e = (refl, refl)

-- A text without a colon, joined to another one by a colon, is cut there.
pub split_colon-join :
    (kind key : String)
    → (split_colon kind ≡ none)
    → split_colon (str_append kind (str_append ":" key)) ≡ some (kind, key)
split_colon-join String.[] key e =
    ap split_colon (nil-append (str_append ":" key) ∙ colon-append key)
split_colon-join (String.◌∷◌ c s) key e =
    let (other, later) = cut-eq_none (eqb (code c) 0x3a) c s (split_colon s) e in
    ap split_colon (cons-append c s (str_append ":" key))
    ∙ ap
        (λ b.
          cut b c (str_append s (str_append ":" key))
            (split_colon (str_append s (str_append ":" key))))
        other
    ∙ ap (cut false c (str_append s (str_append ":" key))) (split_colon-join s key later)
