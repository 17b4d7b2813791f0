-- ===== src/ResourceMaps/Read.antt =====
-- resource/resource_list.go: what the map types read.
use goss.Base.{
  String, ◌≡◌, refl, sym, ap, ◌∙◌, ◌↔◌, inl, inr, true, Option, none, some, List, [], ◌∷◌, arith,
  ◌==◌, eq_iff, Bool-cases, All, In,
}
use goss.ResourceMaps.{ReadKind, Parsed, set_ids, unmarshal_map}
use goss.ResourceMaps.Attributes.{AllDeclared, AllListed, AllListed-AllDeclared}
use goss.Options.Whitelist.{
  TagFormat, whitelist_attrs, is_listed, validate_attrs, validate_each, validate_sections,
}
use goss.Errors.{ok, ◌>>=◌, >>=-eq-ok, ok-injective}
use goss.Base.Maps.{Dict}
use goss.Value.{Fields, field_names}

is_listed-In :
    (whitelist : List String) (k : String) → is_listed whitelist k ≡ true → In k whitelist
is_listed-In [] k e = cc e
is_listed-In (a ∷ whitelist) k e = elim (Bool-cases (a == k)) [
  | inl same ↦ inl ((eq_iff a k).0 same)
  | inr other ↦ inr (is_listed-In whitelist k (rw other at e))
]

In-is_listed :
    (whitelist : List String) (k : String) → In k whitelist → is_listed whitelist k ≡ true
In-is_listed [] k e = absurd e
In-is_listed (a ∷ whitelist) k (inl same) = rw ((eq_iff a k).1 same) refl
In-is_listed (a ∷ whitelist) k (inr e) = ground (arith, In-is_listed whitelist k e)

module _ (typ : String) (whitelist : List String) where
  validate_attrs-All :
      (id : String) (ks : List String) (done : Unit {0})
      → (validate_attrs typ id whitelist ks ≡ ok done)
      → All (λ k. In k whitelist) ks
  unfolding validate_attrs
  validate_attrs-All id [] done e = tt
  validate_attrs-All id (k ∷ ks) done e = elim (Bool-cases (is_listed whitelist k)) [
    | inl listed_there ↦ (
      is_listed-In whitelist k listed_there,
      validate_attrs-All id ks done (rw listed_there at e),
    )
    | inr other ↦ absurd (cc (rw other at e))
  ]

  All-validate_attrs :
      (id : String) (ks : List String)
      → All (λ k. In k whitelist) ks
      → validate_attrs typ id whitelist ks ≡ ok tt
  unfolding validate_attrs
  All-validate_attrs id [] all = refl
  All-validate_attrs id (k ∷ ks) all =
      rw (In-is_listed whitelist k all.0) (All-validate_attrs id ks all.1)

  validate_each-AllListed :
      (sections : Dict Fields) (done : Unit {0})
      → (validate_each typ whitelist sections ≡ ok done)
      → AllListed whitelist sections
  unfolding validate_each
  validate_each-AllListed [] done e = tt
  validate_each-AllListed ((id, v) ∷ rest) done e =
      let (one, first, more) =
        >>=-eq-ok (validate_attrs typ id whitelist (field_names v))
          (λ x. validate_each typ whitelist rest) e in
      (validate_attrs-All id (field_names v) one first, validate_each-AllListed rest done more)

  AllListed-validate_each :
      (sections : Dict Fields)
      → AllListed whitelist sections
      → validate_each typ whitelist sections ≡ ok tt
  unfolding validate_each
  AllListed-validate_each [] all = refl
  AllListed-validate_each ((id, v) ∷ rest) all =
      rw (All-validate_attrs id (field_names v) all.0) (AllListed-validate_each rest all.1)

module _ {R : Type 0} (kind : ReadKind R) where
  -- Every entry is there, behind the kind's SetID with its key.
  abbrev pub Identified : Dict (Option R) → Dict R → Type 0
  Identified [] m = m ≡ []
  Identified ((id, o) ∷ entries) m =
      (res : R) × (rest : Dict R) × (o ≡ some res)
      × (m ≡ (id, kind.set_id id res) ∷ rest)
      × Identified entries rest

  set_ids-Identified :
      (entries : Dict (Option R)) (m : Dict R) → set_ids kind entries ≡ ok m → Identified entries m
  unfolding set_ids
  set_ids-Identified [] m e = sym (ok-injective e)
  set_ids-Identified ((id, none) ∷ entries) m e = cc e
  set_ids-Identified ((id, some res) ∷ entries) m e =
      let (rest, later, all) =
        >>=-eq-ok (set_ids kind entries) (λ x. ok ((id, kind.set_id id res) ∷ x)) e in
      (res, rest, refl, sym (ok-injective all), set_ids-Identified entries rest later)

  Identified-set_ids :
      (entries : Dict (Option R)) (m : Dict R) → Identified entries m → set_ids kind entries ≡ ok m
  unfolding set_ids
  Identified-set_ids [] m e = ap ok (sym e)
  Identified-set_ids ((id, o) ∷ entries) m (res, rest, there, here, later) =
      rw there (rw (Identified-set_ids entries rest later) (ap ok (sym here)))

  -- What the template of both methods returns, for any kind.
  pub unmarshal_map-eq_ok :
      (format : TagFormat) (parsed : Parsed R) (m : Dict R)
      → (unmarshal_map kind format parsed ≡ ok m) ↔ (
          (sections : Dict Fields) × (entries : Dict (Option R)) × (parsed.sections ≡ ok sections)
          × (parsed.entries ≡ ok entries)
          × AllDeclared format kind.struct sections
          × Identified entries m)
  unfolding unmarshal_map validate_sections
  unmarshal_map-eq_ok format parsed m = (
    (λ e.
        let (one, valid, e') =
          >>=-eq-ok
            (validate_sections kind.typ (whitelist_attrs format kind.struct) parsed.sections)
            (λ x. parsed.entries >>= set_ids kind) e in
        let (sections, parsed_sections, all) =
          >>=-eq-ok parsed.sections (validate_each kind.typ (whitelist_attrs format kind.struct))
            valid in
        let (entries, parsed_entries, identified) = >>=-eq-ok parsed.entries (set_ids kind) e' in
        (
          sections,
          entries,
          parsed_sections,
          parsed_entries,
          (AllListed-AllDeclared format kind.struct sections).0 (
              validate_each-AllListed kind.typ (whitelist_attrs format kind.struct) sections one
                all),
          set_ids-Identified entries m identified,
        )),
    λ found.
        let (sections, entries, s, e, all, identified) = found in
        ap
          (λ x. (x >>= validate_each kind.typ (whitelist_attrs format kind.struct)) >>= λ y.
            parsed.entries >>= set_ids kind)
          s
        ∙ ap (λ x. x >>= λ y. parsed.entries >>= set_ids kind)
            (AllListed-validate_each kind.typ (whitelist_attrs format kind.struct) sections
              ((AllListed-AllDeclared format kind.struct sections).1 all))
        ∙ ap (λ x. x >>= set_ids kind) e
        ∙ Identified-set_ids entries m identified,
  )
