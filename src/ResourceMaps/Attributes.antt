-- ===== src/ResourceMaps/Attributes.antt =====
-- util/config.go: the attributes that WhitelistAttrs finds are those that a struct declares.
use goss.Base.{
  String, ◌≡◌, ◌≢◌, ◌↔◌, ◌⊎◌, inl, inr, List, [], ◌∷◌, ◌==◌, eq_iff, Bool-cases, append-In-left,
  append-In-right, append-In-cases, All, In,
}
use goss.System.Accounts.{comma, split_on}
use goss.Options.Whitelist.{
  TagFormat, Struct, no_fields, tagged, embedded, tag_of, first_part, with_attr, whitelist_attrs,
}
use goss.Base.Maps.{Dict}
use goss.Value.{Fields, field_names}

-- An attribute that a struct declares: the part in front of the comma of a field's tag, where the tag
-- is neither empty nor `-`, or an attribute that an embedded struct declares.
abbrev pub Declares : TagFormat → Struct → String → Type 0
Declares format no_fields k = ⊥
Declares format (tagged json_tag yaml_tag rest) k =
    ((tag_of format json_tag yaml_tag ≢ "")
      × (tag_of format json_tag yaml_tag ≢ "-")
      × (first_part (split_on comma (tag_of format json_tag yaml_tag)) ≡ k))
    ⊎ Declares format rest k
Declares format (embedded inner rest) k = Declares format inner k ⊎ Declares format rest k

-- Every attribute of every section is one that the struct declares.
abbrev pub AllDeclared : TagFormat → Struct → Dict Fields → Type 0
AllDeclared format struct [] = Unit
AllDeclared format struct ((id, v) ∷ rest) =
    All (Declares format struct) (field_names v) × AllDeclared format struct rest

with_attr-In :
    (tag k : String) (attrs : List String)
    → In k (with_attr tag attrs)
      ↔ (((tag ≢ "") × (tag ≢ "-") × (first_part (split_on comma tag) ≡ k)) ⊎ In k attrs)
with_attr-In tag k attrs = elim (Bool-cases (tag == "")) [
  | inl empty ↦
      rw empty
        ((λ e. inr e), λ e. elim e [ inl h ↦ absurd (h.0 ((eq_iff tag "").0 empty)) | inr h ↦ h ])
  | inr other ↦ elim (Bool-cases (tag == "-")) [
    | inl dash ↦ rw other (
        rw dash (
          (λ e. inr e),
          λ e. elim e [ inl h ↦ absurd (h.1 ((eq_iff tag "-").0 dash)) | inr h ↦ h ],
        ))
    | inr kept ↦ rw other (
        rw kept (
          (λ e. elim e [
            | inl h ↦
                inl (
                  (λ q. cc ((eq_iff tag "").1 q, other)),
                  (λ q. cc ((eq_iff tag "-").1 q, kept)),
                  h,
                )
            | inr h ↦ inr h
          ]),
          λ e. elim e [ inl h ↦ inl h.2 | inr h ↦ inr h ],
        ))
  ]
]

whitelist_attrs-In :
    (format : TagFormat) (struct : Struct) (k : String)
    → In k (whitelist_attrs format struct) ↔ Declares format struct k
unfolding whitelist_attrs
whitelist_attrs-In format no_fields k = ((λ e. e), λ e. e)
whitelist_attrs-In format (tagged json_tag yaml_tag rest) k =
    let later = whitelist_attrs-In format rest k in
    let here = with_attr-In (tag_of format json_tag yaml_tag) k (whitelist_attrs format rest) in
    (
      (λ e. elim (here.0 e) [ inl h ↦ inl h | inr h ↦ inr (later.0 h) ]),
      λ e. here.1 (elim e [ inl h ↦ inl h | inr h ↦ inr (later.1 h) ]),
    )
whitelist_attrs-In format (embedded inner rest) k =
    let inside = whitelist_attrs-In format inner k in
    let later = whitelist_attrs-In format rest k in
    (
      (λ e.
          elim (append-In-cases k (whitelist_attrs format inner) (whitelist_attrs format rest) e) [
            | inl h ↦ inl (inside.0 h)
            | inr h ↦ inr (later.0 h)
          ]),
      λ e. elim e [
        | inl h ↦
            append-In-left k (whitelist_attrs format inner) (whitelist_attrs format rest)
              (inside.1 h)
        | inr h ↦
            append-In-right k (whitelist_attrs format inner) (whitelist_attrs format rest)
              (later.1 h)
      ],
    )

All-as :
    {P Q : String → Type 0} → ((k : String) → P k → Q k) → (ks : List String) → All P ks → All Q ks
All-as f [] h = tt
All-as f (k ∷ ks) h = (f k h.0, All-as f ks h.1)

-- Every attribute of every section is in the list.
abbrev pub AllListed : (whitelist : List String) → Dict Fields → Type 0
AllListed whitelist [] = Unit
AllListed whitelist ((id, v) ∷ rest) =
    All (λ k. In k whitelist) (field_names v) × AllListed whitelist rest

pub AllListed-AllDeclared :
    (format : TagFormat) (struct : Struct) (sections : Dict Fields)
    → AllListed (whitelist_attrs format struct) sections ↔ AllDeclared format struct sections
AllListed-AllDeclared format struct [] = ((λ e. tt), λ e. tt)
AllListed-AllDeclared format struct ((id, v) ∷ rest) =
    let later = AllListed-AllDeclared format struct rest in
    (
      (λ h.
          (All-as (λ k. (whitelist_attrs-In format struct k).0) (field_names v) h.0, later.0 h.1)),
      λ h. (All-as (λ k. (whitelist_attrs-In format struct k).1) (field_names v) h.0, later.1 h.1),
    )
