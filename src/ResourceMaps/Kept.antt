-- ===== src/ResourceMaps/Kept.antt =====
-- resource/resource_list.go: what adding an object of the machine does to a map of tests.
use goss.Base.{
  String, ◌≡◌, refl, sym, ap, ◌∙◌, ◌⊎◌, inl, inr, true, false, Option, none, some, ◌==◌,
  if◌then◌else◌,
}
use mathlib.Core.Path.{subst, ap₂}
use goss.ResourceMaps.{
  MapKind, with_old_labels, put_resource, append_sys_resource, append_sys_resource_if_exists,
}
use goss.ResourceMaps.Lawful.{IsLawful}
use goss.Options.{RuntimeConfig, zero_config}
use goss.Errors.{Error, ok, err, ◌>>=◌, >>=-eq-ok, ok-injective}
use goss.Base.Maps.{Dict, lookup, lookup-insert}

module _ {R O : Type 0} (kind : MapKind R O) (lawful : IsLawful kind) where
  -- What is put for a created test, in place of the entry `old`.
  abbrev pub TakesLabels : Option R → (created res : R) → Type 0
  TakesLabels none created res = res ≡ created
  TakesLabels (some old) created res =
      (kind.title res ≡ kind.title old)
      × (kind.meta res ≡ kind.meta old)
      × (res ≡ kind.relabel (kind.title old) (kind.meta old) created)

  with_old_labels-TakesLabels :
      (o : Option R) (created : R)
      → (kind.id (with_old_labels kind o created) ≡ kind.id created)
        × TakesLabels o created (with_old_labels kind o created)
  with_old_labels-TakesLabels none created = (refl, refl)
  with_old_labels-TakesLabels (some old) created = (
    lawful.id-relabel (kind.title old) (kind.meta old) created,
    (
      lawful.title-relabel (kind.title old) (kind.meta old) created,
      lawful.meta-relabel (kind.title old) (kind.meta old) created,
      refl,
    ),
  )

  -- Adding an object to a map of tests, where it returns a test: the test is the one that the kind's
  -- New function describes the object by, except that the title and the meta data of an entry with
  -- the same ID are kept; it stands under its ID, and every other entry is as it was. The kind must
  -- keep title, meta data and ID apart.
  pub append_sys_resource-TakesLabels :
      (sysres : O) (config : RuntimeConfig) (r r' : Dict R) (res : R)
      → (append_sys_resource kind sysres config r ≡ ok (res, r'))
      → (created : R) × (kind.create sysres config ≡ ok created)
        × (kind.id res ≡ kind.id created)
        × TakesLabels (lookup (kind.id created) r) created res
        × ((key : String)
            → lookup key r' ≡ (if kind.id created == key then some res else lookup key r))
  unfolding append_sys_resource put_resource
  append_sys_resource-TakesLabels sysres config r r' res e =
      let (created, made, rest) =
        >>=-eq-ok (kind.create sysres config) (λ x. ok (put_resource kind x r)) e in
      let (same, takes) = with_old_labels-TakesLabels (lookup (kind.id created) r) created in
      let put = ok-injective rest in
      let here = ap (λ p. p.0) put in
      let there = ap (λ p. p.1) put in
      (
        created,
        made,
        ap kind.id (sym here) ∙ same,
        subst (TakesLabels (lookup (kind.id created) r) created) here takes,
        λ key.
            ap (lookup key) (sym there)
            ∙ lookup-insert (kind.id (with_old_labels kind (lookup (kind.id created) r) created))
                key (with_old_labels kind (lookup (kind.id created) r) created) r
            ∙ ap₂ (λ i x. if i == key then some x else lookup key r) same here,
      )

-- Adding an object only if it exists: with an object that the kind's New function describes, a map
-- is left as it is where the object does not exist or where asking for it fails, and that error is
-- dropped; where the object exists, the call does what adding it does.
pub append_sys_resource_if_exists-adds :
    {R O : Type 0} (kind : MapKind R O) (sysres : O) (r : Dict R) (created : R)
    → (kind.create sysres zero_config ≡ ok created)
    → ((kind.exists sysres ≡ ok false) ⊎ ((e : Error) × (kind.exists sysres ≡ err e))
        → append_sys_resource_if_exists kind sysres r ≡ ok (created, sysres, false, r))
      × ((kind.exists sysres ≡ ok true)
          → append_sys_resource_if_exists kind sysres r
            ≡ (append_sys_resource kind sysres zero_config r >>= λ p. ok (p.0, sysres, true, p.1)))
unfolding append_sys_resource_if_exists append_sys_resource put_resource
append_sys_resource_if_exists-adds kind sysres r created made = (
  (λ why. elim why [
    | inl missing ↦ rw made (rw missing refl)
    | inr (e, missing) ↦ rw made (rw missing refl)
  ]),
  λ here. rw made (rw here refl),
)
