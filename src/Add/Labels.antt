-- ===== src/Add/Labels.antt =====
-- resource/resource_list.go: adding to a map keeps the titles and the meta data in it.
use goss.Base.{
  String, ◌≡◌, refl, sym, ap, ◌∙◌, inl, inr, Bool, true, false, Option, none, some, [], ◌∷◌, ◌==◌,
  eq_iff, if◌then◌else◌, Bool-cases,
}
use goss.ResourceMaps.{
  put_resource, put_unless, is_absent, MapKind, append_sys_resource, append_sys_resource_if_exists,
}
use goss.Options.{zero_config, RuntimeConfig}
use goss.Base.Maps.{lookup, Dict}
use goss.ResourceMaps.Lawful.{IsLawful}
use goss.ResourceMaps.Kept.{TakesLabels, append_sys_resource-TakesLabels}
use goss.Add.Sections.{labels_of, KeepsLabels}
use goss.Errors.{ok, ◌>>=◌, >>=-eq-ok, ok-injective}
use goss.Value.{Fields}
use mathlib.Core.Path.{subst, ap₂}

module _ {R O : Type 0} (kind : MapKind R O) where
  abbrev label_of : Option R → Option (String × Fields)
  label_of none = none
  label_of (some r) = some (kind.title r, kind.meta r)

  lookup-labels_of :
      (key : String) (m : Dict R) → lookup key (labels_of kind m) ≡ label_of (lookup key m)
  unfolding lookup
  lookup-labels_of key [] = refl
  lookup-labels_of key ((k, r) ∷ m) = elim (Bool-cases (k == key)) [
    | inl same ↦ rw same refl
    | inr other ↦ rw other (lookup-labels_of key m)
  ]

  module _ (lawful : IsLawful kind) where
    TakesLabels-label_of :
        (o : Option R) (created res : R) (l : String × Fields)
        → TakesLabels kind lawful o created res
        → (label_of o ≡ some l)
        → label_of (some res) ≡ some l
    TakesLabels-label_of none created res l takes e = absurd (cc e)
    TakesLabels-label_of (some old) created res l (t, m, q) e = ap₂ (λ x y. some (x, y)) t m ∙ e

    found-label_of :
        (b : Bool) (created res : R) (key : String) (o : Option R) (l : String × Fields)
        → ((b ≡ true) → TakesLabels kind lawful o created res)
        → (label_of o ≡ some l)
        → label_of (if b then some res else o) ≡ some l
    found-label_of true created res key o l takes e =
        TakesLabels-label_of o created res l (takes refl) e
    found-label_of false created res key o l takes e = e

    pub append_sys_resource-KeepsLabels :
        (sysres : O) (config : RuntimeConfig) (r r' : Dict R) (res : R)
        → (append_sys_resource kind sysres config r ≡ ok (res, r'))
        → KeepsLabels kind r r'
    append_sys_resource-KeepsLabels sysres config r r' res e key l q =
        let (created, made, same, takes, looks) =
          append_sys_resource-TakesLabels kind lawful sysres config r r' res e in
        lookup-labels_of key r'
        ∙ ap label_of (looks key)
        ∙ found-label_of (kind.id created == key) created res key (lookup key r) l
            (λ here.
              subst (λ k. TakesLabels kind lawful (lookup k r) created res)
                ((eq_iff (kind.id created) key).0 here) takes)
            (sym (lookup-labels_of key r) ∙ q)

    put_unless-KeepsLabels :
        (absent : Bool) (sysres : O) (r r' : Dict R) (created res : R) (o : O) (b : Bool)
        → (kind.create sysres zero_config ≡ ok created)
        → (put_unless kind absent created sysres r ≡ (res, o, b, r'))
        → KeepsLabels kind r r'
    unfolding append_sys_resource
    put_unless-KeepsLabels true sysres r r' created res o b made e =
        subst (KeepsLabels kind r) (ap (λ p. p.3) e) (λ key l q. q)
    put_unless-KeepsLabels false sysres r r' created res o b made e =
        subst (KeepsLabels kind r) (ap (λ p. p.3) e) (
          append_sys_resource-KeepsLabels sysres zero_config r (put_resource kind created r).1
            (put_resource kind created r).0 (ap (λ c. c >>= λ x. ok (put_resource kind x r)) made))

    pub append_sys_resource_if_exists-KeepsLabels :
        (sysres : O) (r r' : Dict R) (res : R) (o : O) (b : Bool)
        → (append_sys_resource_if_exists kind sysres r ≡ ok (res, o, b, r'))
        → KeepsLabels kind r r'
    unfolding append_sys_resource_if_exists
    append_sys_resource_if_exists-KeepsLabels sysres r r' res o b e =
        let (created, made, e') =
          >>=-eq-ok (kind.create sysres zero_config)
            (λ x. is_absent kind (kind.exists sysres) >>= λ a. ok (put_unless kind a x sysres r))
            e in
        let (absent, asked, e2) =
          >>=-eq-ok (is_absent kind (kind.exists sysres))
            (λ a. ok (put_unless kind a created sysres r)) e' in
        put_unless-KeepsLabels absent sysres r r' created res o b made (ok-injective e2)
