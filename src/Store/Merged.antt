-- ===== src/Store/Merged.antt =====
-- What mergeJSONData takes from the gossfiles of a gossfile.
pub mod Kept
pub mod Cycles
pub mod Nesting
use goss.Base.{
  String, ◌≡◌, refl, sym, ap, ◌∙◌, ◌≢◌, ◌⊎◌, inl, inr, false, none, some, List, [], ◌∷◌, ◌==◌,
  Bool-cases, In,
}
use goss.Store.{
  Host, merge_matches, merge_gossfile, merge_gossfiles, merge_json_data, matched, gossfile_path,
}
use goss.Config.{GossConfig, Gossfile, new_goss_config, merge_goss, merge_map, Sections}
use goss.Config.Merge.{section, Kind, section-merge}
use goss.Errors.{
  ◌>>=◌, Error, Result, ok, err, panic, wrap, >>=-eq-ok, ok-injective, unreadable, unmergeable,
  glob_failed,
}
use goss.Base.Maps.{lookup, insert, Dict, keys, lookup-insert}

abbrev Has {ℓ} : {V : Type ℓ} → String → Dict V → Type ℓ
Has j m = lookup j m ≢ none

Has-insert : {V : Type 0} (j k : String) (v : V) (m : Dict V) → Has j m → Has j (insert k v m)
Has-insert j k v m h = elim (Bool-cases (k == j)) [
  | inl same ↦ rw (lookup-insert k j v m) (rw same (λ q. cc q))
  | inr other ↦ rw (lookup-insert k j v m) (rw other h)
]

Has-merge_map-left : {V : Type 0} (j : String) (m g2 : Dict V) → Has j m → Has j (merge_map m g2)
unfolding merge_map
Has-merge_map-left j m [] h = h
Has-merge_map-left j m ((k, v) ∷ g2) h =
    Has-merge_map-left j (insert k v m) g2 (Has-insert j k v m h)

Has-merge_map-right : {V : Type 0} (j : String) (m g2 : Dict V) → Has j g2 → Has j (merge_map m g2)
unfolding merge_map lookup
Has-merge_map-right j m [] h = absurd (h refl)
Has-merge_map-right j m ((k, v) ∷ g2) h = elim (Bool-cases (k == j)) [
  | inl same ↦
      Has-merge_map-left j (insert k v m) g2 (rw (lookup-insert k j v m) (rw same (λ q. cc q)))
  | inr other ↦ Has-merge_map-right j (insert k v m) g2 (rw other at h)
]

-- A map of a gossfile: one of the sixteen maps of tests, or one of those of its discovery section.
pub data Place : Type 0 where
  tests : Kind → Place
  discovery_tests : Kind → Place

-- A key of a map of a configuration.
abbrev pub Holds : Place → String → GossConfig → Type 0
Holds (tests kind) j c = lookup j (section kind c.sections) ≢ none
Holds (discovery_tests kind) j c = lookup j (section kind c.discovery) ≢ none

pub Holds-merge_goss :
    (place : Place) (j : String) (a b : GossConfig)
    → Holds place j a ⊎ Holds place j b
    → Holds place j (merge_goss a b)
unfolding merge_goss
Holds-merge_goss (tests kind) j a b (inl h) =
    rw (section-merge kind a.sections b.sections)
      (Has-merge_map-left j (section kind a.sections) (section kind b.sections) h)
Holds-merge_goss (tests kind) j a b (inr h) =
    rw (section-merge kind a.sections b.sections)
      (Has-merge_map-right j (section kind a.sections) (section kind b.sections) h)
Holds-merge_goss (discovery_tests kind) j a b (inl h) =
    rw (section-merge kind a.discovery b.discovery)
      (Has-merge_map-left j (section kind a.discovery) (section kind b.discovery) h)
Holds-merge_goss (discovery_tests kind) j a b (inr h) =
    rw (section-merge kind a.discovery b.discovery)
      (Has-merge_map-right j (section kind a.discovery) (section kind b.discovery) h)

pub wrap-eq-ok :
    {A : Type 0} (f : Error → Error) (r : Result A) (a : A) → wrap f r ≡ ok a → r ≡ ok a
wrap-eq-ok f (ok x) a e = e
wrap-eq-ok f (err x) a e = absurd (cc e)
wrap-eq-ok f panic a e = absurd (cc e)

-- One step from a gossfile to one that it includes: `m` matches the path of one of its gossfiles
-- that is not skipped.
abbrev pub Steps :
    (host : Host) (read : String → Result GossConfig)
    → GossConfig
    → String
    → String
    → GossConfig
    → Type 0
Steps host read c path m j =
    (k : String) × (g : Gossfile) × (ms : List String) × In k (host.sort (keys c.gossfiles))
    × (lookup k c.gossfiles ≡ some g)
    × (g.skip ≡ false)
    × (host.glob (gossfile_path host read path g) ≡ ok ms)
    × In m ms
    × (read m ≡ ok j)

-- The gossfiles that a gossfile includes, itself and those of any depth among them.
pub data Included (host : Host) (read : String → Result GossConfig)
    : GossConfig → String → GossConfig → Type 0 where
  itself : (c : GossConfig) (path : String) → Included host read c path c
  through :
      (c : GossConfig) (path m : String) (j c' : GossConfig)
      → Steps host read c path m j
      → Included host read j (host.dir m) c'
      → Included host read c path c'

module _ (host : Host) (read : String → Result GossConfig) where
  module _ (deeper : GossConfig → String → Result GossConfig) where
    -- What a loop that ends without an error had at each of its steps, and what it kept.
    pub merge_matches-Holds :
        (ms : List String) (ret r : GossConfig) (place : Place) (key : String)
        → merge_matches host read deeper ms ret ≡ ok r
        → Holds place key ret
        → Holds place key r
    unfolding merge_matches
    merge_matches-Holds [] ret r place key e h = rw (← ok-injective e) h
    merge_matches-Holds (m ∷ ms) ret r place key e h =
        let (j, got, e') = >>=-eq-ok (wrap (unreadable m) (read m)) _ e in
        let (j', below, e'') = >>=-eq-ok (wrap unmergeable (deeper j (host.dir m))) _ e' in
        merge_matches-Holds ms (merge_goss ret j') r place key e''
          (Holds-merge_goss place key ret j' (inl h))

    pub merge_matches-In :
        (ms : List String) (ret r : GossConfig) (m : String) (j : GossConfig)
        → merge_matches host read deeper ms ret ≡ ok r
        → In m ms
        → (read m ≡ ok j)
        → (j' : GossConfig) × (deeper j (host.dir m) ≡ ok j')
          × ((place : Place) (key : String) → Holds place key j' → Holds place key r)
    unfolding merge_matches
    merge_matches-In [] ret r m j e here got = absurd here
    merge_matches-In (x ∷ ms) ret r m j e here got =
        let (i, read_it, e') = >>=-eq-ok (wrap (unreadable x) (read x)) _ e in
        let (i', below, e'') = >>=-eq-ok (wrap unmergeable (deeper i (host.dir x))) _ e' in
        elim here [
          | inl q ↦
              let same : i ≡ j =
                ok-injective
                  (sym (wrap-eq-ok (unreadable x) (read x) i read_it) ∙ ap read q ∙ got) in
              (
                i',
                ap (λ y. deeper j (host.dir y)) (sym q)
                    ∙ ap (λ y. deeper y (host.dir x)) (sym same)
                    ∙ wrap-eq-ok unmergeable _ i' below,
                λ place key h.
                    merge_matches-Holds ms (merge_goss ret i') r place key e''
                      (Holds-merge_goss place key ret i' (inr h)),
              )
          | inr later ↦ merge_matches-In ms (merge_goss ret i') r m j e'' later got
        ]
