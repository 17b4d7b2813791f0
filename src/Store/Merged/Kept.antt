-- ===== src/Store/Merged/Kept.antt =====
-- The keys of included gossfiles that stay.
use goss.Base.{
  ℕ, zero, suc, String, ◌≡◌, sym, ap, ◌∙◌, inl, inr, false, Option, none, some, List, [], ◌∷◌, leb,
  Bool-cases, In,
}
use goss.Store.{Host, merge_gossfile, merge_gossfiles, merge_json_data, matched, gossfile_path}
use goss.Store.Merged.{
  Holds, Place, Steps, Included, itself, through, merge_matches-Holds, merge_matches-In, wrap-eq-ok,
  Holds-merge_goss,
}
use goss.Config.{GossConfig, Gossfile, new_goss_config, merge_goss}
use goss.Errors.{Result, ok, wrap, >>=-eq-ok, ok-injective, glob_failed}
use goss.Base.Maps.{lookup, Dict, keys}

module _ (host : Host) (read : String → Result GossConfig) where
  matched-eq-ok :
      (fpath : String) (ms found : List String) → matched host read fpath ms ≡ ok found → ms ≡ found
  matched-eq-ok fpath [] found e = absurd (cc e)
  matched-eq-ok fpath (m ∷ ms) found e = ok-injective e

  module _ (deeper : GossConfig → String → Result GossConfig) where
    merge_gossfile-Holds :
        (path : String) (o : Option Gossfile) (ret r : GossConfig) (place : Place) (key : String)
        → merge_gossfile host read deeper path o ret ≡ ok r
        → Holds place key ret
        → Holds place key r
    merge_gossfile-Holds path none ret r place key e h = absurd (cc e)
    merge_gossfile-Holds path (some g) ret r place key e h = elim (Bool-cases g.skip) [
      | inl skipped ↦ rw (← ok-injective (rw skipped at e)) h
      | inr kept ↦
          let fpath = gossfile_path host read path g in
          let (ms, globbed, e') = >>=-eq-ok (wrap glob_failed (host.glob fpath)) _ (rw kept at e) in
          let (found, some_match, e'') = >>=-eq-ok (matched host read fpath ms) _ e' in
          merge_matches-Holds host read deeper found ret r place key e'' h
    ]

    merge_gossfiles-Holds :
        (path : String) (gs : Dict Gossfile) (ks : List String) (ret r : GossConfig)
        → (place : Place) (key : String) → merge_gossfiles host read deeper path gs ks ret ≡ ok r
        → Holds place key ret
        → Holds place key r
    unfolding merge_gossfiles
    merge_gossfiles-Holds path gs [] ret r place key e h = rw (← ok-injective e) h
    merge_gossfiles-Holds path gs (k ∷ ks) ret r place key e h =
        let (ret', one, e') =
          >>=-eq-ok (merge_gossfile host read deeper path (lookup k gs) ret) _ e in
        merge_gossfiles-Holds path gs ks ret' r place key e'
          (merge_gossfile-Holds path (lookup k gs) ret ret' place key one h)

    -- What the recursive call on a match gave, and that all of it is kept.
    abbrev pub Takes : GossConfig → String → GossConfig → Type 0
    Takes j m r =
        (j' : GossConfig) × (deeper j (host.dir m) ≡ ok j')
        × ((place : Place) (key : String) → Holds place key j' → Holds place key r)

    merge_gossfile-Takes :
        (path : String) (g : Gossfile) (ret r : GossConfig) (ms : List String) (m : String)
        → (j : GossConfig) → merge_gossfile host read deeper path (some g) ret ≡ ok r
        → (g.skip ≡ false)
        → (host.glob (gossfile_path host read path g) ≡ ok ms)
        → In m ms
        → (read m ≡ ok j)
        → Takes j m r
    merge_gossfile-Takes path g ret r ms m j e kept globbed here got =
        let fpath = gossfile_path host read path g in
        let (ns, g', e') = >>=-eq-ok (wrap glob_failed (host.glob fpath)) _ (rw kept at e) in
        let (found, some_match, e'') = >>=-eq-ok (matched host read fpath ns) _ e' in
        let q : ms ≡ found =
          ok-injective (sym globbed ∙ wrap-eq-ok glob_failed (host.glob fpath) ns g')
          ∙ matched-eq-ok fpath ns found some_match in
        merge_matches-In host read deeper found ret r m j e'' (rw q at here) got

    pub merge_gossfiles-Takes :
        (path : String) (gs : Dict Gossfile) (ks : List String) (ret r : GossConfig)
        → (k : String) (g : Gossfile) (ms : List String) (m : String) (j : GossConfig)
        → merge_gossfiles host read deeper path gs ks ret ≡ ok r
        → In k ks
        → (lookup k gs ≡ some g)
        → (g.skip ≡ false)
        → (host.glob (gossfile_path host read path g) ≡ ok ms)
        → In m ms
        → (read m ≡ ok j)
        → Takes j m r
    unfolding merge_gossfiles
    merge_gossfiles-Takes path gs [] ret r k g ms m j e there found kept globbed here got =
        absurd there
    merge_gossfiles-Takes path gs (x ∷ ks) ret r k g ms m j e there found kept globbed here got =
        let (ret', one, e') =
          >>=-eq-ok (merge_gossfile host read deeper path (lookup x gs) ret) _ e in
        elim there [
          | inl q ↦
              let one' : merge_gossfile host read deeper path (some g) ret ≡ ok ret' =
                rw (ap (λ y. lookup y gs) q ∙ found) at one in
              let (j', below, all) =
                merge_gossfile-Takes path g ret ret' ms m j one' kept globbed here got in
              (
                j',
                below,
                λ place key h.
                    merge_gossfiles-Holds path gs ks ret' r place key e' (all place key h),
              )
          | inr later ↦
              merge_gossfiles-Takes path gs ks ret' r k g ms m j e' later found kept globbed here
                got
        ]

  -- A call that ends without an error ran the loop over the gossfiles.
  loaded :
      (fuel depth : ℕ) (c : GossConfig) (path : String) (r : GossConfig)
      → merge_json_data host read (suc fuel) c depth path ≡ ok r
      → merge_gossfiles host read
          (λ j fdir. merge_json_data host read fuel j (suc depth) fdir)
          path
          c.gossfiles
          (host.sort (keys c.gossfiles))
          (merge_goss new_goss_config c)
        ≡ ok r
  unfolding merge_json_data
  loaded fuel depth c path r e = elim (Bool-cases (leb 50 (suc depth))) [
    | inl deep ↦ absurd (cc (rw (deep, merge_json_data) at e))
    | inr more ↦ rw (more, merge_json_data) at e
  ]

  pub merge_json_data-Takes :
      (fuel depth : ℕ) (c : GossConfig) (path m : String) (j r : GossConfig)
      → merge_json_data host read (suc fuel) c depth path ≡ ok r
      → Steps host read c path m j
      → Takes (λ j fdir. merge_json_data host read fuel j (suc depth) fdir) j m r
  merge_json_data-Takes fuel depth c path m j r e
        (k, g, ms, there, found, kept, globbed, here, got) =
      merge_gossfiles-Takes (λ j fdir. merge_json_data host read fuel j (suc depth) fdir) path
        c.gossfiles (host.sort (keys c.gossfiles)) (merge_goss new_goss_config c) r k g ms m j
        (loaded fuel depth c path r e) there found kept globbed here got

  -- If a gossfile is loaded without an error, then every key of each of its sixteen maps of tests and
  -- of each map of its discovery section, and of those of all gossfiles that it includes, directly or
  -- through others, without `skip`, is a key of the same map of the loaded configuration. Which
  -- test stands there is not said.
  pub merge_json_data-Holds :
      (fuel depth : ℕ) (c : GossConfig) (path : String) (c' r : GossConfig)
      → (place : Place) (key : String) → merge_json_data host read fuel c depth path ≡ ok r
      → Included host read c path c'
      → Holds place key c'
      → Holds place key r
  unfolding merge_json_data
  merge_json_data-Holds zero depth c path c' r place key e inc h = absurd (cc e)
  merge_json_data-Holds (suc fuel) depth c path c' r place key e (itself _ _) h =
      merge_gossfiles-Holds (λ j fdir. merge_json_data host read fuel j (suc depth) fdir) path
        c.gossfiles (host.sort (keys c.gossfiles)) (merge_goss new_goss_config c) r place key
        (loaded fuel depth c path r e) (Holds-merge_goss place key new_goss_config c (inr h))
  merge_json_data-Holds (suc fuel) depth c path c' r place key e (through _ _ m j _ step inc) h =
      let (j', below, all) = merge_json_data-Takes fuel depth c path m j r e step in
      all place key
        (merge_json_data-Holds fuel (suc depth) j (host.dir m) c' j' place key below inc h)
