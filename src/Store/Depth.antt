-- ===== src/Store/Depth.antt =====
-- mergeJSONData ends: the depth is its fuel.
use goss.Base.{
  ℕ, zero, suc, ◌+◌, ◌≤◌, String, refl, ◌≢◌, inl, inr, none, some, List, [], ◌∷◌, arith, ◌==◌,
  eq_iff, leb, Bool-cases, Option-cases, In,
}
use goss.Store.{
  Host, merge_matches, merge_gossfile, merge_gossfiles, merge_json_data, matched, gossfile_path,
}
use goss.Config.{GossConfig, Gossfile, new_goss_config, merge_goss}
use goss.Errors.{◌>>=◌, Error, Result, ok, err, panic, wrap, unreadable, unmergeable, glob_failed}
use goss.Base.Maps.{lookup, Dict, keys}

>>=-ne-panic :
    {A B : Type 0} (r : Result A) (next : A → Result B)
    → (r ≢ panic)
    → ((a : A) → next a ≢ panic)
    → (r >>= next) ≢ panic
>>=-ne-panic (ok a) next h n = n a
>>=-ne-panic (err e) next h n = λ q. cc q
>>=-ne-panic panic next h n = absurd (h refl)

wrap-ne-panic : {A : Type 0} (f : Error → Error) (r : Result A) → (r ≢ panic) → wrap f r ≢ panic
wrap-ne-panic f (ok a) h = λ q. cc q
wrap-ne-panic f (err e) h = λ q. cc q
wrap-ne-panic f panic h = h

matched-ne-panic :
    (host : Host) (read : String → Result GossConfig) (fpath : String) (ms : List String)
    → matched host read fpath ms ≢ panic
matched-ne-panic host read fpath [] = λ q. cc q
matched-ne-panic host read fpath (m ∷ ms) = λ q. cc q

lookup-keys : {V : Type 0} (m : Dict V) (k : String) → In k (keys m) → lookup k m ≢ none
unfolding lookup
lookup-keys [] k h = absurd h
lookup-keys ((j, v) ∷ m) k (inl e) = rw ((eq_iff j k).1 e) (λ q. cc q)
lookup-keys ((j, v) ∷ m) k (inr h) = elim (Bool-cases (j == k)) [
  | inl same ↦ rw same (λ q. cc q)
  | inr other ↦ rw other (lookup-keys m k h)
]

module _ (host : Host) (read : String → Result GossConfig)
    (read-ne-panic : (path : String) → read path ≢ panic)
    (glob-ne-panic : (path : String) → host.glob path ≢ panic)
    (sort-In : (ks : List String) (k : String) → In k (host.sort ks) → In k ks) where
  module _ (deeper : GossConfig → String → Result GossConfig)
      (deeper-ne-panic : (j : GossConfig) (fdir : String) → deeper j fdir ≢ panic) where
    merge_matches-ne-panic :
        (ms : List String) (ret : GossConfig) → merge_matches host read deeper ms ret ≢ panic
    unfolding merge_matches
    merge_matches-ne-panic [] ret = λ q. cc q
    merge_matches-ne-panic (m ∷ ms) ret =
        >>=-ne-panic (wrap (unreadable m) (read m)) _
          (wrap-ne-panic (unreadable m) (read m) (read-ne-panic m))
          (λ j.
            >>=-ne-panic (wrap unmergeable (deeper j (host.dir m))) _
              (wrap-ne-panic unmergeable (deeper j (host.dir m)) (deeper-ne-panic j (host.dir m)))
              (λ j'. merge_matches-ne-panic ms (merge_goss ret j')))

    merge_gossfile-ne-panic :
        (path : String) (g : Gossfile) (ret : GossConfig)
        → merge_gossfile host read deeper path (some g) ret ≢ panic
    merge_gossfile-ne-panic path g ret = elim (Bool-cases g.skip) [
      | inl skipped ↦ rw skipped (λ q. cc q)
      | inr kept ↦
          let fpath = gossfile_path host read path g in
          rw kept (
            >>=-ne-panic (wrap glob_failed (host.glob fpath)) _
              (wrap-ne-panic glob_failed (host.glob fpath) (glob-ne-panic fpath))
              (λ ms.
                >>=-ne-panic (matched host read fpath ms) _ (matched-ne-panic host read fpath ms)
                  (λ found. merge_matches-ne-panic found ret)))
    ]

    merge_gossfiles-ne-panic :
        (path : String) (gs : Dict Gossfile) (ks : List String) (ret : GossConfig)
        → ((k : String) → In k ks → lookup k gs ≢ none)
        → merge_gossfiles host read deeper path gs ks ret ≢ panic
    unfolding merge_gossfiles
    merge_gossfiles-ne-panic path gs [] ret there = λ q. cc q
    merge_gossfiles-ne-panic path gs (k ∷ ks) ret there = elim (Option-cases (lookup k gs)) [
      | inl absent ↦ absurd (there k (inl refl) absent)
      | inr (g, e) ↦
          rw (e, merge_gossfiles)
            (>>=-ne-panic (merge_gossfile host read deeper path (some g) ret) _
              (merge_gossfile-ne-panic path g ret)
              (λ ret'. merge_gossfiles-ne-panic path gs ks ret' (λ k' h. there k' (inr h))))
    ]

  -- If reading and matching files never panics, and sorting adds no key, then loading a gossfile
  -- ends: with as much fuel as levels are left up to the depth of 50, whatever gossfiles include
  -- each other, the call returns a configuration or an error.
  pub merge_json_data-ne-panic :
      (fuel depth : ℕ) (c : GossConfig) (path : String)
      → depth ≤ 49
      → 50 ≤ fuel + depth
      → merge_json_data host read fuel c depth path ≢ panic
  unfolding merge_json_data
  merge_json_data-ne-panic zero depth c path shallow enough =
      absurd (omega (arith, shallow, enough))
  merge_json_data-ne-panic (suc fuel) depth c path shallow enough =
      elim (Bool-cases (leb 50 (suc depth))) [
        | inl deep ↦ rw (deep, merge_json_data) (λ q. cc q)
        | inr more ↦
            rw (more, merge_json_data)
              (merge_gossfiles-ne-panic
                (λ j fdir. merge_json_data host read fuel j (suc depth) fdir)
                (λ j fdir.
                  merge_json_data-ne-panic fuel (suc depth) j fdir (ground (arith, more))
                    (omega (arith, enough)))
                path c.gossfiles (host.sort (keys c.gossfiles)) (merge_goss new_goss_config c)
                (λ k h. lookup-keys c.gossfiles k (sort-In (keys c.gossfiles) k h)))
      ]
