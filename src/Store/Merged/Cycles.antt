-- ===== src/Store/Merged/Cycles.antt =====
-- Gossfiles that include each other in a ring.
use goss.Base.{ℕ, zero, suc, String, ◌≡◌, ◌≢◌, inl, inr, List, arith, In}
use goss.Store.{Host, merge_json_data}
use goss.Store.Merged.{Steps}
use goss.Store.Merged.Kept.{merge_json_data-Takes}
use goss.Store.Depth.{merge_json_data-ne-panic}
use goss.Config.{GossConfig}
use goss.Errors.{Error, Result, ok, err, panic, Result-cases}

module _ (host : Host) (read : String → Result GossConfig) (Ring : GossConfig → String → Type 0)
    (Ring-Steps : (c : GossConfig) (path : String)
      → Ring c path
      → (m : String) × (j : GossConfig) × Steps host read c path m j × Ring j (host.dir m)) where
  ring-ne-ok :
      (fuel depth : ℕ) (c : GossConfig) (path : String) (r : GossConfig)
      → Ring c path
      → merge_json_data host read fuel c depth path ≢ ok r
  unfolding merge_json_data
  ring-ne-ok zero depth c path r ring e = absurd (cc e)
  ring-ne-ok (suc fuel) depth c path r ring e =
      let (m, j, step, on) = Ring-Steps c path ring in
      let (j', below, all) = merge_json_data-Takes host read fuel depth c path m j r e step in
      ring-ne-ok fuel (suc depth) j (host.dir m) j' on below

  -- A ring of gossfiles, each of which includes the next without `skip`, is never loaded: if
  -- reading and matching files never panics, and sorting adds no key, then loading any gossfile of
  -- the ring ends with an error.
  pub merge_json_data-ring :
      ((path : String) → read path ≢ panic)
      → ((path : String) → host.glob path ≢ panic)
      → ((ks : List String) (k : String) → In k (host.sort ks) → In k ks)
      → (c : GossConfig) (path : String) → Ring c path
      → (e : Error) × (merge_json_data host read 50 c 0 path ≡ err e)
  merge_json_data-ring read-ne-panic glob-ne-panic sort-In c path ring =
      elim (Result-cases (merge_json_data host read 50 c 0 path)) [
        | inl (r, e) ↦ absurd (ring-ne-ok 50 0 c path r ring e)
        | inr (inl failed) ↦ failed
        | inr (inr lost) ↦ absurd (
            merge_json_data-ne-panic host read read-ne-panic glob-ne-panic sort-In 50 0 c path
              (omega arith) (omega arith) lost)
      ]
