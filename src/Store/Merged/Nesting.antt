-- ===== src/Store/Merged/Nesting.antt =====
-- How deep gossfiles may include each other.
use goss.Base.{ℕ, zero, suc, ◌+◌, ◌≤◌, String, ◌≡◌, inl, inr, arith, leb, Bool-cases}
use goss.Store.{Host, merge_json_data}
use goss.Store.Merged.{Steps}
use goss.Store.Merged.Kept.{merge_json_data-Takes}
use goss.Config.{GossConfig}
use goss.Errors.{Result, ok}

-- A gossfile below which `n` others are nested, each included by the one before it.
pub data Nested (host : Host) (read : String → Result GossConfig)
    : ℕ → GossConfig → String → Type 0 where
  flat : (c : GossConfig) (path : String) → Nested host read 0 c path
  deeper :
      (n : ℕ) (c : GossConfig) (path m : String) (j : GossConfig)
      → Steps host read c path m j
      → Nested host read n j (host.dir m)
      → Nested host read (suc n) c path

module _ (host : Host) (read : String → Result GossConfig) where
  shallow :
      (fuel depth : ℕ) (c : GossConfig) (path : String) (r : GossConfig)
      → merge_json_data host read fuel c depth path ≡ ok r
      → depth ≤ 48
  unfolding merge_json_data
  shallow zero depth c path r e = absurd (cc e)
  shallow (suc fuel) depth c path r e = elim (Bool-cases (leb 50 (suc depth))) [
    | inl deep ↦ absurd (cc (rw (deep, merge_json_data) at e))
    | inr more ↦ ground (arith, more)
  ]

  below-Nested :
      (n fuel depth : ℕ) (c : GossConfig) (path : String) (r : GossConfig)
      → Nested host read n c path
      → merge_json_data host read fuel c depth path ≡ ok r
      → depth + n ≤ 48
  unfolding merge_json_data
  below-Nested _ fuel depth c path r (flat _ _) e =
      let h = shallow fuel depth c path r e in omega (arith, h)
  below-Nested _ zero depth c path r (deeper n _ _ m j step below) e = absurd (cc e)
  below-Nested _ (suc fuel) depth c path r (deeper n _ _ m j step below) e =
      let (j', loaded, all) = merge_json_data-Takes host read fuel depth c path m j r e step in
      let h = below-Nested n fuel (suc depth) j (host.dir m) j' below loaded in omega (arith, h)

  -- A gossfile that is loaded has at most 48 levels of included gossfiles below it.
  pub merge_json_data-Nested :
      (n : ℕ) (c : GossConfig) (path : String) (r : GossConfig)
      → merge_json_data host read 50 c 0 path ≡ ok r
      → Nested host read n c path
      → n ≤ 48
  merge_json_data-Nested n c path r e nested =
      let h = below-Nested n 50 0 c path r nested e in omega (arith, h)
