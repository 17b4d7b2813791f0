-- ===== src/Run/Disabled.antt =====
-- applyDisabledTypes of dependency_scheduler.go, and IsValueInList of util/config.go.
use goss.Resource.Skips.{set_skip-IsSkipped, is_matching}
use goss.Base.{
  String, ◌≡◌, refl, ◌⊎◌, inl, inr, Bool, true, false, ◌||◌, List, [], ◌∷◌, map, if◌then◌else◌,
  Bool-cases, any_of, All, In, All-In,
}
use goss.Validation.Outcomes.{IsSkipped}
use goss.Errors.{ok}
use goss.Resource.{validate, type_key, matching, type_name, Resource, set_skip}
use goss.TestResult.{TestResult}
use goss.Validation.{Clock}
use goss.System.{System}
use goss.Libraries.{Libraries}

module _ (equal_fold : String → String → Bool) where
  abbrev pub is_value_in_list : String → List String → Bool
  is_value_in_list item values = any_of (λ v. equal_fold v item) values

  abbrev pub is_disabled : List String → Resource → Bool
  is_disabled skips r = is_value_in_list (type_name r) skips || is_value_in_list (type_key r) skips

  unfoldable pub apply_disabled_types : List Resource → List String → List Resource
  apply_disabled_types rs skips = map (λ r. if is_disabled skips r then set_skip r else r) rs

is_matching-set_skip : (r : Resource) → is_matching (set_skip r) ≡ is_matching r
unfolding set_skip
is_matching-set_skip (matching r) = refl
is_matching-set_skip _ = refl

module _ (lib : Libraries) (sys : System) (clock : Resource → Clock)
    (equal_fold : String → String → Bool) where
  abbrev IsOff : List String → Resource → Type 0
  IsOff skips r =
      (ts : List TestResult)
      → is_disabled equal_fold skips r ≡ true
      → is_matching r ≡ false
      → validate lib sys clock r ≡ ok ts
      → All IsSkipped ts

  apply_disabled_types-All :
      (skips : List String) (rs : List Resource)
      → All (IsOff skips) (apply_disabled_types equal_fold rs skips)
  unfolding apply_disabled_types
  apply_disabled_types-All skips [] = tt
  apply_disabled_types-All skips (r ∷ rs) =
      (one (Bool-cases (is_disabled equal_fold skips r)), apply_disabled_types-All skips rs)
    where
      one :
          (is_disabled equal_fold skips r ≡ true) ⊎ (is_disabled equal_fold skips r ≡ false)
          → IsOff skips (if is_disabled equal_fold skips r then set_skip r else r)
      one (inl off) =
          rw off
            (λ ts d m e. set_skip-IsSkipped lib sys clock r ts (rw (← is_matching-set_skip r) m) e)
      one (inr on) = rw on (λ ts d m e. absurd (cc))

  -- No property of a disabled type is checked: behind applyDisabledTypes, every result of a resource
  -- whose type is disabled by its key or its name is marked as skipped, if the resource is no
  -- `matching`.
  pub apply_disabled_types-IsSkipped :
      (skips : List String) (rs : List Resource) (r : Resource) (ts : List TestResult)
      → In r (apply_disabled_types equal_fold rs skips)
      → is_disabled equal_fold skips r ≡ true
      → is_matching r ≡ false
      → validate lib sys clock r ≡ ok ts
      → All IsSkipped ts
  apply_disabled_types-IsSkipped skips rs r ts here =
      All-In (IsOff skips) (apply_disabled_types equal_fold rs skips) r
        (apply_disabled_types-All skips rs) here ts
