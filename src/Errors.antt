-- ===== src/Errors.antt =====
-- Go's error values and the ways a call ends: a value, an error, or a panic. A message is kept as a
-- constructor with the arguments of its format string; `external` is an error made outside src/.
use goss.Base.{String, ◌≡◌, refl, ◌⊎◌, inl, inr, List}

pub data Error : Type 0 where
  external : String → Error
  -- dependency_scheduler.go
  duplicate_reference : String → Error
  invalid_reference : String → Error
  reference_not_found : String → Error
  reference_ambiguous : String → List String → Error
  dependency_cycle : String → Error
  -- the reasons that SkipResourceResults is given
  dependency_failed : String → Error
  unsatisfied_dependency : Error
  -- discovery_config.go, discovery_validate.go, discovery_load.go
  missing_register : String → Error
  duplicate_register : String → Error
  no_discovery_tests : Error
  discover_gossfile : Error → Error
  no_discovery_section : String → Error
  discover_phase : Error → Error
  -- store.go, validate.go
  unknown_extension : String → Error
  undetermined_format format_unset : Error
  file_error : Error → Error
  bad_vars_file unmerged_vars : String → Error → Error
  bad_inline_vars vars_failed render_failed : Error → Error
  write_failed : String → Error → Error
  max_depth : Error
  glob_failed : Error → Error
  no_matched_files : String → Error
  unreadable : String → Error → Error
  unmergeable : Error → Error
  no_tests : String → Error
  retry_timeout : Error
  bad_output_format : String → Error
  bad_accept_header : Error
  -- util/config.go, resource/resource_list.go, add.go
  invalid_attribute : (typ id attr : String) → Error
  could_not_parse : (typ id : String) → Error
  undefined_resource : String → Error
  bad_log_level : String → Error
  -- system/user_unix.go, system/file.go
  no_entries : (database : String) → Error → Error
  invalid_passwd_entry : Error
  unknown_user : String → Error
  -- resource/gomega.go, matchers/
  missing_required_attribute : Error
  invalid_argument : (name expected : String) → Error
  multiple_matchers : List String → Error
  unknown_matcher : String → Error
  unknown_comparator : String → Error
  transform_failed : Error → Error
  patterns_not_an_array patterns_not_strings : Error
  incorrect_type : Error
  not_a_collection : Error
  not_a_constraint not_versions : Error
  not_numeric not_a_string invalid_json : Error
  path_not_found : String → Error
  unknown_signature : Error

pub data Result {ℓ} (A : Type ℓ) : Type ℓ where
  ok : A → Result A
  err : Error → Result A
  panic : Result A

infixl 5 ◌>>=◌
abbrev pub ◌>>=◌ {ℓ κ} : {A : Type ℓ} {B : Type κ} → Result A → (A → Result B) → Result B
panic >>= next = panic
err e >>= next = err e
ok a >>= next = next a

-- Wraps the error, `fmt.Errorf("...: %w", err)`.
abbrev pub wrap {ℓ} : {A : Type ℓ} → (Error → Error) → Result A → Result A
wrap f (ok a) = ok a
wrap f (err e) = err (f e)
wrap f panic = panic

-- A chain with a value had a value at its first step.
pub >>=-eq-ok {ℓ κ} :
    {A : Type ℓ} {B : Type κ} (r : Result A) (next : A → Result B) {y : B}
    → (r >>= next) ≡ ok y
    → (x : A) × (r ≡ ok x) × (next x ≡ ok y)
>>=-eq-ok panic next e = cc
>>=-eq-ok (err x) next e = cc
>>=-eq-ok (ok x) next e = (x, refl, e)

pub Result-cases {ℓ} :
    {A : Type ℓ} (r : Result A)
    → ((a : A) × (r ≡ ok a)) ⊎ (((e : Error) × (r ≡ err e)) ⊎ (r ≡ panic))
Result-cases (ok a) = inl (a, refl)
Result-cases (err e) = inr (inl (e, refl))
Result-cases panic = inr (inr refl)

pub ok-injective {ℓ} : {A : Type ℓ} {a b : A} → ok a ≡ ok b → a ≡ b
ok-injective e = cc
