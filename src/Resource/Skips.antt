-- ===== src/Resource/Skips.antt =====
-- Which checks of a resource are skipped, over every kind of test.
use goss.Base.{◌≡◌, refl, Bool, true, false, List, ◌∷◌, All}
use goss.Resource.{
  registry, http, interface, mount, process, dns, group, user, port, pkg, skipped, file,
  kernel_param, command, set_skip, service, addr, matching, Resource, validate, common_of,
}
use goss.Validation.Outcomes.{
  run_checks-IsSkipped, run_gated-IsSkipped, run_gated-rest, IsSkipped, Closes,
}
use goss.TestResult.{TestResult}
use goss.Validation.{Clock}
use goss.System.{System}
use goss.Errors.{ok}
use goss.Libraries.{Libraries}

-- The kinds whose first property decides about the others.
abbrev pub is_gated : Resource → Bool
is_gated (addr r) = false
is_gated (service r) = false
is_gated (command r) = false
is_gated (kernel_param r) = false
is_gated (matching r) = false
is_gated r = true

-- SetSkip sets the field on every kind but one.
abbrev pub is_matching : Resource → Bool
is_matching (matching r) = true
is_matching r = false

module _ (lib : Libraries) (sys : System) (clock : Resource → Clock) where
  -- If the gossfile sets `skip`, whatever a resource's Validate returns is marked as skipped.
  pub validate-IsSkipped :
      (r : Resource) (rs : List TestResult)
      → (common_of r).skip ≡ true
      → validate lib sys clock r ≡ ok rs
      → All IsSkipped rs
  unfolding validate
  validate-IsSkipped (file r) rs h e = run_gated-IsSkipped lib _ _ _ _ rs (rw h at e)
  validate-IsSkipped (pkg r) rs h e = run_gated-IsSkipped lib _ _ _ _ rs (rw h at e)
  validate-IsSkipped (addr r) rs h e = run_checks-IsSkipped lib _ _ _ rs (rw h at e)
  validate-IsSkipped (port r) rs h e = run_gated-IsSkipped lib _ _ _ _ rs (rw h at e)
  validate-IsSkipped (service r) rs h e = run_checks-IsSkipped lib _ _ _ rs (rw h at e)
  validate-IsSkipped (user r) rs h e = run_gated-IsSkipped lib _ _ _ _ rs (rw h at e)
  validate-IsSkipped (group r) rs h e = run_gated-IsSkipped lib _ _ _ _ rs (rw h at e)
  validate-IsSkipped (command r) rs h e = run_checks-IsSkipped lib _ _ _ rs (rw h at e)
  validate-IsSkipped (dns r) rs h e = run_gated-IsSkipped lib _ _ _ _ rs (rw h at e)
  validate-IsSkipped (process r) rs h e = run_gated-IsSkipped lib _ _ _ _ rs (rw h at e)
  validate-IsSkipped (kernel_param r) rs h e = run_checks-IsSkipped lib _ _ _ rs (rw h at e)
  validate-IsSkipped (mount r) rs h e = run_gated-IsSkipped lib _ _ _ _ rs (rw h at e)
  validate-IsSkipped (interface r) rs h e = run_gated-IsSkipped lib _ _ _ _ rs (rw h at e)
  validate-IsSkipped (http r) rs h e = run_gated-IsSkipped lib _ _ _ _ rs (rw h at e)
  validate-IsSkipped (matching r) rs h e = run_checks-IsSkipped lib _ _ _ rs (rw h at e)
  validate-IsSkipped (registry r) rs h e = run_gated-IsSkipped lib _ _ _ _ rs (rw h at e)

  -- SetSkip, by which disabled types are applied: behind it every kind of test but `matching`
  -- returns only results that are marked as skipped.
  pub set_skip-IsSkipped :
      (r : Resource) (rs : List TestResult)
      → is_matching r ≡ false
      → validate lib sys clock (set_skip r) ≡ ok rs
      → All IsSkipped rs
  unfolding set_skip
  set_skip-IsSkipped (matching r) rs h e = absurd (cc h)
  set_skip-IsSkipped (file r) rs h e =
      validate-IsSkipped (file (record r { common = skipped r.common })) rs refl e
  set_skip-IsSkipped (pkg r) rs h e =
      validate-IsSkipped (pkg (record r { common = skipped r.common })) rs refl e
  set_skip-IsSkipped (addr r) rs h e =
      validate-IsSkipped (addr (record r { common = skipped r.common })) rs refl e
  set_skip-IsSkipped (port r) rs h e =
      validate-IsSkipped (port (record r { common = skipped r.common })) rs refl e
  set_skip-IsSkipped (service r) rs h e =
      validate-IsSkipped (service (record r { common = skipped r.common })) rs refl e
  set_skip-IsSkipped (user r) rs h e =
      validate-IsSkipped (user (record r { common = skipped r.common })) rs refl e
  set_skip-IsSkipped (group r) rs h e =
      validate-IsSkipped (group (record r { common = skipped r.common })) rs refl e
  set_skip-IsSkipped (command r) rs h e =
      validate-IsSkipped (command (record r { common = skipped r.common })) rs refl e
  set_skip-IsSkipped (dns r) rs h e =
      validate-IsSkipped (dns (record r { common = skipped r.common })) rs refl e
  set_skip-IsSkipped (process r) rs h e =
      validate-IsSkipped (process (record r { common = skipped r.common })) rs refl e
  set_skip-IsSkipped (kernel_param r) rs h e =
      validate-IsSkipped (kernel_param (record r { common = skipped r.common })) rs refl e
  set_skip-IsSkipped (mount r) rs h e =
      validate-IsSkipped (mount (record r { common = skipped r.common })) rs refl e
  set_skip-IsSkipped (interface r) rs h e =
      validate-IsSkipped (interface (record r { common = skipped r.common })) rs refl e
  set_skip-IsSkipped (http r) rs h e =
      validate-IsSkipped (http (record r { common = skipped r.common })) rs refl e
  set_skip-IsSkipped (registry r) rs h e =
      validate-IsSkipped (registry (record r { common = skipped r.common })) rs refl e

  -- The kinds with a first property (exists, installed, listening, running, resolvable, status): if
  -- its result is not a success, or has an error, or its value was found to be false, the results
  -- of all other properties are marked as skipped.
  pub validate_gate :
      (r : Resource) (t : TestResult) (ts : List TestResult)
      → is_gated r ≡ true
      → validate lib sys clock r ≡ ok (t ∷ ts)
      → Closes t
      → All IsSkipped ts
  unfolding validate
  validate_gate (file r) t ts g e h = run_gated-rest lib _ _ _ _ _ t ts e h
  validate_gate (pkg r) t ts g e h = run_gated-rest lib _ _ _ _ _ t ts e h
  validate_gate (addr r) t ts g e h = absurd (cc g)
  validate_gate (port r) t ts g e h = run_gated-rest lib _ _ _ _ _ t ts e h
  validate_gate (service r) t ts g e h = absurd (cc g)
  validate_gate (user r) t ts g e h = run_gated-rest lib _ _ _ _ _ t ts e h
  validate_gate (group r) t ts g e h = run_gated-rest lib _ _ _ _ _ t ts e h
  validate_gate (command r) t ts g e h = absurd (cc g)
  validate_gate (dns r) t ts g e h = run_gated-rest lib _ _ _ _ _ t ts e h
  validate_gate (process r) t ts g e h = run_gated-rest lib _ _ _ _ _ t ts e h
  validate_gate (kernel_param r) t ts g e h = absurd (cc g)
  validate_gate (mount r) t ts g e h = run_gated-rest lib _ _ _ _ _ t ts e h
  validate_gate (interface r) t ts g e h = run_gated-rest lib _ _ _ _ _ t ts e h
  validate_gate (http r) t ts g e h = run_gated-rest lib _ _ _ _ _ t ts e h
  validate_gate (matching r) t ts g e h = absurd (cc g)
  validate_gate (registry r) t ts g e h = run_gated-rest lib _ _ _ _ _ t ts e h
