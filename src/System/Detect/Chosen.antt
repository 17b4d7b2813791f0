-- ===== src/System/Detect/Chosen.antt =====
-- Which package manager is asked.
use goss.Base.{String, ◌≡◌, ◌⊎◌, true, false, arith, eq_iff}
use goss.System.Detect.{
  Machine, package_kind, is_supported_package_manager, detect_package, detect_package_manager,
}

-- A package manager that is asked for by a supported name is taken, whatever the machine; any other
-- name leaves the choice to the machine.
pub detect_package-is_supported :
    (machine : Machine) (p : String)
    → ((is_supported_package_manager p ≡ true) × (detect_package machine p ≡ package_kind p))
      ⊎ ((is_supported_package_manager p ≡ false)
          × (detect_package machine p ≡ package_kind (detect_package_manager machine)))
unfolding is_supported_package_manager detect_package
detect_package-is_supported machine p = ground (
  arith,
  eq_iff p "dpkg",
  eq_iff "dpkg" p,
  eq_iff p "apk",
  eq_iff "apk" p,
  eq_iff p "rpm",
  eq_iff "rpm" p,
  eq_iff p "pacman",
  eq_iff "pacman" p,
)
