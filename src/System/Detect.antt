-- ===== src/System/Detect.antt =====
-- system/system.go: which package manager and which service manager the objects of a run ask. What
-- the machine answers is the record Machine.
pub mod Chosen
use goss.Base.{
  String, Bool, true, false, ◌&&◌, ◌||◌, not, Option, none, some, List, [], ◌∷◌, ◌==◌, ltb,
  if◌then◌else◌, any_of,
}
use goss.Base.Int.{ℤ, pos, negsuc}

pub record Machine : Type 0 where
  -- os.ReadFile, os.Stat and exec.LookPath
  pub read_file : String → Option String
  pub has_file : String → Bool
  pub has_command : String → Bool
  pub is_windows : Bool
  -- bytes.Contains, the text in front of the first dot (bytes.Index), and strconv.Atoi
  pub contains : (text part : String) → Bool
  pub before_dot : String → Option String
  pub atoi : String → Option ℤ

-- NewDebPackage, NewAlpinePackage, NewPacmanPackage, NewRpmPackage
pub data PackageKind : Type 0 where
  deb_package alpine_package pacman_package rpm_package : PackageKind

-- NewServiceUpstart, NewServiceSystemd, NewServiceSystemdLegacy, NewAlpineServiceInit,
-- NewServiceWindows, NewServiceInit
pub data ServiceKind : Type 0 where
  upstart systemd systemd_legacy alpine_init windows_service init_service : ServiceKind

abbrev pub package_kind : String → PackageKind
package_kind p =
    if p == "dpkg"
    then deb_package
    else if p == "apk"
    then alpine_package
    else if p == "pacman"
    then pacman_package
    else rpm_package

abbrev pub service_kind : String → ServiceKind
service_kind s =
    if s == "upstart"
    then upstart
    else if s == "systemd"
    then systemd
    else if s == "systemdlegacy"
    then systemd_legacy
    else if s == "alpineinit"
    then alpine_init
    else if s == "windows"
    then windows_service
    else init_service

-- SupportedPackageManagers
abbrev pub supported_package_managers : List String
supported_package_managers = "apk" ∷ "dpkg" ∷ "pacman" ∷ "rpm" ∷ []

unfoldable pub is_supported_package_manager : String → Bool
is_supported_package_manager p = any_of (λ m. m == p) supported_package_managers

module _ (machine : Machine) where
  unfoldable pub is_redhat : Bool
  is_redhat = machine.has_file "/etc/redhat-release" || machine.has_file "/etc/system-release"

  abbrev pub names_ubuntu : Option String → Bool
  names_ubuntu (some text) = machine.contains text "Ubuntu"
  names_ubuntu none = false

  unfoldable pub detect_distro : String
  detect_distro =
      if names_ubuntu (machine.read_file "/etc/lsb-release")
      then "ubuntu"
      else if is_redhat
      then "redhat"
      else if machine.has_file "/etc/alpine-release"
      then "alpine"
      else if machine.has_file "/etc/arch-release"
      then "arch"
      else if machine.has_file "/etc/debian_version"
      then "debian"
      else ""

  -- The loop over the commands of DetectPackageManager.
  abbrev pub first_command : List String → String
  first_command [] = ""
  first_command (manager ∷ managers) =
      let later = first_command managers in if machine.has_command manager then manager else later

  abbrev pub manager_of : (distro : String) → String
  manager_of distro =
      if distro == "ubuntu"
      then "dpkg"
      else if distro == "redhat"
      then "rpm"
      else if distro == "alpine"
      then "apk"
      else if distro == "arch"
      then "pacman"
      else if distro == "debian"
      then "dpkg"
      else first_command ("dpkg" ∷ "rpm" ∷ "apk" ∷ "pacman" ∷ [])

  unfoldable pub detect_package_manager : String
  detect_package_manager = manager_of detect_distro

  -- detectPackage
  unfoldable pub detect_package : String → PackageKind
  detect_package p =
      if not (p == "dpkg") && (not (p == "apk") && (not (p == "pacman") && not (p == "rpm")))
      then package_kind detect_package_manager
      else package_kind p

  abbrev pub is_below_nine : Option ℤ → Bool
  is_below_nine (some (pos n)) = ltb n 9
  is_below_nine (some (negsuc n)) = true
  is_below_nine none = false

  abbrev pub major_of : Option String → Option ℤ
  major_of (some s) = machine.atoi s
  major_of none = none

  abbrev pub is_legacy : Option String → Bool
  is_legacy (some text) = is_below_nine (major_of (machine.before_dot text))
  is_legacy none = false

  unfoldable pub is_legacy_systemd : Bool
  is_legacy_systemd = is_legacy (machine.read_file "/etc/debian_version")

  unfoldable pub detect_service_manager : String
  detect_service_manager =
      if machine.is_windows
      then "windows"
      else if machine.has_command "systemctl"
      then (if is_legacy_systemd then "systemdlegacy" else "systemd")
      else if detect_distro == "ubuntu"
      then "upstart"
      else if detect_distro == "alpine"
      then "alpineinit"
      else if detect_distro == "arch"
      then "systemd"
      else "init"

  -- detectService
  unfoldable pub detect_service : ServiceKind
  detect_service = service_kind detect_service_manager
