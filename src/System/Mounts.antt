-- ===== src/System/Mounts.antt =====
-- system/mount.go: a mount point that is looked up once, and the answers about it. What the table of
-- mounts (moby/sys/mountinfo, behind a timeout), statfs and lo.Uniq answer are arguments.
pub mod Answers
pub mod Tests
use goss.Base.{
  ℕ, suc, String, Bool, true, false, ◌&&◌, not, Option, none, some, List, [], ◌∷◌, ◌==◌, eqb,
  if◌then◌else◌,
}
use goss.System.{SysMount}
use goss.Errors.{Error, Result, ok, err, panic}
use goss.Base.Int.{ℤ}
use Prim.Native.Char.{Char, code}

-- mountinfo.Info, the fields that are read
pub record MountInfo : Type 0 where
  pub options : String
  pub vfs_options : String
  pub source : String
  pub fs_type : String

abbrev pub no_info : MountInfo
no_info = record { options = ""; vfs_options = ""; source = ""; fs_type = "" }

-- DefMount
pub record DefMount : Type 0 where
  pub loaded : Bool
  pub exists : Bool
  pub mount_info : MountInfo
  pub usage : ℤ
  pub problem : Option Error

-- A field that is not empty is kept (strings.FieldsFunc).
abbrev pub keep_field : String × List String → List String
keep_field (current, fields) = if current == "" then fields else current ∷ fields

abbrev pub put_char : (separates : Bool) → Char → String × List String → String × List String
put_char true c found = ("", keep_field found)
put_char false c (current, fields) = (String.◌∷◌ c current, fields)

-- `quoted = !quoted` at a quotation mark
abbrev pub quoted_after : Bool → Char → Bool
quoted_after quoted c = if eqb (code c) 0x22 then not quoted else quoted

unfoldable pub split_from : (quoted : Bool) → String → String × List String
split_from quoted String.[] = ("", [])
split_from quoted (String.◌∷◌ c s) =
    put_char (not (quoted_after quoted c) && eqb (code c) 0x2c) c
      (split_from (quoted_after quoted c) s)

-- splitMountInfo
unfoldable pub split_mount_info : String → List String
split_mount_info s = keep_field (split_from false s)

-- getMount: `entries` is the table's answer
-- for the mount point, and `too_late` is the case of time.After.
abbrev pub first_entry : (mountpoint_not_found : Error) → Result (List MountInfo) → Result MountInfo
first_entry e (ok []) = err e
first_entry e (ok (i ∷ is)) = ok i
first_entry e (err x) = err x
first_entry e panic = panic

abbrev pub get_mount :
    (mountpoint_not_found : Error)
    → (too_late : Option Error) → Result (List MountInfo)
    → Result MountInfo
get_mount not_found (some e) entries = err e
get_mount not_found none entries = first_entry not_found entries

-- The table of mounts changes: `mount n` and `statfs n` are the answers of the n-th look-up of the
-- run, counted from 0, and the number of look-ups is passed on beside the object.
module _ (mount : ℕ → Result MountInfo) (statfs : ℕ → Result ℤ)
    (uniq : List String → List String) where
  abbrev pub with_usage : DefMount → Result ℤ → DefMount × Option Error
  with_usage m (ok u) = (record m { usage = u }, none)
  with_usage m (err e) = (record m { problem = some e }, some e)
  with_usage m panic = (m, none)

  abbrev pub with_mount : ℕ → DefMount → Result MountInfo → DefMount × Option Error
  with_mount n m (ok info) = with_usage (record m { mount_info = info; exists = true }) (statfs n)
  with_mount n m (err e) = (record m { exists = false; problem = some e }, some e)
  with_mount n m panic = (m, none)

  -- setup of DefMount
  unfoldable pub setup_mount : (lookups : ℕ) → DefMount → ℕ × (DefMount × Option Error)
  setup_mount n m =
      if m.loaded
      then (n, (m, m.problem))
      else (suc n, with_mount n (record m { loaded = true }) (mount n))

  abbrev pub unless_unmounted {ℓ} : {A : Type ℓ} → Option Error → A → Result A
  unless_unmounted (some e) a = err e
  unless_unmounted none a = ok a

  -- A getter: setup, and what is read from the object.
  abbrev pub mount_getter {ℓ} :
      {A : Type ℓ} → (DefMount → A) → ℕ × DefMount → (ℕ × DefMount) × Result A
  mount_getter read (n, m) =
      let (n', (m', e)) = setup_mount n m in ((n', m'), unless_unmounted e (read m'))

  abbrev pub mount_opts : DefMount → List String
  mount_opts m = uniq (split_mount_info m.mount_info.options)

  abbrev pub mount_vfs_opts : DefMount → List String
  mount_vfs_opts m = split_mount_info m.mount_info.vfs_options

  -- NewDefMount
  abbrev pub new_def_mount : DefMount
  new_def_mount = record {
    loaded = false;
    exists = false;
    mount_info = no_info;
    usage = ℤ.pos 0;
    problem = none;
  }

  -- The getters in the order in which the validation calls them, on one object, with the number of
  -- look-ups behind them.
  unfoldable pub sys_mount : String → SysMount × ℕ
  sys_mount mount_point =
      let (m1, exists) = mount_getter (λ m. m.exists) (0, new_def_mount) in
      let (m2, opts) = mount_getter mount_opts m1 in
      let (m3, vfs_opts) = mount_getter mount_vfs_opts m2 in
      let (m4, source) = mount_getter (λ m. m.mount_info.source) m3 in
      let (m5, filesystem) = mount_getter (λ m. m.mount_info.fs_type) m4 in
      let (m6, usage) = mount_getter (λ m. m.usage) m5 in
      let answers : SysMount = record {
        mount_point = mount_point;
        exists = exists;
        opts = opts;
        vfs_opts = vfs_opts;
        source = source;
        filesystem = filesystem;
        usage = usage;
      } in
      (answers, m6.0)
