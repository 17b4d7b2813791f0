-- ===== src/System/Mounts/Tests.antt =====
-- A mount point that is not mounted, and options with a quoted comma.
use goss.Base.{ℕ, zero, suc, String, ◌≡◌, refl, ◌⊎◌, true, none, List, [], ◌∷◌}
use goss.System.Mounts.{MountInfo, no_info, sys_mount, split_mount_info, split_from, get_mount}
use goss.System.Mounts.Answers.{sys_mount-answers}
use goss.Errors.{Error, Result, ok, err, external}
use goss.Base.Int.{ℤ, pos}

commas_split :
    split_mount_info "rw,,context=\"a,b\",relatime" ≡ "rw" ∷ "context=\"a,b\"" ∷ "relatime" ∷ []
unfolding split_mount_info split_from
commas_split = refl

abbrev absent : Result MountInfo
absent = get_mount (external "mountpoint not found") none (ok [])

abbrev same_opts : List String → List String
same_opts ts = ts

-- Mounted from the second look-up on
abbrev mounted_later : ℕ → Result MountInfo
mounted_later zero = absent
mounted_later (suc n) = ok no_info

abbrev ten_percent : ℕ → Result ℤ
ten_percent n = ok (pos 10)

sys_mount-answers_example :
    let (s, lookups) = sys_mount mounted_later ten_percent same_opts "/mnt" in
    (lookups ≡ 1)
    × ((info : MountInfo) (u : ℤ)
        → (absent ≡ ok info)
        → (ok (pos 10) ≡ ok u)
        → (s.exists ≡ ok true)
          × (s.opts ≡ ok (same_opts (split_mount_info info.options)))
          × (s.vfs_opts ≡ ok (split_mount_info info.vfs_options))
          × (s.source ≡ ok info.source)
          × (s.filesystem ≡ ok info.fs_type)
          × (s.usage ≡ ok u))
    × ((e : Error)
        → (absent ≡ err e) ⊎ ((info : MountInfo) × (absent ≡ ok info) × (ok (pos 10) ≡ err e))
        → (s.exists ≡ err e)
          × (s.opts ≡ err e)
          × (s.vfs_opts ≡ err e)
          × (s.source ≡ err e)
          × (s.filesystem ≡ err e)
          × (s.usage ≡ err e))
sys_mount-answers_example = sys_mount-answers mounted_later ten_percent same_opts "/mnt"
