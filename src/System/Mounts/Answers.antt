-- ===== src/System/Mounts/Answers.antt =====
-- The answers about a mount point agree.
use goss.Errors.{Result-cases, Error, Result, ok, err}
use goss.Base.{ℕ, String, ◌≡◌, refl, ◌⊎◌, inl, inr, true, List}
use goss.System.Mounts.{MountInfo, sys_mount, setup_mount, split_mount_info}
use goss.Base.Int.{ℤ}

module _ (mount : ℕ → Result MountInfo) (statfs : ℕ → Result ℤ)
    (uniq : List String → List String) where
  sys_mount-lookups : (mount_point : String) → (sys_mount mount statfs uniq mount_point).1 ≡ 1
  unfolding sys_mount setup_mount
  sys_mount-lookups mount_point = elim (Result-cases (mount 0)) [
    | inl (info, m) ↦ elim (Result-cases (statfs 0)) [
      | inl (u, s) ↦ rw m (rw s refl)
      | inr (inl (e, s)) ↦ rw m (rw s refl)
      | inr (inr s) ↦ rw m (rw s refl)
    ]
    | inr (inl (e, m)) ↦ rw m refl
    | inr (inr m) ↦ rw m refl
  ]

-- The six getters of a mount point look it up once, though each may be the one that does, and though
-- the table of mounts may change: if the mount point is in the table at the first look-up and statfs
-- then answers, all of them answer from that one entry; if the first look-up or its statfs fails, all
-- of them return that error. So a mount point that is not mounted does not answer that it does not
-- exist.
pub sys_mount-answers :
    (mount : ℕ → Result MountInfo) (statfs : ℕ → Result ℤ) (uniq : List String → List String)
    (mount_point : String)
    → let (s, lookups) = sys_mount mount statfs uniq mount_point in
      (lookups ≡ 1)
      × ((info : MountInfo) (u : ℤ)
          → (mount 0 ≡ ok info)
          → (statfs 0 ≡ ok u)
          → (s.exists ≡ ok true)
            × (s.opts ≡ ok (uniq (split_mount_info info.options)))
            × (s.vfs_opts ≡ ok (split_mount_info info.vfs_options))
            × (s.source ≡ ok info.source)
            × (s.filesystem ≡ ok info.fs_type)
            × (s.usage ≡ ok u))
      × ((e : Error)
          → (mount 0 ≡ err e) ⊎ ((info : MountInfo) × (mount 0 ≡ ok info) × (statfs 0 ≡ err e))
          → (s.exists ≡ err e)
            × (s.opts ≡ err e)
            × (s.vfs_opts ≡ err e)
            × (s.source ≡ err e)
            × (s.filesystem ≡ err e)
            × (s.usage ≡ err e))
unfolding sys_mount setup_mount
sys_mount-answers mount statfs uniq mount_point = (
  sys_mount-lookups mount statfs uniq mount_point,
  (λ info u m s. rw m (rw s (refl, refl, refl, refl, refl, refl))),
  λ e why. elim why [
    | inl m ↦ rw m (refl, refl, refl, refl, refl, refl)
    | inr (info, m, s) ↦ rw m (rw s (refl, refl, refl, refl, refl, refl))
  ],
)
