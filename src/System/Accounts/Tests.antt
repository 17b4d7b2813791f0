-- ===== src/System/Accounts/Tests.antt =====
-- A small /etc/group and /etc/passwd.
use goss.Base.{String, ◌≡◌, refl, ◌↔◌, List, [], ◌∷◌, ◌==◌, if◌then◌else◌, In}
use goss.System.Accounts.{groups_for_user, group_loop, split_on, user_shell}
use goss.System.Accounts.Members.{groups_for_user-Names, Names}
use goss.Errors.{Result, ok, err, external, invalid_passwd_entry}
use goss.Base.Int.{ℤ, pos}

abbrev number : String → Result ℤ
number s = if s == "100" then ok (pos 100) else err (external s)

abbrev as_read : List String → List String
as_read ts = ts

abbrev group_lines : List String
group_lines = "users:x:100:" ∷ "" ∷ "wheel:x:10:root,ann" ∷ "adm:x:4:root" ∷ []

ann_has_two : groups_for_user number as_read "ann" (pos 100) group_lines ≡ "users" ∷ "wheel" ∷ []
unfolding groups_for_user group_loop split_on
ann_has_two = refl

groups_for_user-Names_example :
    In "wheel" (groups_for_user number as_read "ann" (pos 100) group_lines)
    ↔ Names number as_read "ann" (pos 100) "wheel" group_lines
groups_for_user-Names_example =
    groups_for_user-Names number as_read "ann" (pos 100) (λ xs x. (λ h. h, λ h. h)) group_lines
      "wheel"

-- A line of another form in front of the user's hides the user.
comment_hides_the_shell :
    user_shell "ann" ("# local users" ∷ "ann:x:1:1::/home/ann:/bin/sh" ∷ [])
    ≡ err invalid_passwd_entry
unfolding user_shell split_on
comment_hides_the_shell = refl
