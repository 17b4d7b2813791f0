-- ===== src/System/Accounts.antt =====
-- system/user.go, system/user_unix.go, system/user_group_unix.go and system/group.go: the answers
-- about users and groups. The lines of /etc/passwd and /etc/group are those up to the first error of
-- reading, which both loops take for the end of the file. os/user and strconv.Atoi
-- are arguments; `home_dir`, `uid` and `gid` are the texts of the fields of user.User.
pub mod Members
pub mod Tests
use goss.Base.{
  ℕ, String, Bool, true, false, List, [], ◌∷◌, ◌++◌, map, ◌==◌, eqb, if◌then◌else◌, keep,
}
use goss.System.{SysGroup}
use goss.Errors.{Result, ok, err, panic, ◌>>=◌, invalid_passwd_entry, unknown_user}
use goss.Base.Int.{ℤ}
use Prim.Native.Char.{Char, code}

pub record Account : Type 0 where
  pub uid : String
  pub gid : String
  pub home_dir : String

-- `_, err := lookup(name)`, where an error says that there is none
abbrev pub exists_without_error {ℓ} : {A : Type ℓ} → Result A → Result Bool
exists_without_error (ok a) = ok true
exists_without_error (err e) = ok false
exists_without_error panic = panic

module _ (lookup_user : String → Result Account) (atoi : String → Result ℤ) where
  unfoldable pub user_exists : String → Result Bool
  user_exists username = exists_without_error (lookup_user username)

  unfoldable pub user_uid : String → Result ℤ
  user_uid username = do account ← lookup_user username; atoi account.uid

  unfoldable pub user_gid : String → Result ℤ
  user_gid username = do account ← lookup_user username; atoi account.gid

  unfoldable pub user_home : String → Result String
  user_home username = do account ← lookup_user username; ok account.home_dir

-- `lookup_group` gives the text of the field Gid.
module _ (lookup_group : String → Result String) (atoi : String → Result ℤ) where
  unfoldable pub group_exists : String → Result Bool
  group_exists groupname = exists_without_error (lookup_group groupname)

  unfoldable pub group_gid : String → Result ℤ
  group_gid groupname = do gid ← lookup_group groupname; atoi gid

  unfoldable pub sys_group : String → SysGroup
  sys_group groupname = record {
    groupname = groupname;
    exists = group_exists groupname;
    gid = group_gid groupname;
  }

-- strings.Split(s, c) for one character, given by its code
abbrev pub put : (splits : Bool) → Char → List String → List String
put true c parts = "" ∷ parts
put false c [] = String.◌∷◌ c "" ∷ []
put false c (part ∷ parts) = String.◌∷◌ c part ∷ parts

unfoldable pub split_on : ℕ → String → List String
split_on at String.[] = "" ∷ []
split_on at (String.◌∷◌ c s) = put (eqb (code c) at) c (split_on at s)

abbrev pub colon : ℕ
colon = 0x3a

abbrev pub comma : ℕ
comma = 0x2c

-- The loop of Shell.
abbrev pub shell_in : String → List String → Result String → Result String
shell_in username (name ∷ password ∷ uid ∷ gid ∷ gecos ∷ home ∷ shell ∷ []) later =
    if name == username then ok shell else later
shell_in username _ later = err invalid_passwd_entry

unfoldable pub user_shell : String → List String → Result String
user_shell username [] = err (unknown_user username)
user_shell username (line ∷ lines) =
    let later = user_shell username lines in shell_in username (split_on colon line) later

abbrev pub int_eq : ℤ → ℤ → Bool
int_eq (ℤ.pos a) (ℤ.pos b) = eqb a b
int_eq (ℤ.negsuc a) (ℤ.negsuc b) = eqb a b
int_eq _ _ = false

abbrev pub is_primary : Result ℤ → ℤ → Bool
is_primary (ok gid) pgid = int_eq gid pgid
is_primary (err e) pgid = false
is_primary panic pgid = false

module _ (atoi : String → Result ℤ) (sort : List String → List String) where
  -- What a line of /etc/group adds.
  abbrev pub added : (user : String) → (pgid : ℤ) → List String → List String
  added user pgid (name ∷ password ∷ gid ∷ members ∷ []) =
      if is_primary (atoi gid) pgid
      then name ∷ []
      else map (λ m. name) (keep (λ m. m == user) (split_on comma members))
  added user pgid _ = []

  unfoldable pub group_loop : (user : String) → (pgid : ℤ) → List String → List String → List String
  group_loop user pgid out [] = out
  group_loop user pgid out (text ∷ lines) =
      group_loop user pgid
        (if text == "" then out else out ++ added user pgid (split_on colon text)) lines

  unfoldable pub groups_for_user :
      (user : String) → (pgid : ℤ) → (lines : List String) → List String
  groups_for_user user pgid lines = sort (group_loop user pgid [] lines)
