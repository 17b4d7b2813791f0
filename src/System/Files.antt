-- ===== src/System/Files.antt =====
-- system/file.go and file_posix.go: how the object of a file finds its answers. What os, os/user,
-- path/filepath, crypto and getent answer is the record FileHost.
pub mod Modes
pub mod Again
pub mod Tests
use goss.Base.{
  ℕ, zero, suc, String, Bool, true, false, ◌||◌, not, Option, none, some, List, [], ◌∷◌, ◌==◌, eqb,
  if◌then◌else◌, group,
}
use goss.System.{SysFile}
use goss.System.Accounts.{split_on, colon}
use goss.Errors.{Error, Result, ok, err, panic, ◌>>=◌, no_entries}
use goss.Base.Int.{ℤ, pos}
use Prim.Native.Char.{Char, char, code}
use Prim.Native.String.{◌++◌ as str_append}
use Prim.Native.Nat.{◌/◌, ◌%◌}

pub data HashFunc : Type 0 where
  md5_hash sha256_hash sha512_hash : HashFunc

-- os.FileInfo: the bits of its Mode that are asked for, its size, and the fields of its Stat_t
pub record FileInfo : Type 0 where
  pub symlink : Bool
  pub device : Bool
  pub char_device : Bool
  pub named_pipe : Bool
  pub socket : Bool
  pub dir : Bool
  pub size : ℤ
  pub stat_mode : ℕ
  pub uid : ℕ
  pub gid : ℕ

pub record FileHost : Type 0 where
  pub abs : String → Result String
  -- HomeDir of user.Current and of user.Lookup
  pub current_home : Result String
  pub home_of : String → Result String
  pub lstat : String → Result FileInfo
  pub is_not_exist : Error → Bool
  -- os.Open, and reading the file
  pub open_file : String → Result (Result String)
  pub read_link : String → Result String
  pub hash_of : HashFunc → String → String
  -- user.LookupId and user.LookupGroupId, and the standard output of getent
  pub user_of : ℕ → Result String
  pub group_of : ℕ → Result String
  pub getent : (database : String) → ℕ → Result String

-- DefFile
pub record DefFile : Type 0 where
  pub path : String
  pub real_path : String
  pub loaded : Bool
  pub problem : Option Error

abbrev pub has_tilde : String → Bool
has_tilde String.[] = false
has_tilde (String.◌∷◌ c s) = eqb (code c) 0x7e

abbrev pub without_first : String → String
without_first String.[] = ""
without_first (String.◌∷◌ c s) = s

-- strings.Join(parts, "/")
unfoldable pub join_slash : List String → String
join_slash [] = ""
join_slash (part ∷ []) = part
join_slash (part ∷ next ∷ parts) = str_append part (str_append "/" (join_slash (next ∷ parts)))

-- A digit below 8
abbrev pub octal_digit : ℕ → Char
octal_digit zero = char 0x30 tt
octal_digit (suc zero) = char 0x31 tt
octal_digit (suc (suc zero)) = char 0x32 tt
octal_digit (suc (suc (suc zero))) = char 0x33 tt
octal_digit (suc (suc (suc (suc zero)))) = char 0x34 tt
octal_digit (suc (suc (suc (suc (suc zero))))) = char 0x35 tt
octal_digit (suc (suc (suc (suc (suc (suc zero)))))) = char 0x36 tt
octal_digit (suc (suc (suc (suc (suc (suc (suc n))))))) = char 0x37 tt

abbrev pub digit_text : ℕ → String → String
digit_text n s = String.◌∷◌ (octal_digit n) s

-- fmt.Sprintf("%04o", mode & 07777)
unfoldable pub mode_text : ℕ → String
mode_text mode =
    digit_text (mode / 512 % 8)
      (digit_text (mode / 64 % 8) (digit_text (mode / 8 % 8) (digit_text (mode % 8) "")))

-- The switch of Filetype
unfoldable pub filetype_of : FileInfo → String
filetype_of fi =
    if fi.symlink
    then "symlink"
    else if fi.device
    then (if fi.char_device then "character-device" else "block-device")
    else if fi.named_pipe
    then "pipe"
    else if fi.socket
    then "socket"
    else if fi.dir
    then "directory"
    else "file"

abbrev pub first_of : List String → String
first_of [] = ""
first_of (part ∷ parts) = part

module _ (host : FileHost) where
  abbrev pub home : String → Result String
  home f = if f == "~" then host.current_home else host.home_of (without_first f)

  abbrev pub below_home : List String → Result String
  below_home [] = panic
  below_home (f ∷ parts) = do dir ← home f; host.abs (join_slash (dir ∷ parts))

  -- realPath
  unfoldable pub real_path : String → Result String
  real_path path = if not (has_tilde path) then ok path else below_home (split_on 0x2f path)

  -- NewDefFile: beside an error filepath.Abs returns the empty path.
  abbrev pub with_path : Result String → DefFile
  with_path (ok path) = record { path = path; real_path = ""; loaded = false; problem = none }
  with_path (err e) = record { path = ""; real_path = ""; loaded = false; problem = some e }
  with_path panic = record { path = ""; real_path = ""; loaded = false; problem = none }

  unfoldable pub new_def_file : String → DefFile
  new_def_file path = with_path (if not (has_tilde path) then host.abs path else ok path)

  -- The assignment f.realPath, f.err = realPath(f.path)
  abbrev pub with_real_path : DefFile → Result String → DefFile
  with_real_path f (ok path) = record f { real_path = path; problem = none }
  with_real_path f (err e) = record f { real_path = ""; problem = some e }
  with_real_path f panic = f

  abbrev pub is_given {ℓ} : {A : Type ℓ} → Option A → Bool
  is_given (some a) = true
  is_given none = false

  -- setup
  unfoldable pub setup_file : DefFile → DefFile
  setup_file f =
      if f.loaded || is_given f.problem
      then f
      else with_real_path (record f { loaded = true }) (real_path f.path)

  abbrev pub unless_problem {ℓ} : {A : Type ℓ} → Option Error → Result A → Result A
  unless_problem (some e) r = err e
  unless_problem none r = r

  -- A getter: setup, and what is read at the real path. The object is changed by setup.
  unfoldable pub file_getter {ℓ} : {A : Type ℓ} → (String → Result A) → DefFile → DefFile × Result A
  file_getter read f = let f' = setup_file f in (f', unless_problem f'.problem (read f'.real_path))

  abbrev pub exists_at : Result FileInfo → Result Bool
  exists_at (ok fi) = ok true
  exists_at (err e) = if host.is_not_exist e then ok false else err e
  exists_at panic = panic

  -- getFileInfo, Size and Filetype
  abbrev pub info {ℓ} : {A : Type ℓ} → (FileInfo → A) → String → Result A
  info select path = host.lstat path >>= λ fi. ok (select fi)

  -- getUserForUid and getGroupForGid
  unfoldable pub name_for : (database : String) → (known : Result String) → ℕ → Result String
  name_for database (ok name) id = ok name
  name_for database (err e) id = elim (host.getent database id) [
    | ok out ↦ ok (first_of (split_on colon out))
    | err x ↦ err (no_entries database x)
    | panic ↦ panic
  ]
  name_for database panic id = panic

  abbrev pub owner : String → Result String
  owner path = host.lstat path >>= λ fi. name_for "passwd" (host.user_of fi.uid) fi.uid

  abbrev pub group_name : String → Result String
  group_name path = host.lstat path >>= λ fi. name_for "group" (host.group_of fi.gid) fi.gid

  unfoldable pub hash : HashFunc → String → Result String
  hash function path = do
    reader ← host.open_file path
    text ← reader
    ok (host.hash_of function text)

  -- A file's object, whose getters are asked in any order (Again). The number of a user is printed
  -- and parsed again in the source.
  unfoldable pub sys_file : String → SysFile
  sys_file path =
      let f = new_def_file path in
      record {
        path = f.path;
        exists = (file_getter (λ p. exists_at (host.lstat p)) f).1;
        mode = (file_getter (info (λ fi. mode_text fi.stat_mode)) f).1;
        owner = (file_getter owner f).1;
        uid = (file_getter (info (λ fi. pos fi.uid)) f).1;
        group = (file_getter group_name f).1;
        gid = (file_getter (info (λ fi. pos fi.gid)) f).1;
        linked_to = (file_getter host.read_link f).1;
        filetype = (file_getter (info filetype_of) f).1;
        contents = (file_getter host.open_file f).1;
        size = (file_getter (info (λ fi. fi.size)) f).1;
        md5 = (file_getter (hash md5_hash) f).1;
        sha256 = (file_getter (hash sha256_hash) f).1;
        sha512 = (file_getter (hash sha512_hash) f).1;
      }
