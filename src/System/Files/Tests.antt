-- ===== src/System/Files/Tests.antt =====
-- system/file.go: the theorems on files, tried on a machine where every path is a directory.
use goss.System.Files.{
  name_for, setup_file, FileHost, FileInfo, new_def_file, file_getter, mode_text, sys_file,
  real_path, join_slash,
}
use goss.Base.{◌≡◌, refl, true, false}
use goss.System.Files.Again.{file_getter-again}
use goss.System.Accounts.{split_on}
use goss.Errors.{ok, err, external}
use goss.Base.Int.{pos}

abbrev folder : FileInfo
folder = record {
  symlink = false;
  device = false;
  char_device = false;
  named_pipe = false;
  socket = false;
  dir = true;
  size = pos 4096;
  stat_mode = 17407;
  uid = 0;
  gid = 0;
}

abbrev folders : FileHost
folders = record {
  abs = λ p. ok p;
  current_home = ok "/root";
  home_of = λ u. err (external u);
  lstat = λ p. ok folder;
  is_not_exist = λ e. true;
  open_file = λ p. err (external p);
  read_link = λ p. err (external p);
  hash_of = λ f t. "";
  user_of = λ n. ok "root";
  group_of = λ n. err (external "no group");
  getent = λ d n. ok "wheel:x:0:";
}

link_is_the_same :
    file_getter folders folders.read_link
      (file_getter folders folders.lstat (new_def_file folders "~/a")).0
    ≡ file_getter folders folders.read_link (new_def_file folders "~/a")
link_is_the_same =
    file_getter-again folders folders.read_link folders.lstat (new_def_file folders "~/a")

sticky_folder : (sys_file folders "~/a").mode ≡ ok "1777"
unfolding sys_file new_def_file file_getter setup_file real_path split_on join_slash mode_text
sticky_folder = refl

group_by_getent : (sys_file folders "/tmp").group ≡ ok "wheel"
unfolding sys_file new_def_file file_getter setup_file real_path split_on name_for
group_by_getent = refl
