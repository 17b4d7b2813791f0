-- ===== src/Samples.antt =====
-- Concrete libraries, a machine and resources, on which the theorems are tried. The libraries here
-- are small functions of the same types, not the ones that the program links.
use goss.Base.{String, Bool, true, false, not, none, List, [], ◌∷◌, ◌==◌}
use goss.TestResult.{no_match, unknown, TestResult}
use goss.Base.Int.{pos}
use goss.Validation.{Clock}
use goss.Errors.{external, err, ok, Error, Result}
use goss.Kinds.{FileResource, Common}
use goss.System.{System}
use goss.Resource.{Resource, file}
use goss.Libraries.{Libraries}
use goss.Value.{Value, null, str, bool, int, end}

abbrev pub offline : Error
offline = external "no such object"

abbrev no {ℓ} : {A : Type ℓ} → Result A
no = err offline

-- The same text, or the same truth value.
abbrev same : Value → Value → Bool
same (str a) (str b) = a == b
same (bool true) (bool b) = b
same (bool false) (bool b) = not b
same _ _ = false

abbrev pub plain : Libraries
plain = record {
  equals = λ a b. ok (same a b);
  has_prefix = λ p v. no;
  has_suffix = λ p v. no;
  matches_regexp = λ p v. no;
  contains_substring = λ p v. no;
  has_len = λ n v. no;
  has_key = λ t v. no;
  contains_element = λ t v. no;
  contains_elements = λ ts v. no;
  consists_of = λ ts v. no;
  compares = λ o c v. no;
  parse_float = λ s. no;
  parse_float_partial = λ s. int (pos 0);
  trim_space = λ s. s;
  sprint = λ v. "v";
  sprint_type = λ v. "object: v";
  deep_equal = same;
  join_lines = λ ls. "lines";
  split_lines = λ s. s ∷ [];
  truncate = λ b. pos b;
  to_float = λ n. 0;
  atoi = λ s. none;
  json_valid = λ s. false;
  json_get = λ j p. none;
  parse_range = λ s. none;
  is_version = λ s. false;
  compile = λ t. no;
  scan = λ s. record { lines = []; failure = none };
}

-- A machine that answers nothing but whether a file is there: it is not.
abbrev pub machine : System
machine = record {
  new_file = λ n. record {
    path = n;
    exists = ok false;
    mode = no;
    owner = no;
    uid = no;
    group = no;
    gid = no;
    linked_to = no;
    filetype = no;
    contents = no;
    size = no;
    md5 = no;
    sha256 = no;
    sha512 = no;
  };
  new_package = λ n. record { name = n; exists = no; installed = no; versions = no };
  new_addr = λ a t l. record { address = a; exists = no; reachable = no };
  new_port = λ n. record { port = n; exists = no; listening = no; ip = no; pid = no };
  new_service =
      λ n. record { service = n; exists = no; enabled = no; running = no; run_levels = no };
  new_user = λ n. record {
    username = n;
    exists = no;
    uid = no;
    gid = no;
    home = no;
    groups = no;
    shell = no;
  };
  new_group = λ n. record { groupname = n; exists = no; gid = no };
  new_command =
      λ e t. record { command = e; exists = ok false; exit_status = no; stdout = no; stderr = no };
  new_dns = λ r t s. record {
    host = r;
    qtype = "";
    server = s;
    exists = ok false;
    resolvable = no;
    addrs = no;
  };
  new_process =
      λ n. record { executable = n; exists = no; running = no; status = no; user = no; pids = no };
  new_kernel_param = λ n. record { key = n; exists = ok false; value = no };
  new_mount = λ m t. record {
    mount_point = m;
    exists = no;
    opts = no;
    vfs_opts = no;
    source = no;
    filesystem = no;
    usage = no;
  };
  new_interface = λ n. record { name = n; exists = no; addrs = no; mtu = no };
  new_http = λ u c. record { http = u; exists = no; status = no; headers = no; body = no };
  new_registry = λ n. record { key = n; exists = no; value = no; type = no };
  new_gossfile = λ n. record { path = n; exists = ok false };
}

abbrev pub plain_common : String → Bool → Common
plain_common id skip = record {
  register = "";
  depends_on = [];
  title = "";
  meta = end;
  id = id;
  skip = skip;
}

-- A file that should exist, with the mode 0644.
abbrev pub sample_file : String → Bool → FileResource
sample_file id skip = record {
  common = plain_common id skip;
  path = id;
  exists = bool true;
  mode = str "0644";
  size = null;
  owner = null;
  uid = null;
  group = null;
  gid = null;
  linked_to = null;
  filetype = null;
  contains = null;
  contents = null;
  md5 = null;
  sha256 = null;
  sha512 = null;
}

abbrev pub absent_file : Resource
absent_file = file (sample_file "/etc/none" false)

abbrev pub skipped_file : Resource
skipped_file = file (sample_file "/etc/none" true)

abbrev pub at_once : Resource → Clock
at_once r property = record { start = 1; finish = 2 }

-- The values in a result, and others where there are none.
abbrev pub unset : TestResult
unset = record {
  skipped = false;
  resource_id = "";
  resource_type = "";
  property = "";
  title = "";
  meta = end;
  result = unknown;
  failure = none;
  matcher_result = no_match;
  span = record { start = 0; finish = 0 };
}

abbrev pub first : Result (List TestResult) → TestResult
first (ok (t ∷ ts)) = t
first _ = unset

abbrev pub others : Result (List TestResult) → List TestResult
others (ok (t ∷ ts)) = ts
others _ = []

abbrev pub result_of : Result TestResult → TestResult
result_of (ok t) = t
result_of _ = unset
