-- ===== src/Store/Tests.antt =====
-- Loading on a host whose files are told here.
use goss.Store.Merged.{tests, Holds, Included, itself, through, Steps}
use goss.Base.{
  ◌≤◌, String, ◌≡◌, refl, ◌≢◌, ◌↔◌, inl, Bool, false, some, [], ◌∷◌, arith, ◌==◌, if◌then◌else◌, In,
}
use goss.Store.{Host, merge_json_data, merge_gossfiles, merge_matches}
use goss.Store.Depth.{merge_json_data-ne-panic}
use goss.Store.Merged.Kept.{merge_json_data-Holds}
use goss.Store.Merged.Nesting.{merge_json_data-Nested, deeper, flat}
use goss.Store.Merged.Cycles.{merge_json_data-ring}
use goss.Store.Vars.{
  discovered_from_vars, load_vars_for_templates, load_vars, load_files, vars_from_string,
}
use goss.Store.Vars.Phase.{load_vars_for_templates-validate_discovery}
use goss.Store.Load.{LoadOptions, load_goss_config_with_discover}
use goss.Store.Load.Twice.{load_goss_config_with_discover-stdin}
use goss.Discovery.Tests.{two_tests, any_order, fails_everywhere, two_tests_are_answered, test_of}
use goss.Config.{GossConfig, new_goss_config, merge_goss, merge_map, merge_sections, resources_of}
use goss.Config.Merge.{files_kind}
use goss.TestResult.{TestResult, fail}
use goss.Value.{Value, null, bool, obj, field, end}
use goss.Errors.{Error, Result, ok, err, panic, external}
use goss.Base.Maps.{lookup, insert, Dict}

-- Every text is YAML; a pattern matches the one file of its name.
abbrev pub plain_host : Host
plain_host = record {
  read_file = λ path. err (external path);
  glob = λ pattern. ok (pattern ∷ []);
  ext = λ path. ".yaml";
  dir = λ path. "/";
  join = λ dir path. path;
  sort = λ ks. ks;
  json_any = λ text. err (external text);
  yaml_any = λ text. ok null;
  json_config = λ text. err (external text);
  yaml_config = λ text. ok new_goss_config;
  json_vars = λ text. err (external text);
  yaml_vars = λ text. ok [];
  merge_vars = λ old new. ok (merge_map old new);
  execute = λ m tv text. ok text;
}

abbrev including : String → GossConfig
including path = record new_goss_config {
  gossfiles =
      (
        "next",
        record {
          register = "";
          depends_on = [];
          title = "";
          meta = end;
          path = path;
          skip = false;
          file = "";
        },
      )
      ∷ [];
}

abbrev leaf : GossConfig
leaf = record new_goss_config { sections = two_tests }

-- `/loop.yaml` includes itself, and `/leaf.yaml` has two tests.
abbrev read_plain : String → Result GossConfig
read_plain path =
    if path == "/loop.yaml"
    then ok (including "/loop.yaml")
    else if path == "/leaf.yaml"
    then ok leaf
    else err (external path)

read_plain-ne-panic : (path : String) → read_plain path ≢ panic
read_plain-ne-panic path = ground arith

merge_json_data-ne-panic_example :
    merge_json_data plain_host read_plain 50 (including "/loop.yaml") 0 "/" ≢ panic
merge_json_data-ne-panic_example =
    merge_json_data-ne-panic plain_host read_plain read_plain-ne-panic (λ path e. cc e)
      (λ ks k h. h) 50 0 (including "/loop.yaml") "/" (omega arith) (omega arith)

-- The one gossfile of the ring.
abbrev Loops : GossConfig → String → Type 0
Loops c path = c ≡ including "/loop.yaml"

loop-Steps :
    (path : String)
    → Steps plain_host read_plain
        (including "/loop.yaml")
        path
        "/loop.yaml"
        (including "/loop.yaml")
unfolding lookup
loop-Steps path = (
  "next",
  record {
    register = "";
    depends_on = [];
    title = "";
    meta = end;
    path = "/loop.yaml";
    skip = false;
    file = "";
  },
  "/loop.yaml" ∷ [],
  inl refl,
  refl,
  refl,
  refl,
  inl refl,
  refl,
)

merge_json_data-ring_example :
    (e : Error) × (merge_json_data plain_host read_plain 50 (including "/loop.yaml") 0 "/" ≡ err e)
merge_json_data-ring_example =
    merge_json_data-ring plain_host read_plain Loops
      (λ c path e. rw e ("/loop.yaml", including "/loop.yaml", loop-Steps path, refl))
      read_plain-ne-panic (λ path e. cc e) (λ ks k h. h) (including "/loop.yaml") "/" refl

leaf_is_loaded : merge_json_data plain_host read_plain 50 (including "/leaf.yaml") 0 "/" ≡ ok leaf
unfolding merge_json_data merge_gossfiles merge_matches merge_goss merge_sections merge_map lookup
    insert
leaf_is_loaded = refl

leaf-Steps : Steps plain_host read_plain (including "/leaf.yaml") "/" "/leaf.yaml" leaf
unfolding lookup
leaf-Steps = (
  "next",
  record {
    register = "";
    depends_on = [];
    title = "";
    meta = end;
    path = "/leaf.yaml";
    skip = false;
    file = "";
  },
  "/leaf.yaml" ∷ [],
  inl refl,
  refl,
  refl,
  refl,
  inl refl,
  refl,
)

leaf-Included : Included plain_host read_plain (including "/leaf.yaml") "/" leaf
leaf-Included =
    through (including "/leaf.yaml") "/" "/leaf.yaml" leaf leaf leaf-Steps (itself leaf "/")

merge_json_data-Nested_example : 1 ≤ 48
merge_json_data-Nested_example =
    merge_json_data-Nested plain_host read_plain 1 (including "/leaf.yaml") "/" leaf leaf_is_loaded
      (deeper 0 (including "/leaf.yaml") "/" "/leaf.yaml" leaf leaf-Steps (flat leaf "/"))

merge_json_data-Holds_example : Holds (tests files_kind) "/a" leaf
unfolding lookup
merge_json_data-Holds_example =
    merge_json_data-Holds plain_host read_plain 50 0 (including "/leaf.yaml") "/" leaf leaf
      (tests files_kind) "/a" leaf_is_loaded leaf-Included (λ e. cc e)

abbrev answers : Dict Bool
answers = ("has_a", false) ∷ ("has_b", false) ∷ []

abbrev answered : Dict Value
answered = ("Discovered", obj (field "has_a" (bool false) (field "has_b" (bool false) end))) ∷ []

answers_are_loaded : load_vars_for_templates plain_host [] "" answers ≡ ok answered
unfolding load_vars_for_templates load_vars load_files vars_from_string discovered_from_vars
    merge_map lookup insert
answers_are_loaded = refl

nothing_inline : vars_from_string plain_host "" ≡ ok []
unfolding vars_from_string
nothing_inline = refl

load_vars_for_templates-validate_discovery_example :
    (answer : Bool) × (lookup "has_a" (discovered_from_vars answered) ≡ some (bool answer))
    × ((answer ≡ false)
        ↔ (t : TestResult) × In t (fails_everywhere (test_of "/a" "has_a")) × (t.result ≡ fail))
unfolding lookup resources_of
load_vars_for_templates-validate_discovery_example =
    load_vars_for_templates-validate_discovery fails_everywhere any_order (λ es e. (λ h. h, λ h. h))
      (λ k es. refl) two_tests answers two_tests_are_answered plain_host [] "" [] answered
      answers_are_loaded nothing_inline tt refl (test_of "/a" "has_a") (inl refl)

abbrev from_stdin : LoadOptions
from_stdin = record {
  vars_files = [];
  vars_inline = "";
  spec = "-";
  discover_spec = "";
  output_format = "rspecish";
}

load_goss_config_with_discover-stdin_example :
    load_goss_config_with_discover plain_host fails_everywhere any_order from_stdin (ok "file: {}")
    ≢ ok leaf
load_goss_config_with_discover-stdin_example =
    load_goss_config_with_discover-stdin plain_host (external "") null refl refl refl refl
      (λ m tv. refl) fails_everywhere any_order from_stdin (ok "file: {}") leaf refl refl refl
