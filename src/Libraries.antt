-- ===== src/Libraries.antt =====
-- The code outside src/ that matchers/ and resource/ call: gomega, gjson, semver, regexp, strconv.
use goss.Base.{ℕ, String, Bool, Option, List}
use goss.Value.{Number, Value}
use goss.Base.Int.{ℤ}
use goss.Patterns.{Scan, Text}
use goss.Errors.{Result}

abbrev pub Test : Type 0
Test = Value → Result Bool

-- The code outside src/ that the matchers call. The expected value comes first, then the actual.
pub record Libraries : Type 0 where
  -- github.com/onsi/gomega/matchers
  pub equals : Value → Test
  pub has_prefix : String → Test
  pub has_suffix : String → Test
  pub matches_regexp : String → Test
  pub contains_substring : String → Test
  pub has_len : ℤ → Test
  pub has_key : Test → Test
  pub contains_element : Test → Test
  pub contains_elements : List Test → Test
  pub consists_of : List Test → Test
  pub compares : (symbol : String) (compare_to : Value) → Test
  -- strconv.ParseFloat(s, 64), strings.TrimSpace, fmt.Sprintf("%v", v), reflect.DeepEqual
  pub parse_float : String → Result Number
  -- the number that ParseFloat returns beside an error
  pub parse_float_partial : String → Number
  pub trim_space : String → String
  pub sprint : Value → String
  -- fmt.Sprintf("object: %T", v)
  pub sprint_type : Value → String
  pub deep_equal : Value → Value → Bool
  -- strings.Join(s, "\n"), strings.Split(s, "\n")
  pub join_lines : List String → String
  pub split_lines : String → List String
  -- int(f), float64(i), strconv.Atoi
  pub truncate : (bits : ℕ) → ℤ
  pub to_float : ℤ → ℕ
  pub atoi : String → Option ℤ
  -- gjson.Valid, gjson.Get
  pub json_valid : String → Bool
  pub json_get : (json path : String) → Option Value
  -- semver.ParseRange, and whether semver.Parse accepts a text; a version is kept as its text
  pub parse_range : String → Option (String → Bool)
  pub is_version : String → Bool
  -- regexp.Compile and bufio.Scanner, for have-patterns
  pub compile : Text → Result (Text → Bool)
  pub scan : String → Scan
