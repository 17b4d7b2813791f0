-- ===== src/ResourceMaps/Getters.antt =====
-- resource/resource.go, command.go: what the New functions do with the getters of a system object.
use goss.Base.{
  ℕ, String, Bool, false, ◌||◌, not, List, [], ◌∷◌, map, ◌==◌, eqb, if◌then◌else◌, any_of, keep,
}
use goss.Options.{RuntimeConfig}
use goss.Kinds.{Common}
use goss.ResourceMaps.{AddHost}
use goss.Errors.{Result, ok, err, panic, ◌>>=◌}
use goss.Value.{Value, null, num, int, str, strs, end}
use Prim.Native.String.{◌++◌ as str_append}
use Prim.Native.Char.{code}
use goss.Base.Int.{ℤ}

-- The part that every struct has, when only `id` is set.
abbrev pub common_named : String → Common
common_named id = record {
  register = "";
  depends_on = [];
  title = "";
  meta = end;
  id = id;
  skip = false;
}

abbrev starts_with : (char_code : ℕ) → String → Bool
starts_with a String.[] = false
starts_with a (String.◌∷◌ c s) = eqb (code c) a

-- escapePattern: texts that would be read as a pattern
unfoldable pub escape_pattern : String → String
escape_pattern s = if starts_with 0x21 s || starts_with 0x2f s then str_append "\\" s else s

abbrev pub int_value : ℤ → Value
int_value n = num (int n)

-- The value of a getter, or the zero value beside an error that is dropped.
abbrev pub or_zero {ℓ} : {A : Type ℓ} → A → Result A → Result A
or_zero zero_value (ok a) = ok a
or_zero zero_value (err e) = ok zero_value
or_zero zero_value panic = panic

-- `if v, err := getter(); err == nil { field = v }`
abbrev pub if_found {ℓ} : {A : Type ℓ} → (A → Value) → Result A → Result Value
if_found f (ok a) = ok (f a)
if_found f (err e) = ok null
if_found f panic = panic

module _ (host : AddHost) where
  -- contains
  unfoldable pub contains_match : List String → String → Bool
  contains_match a s = any_of (λ e. host.glob_match e s) a

  -- The getter of an attribute that the configuration does not ignore.
  abbrev pub unless_ignored {ℓ} :
      {A : Type ℓ} → RuntimeConfig → String → (A → Value) → Result A → Result Value
  unless_ignored config attr f r =
      if contains_match config.ignore_list attr then ok null else if_found f r

  abbrev pub is_blank : String → Bool
  is_blank s = s == ""

  -- readerToSlice
  unfoldable pub reader_to_slice : String → List String
  unfolding escape_pattern
  reader_to_slice text =
      keep (λ l. not (is_blank l))
        (map (λ l. escape_pattern (host.trim_space l)) (host.scan_lines text))

  -- c.Stdout = "", and the lines of the output where there are any
  abbrev pub lines_value : List String → Value
  lines_value [] = str ""
  lines_value (l ∷ ls) = strs (l ∷ ls)

  abbrev pub output_lines : Result (Result String) → Result Value
  output_lines (ok text) = or_zero "" text >>= λ t. ok (lines_value (reader_to_slice t))
  output_lines (err e) = ok (str "")
  output_lines panic = panic

  abbrev pub output_value : RuntimeConfig → String → Result (Result String) → Result Value
  output_value config attr out =
      if contains_match config.ignore_list attr then ok (str "") else output_lines out
