-- ===== src/System/Files/Modes.antt =====
-- system/file_posix.go: the text of a file's mode.
use goss.Base.{ℕ, suc, ◌+◌, ◌-◌, ◌*◌, String}
use Prim.Native.Char.{code}

-- The number that a text of octal digits stands for, behind the digits read so far
abbrev pub octal_from : ℕ → String → ℕ
octal_from n String.[] = n
octal_from n (String.◌∷◌ c s) = octal_from (8 * n + (code c - 0x30)) s

abbrev pub text_length : String → ℕ
text_length String.[] = 0
text_length (String.◌∷◌ c s) = suc (text_length s)
