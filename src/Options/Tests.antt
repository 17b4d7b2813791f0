-- ===== src/Options/Tests.antt =====
-- util/config.go: the theorem on the options, tried on concrete ones.
use goss.Base.{String, List, [], ◌∷◌}
use goss.Options.Settings.{
  Setting, output_format_named, sleeping, debugging, more_format_options, vars_value, with_colors,
}
use goss.Errors.{Result, ok}
use goss.Base.Int.{pos}
use goss.Value.{Value, null}

abbrev marshal_null : Value → Result String
marshal_null v = ok "null"

abbrev given : List Setting
given =
    output_format_named "tap"
    ∷ more_format_options ("pretty" ∷ [])
    ∷ sleeping (pos 7)
    ∷ vars_value null
    ∷ output_format_named "json"
    ∷ more_format_options ("sort" ∷ [])
    ∷ debugging
    ∷ with_colors
    ∷ []
