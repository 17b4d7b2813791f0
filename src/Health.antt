-- ===== src/Health.antt =====
-- serve.go: the health endpoint. The texts of the formats are outside this module; a response is its
-- status code. `sort` is sort.Slice, and `validated` is what running the tests gives: the groups of
-- results, or the error of runValidation.
pub mod Answers
pub mod Tests
use goss.Base.{ℕ, zero, suc, String, Bool, ◌||◌, Option, none, some, List, [], ◌∷◌, if◌then◌else◌}
use goss.Errors.{Result, ok, err, panic, bad_accept_header, ◌>>=◌}
use goss.Outputs.{output, Groups, Format}

module _ (trim_space : String → String) (goss_format : String → Option String)
    (equal_fold : String → String → Bool) (get_outputer : String → Option Format) where
  -- The name that one value of the Accept header asks for; `goss_format` is the rest of a media type
  -- behind "application/vnd.goss-".
  abbrev pub asked_for : String → String
  asked_for candidate = elim (goss_format (trim_space candidate)) [
    | some name ↦ name
    | none ↦
        if equal_fold "application/json" (trim_space candidate)
          || equal_fold "text/json" (trim_space candidate)
        then "json"
        else ""
  ]

  -- The loop over the values: every one sets the name and the outputer, which an error sets to nil.
  unfoldable pub negotiate_from : String × Option Format → List String → String × Option Format
  negotiate_from found [] = found
  negotiate_from found (c ∷ cs) = negotiate_from (asked_for c, get_outputer (asked_for c)) cs

  -- if outputer == nil
  abbrev pub negotiated : String × Option Format → Result (String × Format)
  negotiated (name, some f) = ok (name, f)
  negotiated (name, none) = err bad_accept_header

  -- negotiateResponseContentType
  unfoldable pub negotiate : List String → Result (String × Format)
  negotiate header = negotiated (negotiate_from ("", none) header)

-- exitCode == 0
abbrev pub status_code : ℕ → ℕ
status_code zero = 200
status_code (suc n) = 503

module _ (sort : Groups → Groups) (sorting : Bool) where
  -- healthHandler.output
  unfoldable pub respond : Format → Groups → Result ℕ
  respond f gs = output f sort sorting gs >>= λ code. ok (status_code code)

  -- healthHandler.validate
  abbrev pub validate_all : Result Groups → Result Groups
  validate_all (ok gs) = ok gs
  validate_all (err e) = ok []
  validate_all panic = panic

  -- processAndEnsureCached: the response, and the cache behind it.
  unfoldable pub process_and_ensure_cached :
      Option Groups → Result Groups → Format → Result (ℕ × Option Groups)
  process_and_ensure_cached (some gs) validated f = respond f gs >>= λ status. ok (status, some gs)
  process_and_ensure_cached none validated f = do
    gs ← validate_all validated
    status ← respond f gs
    ok (status, some gs)
