-- ===== src/Health/Tests.antt =====
-- Requests to the health endpoint.
use goss.Base.{String, ◌≡◌, refl, false, Option, none, some, [], ◌∷◌, ◌++◌, ◌==◌, if◌then◌else◌}
use goss.Health.Answers.{process_and_ensure_cached-answers, negotiate_last}
use goss.Samples.{offline, unset}
use goss.Errors.{bad_accept_header, err, ok}
use goss.Health.{negotiate_from, process_and_ensure_cached, negotiate}
use goss.Outputs.{Format, Groups, json, tap}
use goss.TestResult.{success, fail}

abbrev as_is : String → String
as_is s = s

abbrev vendor : String → Option String
vendor s = if s == "application/vnd.goss-tap" then some "tap" else none

abbrev known : String → Option Format
known name = if name == "tap" then some tap else if name == "json" then some json else none

last_is_unknown :
    negotiate as_is vendor ◌==◌ known ("application/json" ∷ "*/*" ∷ []) ≡ err bad_accept_header
unfolding negotiate negotiate_from
last_is_unknown = refl

last_decides :
    negotiate as_is vendor ◌==◌ known (("*/*" ∷ []) ++ "application/json" ∷ [])
    ≡ negotiate as_is vendor ◌==◌ known ("application/json" ∷ [])
last_decides = negotiate_last as_is vendor ◌==◌ known ("*/*" ∷ []) "application/json"

abbrev in_order : Groups → Groups
in_order gs = gs

abbrev one_fails : Groups
one_fails = (record unset { result = fail } ∷ []) ∷ (record unset { result = success } ∷ []) ∷ []

process_and_ensure_cached-answers_example :
    (process_and_ensure_cached in_order false none (ok one_fails) json ≡ ok (503, some one_fails))
    × (process_and_ensure_cached in_order false (some one_fails) (ok []) json
        ≡ ok (503, some one_fails))
    × (process_and_ensure_cached in_order false none (err offline) json ≡ ok (200, some []))
process_and_ensure_cached-answers_example =
    process_and_ensure_cached-answers in_order (λ P gs h. h) (λ w gs. refl) false json one_fails
      (ok []) offline ((refl, (refl, tt)), ((refl, (refl, tt)), tt))
