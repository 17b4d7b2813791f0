-- ===== src/System/Http/Tests.antt =====
-- system/http.go: the theorem on request headers, tried on a header with a separator and on one without.
use goss.Base.{ℕ, zero, suc, String, ◌≡◌, refl, true, false, none, [], ◌∷◌, All, In}
use goss.Errors.{Result, Error, ok, err, panic, external}
use goss.System.Http.{
  Request, Response, fresh_http, sys_http, setup_real, header_lines, HttpHost, DefHttp,
  new_def_http, add_headers, split_header, with_user_agent, has_user_agent_header, has_prefix_text,
}
use goss.Base.Int.{pos}
use goss.System.Http.Headers.{HasSeparator, new_def_http-decides}
use goss.System.{HttpConfig}
use goss.Options.{zero_config}
use goss.ResourceMaps.Appends.{http_config}
use goss.Base.Maps.{insert, lookup}
use goss.System.Http.Answers.{sys_http-answers}

abbrev offline_host : HttpHost
offline_host = record {
  to_lower = λ s. s;
  canonical = λ s. s;
  version = "1.0";
  sort = λ ls. ls;
  join_lines = λ ls. "";
  parse_proxy = λ s. ok tt;
  read_roots = λ s. ok tt;
  load_pair = λ c k. ok tt;
  do_request = λ n r. err (external r.url);
}

abbrev asks_for : String → HttpConfig
asks_for header = record (http_config zero_config) { request_header = header ∷ [] }

new_def_http-decides_example :
    let rs = with_user_agent offline_host (asks_for "Accept: json").request_header in
    (All HasSeparator rs
      → (u : DefHttp) × (new_def_http offline_host (asks_for "Accept: json") "http://a" ≡ ok u)
        × (u.http ≡ "http://a"))
    × ((r : String)
        → In r rs
        → ¬ HasSeparator r
        → new_def_http offline_host (asks_for "Accept: json") "http://a" ≡ panic)
new_def_http-decides_example =
    new_def_http-decides offline_host (asks_for "Accept: json") "http://a"

abbrev asked : DefHttp
asked = record {
  http = "http://a";
  headers = ("Accept", "json" ∷ []) ∷ ("user-agent", "goss/1.0" ∷ []) ∷ [];
  response = none;
  loaded = false;
  problem = none;
}

header_is_added : new_def_http offline_host (asks_for "Accept: json") "http://a" ≡ ok asked
unfolding new_def_http add_headers split_header has_user_agent_header has_prefix_text insert lookup
header_is_added = refl

no_space_panics : new_def_http offline_host (asks_for "Accept:json") "http://a" ≡ panic
unfolding new_def_http add_headers split_header has_user_agent_header has_prefix_text
no_space_panics = refl

-- The server answers the first request only.
abbrev first_answer : Response
first_answer = record { status_code = pos 200; header = []; body = ok "once" }

abbrev busy : ℕ → Request → Result Response
busy zero r = ok first_answer
busy (suc n) r = err (external "busy")

abbrev busy_host : HttpHost
busy_host = record offline_host { do_request = busy }

sys_http-answers_example :
    let (s, runs) = sys_http busy_host (asks_for "Accept: json") (fresh_http "http://a" []) in
    let r = setup_real busy_host (asks_for "Accept: json") 0 (fresh_http "http://a" []) in
    (runs ≡ 1)
    × ((response : Response)
        → (r ≡ ok response)
        → (s.exists ≡ ok true)
          × (s.status ≡ ok response.status_code)
          × (s.headers
              ≡ ok (ok (busy_host.join_lines (busy_host.sort (header_lines response.header)))))
          × (s.body ≡ ok response.body))
    × ((e : Error)
        → (r ≡ err e)
        → (s.exists ≡ err e) × (s.status ≡ err e) × (s.headers ≡ err e) × (s.body ≡ err e))
sys_http-answers_example = sys_http-answers busy_host (asks_for "Accept: json") "http://a" []
