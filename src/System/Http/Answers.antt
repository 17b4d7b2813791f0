-- ===== src/System/Http/Answers.antt =====
-- system/http.go: the getters of a request agree.
use goss.Base.{String, ◌≡◌, refl, inl, inr, true, List}
use goss.Errors.{Result-cases, Error, ok, err}
use goss.System.Http.{
  HttpHost, fresh_http, Response, setup_real, setup_http, http_getter, sys_http, header_lines,
}
use goss.Base.Maps.{Dict}
use goss.System.{HttpConfig}

module _ (host : HttpHost) (config : HttpConfig) (http : String)
    (headers : Dict (List String)) where
  sys_http-runs : (sys_http host config (fresh_http http headers)).1 ≡ 1
  unfolding sys_http http_getter setup_http
  sys_http-runs = elim (Result-cases (setup_real host config 0 (fresh_http http headers))) [
    | inl (response, sent) ↦ rw sent refl
    | inr (inl (e, failed)) ↦ rw failed refl
    | inr (inr broken) ↦ rw broken refl
  ]

-- The status, the headers and the body of an HTTP test come from one run of the set-up and its one
-- request, though each getter asks for it and a server may answer a second request differently: where
-- that run succeeds they are those of its response, the headers as sorted lines; where the proxy, a
-- certificate or the request fails in it, all of them return that error.
pub sys_http-answers :
    (host : HttpHost) (config : HttpConfig) (http : String) (headers : Dict (List String))
    → let (s, runs) = sys_http host config (fresh_http http headers) in
      let r = setup_real host config 0 (fresh_http http headers) in
      (runs ≡ 1)
      × ((response : Response)
          → (r ≡ ok response)
          → (s.exists ≡ ok true)
            × (s.status ≡ ok response.status_code)
            × (s.headers ≡ ok (ok (host.join_lines (host.sort (header_lines response.header)))))
            × (s.body ≡ ok response.body))
      × ((e : Error)
          → (r ≡ err e)
          → (s.exists ≡ err e) × (s.status ≡ err e) × (s.headers ≡ err e) × (s.body ≡ err e))
unfolding sys_http http_getter setup_http
sys_http-answers host config http headers = (
  sys_http-runs host config http headers,
  (λ response sent. rw sent (refl, refl, refl, refl)),
  λ e failed. rw failed (refl, refl, refl, refl),
)
