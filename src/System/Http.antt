-- ===== src/System/Http.antt =====
-- system/http.go: the object of a request. What url.Parse, os, crypto, net/http and net/textproto
-- answer is the record HttpHost.
pub mod Headers
pub mod Answers
pub mod Tests
use goss.Base.{
  ℕ, suc, String, Bool, true, false, ◌&&◌, ◌||◌, not, Option, none, some, List, [], ◌∷◌, ◌++◌, map,
  ◌==◌, eqb, if◌then◌else◌, any_of, append_at,
}
use goss.Base.Maps.{lookup, Dict}
use goss.System.{HttpConfig, SysHttp}
use goss.Errors.{Error, Result, ok, err, panic, ◌>>=◌}
use goss.Base.Int.{ℤ, pos}
use Prim.Native.Char.{Char, code}
use Prim.Native.String.{◌++◌ as str_append}

-- http.Response, the parts that are read
pub record Response : Type 0 where
  pub status_code : ℤ
  pub header : Dict (List String)
  pub body : Result String

-- What http.Client and http.Request are given
pub record Request : Type 0 where
  pub method : String
  pub url : String
  pub request_body : String
  pub headers : Dict (List String)
  pub query : List (String × String)
  pub host_name : Option String
  pub basic_auth : Option (String × String)
  pub proxy : Option String
  pub insecure : Bool
  pub roots : Option String
  pub pair : Option (String × String)
  pub follow_redirects : Bool
  pub timeout : ℤ

pub record HttpHost : Type 0 where
  pub to_lower : String → String
  -- the key of a header, as Header.Add writes it
  pub canonical : String → String
  pub version : String
  -- sort.Strings and strings.Join with a line break
  pub sort : List String → List String
  pub join_lines : List String → String
  -- the errors of url.Parse, of reading CAFile and of loading CertFile and KeyFile
  pub parse_proxy : String → Result (Unit {0})
  pub read_roots : String → Result (Unit {0})
  pub load_pair : (cert_file key_file : String) → Result (Unit {0})
  -- http.NewRequest and client.Do: `do_request n` answers in the n-th run of the set-up, counted from
  -- 0, since a server may answer the same request differently
  pub do_request : ℕ → Request → Result Response

-- strings.SplitN(r, ": ", 2) where it has two parts
abbrev pub separates : Char → String → Bool
separates c String.[] = false
separates c (String.◌∷◌ d s) = eqb (code c) 0x3a && eqb (code d) 0x20

abbrev pub without_space : String → String
without_space String.[] = ""
without_space (String.◌∷◌ d s) = s

abbrev pub split_here :
    (here : Bool) → Char → String → Option (String × String) → Option (String × String)
split_here true c s later = some ("", without_space s)
split_here false c s (some (key, value)) = some (String.◌∷◌ c key, value)
split_here false c s none = none

unfoldable pub split_header : String → Option (String × String)
split_header String.[] = none
split_header (String.◌∷◌ c s) = split_here (separates c s) c s (split_header s)

-- strings.HasPrefix
unfoldable pub has_prefix_text : (prefix s : String) → Bool
has_prefix_text String.[] s = true
has_prefix_text (String.◌∷◌ c p) String.[] = false
has_prefix_text (String.◌∷◌ c p) (String.◌∷◌ d s) = eqb (code c) (code d) && has_prefix_text p s

-- HeaderToArray, in front of its sort
abbrev pub lines_of : (name : String) → List String → List String
lines_of name values = map (λ v. str_append name (str_append ": " v)) values

unfoldable pub header_lines : Dict (List String) → List String
header_lines [] = []
header_lines ((name, values) ∷ header) = lines_of name values ++ header_lines header

-- DefHTTP: the request, and what setup leaves
pub record DefHttp : Type 0 where
  pub http : String
  pub headers : Dict (List String)
  pub response : Option Response
  pub loaded : Bool
  pub problem : Option Error

abbrev pub fresh_http : (http : String) → (headers : Dict (List String)) → DefHttp
fresh_http http headers = record {
  http = http;
  headers = headers;
  response = none;
  loaded = false;
  problem = none;
}

module _ (host : HttpHost) where
  unfoldable pub has_user_agent_header : List String → Bool
  unfolding has_prefix_text
  has_user_agent_header headers =
      any_of (λ h. has_prefix_text "user-agent:" (host.to_lower h)) headers

  -- The request headers, with the default for the user agent
  abbrev pub with_user_agent : List String → List String
  with_user_agent headers =
      if has_user_agent_header headers
      then headers
      else headers
        ++ str_append "user-agent:" (str_append " " (str_append "goss/" host.version)) ∷ []

  -- The loop over the headers: str[1] of a header without ": " is out of range.
  unfoldable pub add_headers : List String → Dict (List String) → Result (Dict (List String))
  add_headers [] headers = ok headers
  add_headers (r ∷ rs) headers = elim (split_header r) [
    | some (key, value) ↦ add_headers rs (append_at (host.canonical key) value headers)
    | none ↦ panic
  ]

  unfoldable pub new_def_http : HttpConfig → String → Result DefHttp
  new_def_http config http = do
    headers ← add_headers (with_user_agent config.request_header) []
    ok (fresh_http http headers)

  module _ (config : HttpConfig) where
    abbrev pub unless_empty : String → Result (Unit {0}) → Result (Unit {0})
    unless_empty name r = if name == "" then ok tt else r

    abbrev pub given : String → Option String
    given s = if s == "" then none else some s

    -- The key pair, where both files are named
    abbrev pub given_pair : Option (String × String)
    given_pair =
        if not (config.cert_file == "") && not (config.key_file == "")
        then some (config.cert_file, config.key_file)
        else none

    -- SetBasicAuth
    abbrev pub given_auth : Option (String × String)
    given_auth =
        if not (config.username == "") || not (config.password == "")
        then some (config.username, config.password)
        else none

    -- req.Header.Get("Host")
    abbrev pub host_header : Option (List String) → Option String
    host_header (some (h ∷ hs)) = given h
    host_header (some []) = none
    host_header none = none

    unfoldable pub query_of : List (String × List String) → List (String × String)
    query_of [] = []
    query_of ((k, params) ∷ rest) = map (λ param. (k, param)) params ++ query_of rest

    abbrev pub request_of : DefHttp → Request
    request_of u = record {
      method = config.method;
      url = u.http;
      request_body = config.request_body;
      headers = u.headers;
      query = query_of config.request_query_params;
      host_name = host_header (lookup (host.canonical "Host") u.headers);
      basic_auth = given_auth;
      proxy = given config.proxy;
      insecure = config.allow_insecure;
      roots = given config.ca_file;
      pair = given_pair;
      follow_redirects = not config.no_follow_redirects;
      timeout = config.timeout;
    }

    -- setupReal
    unfoldable pub setup_real : (runs : ℕ) → DefHttp → Result Response
    setup_real n u = do
      proxy ← unless_empty config.proxy (host.parse_proxy config.proxy)
      roots ← unless_empty config.ca_file (host.read_roots config.ca_file)
      pair ←
          unless_empty config.cert_file
            (unless_empty config.key_file (host.load_pair config.cert_file config.key_file))
      host.do_request n (request_of u)

    abbrev pub with_response : DefHttp → Result Response → DefHttp
    with_response u (ok response) = record u { response = some response }
    with_response u (err e) = record u { problem = some e }
    with_response u panic = u

    -- setup, with the number of runs of setupReal that is passed on beside the object
    unfoldable pub setup_http : ℕ × DefHttp → ℕ × DefHttp
    setup_http (n, u) =
        if u.loaded
        then (n, u)
        else (suc n, with_response (record u { loaded = true }) (setup_real n u))

    abbrev pub respond_with {ℓ} : {A : Type ℓ} → (Response → A) → DefHttp → Result A
    respond_with read u = elim u.problem [
      | some e ↦ err e
      | none ↦ elim u.response [ some response ↦ ok (read response) | none ↦ panic ]
    ]

    -- A getter: setup, and what is read of the response.
    unfoldable pub http_getter {ℓ} :
        {A : Type ℓ} → (Response → A) → ℕ × DefHttp → (ℕ × DefHttp) × Result A
    http_getter read s = let s' = setup_http s in (s', respond_with read s'.1)

    abbrev pub headers_text : Response → Result String
    headers_text r = ok (host.join_lines (host.sort (header_lines r.header)))

    -- Status, Headers and Body in the order of the validation, on one object, with the number of runs
    -- of setupReal behind them
    unfoldable pub sys_http : DefHttp → SysHttp × ℕ
    sys_http u =
        let (s1, status) = http_getter (λ r. r.status_code) (0, u) in
        let (s2, headers) = http_getter headers_text s1 in
        let (s3, body) = http_getter (λ r. r.body) s2 in
        let answers : SysHttp = record {
          http = u.http;
          exists = status >>= λ n. ok true;
          status = status;
          headers = headers;
          body = body;
        } in
        (answers, s3.0)
