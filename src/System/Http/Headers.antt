-- ===== src/System/Http/Headers.antt =====
-- system/http.go: which request headers an HTTP test may have.
use goss.Base.{
  ℕ, String, ◌≡◌, refl, sym, ap, ◌∙◌, ◌≢◌, inl, inr, Bool, true, false, ◌&&◌, Option, none, some,
  List, [], ◌∷◌, arith, eqb, Option-cases, All, In, append_at,
}
use Prim.Native.String.{◌++◌ as str_append}
use Prim.Native.Char.{Char, code, char}
use text.Mathlib.TextEquality.{Char-path}
use text.Mathlib.TextLemmas.{nil-append, cons-append}
use goss.System.Http.{
  HttpHost, DefHttp, split_header, separates, without_space, split_here, fresh_http, add_headers,
  new_def_http, with_user_agent,
}
use goss.System.{HttpConfig}
use goss.Errors.{ok, panic}
use goss.Base.Maps.{Dict}

-- A text with a colon and a space somewhere in it.
abbrev pub HasSeparator : String → Type 0
HasSeparator r = (key : String) × (value : String) × (str_append key (str_append ": " value) ≡ r)

separator-append :
    (s : String) → str_append ": " s ≡ String.◌∷◌ (char 0x3a tt) (String.◌∷◌ (char 0x20 tt) s)
separator-append s =
    cons-append (char 0x3a tt) (String.◌∷◌ (char 0x20 tt) String.[]) s
    ∙ ap (λ t. String.◌∷◌ (char 0x3a tt) t)
        (cons-append (char 0x20 tt) String.[] s
          ∙ ap (λ t. String.◌∷◌ (char 0x20 tt) t) (nil-append s))

both_eqb : (a b c d : ℕ) → (eqb a b && eqb c d ≡ true) → (b ≡ a) × (d ≡ c)
both_eqb a b c d e = (ground (arith, e), ground (arith, e))

-- At a colon in front of a space, the rest is the text behind both.
separates-joins :
    (c : Char) (s : String)
    → (separates c s ≡ true)
    → str_append ": " (without_space s) ≡ String.◌∷◌ c s
separates-joins c String.[] e = absurd (cc e)
separates-joins c (String.◌∷◌ d s) e =
    separator-append s
    ∙ ap (λ x. String.◌∷◌ x (String.◌∷◌ (char 0x20 tt) s))
        (Char-path (char 0x3a tt) c (both_eqb (code c) 0x3a (code d) 0x20 e).0)
    ∙ ap (λ x. String.◌∷◌ c (String.◌∷◌ x s))
        (Char-path (char 0x20 tt) d (both_eqb (code c) 0x3a (code d) 0x20 e).1)

split_here-HasSeparator :
    (b : Bool) (c : Char) (s : String) (later : Option (String × String)) (p : String × String)
    → (separates c s ≡ b)
    → ((q : String × String) → (later ≡ some q) → HasSeparator s)
    → (split_here b c s later ≡ some p)
    → HasSeparator (String.◌∷◌ c s)
split_here-HasSeparator true c s later p here old e =
    ("", without_space s, nil-append (str_append ": " (without_space s)) ∙ separates-joins c s here)
split_here-HasSeparator false c s (some q) p here old e =
    let (key, value, joins) = old q refl in
    (
      String.◌∷◌ c key,
      value,
      cons-append c key (str_append ": " value) ∙ ap (λ t. String.◌∷◌ c t) joins,
    )
split_here-HasSeparator false c s none p here old e = absurd (cc e)

split_header-HasSeparator :
    (r : String) (p : String × String) → (split_header r ≡ some p) → HasSeparator r
unfolding split_header
split_header-HasSeparator String.[] p e = absurd (cc e)
split_header-HasSeparator (String.◌∷◌ c s) p e =
    split_here-HasSeparator (separates c s) c s (split_header s) p refl
      (split_header-HasSeparator s) e

split_here-ne-none :
    (b : Bool) (c : Char) (s : String) (q : String × String) → split_here b c s (some q) ≢ none
split_here-ne-none true c s q e = cc e
split_here-ne-none false c s q e = cc e

joined-ne-none : (key value : String) → split_header (str_append key (str_append ": " value)) ≢ none
unfolding split_header
joined-ne-none String.[] value e =
    cc (rw (nil-append (str_append ": " value) ∙ separator-append value) at e)
joined-ne-none (String.◌∷◌ c key) value e =
    elim (Option-cases (split_header (str_append key (str_append ": " value)))) [
      | inl bare ↦ joined-ne-none key value bare
      | inr (q, later) ↦
          split_here-ne-none (separates c (str_append key (str_append ": " value))) c
            (str_append key (str_append ": " value)) q
            (ap
                (split_here (separates c (str_append key (str_append ": " value))) c
                  (str_append key (str_append ": " value)))
                (sym later)
              ∙ ap split_header (sym (cons-append c key (str_append ": " value)))
              ∙ e)
    ]

module _ (host : HttpHost) where
  add_headers-decides :
      (rs : List String) (headers : Dict (List String))
      → (All HasSeparator rs
          → (added : Dict (List String)) × (add_headers host rs headers ≡ ok added))
        × ((r : String) → In r rs → ¬ HasSeparator r → add_headers host rs headers ≡ panic)
  unfolding add_headers
  add_headers-decides [] headers = ((λ e. (headers, refl)), λ r there none_in. absurd there)
  add_headers-decides (r ∷ rs) headers = elim (Option-cases (split_header r)) [
    | inl e ↦ (
      (λ all.
          let (key, value, joins) = all.0 in
          absurd (joined-ne-none key value (ap split_header joins ∙ e))),
      λ r' there none_in. rw (e, add_headers) refl,
    )
    | inr (p, e) ↦
        let step = add_headers-decides rs (append_at (host.canonical p.0) p.1 headers) in
        (
          (λ all. let (added, q) = step.0 all.1 in (added, rw (e, add_headers) q)),
          λ r' there none_in. elim there [
            | inl same ↦ absurd (none_in (rw (← same) (split_header-HasSeparator r p e)))
            | inr later ↦ rw (e, add_headers) (step.1 r' later none_in)
          ],
        )
  ]

  -- The object of an HTTP test is made, for the URL of the test, if in each of the request headers of
  -- the gossfile, with the default user agent added where none is given, there stands a colon followed
  -- by a space; a single header without them, such as `Accept:json`, panics.
  pub new_def_http-decides :
      (config : HttpConfig) (http : String)
      → let rs = with_user_agent host config.request_header in
        (All HasSeparator rs
          → (u : DefHttp) × (new_def_http host config http ≡ ok u) × (u.http ≡ http))
        × ((r : String) → In r rs → ¬ HasSeparator r → new_def_http host config http ≡ panic)
  unfolding new_def_http
  new_def_http-decides config http =
      let step = add_headers-decides (with_user_agent host config.request_header) [] in
      (
        (λ all. let (added, q) = step.0 all in (fresh_http http added, rw q refl, refl)),
        λ r there none_in. rw (step.1 r there none_in) refl,
      )
