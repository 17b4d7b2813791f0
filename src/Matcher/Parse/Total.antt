-- ===== src/Matcher/Parse/Total.antt =====
-- matcherToGomegaMatcher panics only on a map without an entry.
use goss.Value.{
  nil, end, null, Fields, cons, int, Items, float, field, obj, arr, ints, strs, bool, num, str,
  Value,
}
use goss.Matcher.Parse.{
  to_paths, NoEmptyFields, to_gjson, NoEmptyMaps, to_slice, patterns_matcher, len_matcher,
  text_matcher, to_matchers, NoEmptyMap, to_matcher,
}
use goss.Base.{String, refl, ◌≢◌, Bool, true, false, if◌then◌else◌}
use goss.Matcher.{Matcher}
use goss.Errors.{Error, Result, ok, err, panic, ◌>>=◌}
use goss.Libraries.{Libraries}

>>=-ne-panic {ℓ κ} :
    {A : Type ℓ} {B : Type κ} (m : Result A) (f : A → Result B)
    → m ≢ panic
    → ((a : A) → f a ≢ panic)
    → (m >>= f) ≢ panic
>>=-ne-panic (ok a) f h k = k a
>>=-ne-panic (err e) f h k = cc
>>=-ne-panic panic f h k = absurd (h refl)

text_matcher-total :
    (name : String) (build : String → Matcher) (v : Value) → text_matcher name build v ≢ panic
text_matcher-total name build (str s) = cc
text_matcher-total name build v = cc

len_matcher-total : (lib : Libraries) (v : Value) → len_matcher lib v ≢ panic
len_matcher-total lib (num (float bits)) = cc
len_matcher-total lib (num (int n)) = cc
len_matcher-total lib v = cc

patterns_matcher-total : (v : Value) → patterns_matcher v ≢ panic
patterns_matcher-total (arr vs) = cc
patterns_matcher-total v = cc

if-total {ℓ} :
    {A : Type ℓ} (b : Bool) (x y : Result A) → x ≢ panic → y ≢ panic → (if b then x else y) ≢ panic
if-total true x y hx hy = hx
if-total false x y hx hy = hy

ok-total {ℓ} : {A : Type ℓ} (a : A) → ok a ≢ panic
ok-total a = cc

err-total {ℓ} : {A : Type ℓ} (e : Error) → ◌≢◌ {A = Result A} (err e) panic
err-total e = cc

build-total {ℓ κ} :
    {A : Type ℓ} {B : Type κ} (m : Result A) (f : A → B) → m ≢ panic → (m >>= λ a. ok (f a)) ≢ panic
build-total m f h = >>=-ne-panic m (λ a. ok (f a)) h (λ a. ok-total (f a))

ruleset total_rules = (
  if-total, ok-total, err-total, build-total, text_matcher-total, len_matcher-total,
  patterns_matcher-total,
)

mutual
  unfolding to_matcher

  matcher-total : (lib : Libraries) (v : Value) → NoEmptyMap v → to_matcher lib v ≢ panic
  matcher-total lib (str s) h = cc
  matcher-total lib (num n) h = cc
  matcher-total lib (bool b) h = cc
  matcher-total lib null h = cc
  matcher-total lib (strs vs) h = cc
  matcher-total lib (ints vs) h = cc
  matcher-total lib (arr vs) h = build-total (to_matchers lib vs) _ (matchers-total lib vs h)
  matcher-total lib (obj end) h = absurd h
  matcher-total lib (obj (field k v (field j w fs))) h = cc
  matcher-total lib (obj (field k v end)) h =
      let sub = matcher-total lib v h.0 in
      let slice = λ (name : String). slice-total lib name v h.0 in
      let paths = gjson-total lib v h.0 in search (total_rules, sub, slice, paths) depth 30

  slice-total :
      (lib : Libraries) (name : String) (v : Value) → NoEmptyMap v → to_slice lib name v ≢ panic
  slice-total lib name (arr vs) h = matchers-total lib vs h
  slice-total lib name (obj fs) h = cc
  slice-total lib name _ h = cc

  matchers-total : (lib : Libraries) (vs : Items) → NoEmptyMaps vs → to_matchers lib vs ≢ panic
  matchers-total lib nil h = cc
  matchers-total lib (cons v vs) h =
      >>=-ne-panic (to_matcher lib v) _ (matcher-total lib v h.0)
        (λ m. build-total (to_matchers lib vs) _ (matchers-total lib vs h.1))

  gjson-total : (lib : Libraries) (v : Value) → NoEmptyMap v → to_gjson lib v ≢ panic
  gjson-total lib (obj end) h = absurd h
  gjson-total lib (obj (field k v fs)) h = paths-total lib (field k v fs) h
  gjson-total lib (arr vs) h = cc
  gjson-total lib _ h = cc

  paths-total : (lib : Libraries) (fs : Fields) → NoEmptyFields fs → to_paths lib fs ≢ panic
  paths-total lib end h = cc
  paths-total lib (field path v fs) h =
      >>=-ne-panic (to_matcher lib v) _ (matcher-total lib v h.0)
        (λ m. build-total (to_paths lib fs) _ (paths-total lib fs h.1))

-- A value in which no map is without an entry is turned into a matcher or refused with an error:
-- `keys[0]` is never taken of an empty map.
pub to_matcher-total : (lib : Libraries) (v : Value) → NoEmptyMap v → to_matcher lib v ≢ panic
to_matcher-total lib v h = matcher-total lib v h
