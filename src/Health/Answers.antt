-- ===== src/Health/Answers.antt =====
-- What the health endpoint answers.
use goss.Health.{
  status_code, negotiated, respond, process_and_ensure_cached, negotiate, negotiate_from,
}
use goss.Base.{
  ℕ, zero, suc, String, ◌≡◌, refl, ap, Bool, ◌||◌, Option, none, some, List, [], ◌∷◌, ◌++◌, arith,
  eqb, if◌then◌else◌, All,
}
use goss.Outputs.Exit.{output-exit, fails_in, Clean, sum_of}
use goss.Errors.{err, ok, Error, Result}
use goss.Outputs.{nagios, structured, prometheus, failure_code, Groups, Format}
use goss.TestResult.{TestResult}

module _ (trim_space : String → String) (goss_format : String → Option String)
    (equal_fold : String → String → Bool) (get_outputer : String → Option Format) where
  negotiate_from-append :
      (xs ys : List String) (found : String × Option Format)
      → negotiate_from trim_space goss_format equal_fold get_outputer found (xs ++ ys)
        ≡ negotiate_from trim_space goss_format equal_fold get_outputer
            (negotiate_from trim_space goss_format equal_fold get_outputer found xs)
            ys
  unfolding negotiate_from
  negotiate_from-append [] ys found = refl
  negotiate_from-append (x ∷ xs) ys found = negotiate_from-append xs ys _

  -- Only the last value of the Accept header decides: whatever stands before it, the negotiation gives
  -- what it gives for the last value alone, an error included.
  pub negotiate_last :
      (xs : List String) (x : String)
      → negotiate trim_space goss_format equal_fold get_outputer (xs ++ x ∷ [])
        ≡ negotiate trim_space goss_format equal_fold get_outputer (x ∷ [])
  unfolding negotiate negotiate_from
  negotiate_last xs x =
      ap (negotiated trim_space goss_format equal_fold get_outputer)
        (negotiate_from-append xs (x ∷ []) ("", none))

answer_of :
    (f : Format) (n : ℕ)
    → status_code (if eqb n 0 then 0 else failure_code f)
      ≡ (if eqb n 0 || eqb (failure_code f) 0 then 200 else 503)
answer_of f zero = refl
answer_of f (suc n) = code_of f
  where
    code_of :
        (g : Format)
        → status_code (if eqb (suc n) 0 then 0 else failure_code g)
          ≡ (if eqb (suc n) 0 || eqb (failure_code g) 0 then 200 else 503)
    code_of nagios = ground arith
    code_of structured = ground arith
    code_of prometheus = ground arith
    code_of g = ground arith

module _ (sort : Groups → Groups)
    (sort-All : (P : List TestResult → Type 0) (gs : Groups) → All P gs → All P (sort gs))
    (sort-sum_of : (w : List TestResult → ℕ) (gs : Groups) → sum_of w (sort gs) ≡ sum_of w gs) where
  respond-Clean :
      (sorting : Bool) (f : Format) (gs : Groups)
      → All Clean gs
      → respond sort sorting f gs
        ≡ ok (if eqb (sum_of fails_in gs) 0 || eqb (failure_code f) 0 then 200 else 503)
  unfolding respond
  respond-Clean sorting f gs h =
      rw (output-exit sort sort-All sort-sum_of f sorting gs h)
        (ap ok (answer_of f (sum_of fails_in gs)))

  -- Groups with results of the three codes are answered without a panic: by 503 if a result failed
  -- and the format tells failures by its exit code, and else by 200. The answer for groups in the cache
  -- is the one that fresh groups get, and a run of the tests that ends in an error is answered by 200.
  pub process_and_ensure_cached-answers :
      (sorting : Bool) (f : Format) (gs : Groups) (validated : Result Groups) (e : Error)
      → All Clean gs
      → let status : ℕ =
          if eqb (sum_of fails_in gs) 0 || eqb (failure_code f) 0 then 200 else 503 in
        (process_and_ensure_cached sort sorting none (ok gs) f ≡ ok (status, some gs))
        × (process_and_ensure_cached sort sorting (some gs) validated f ≡ ok (status, some gs))
        × (process_and_ensure_cached sort sorting none (err e) f ≡ ok (200, some []))
  unfolding process_and_ensure_cached
  process_and_ensure_cached-answers sorting f gs validated e h =
      let fresh = respond-Clean sorting f gs h in
      let nothing = respond-Clean sorting f [] tt in
      (
        rw (fresh, process_and_ensure_cached) refl,
        rw (fresh, process_and_ensure_cached) refl,
        rw (nothing, process_and_ensure_cached) refl,
      )
