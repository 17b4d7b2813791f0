-- ===== src/Outputs/Exit.antt =====
-- The exit code of every output format.
use goss.Outputs.{
  nothing_counted, is_sortable, failure_code, get_results, exit_of, output, documentation, Groups,
  is_unknown, counted, count_results, count_group, count_groups, count_result, is_empty, Tally,
  prometheus, Format,
}
use goss.Errors.{Result, ok}
use goss.Base.{
  ℕ, zero, suc, ◌+◌, ◌≡◌, refl, ap, ◌∙◌, inl, inr, Bool, true, false, ◌&&◌, List, [], ◌∷◌, arith,
  eqb, if◌then◌else◌, Bool-cases, any_of, count_of, All,
}
use goss.TestResult.{is_fail, TestResult}

abbrev Known : TestResult → Type 0
Known t = is_unknown t.result ≡ false

-- A group with a result, all of whose results have codes that can be written.
abbrev pub Clean : List TestResult → Type 0
Clean ts = (is_empty ts ≡ false) × All Known ts

abbrev pub fails_in : List TestResult → ℕ
fails_in ts = count_of (λ t. is_fail t.result) ts

abbrev pub sum_of {ℓ} : {A : Type ℓ} → (A → ℕ) → List A → ℕ
sum_of w [] = 0
sum_of w (x ∷ xs) = w x + sum_of w xs

-- The failures that a format counts: Prometheus counts none.
abbrev pub counts : Format → ℕ → ℕ
counts prometheus n = 0
counts f n = n

counts-add : (f : Format) (m n : ℕ) → counts f (m + n) ≡ counts f m + counts f n
counts-add prometheus m n = omega arith
counts-add f m n = refl

counts-zero : (f : Format) → counts f 0 ≡ 0
counts-zero prometheus = refl
counts-zero f = refl

counted-failed :
    (f : Format) (t : TestResult) (n : Tally)
    → (counted f t n).failed ≡ n.failed + counts f (fails_in (t ∷ []))
counted-failed prometheus t n = omega arith
counted-failed f t n = elim (Bool-cases (is_fail t.result)) [
  | inl h ↦ ground (arith, h)
  | inr h ↦ ground (arith, h)
]

-- A count that ends, with the failures that it adds.
abbrev Adds : Format → ℕ → Tally → Result Tally → Type 0
Adds f k n r = (m : Tally) × (r ≡ ok m) × (m.failed ≡ n.failed + counts f k)

fails_in-cons :
    (t : TestResult) (ts : List TestResult) → fails_in (t ∷ ts) ≡ fails_in (t ∷ []) + fails_in ts
fails_in-cons t ts = ground arith

count_results-Adds :
    (f : Format) (ts : List TestResult) (n : Tally)
    → All Known ts
    → Adds f (fails_in ts) n (count_results f ts n)
unfolding count_results
count_results-Adds f [] n h = (n, refl, omega (arith, counts-zero f))
count_results-Adds f (t ∷ ts) n h =
    let (m, e, q) = count_results-Adds f ts (counted f t n) h.1 in
    let split = counts-add f (fails_in (t ∷ [])) (fails_in ts) in
    let both = ap (counts f) (fails_in-cons t ts) in
    (m, rw (h.0, count_result) e, omega (arith, q, counted-failed f t n, split, both))

count_group-Adds :
    (f : Format) (ts : List TestResult) (n : Tally)
    → Clean ts
    → Adds f (fails_in ts) n (count_group f ts n)
count_group-Adds documentation [] n h = cc
count_group-Adds documentation (t ∷ ts) n h = count_results-Adds documentation (t ∷ ts) n h.1
count_group-Adds f ts n h = count_results-Adds f ts n h.1

count_groups-Adds :
    (f : Format) (gs : Groups) (n : Tally)
    → All Clean gs
    → Adds f (sum_of fails_in gs) n (count_groups f gs n)
unfolding count_groups
count_groups-Adds f [] n h = (n, refl, omega (arith, counts-zero f))
count_groups-Adds f (g ∷ gs) n h =
    let (m, e, q) = count_group-Adds f g n h.0 in
    let (m', e', q') = count_groups-Adds f gs m h.1 in
    (m', rw e e', omega (arith, q, q', counts-add f (fails_in g) (sum_of fails_in gs)))

any_empty-Clean : (gs : Groups) → All Clean gs → any_of is_empty gs ≡ false
any_empty-Clean [] h = refl
any_empty-Clean (g ∷ gs) h = rw (h.0.0) (any_empty-Clean gs h.1)

get_results-Clean :
    (sort : Groups → Groups) (sorting : Bool) (gs : Groups)
    → All Clean gs
    → get_results sort sorting gs ≡ ok (if sorting then sort gs else gs)
get_results-Clean sort false gs h = refl
get_results-Clean sort true [] h = refl
get_results-Clean sort true (g ∷ []) h = refl
get_results-Clean sort true (g ∷ g' ∷ gs) h = rw (any_empty-Clean (g ∷ g' ∷ gs) h) refl

exit_of-counts :
    (f : Format) (n : ℕ) → exit_of f (counts f n) ≡ (if eqb n 0 then 0 else failure_code f)
exit_of-counts prometheus zero = refl
exit_of-counts prometheus (suc n) = ground arith
exit_of-counts f zero = refl
exit_of-counts f (suc n) = ground arith

sorted_or_not :
    (sort : Groups → Groups) (b : Bool) (gs : Groups) (P : Groups → Type 0)
    → P (sort gs)
    → P gs
    → P (if b then sort gs else gs)
sorted_or_not sort true gs P h k = h
sorted_or_not sort false gs P h k = k

-- sort.Slice returns the groups in another order.
module _ (sort : Groups → Groups)
    (sort-All : (P : List TestResult → Type 0) (gs : Groups) → All P gs → All P (sort gs))
    (sort-sum_of : (w : List TestResult → ℕ) (gs : Groups) → sum_of w (sort gs) ≡ sum_of w gs) where
  -- If every group has a result and every result one of the codes SUCCESS, FAIL and SKIP, then every
  -- format ends without a panic, with or without sorting, and its exit code is zero if no result is a
  -- FAIL, and else the failure code of the format: 2 for nagios, 0 for structured and prometheus,
  -- and 1 for all others. (`sort` only reorders the groups, and
  -- the metrics of prometheus are gathered and encoded without an error.)
  pub output-exit :
      (f : Format) (sorting : Bool) (gs : Groups)
      → All Clean gs
      → output f sort sorting gs ≡ ok (if eqb (sum_of fails_in gs) 0 then 0 else failure_code f)
  unfolding output
  output-exit f sorting gs h =
      let b = is_sortable f && sorting in
      let clean = sorted_or_not sort b gs (All Clean) (sort-All Clean gs h) h in
      let total =
        sorted_or_not sort b gs (λ hs. sum_of fails_in hs ≡ sum_of fails_in gs)
          (sort-sum_of fails_in gs) refl in
      let (m, e, q) = count_groups-Adds f (if b then sort gs else gs) nothing_counted clean in
      let moved = ap (counts f) total in
      let failed : m.failed ≡ counts f (sum_of fails_in gs) = omega (arith, q, moved) in
      rw (get_results-Clean sort b gs h)
        (rw e (ap ok (ap (exit_of f) failed ∙ exit_of-counts f (sum_of fails_in gs))))
