-- ===== src/Schedule/Advance.antt =====
-- The scan of a round while all that is completed has passed: it keeps every item.
use goss.Base.{
  ℕ, String, ◌≡◌, refl, ap, ◌∙◌, ◌⊎◌, inl, inr, false, none, some, List, [], ◌∷◌, append-In-left,
  append-In-right, append-In-cases, Option-cases, All, In, All-append,
}
use goss.Schedule.Invariant.{Unready}
use goss.Schedule.{scan, place, Gate, visit, each, Round, Item, clear, blocked, skip_for}
use goss.Schedule.Trace.{gate-Decided, Decided}
use goss.Base.Maps.{lookup, Dict}
use goss.TestResult.{success, fail, skip, Outcome}

-- All that is completed has passed.
abbrev pub Succeeds : Dict Outcome → Type 0
Succeeds done = (d : String) (o : Outcome) → (lookup d done ≡ some o) → o ≡ success

abbrev pub Held : Item → Round → Type 0
Held i r = In i r.runnable ⊎ In i r.waiting

abbrev pub Over : Item → Dict Outcome → Type 0
Over i done = lookup i.ref done ≡ some success

-- What a step of the scan does to the items: none is lost, none is added, and nothing is sent.
abbrev Scans : (Item → Type 0) → Round → Round → Type 0
Scans Given r r' =
    (r'.done ≡ r.done)
    × (r'.trace ≡ r.trace)
    × ((i : Item) → Given i ⊎ Held i r → Over i r.done ⊎ Held i r')
    × ((i : Item) → Held i r' → Given i ⊎ Held i r)

module _ (now : ℕ) where
  place-Scans :
      (r : Round) (item : Item) (g : Gate)
      → Succeeds r.done
      → Decided r.done none false item.deps g
      → Scans (λ i. item ≡ i) r (place now r item g)
  place-Scans r item clear s d = (
    refl,
    refl,
    (λ i h. elim h [
      | inl e ↦ inr (inl (append-In-right i r.runnable (item ∷ []) (inl e)))
      | inr (inl k) ↦ inr (inl (append-In-left i r.runnable (item ∷ []) k))
      | inr (inr k) ↦ inr (inr k)
    ]),
    (λ i h. elim h [
      | inl k ↦ elim (append-In-cases i r.runnable (item ∷ []) k) [
        | inl old ↦ inr (inl old)
        | inr (inl e) ↦ inl e
        | inr (inr nothing) ↦ absurd nothing
      ]
      | inr k ↦ inr (inr k)
    ]),
  )
  place-Scans r item blocked s d = (
    refl,
    refl,
    (λ i h. elim h [
      | inl e ↦ inr (inr (append-In-right i r.waiting (item ∷ []) (inl e)))
      | inr (inr k) ↦ inr (inr (append-In-left i r.waiting (item ∷ []) k))
      | inr (inl k) ↦ inr (inl k)
    ]),
    (λ i h. elim h [
      | inr k ↦ elim (append-In-cases i r.waiting (item ∷ []) k) [
        | inl old ↦ inr (inr old)
        | inr (inl e) ↦ inl e
        | inr (inr nothing) ↦ absurd nothing
      ]
      | inl k ↦ inr (inl k)
    ]),
  )
  place-Scans r item (skip_for x) s (inl e) = absurd (cc)
  place-Scans r item (skip_for x) s (inr (here, inl bad)) = absurd (cc (s x fail bad))
  place-Scans r item (skip_for x) s (inr (here, inr bad)) = absurd (cc (s x skip bad))

  visit-Scans :
      (r : Round) (item : Item) → Succeeds r.done → Scans (λ i. item ≡ i) r (visit now r item)
  unfolding visit
  visit-Scans r item s = elim (Option-cases (lookup item.ref r.done)) [
    | inl new ↦ rw (new, visit) (place-Scans r item _ s (gate-Decided r.done item))
    | inr (o, old) ↦
        let q : o ≡ success = s item.ref o old in
        rw (old, visit)
          (
            refl,
            refl,
            (λ i h. elim h [ inl e ↦ inl (rw (← e) (old ∙ ap some q)) | inr k ↦ inr k ]),
            λ i k. inr k,
          )
  ]

  later-Held :
      (Rest : Item → Type 0) (r r1 r2 : Round)
      → r1.done ≡ r.done
      → Scans Rest r1 r2
      → (i : Item) → Rest i ⊎ Held i r1
      → Over i r.done ⊎ Held i r2
  later-Held Rest r r1 r2 e rest i h = elim (rest.2 i h) [ inl o ↦ inl (rw e at o) | inr k ↦ inr k ]

  -- Two steps of the scan in a row.
  Scans-trans :
      (One Rest : Item → Type 0) (r r1 r2 : Round)
      → Scans One r r1
      → Scans Rest r1 r2
      → Scans (λ i. One i ⊎ Rest i) r r2
  Scans-trans One Rest r r1 r2 one rest =
      let later = later-Held Rest r r1 r2 one.0 rest in
      (
        rest.0 ∙ one.0,
        rest.1 ∙ one.1,
        (λ i h. elim h [
          | inl (inl g) ↦ elim (one.2 i (inl g)) [ inl o ↦ inl o | inr k ↦ later i (inr k) ]
          | inl (inr g) ↦ later i (inl g)
          | inr k ↦ elim (one.2 i (inr k)) [ inl o ↦ inl o | inr k' ↦ later i (inr k') ]
        ]),
        λ i h. elim (rest.3 i h) [
          | inl g ↦ inl (inr g)
          | inr k ↦ elim (one.3 i k) [ inl g ↦ inl (inl g) | inr k' ↦ inr k' ]
        ],
      )

  visits-Scans :
      (items : List Item) (r : Round)
      → Succeeds r.done
      → Scans (λ i. In i items) r (each (visit now) r items)
  visits-Scans [] r s =
      (refl, refl, (λ i h. elim h [ inl n ↦ absurd n | inr k ↦ inr k ]), λ i k. inr k)
  visits-Scans (item ∷ items) r s =
      let one = visit-Scans r item s in
      let rest = visits-Scans items (visit now r item) (λ d o e. s d o (rw one.0 at e)) in
      Scans-trans (λ i. item ≡ i) (λ i. In i items) r (visit now r item) _ one rest

  pub scan-Scans :
      (r : Round) (pending : List Item)
      → Succeeds r.done
      → let r' = scan now r pending in
        (r'.done ≡ r.done)
        × (r'.trace ≡ r.trace)
        × ((i : Item) → In i pending → Over i r.done ⊎ Held i r')
        × ((i : Item) → Held i r' → In i pending)
  unfolding scan
  scan-Scans r pending s =
      let v = visits-Scans pending (record r { runnable = []; waiting = [] }) s in
      (
        v.0,
        v.1,
        (λ i h. v.2 i (inl h)),
        λ i k. elim (v.3 i k) [ inl h ↦ h | inr (inl n) ↦ absurd n | inr (inr n) ↦ absurd n ],
      )

module _ (now : ℕ) where
  place-Unready :
      (r : Round) (item : Item) (g : Gate)
      → Succeeds r.done
      → Decided r.done none false item.deps g
      → All (Unready r.done) r.waiting
      → All (Unready r.done) (place now r item g).waiting
  place-Unready r item clear s d u = u
  place-Unready r item blocked s (inl d) u = absurd (cc)
  place-Unready r item blocked s (inr d) u =
      All-append (Unready r.done) r.waiting (item ∷ []) u (d, tt)
  place-Unready r item (skip_for x) s d u = u

  visit-Unready :
      (r : Round) (item : Item)
      → Succeeds r.done
      → All (Unready r.done) r.waiting
      → All (Unready r.done) (visit now r item).waiting
  unfolding visit
  visit-Unready r item s u = elim (Option-cases (lookup item.ref r.done)) [
    | inl new ↦ rw (new, visit) (place-Unready r item _ s (gate-Decided r.done item) u)
    | inr (o, old) ↦ rw (old, visit) u
  ]

  visits-Unready :
      (done : Dict Outcome) (items : List Item) (r : Round)
      → r.done ≡ done
      → Succeeds done
      → All (Unready done) r.waiting
      → All (Unready done) (each (visit now) r items).waiting
  visits-Unready done [] r e s u = u
  visits-Unready done (item ∷ items) r e s u =
      let here = visit-Unready r item (rw e s) (rw e u) in
      visits-Unready done items (visit now r item) ((visit-Scans now r item (rw e s)).0 ∙ e) s
        (rw (← e) here)

  pub scan-Unready :
      (r : Round) (pending : List Item)
      → Succeeds r.done
      → All (Unready r.done) (scan now r pending).waiting
  unfolding scan
  scan-Unready r pending s =
      visits-Unready r.done pending (record r { runnable = []; waiting = [] }) refl s tt
