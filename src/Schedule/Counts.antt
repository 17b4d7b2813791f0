-- ===== src/Schedule/Counts.antt =====
-- How the steps of validateWithDependencies count the sends of a reference and the items left.
use goss.Base.{
  ℕ, suc, ◌+◌, ◌≤◌, String, ◌≡◌, ◌⊎◌, inl, inr, none, some, List, [], ◌∷◌, arith, ◌==◌, eq_iff,
  Bool-cases, Option-cases, length, length-append, count_of, count_of-append,
}
use goss.Base.Maps.{lookup-insert, insert, Dict, lookup}
use goss.TestResult.{skip, Outcome}
use goss.Schedule.{skip_sent, each, place, Gate, Item, Sent, visit, Round, clear, blocked, skip_for}

abbrev pub items_of : String → List Item → ℕ
items_of k items = count_of (λ i. i.ref == k) items

abbrev pub sends_of : String → List Sent → ℕ
sends_of k trace = count_of (λ s. s.item.ref == k) trace

-- How often a reference is sent or still waits.
abbrev pub total : String → Round → ℕ
total k r = sends_of k r.trace + (items_of k r.runnable + items_of k r.waiting)

-- A reference that is completed was sent.
abbrev pub Open : String → Dict Outcome → List Sent → Type 0
Open k done trace = (lookup k done ≡ none) ⊎ (1 ≤ sends_of k trace)

abbrev pub Fits : ℕ → Round → Type 0
Fits n r = length r.runnable + length r.waiting ≤ n

module _ (k : String) where
  pub Open-insert :
      (done : Dict Outcome) (trace : List Sent) (s : Sent) (o : Outcome)
      → Open k done trace
      → Open k (insert s.item.ref o done) (s ∷ trace)
  Open-insert done trace s o (inl h) = elim (Bool-cases (s.item.ref == k)) [
    | inl e ↦ inr (ground arith)
    | inr e ↦ inl (rw (lookup-insert s.item.ref k o done) (rw e h))
  ]
  Open-insert done trace s o (inr h) = inr (ground arith)

  -- An item that is completed already was sent, so it is not this reference's.
  again-total :
      (r : Round) (item : Item) (x : Outcome)
      → (lookup item.ref r.done ≡ some x)
      → Open k r.done r.trace
      → total k r + items_of k (item ∷ []) ≤ 1
      → total k r ≡ total k r + items_of k (item ∷ [])
  again-total r item x e (inl o) h = elim (Bool-cases (item.ref == k)) [
    | inl same ↦ let q : item.ref ≡ k = (eq_iff item.ref k).0 same in cc
    | inr other ↦ ground arith
  ]
  again-total r item x e (inr o) h = ground arith

  module _ (now : ℕ) where
    place-total :
        (r : Round) (item : Item) (g : Gate)
        → total k (place now r item g) ≡ total k r + items_of k (item ∷ [])
    place-total r item clear =
        ground (arith, count_of-append (λ i. i.ref == k) r.runnable (item ∷ []))
    place-total r item blocked =
        ground (arith, count_of-append (λ i. i.ref == k) r.waiting (item ∷ []))
    place-total r item (skip_for d) = ground arith

    place-Open :
        (r : Round) (item : Item) (g : Gate)
        → Open k r.done r.trace
        → let r' = place now r item g in Open k r'.done r'.trace
    place-Open r item clear o = o
    place-Open r item blocked o = o
    place-Open r item (skip_for d) o = Open-insert r.done r.trace (skip_sent now item d) skip o

    place-Fits :
        (n : ℕ) (r : Round) (item : Item) (g : Gate) → Fits n r → Fits (suc n) (place now r item g)
    place-Fits n r item clear h = omega (arith, length-append r.runnable (item ∷ []), h)
    place-Fits n r item blocked h = omega (arith, length-append r.waiting (item ∷ []), h)
    place-Fits n r item (skip_for d) h = omega (arith, h)

    visit-total :
        (r : Round) (item : Item)
        → Open k r.done r.trace
        → total k r + items_of k (item ∷ []) ≤ 1
        → total k (visit now r item) ≡ total k r + items_of k (item ∷ [])
    unfolding visit
    visit-total r item o h = elim (Option-cases (lookup item.ref r.done)) [
      | inl e ↦ rw (e, visit) (place-total r item _)
      | inr (x, e) ↦ rw (e, visit) (again-total r item x e o h)
    ]

    visit-Open :
        (r : Round) (item : Item)
        → Open k r.done r.trace
        → let r' = visit now r item in Open k r'.done r'.trace
    unfolding visit
    visit-Open r item o = elim (Option-cases (lookup item.ref r.done)) [
      | inl e ↦ rw (e, visit) (place-Open r item _ o)
      | inr (x, e) ↦ rw (e, visit) o
    ]

    visit-Fits : (n : ℕ) (r : Round) (item : Item) → Fits n r → Fits (suc n) (visit now r item)
    unfolding visit
    visit-Fits n r item h = elim (Option-cases (lookup item.ref r.done)) [
      | inl e ↦ rw (e, visit) (place-Fits n r item _ h)
      | inr (x, e) ↦ rw (e, visit) (omega (arith, h))
    ]

    pub visits-total :
        (items : List Item) (r : Round)
        → Open k r.done r.trace
        → total k r + items_of k items ≤ 1
        → let r' = each (visit now) r items in
          (total k r' ≡ total k r + items_of k items) × Open k r'.done r'.trace
    visits-total [] r o h = (ground arith, o)
    visits-total (i ∷ items) r o h =
        let step = visit-total r i o (ground arith) in
        let rest = visits-total items (visit now r i) (visit-Open r i o) (ground (arith, step)) in
        (ground (arith, step, rest.0), rest.1)

    pub visits-Fits :
        (n : ℕ) (items : List Item) (r : Round)
        → Fits n r
        → Fits (n + length items) (each (visit now) r items)
    visits-Fits n [] r h = omega (arith, h)
    visits-Fits n (i ∷ items) r h =
        let rest = visits-Fits (suc n) items (visit now r i) (visit-Fits n r i h) in
        omega (arith, rest)
