-- ===== src/Schedule/Cycles/Decides.antt =====
-- detectDependencyCycles finds a cycle exactly if there is one.
use goss.Base.{
  suc, String, ◌≡◌, refl, ◌≢◌, ◌↔◌, ◌⊎◌, inl, inr, none, some, List, [], ◌∷◌, map, arith, ◌==◌,
  Bool-cases, append-In-left, append-In-right, map-In, Option-cases, length, In,
}
use goss.Schedule.Cycles.{
  walk_error, Walk-cases, deps_in, Mark, by_ref_of, mentioned, deps_of, walk_schedule,
  detect_dependency_cycles, walked, cycle_at, exhausted,
}
use goss.Errors.{dependency_cycle, err, ok}
use goss.Base.Maps.{lookup-insert, In-keys-insert, insert-In-keys, insert, Dict, lookup, keys}
use goss.Schedule.{Item, Item, Item, Item, Item, Item, Item, Item, Item}
use goss.Schedule.Cycles.Accepts.{Needs, visit_all-Acc}
use goss.Schedule.Cycles.Refuses.{Chain, visit_all-Chain}
use goss.Schedule.Cycles.Fuel.{visit_all-ne-exhausted}
use mathlib.Core.WellFounded.{Acc}

-- What stands in byRef is an item of the schedule.
by_ref_of-In :
    (items : List Item) (m : Dict Item) (ref : String) (i : Item)
    → lookup ref (by_ref_of items m) ≡ some i
    → In i items ⊎ (lookup ref m ≡ some i)
unfolding by_ref_of
by_ref_of-In [] m ref i e = inr e
by_ref_of-In (j ∷ items) m ref i e = elim (by_ref_of-In items (insert j.ref j m) ref i e) [
  | inl here ↦ inl (inr here)
  | inr there ↦ elim (Bool-cases (j.ref == ref)) [
    | inl same ↦ inl (inl (ground (arith, lookup-insert j.ref ref j m, same, there)))
    | inr other ↦ inr (ground (arith, lookup-insert j.ref ref j m, other, there))
  ]
]

In-mentioned-deps :
    (items : List Item) (i : Item) (d : String) → In i items → In d i.deps → In d (mentioned items)
unfolding mentioned
In-mentioned-deps [] i d h k = absurd h
In-mentioned-deps (j ∷ items) i d (inl e) k =
    inr (append-In-left d j.deps (mentioned items) (rw e k))
In-mentioned-deps (j ∷ items) i d (inr h) k =
    inr (append-In-right d j.deps (mentioned items) (In-mentioned-deps items i d h k))

lookup-nil : (k : String) → lookup {V = Item} k [] ≡ none
unfolding lookup
lookup-nil k = refl

deps_of-mentioned :
    (items : List Item) (ref d : String) → In d (deps_of items ref) → In d (mentioned items)
unfolding deps_of
deps_of-mentioned items ref d h = elim (Option-cases (lookup ref (by_ref_of items []))) [
  | inl unknown_ref ↦ absurd (rw (unknown_ref, deps_in) at h)
  | inr (i, e) ↦ elim (by_ref_of-In items [] ref i e) [
    | inl here ↦ In-mentioned-deps items i d here (rw (e, deps_in) at h)
    | inr none_there ↦ absurd (cc (lookup-nil ref))
  ]
]

by_ref_of-keys :
    (items : List Item) (m : Dict Item) (d : String)
    → In d (keys (by_ref_of items m))
    → In d (mentioned items) ⊎ In d (keys m)
unfolding by_ref_of mentioned
by_ref_of-keys [] m d h = inr h
by_ref_of-keys (i ∷ items) m d h = elim (by_ref_of-keys items (insert i.ref i m) d h) [
  | inl here ↦ inl (inr (append-In-right d i.deps (mentioned items) here))
  | inr there ↦ elim (In-keys-insert i.ref d i m there) [ inl e ↦ inl (inl e) | inr old ↦ inr old ]
]

keys-by_ref_of :
    (items : List Item) (m : Dict Item) (d : String)
    → In d (map (λ i. i.ref) items) ⊎ In d (keys m)
    → In d (keys (by_ref_of items m))
unfolding by_ref_of
keys-by_ref_of [] m d (inl h) = absurd h
keys-by_ref_of [] m d (inr h) = h
keys-by_ref_of (i ∷ items) m d (inl (inl e)) =
    keys-by_ref_of items (insert i.ref i m) d (inr (insert-In-keys i.ref d i m (inl e)))
keys-by_ref_of (i ∷ items) m d (inl (inr h)) = keys-by_ref_of items (insert i.ref i m) d (inl h)
keys-by_ref_of (i ∷ items) m d (inr h) =
    keys-by_ref_of items (insert i.ref i m) d (inr (insert-In-keys i.ref d i m (inr h)))

module _ (range : List String → List String)
    (range-In : (ks : List String) (k : String) → In k (range ks) ↔ In k ks) where
  walk_schedule-ne-exhausted : (items : List Item) → walk_schedule range items ≢ exhausted
  unfolding walk_schedule
  walk_schedule-ne-exhausted items =
      visit_all-ne-exhausted (deps_of items) (mentioned items) (deps_of-mentioned items)
        (range (keys (by_ref_of items [])))
        (λ d h. elim (by_ref_of-keys items [] d ((range-In _ d).0 h)) [
          | inl here ↦ here
          | inr nowhere ↦ absurd nowhere
        ])

  walk_schedule-Acc :
      (items : List Item) (marks : Dict Mark)
      → walk_schedule range items ≡ walked marks
      → (i : Item) → In i items
      → Acc (Needs (deps_of items)) i.ref
  unfolding walk_schedule
  walk_schedule-Acc items marks e i here =
      visit_all-Acc (deps_of items) (suc (length (mentioned items)))
        (range (keys (by_ref_of items []))) marks e i.ref
        ((range-In _ i.ref).1
          (keys-by_ref_of items [] i.ref (inl (map-In (λ j. j.ref) items i here))))

  walk_schedule-Chain :
      (items : List Item) (c : String)
      → walk_schedule range items ≡ cycle_at c
      → Chain (deps_of items) c c
  unfolding walk_schedule
  walk_schedule-Chain items c e =
      visit_all-Chain (deps_of items) (suc (length (mentioned items)))
        (range (keys (by_ref_of items []))) c e

  -- The search for cycles always ends, with one of two answers, in whatever order Go ranges over the
  -- map: no error, and then no chain of dependencies that starts at an item goes on forever; or the
  -- error names a reference from which a chain of dependencies leads back to it.
  pub detect_dependency_cycles-decides :
      (items : List Item)
      → ((detect_dependency_cycles range items ≡ ok tt)
          × ((i : Item) → In i items → Acc (Needs (deps_of items)) i.ref))
        ⊎ ((c : String) × (detect_dependency_cycles range items ≡ err (dependency_cycle c))
            × Chain (deps_of items) c c)
  unfolding detect_dependency_cycles
  detect_dependency_cycles-decides items = elim (Walk-cases (walk_schedule range items)) [
    | inl (m, e) ↦ inl (rw (e, walk_error) refl, walk_schedule-Acc items m e)
    | inr (inl (c, e)) ↦ inr (c, rw (e, walk_error) refl, walk_schedule-Chain items c e)
    | inr (inr e) ↦ absurd (walk_schedule-ne-exhausted items e)
  ]
