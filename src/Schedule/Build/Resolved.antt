-- ===== src/Schedule/Build/Resolved.antt =====
-- A schedule that buildSchedule makes names every resource once and only resources.
use goss.Base.{
  ℕ, ◌≤◌, String, ◌≡◌, refl, ◌≢◌, ◌⊎◌, inl, inr, true, ◌||◌, none, List, [], ◌∷◌, ◌++◌, arith, ◌==◌,
  eq_iff, Bool-cases, Option-cases, count_of, All, All-append,
}
use goss.Schedule.Invariant.{All-map}
use goss.Schedule.Build.{
  no_index, build_items, split_colon, index_refs, resolve_dependency_ref, resolve_all,
  schedule_items, Index, enter, listed, typed_ref, find_ref, only_match,
}
use goss.Resource.{depends_on, ref, yaml_key, Resource}
use goss.Errors.{>>=-eq-ok, ok-injective, ok}
use goss.Schedule.Counts.{items_of}
use goss.Schedule.{Item}
use goss.Base.Maps.{lookup-insert, lookup}

abbrev pub refs_of : String → List Resource → ℕ
refs_of k rs = count_of (λ r. ref r == k) rs

abbrev Indexed : Index → String → Type 0
Indexed ix k = lookup k ix.by_ref ≢ none

abbrev KeysIndexed : Index → Type 0
KeysIndexed ix = (key : String) → All (Indexed ix) (listed (lookup key ix.by_key))

Indexed-enter : (ix : Index) (r : Resource) (k : String) → Indexed ix k → Indexed (enter ix r) k
Indexed-enter ix r k h = elim (Bool-cases (ref r == k)) [
  | inl same ↦ rw (lookup-insert (ref r) k r ix.by_ref) (rw same (λ e. cc))
  | inr other ↦ rw (lookup-insert (ref r) k r ix.by_ref) (rw other h)
]

enter-Indexed : (ix : Index) (r : Resource) → Indexed (enter ix r) (ref r)
enter-Indexed ix r =
    rw (lookup-insert (ref r) (ref r) r ix.by_ref) (rw ((eq_iff (ref r) (ref r)).1 refl) (λ e. cc))

Indexed-enter-inv :
    (ix : Index) (r : Resource) (k : String)
    → Indexed (enter ix r) k
    → (ref r == k ≡ true) ⊎ Indexed ix k
Indexed-enter-inv ix r k h = elim (Bool-cases (ref r == k)) [
  | inl same ↦ inl same
  | inr other ↦ inr (λ e. h (rw (lookup-insert (ref r) k r ix.by_ref) (rw other e)))
]

All-Indexed-enter :
    (ix : Index) (r : Resource) (ks : List String)
    → All (Indexed ix) ks
    → All (Indexed (enter ix r)) ks
All-Indexed-enter ix r [] h = tt
All-Indexed-enter ix r (k ∷ ks) h = (Indexed-enter ix r k h.0, All-Indexed-enter ix r ks h.1)

enter-KeysIndexed : (ix : Index) (r : Resource) → KeysIndexed ix → KeysIndexed (enter ix r)
enter-KeysIndexed ix r h key = elim (Bool-cases (yaml_key r == key)) [
  | inl same ↦
      rw
        (lookup-insert (yaml_key r) key (listed (lookup (yaml_key r) ix.by_key) ++ ref r ∷ [])
          ix.by_key)
        (rw same (
          All-append (Indexed (enter ix r)) (listed (lookup (yaml_key r) ix.by_key)) (ref r ∷ [])
            (All-Indexed-enter ix r _ (h (yaml_key r))) (enter-Indexed ix r, tt)))
  | inr other ↦
      rw
        (lookup-insert (yaml_key r) key (listed (lookup (yaml_key r) ix.by_key) ++ ref r ∷ [])
          ix.by_key)
        (rw other (All-Indexed-enter ix r _ (h key)))
]

-- What index_refs builds from `ix`: keys lead to references of the index, a reference of the index
-- was there or is that of a resource, and no reference occurs twice or was there before.
abbrev Builds : Index → List Resource → Index → Type 0
Builds ix rs built =
    KeysIndexed built
    × ((k : String) → Indexed built k → Indexed ix k ⊎ (1 ≤ refs_of k rs))
    × ((k : String) → refs_of k rs ≤ 1)
    × ((k : String) → Indexed ix k → refs_of k rs ≡ 0)

enter-Builds :
    (ix : Index) (r : Resource) (rs : List Resource) (built : Index)
    → (lookup (ref r) ix.by_ref ≡ none)
    → Builds (enter ix r) rs built
    → Builds ix (r ∷ rs) built
enter-Builds ix r rs built new b = (
  b.0,
  (λ k h. elim (b.1 k h) [
    | inl old ↦ elim (Indexed-enter-inv ix r k old) [
      | inl same ↦ inr (ground (arith, same))
      | inr before ↦ inl before
    ]
    | inr later ↦ inr (ground (arith, later))
  ]),
  (λ k. elim (Bool-cases (ref r == k)) [
    | inl same ↦
        let q : ref r ≡ k = (eq_iff (ref r) k).0 same in
        let unused = b.3 k (rw (← q) (enter-Indexed ix r)) in ground (arith, unused, same)
    | inr other ↦ ground (arith, b.2 k, other)
  ]),
  (λ k h. elim (Bool-cases (ref r == k)) [
    | inl same ↦ absurd (h (rw (← (eq_iff (ref r) k).0 same) new))
    | inr other ↦ ground (arith, b.3 k (Indexed-enter ix r k h), other)
  ]),
)

index_refs-Builds :
    (rs : List Resource) (ix built : Index)
    → KeysIndexed ix
    → index_refs ix rs ≡ ok built
    → Builds ix rs built
unfolding index_refs
index_refs-Builds [] ix built h e =
    let q = ok-injective e in (rw (← q) h, (λ k m. inl (rw q m)), (λ k. omega arith), (λ k m. refl))
index_refs-Builds (r ∷ rs) ix built h e = elim (Option-cases (lookup (ref r) ix.by_ref)) [
  | inl new ↦ enter-Builds ix r rs built new (
      index_refs-Builds rs (enter ix r) built (enter-KeysIndexed ix r h)
        (rw (new, index_refs) at e))
  | inr (found, old) ↦ absurd (cc (rw (old, index_refs) at e))
]

find_ref-Indexed :
    (ix : Index) (dep reference k : String) → find_ref ix.by_ref dep reference ≡ ok k → Indexed ix k
find_ref-Indexed ix dep reference k e = elim (Option-cases (lookup reference ix.by_ref)) [
  | inl absent ↦ absurd (cc (rw (absent, find_ref) at e))
  | inr (r, found) ↦ rw (← ok-injective (rw (found, find_ref) at e)) (rw found (λ n. cc))
]

typed_ref-Indexed :
    (ix : Index) (dep kind key k : String) → typed_ref ix.by_ref dep kind key ≡ ok k → Indexed ix k
typed_ref-Indexed ix dep kind key k e = elim (Bool-cases (kind == "" || key == "")) [
  | inl short ↦ absurd (cc (rw (short, typed_ref) at e))
  | inr long ↦ find_ref-Indexed ix dep _ k (rw (long, typed_ref) at e)
]

only_match-Indexed :
    (ix : Index) (dep : String) (ms : List String) (k : String)
    → All (Indexed ix) ms
    → only_match dep ms ≡ ok k
    → Indexed ix k
only_match-Indexed ix dep [] k h e = absurd (cc e)
only_match-Indexed ix dep (match ∷ []) k h e = rw (← ok-injective e) h.0
only_match-Indexed ix dep (match ∷ other ∷ more) k h e = absurd (cc e)

resolve-Indexed :
    (ix : Index) (dep k : String)
    → KeysIndexed ix
    → resolve_dependency_ref ix dep ≡ ok k
    → Indexed ix k
unfolding resolve_dependency_ref
resolve-Indexed ix dep k h e = elim (Option-cases (split_colon dep)) [
  | inl bare ↦ only_match-Indexed ix dep _ k (h dep) (rw (bare, resolve_dependency_ref) at e)
  | inr ((kind, key), typed) ↦
      typed_ref-Indexed ix dep kind key k (rw (typed, resolve_dependency_ref) at e)
]

resolve_all-Indexed :
    (ix : Index) (deps ks : List String)
    → KeysIndexed ix
    → resolve_all ix deps ≡ ok ks
    → All (Indexed ix) ks
unfolding resolve_all
resolve_all-Indexed ix [] ks h e = rw (← ok-injective e) tt
resolve_all-Indexed ix (dep ∷ deps) ks h e =
    let (k, one, e') = >>=-eq-ok (resolve_dependency_ref ix dep) _ e in
    let (rest, all, e'') = >>=-eq-ok (resolve_all ix deps) _ e' in
    rw (← ok-injective e'') (resolve-Indexed ix dep k h one, resolve_all-Indexed ix deps rest h all)

schedule_items-Indexed :
    (ix : Index) (rs : List Resource) (items : List Item)
    → KeysIndexed ix
    → schedule_items ix rs ≡ ok items
    → All (λ i. All (Indexed ix) i.deps) items × ((k : String) → items_of k items ≡ refs_of k rs)
unfolding schedule_items
schedule_items-Indexed ix [] items h e = rw (← ok-injective e) (tt, λ k. refl)
schedule_items-Indexed ix (r ∷ rs) items h e =
    let (deps, one, e') = >>=-eq-ok (resolve_all ix (depends_on r)) _ e in
    let (rest, all, e'') = >>=-eq-ok (schedule_items ix rs) _ e' in
    let (ds, count) = schedule_items-Indexed ix rs rest h all in
    rw (← ok-injective e'')
      ((resolve_all-Indexed ix (depends_on r) deps h one, ds), λ k. ground (arith, count k))

-- What a schedule holds of the resources it was made of.
abbrev pub Resolves : List Resource → List Item → Type 0
Resolves rs items =
    ((k : String) → items_of k items ≤ 1)
    × ((k : String) → items_of k items ≡ refs_of k rs)
    × All (λ i. All (λ d. 1 ≤ items_of d items) i.deps) items

no_index-Indexed : (k : String) → Indexed no_index k → ⊥
unfolding lookup
no_index-Indexed k h = h refl

no_index-KeysIndexed : KeysIndexed no_index
unfolding lookup
no_index-KeysIndexed key = tt

named-in :
    (ix : Index) (rs : List Resource) (items : List Item)
    → Builds no_index rs ix
    → ((k : String) → items_of k items ≡ refs_of k rs)
    → (ks : List String) → All (Indexed ix) ks
    → All (λ d. 1 ≤ items_of d items) ks
named-in ix rs items b count [] h = tt
named-in ix rs items b count (k ∷ ks) h = (
  elim (b.1 k h.0) [
    | inl none_before ↦ absurd (no_index-Indexed k none_before)
    | inr there ↦ rw (count k) there
  ],
  named-in ix rs items b count ks h.1,
)

-- If the references resolve, the schedule has exactly one item for each resource's reference, every
-- reference at most once, and every dependency of an item is the reference of an item.
pub build_items-Resolves :
    (rs : List Resource) (items : List Item) → build_items rs ≡ ok items → Resolves rs items
unfolding build_items
build_items-Resolves rs items e =
    let (ix, indexed, e') = >>=-eq-ok (index_refs no_index rs) _ e in
    let b = index_refs-Builds rs no_index ix no_index-KeysIndexed indexed in
    let (ds, count) = schedule_items-Indexed ix rs items b.0 e' in
    (
      (λ k. rw (count k) (b.2 k)),
      count,
      All-map (λ i h. named-in ix rs items b count i.deps h) items ds,
    )
