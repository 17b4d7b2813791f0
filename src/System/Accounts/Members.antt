-- ===== src/System/Accounts/Members.antt =====
-- The groups of a user, read off the lines of /etc/group.
use goss.Base.{
  String, ◌≡◌, refl, sym, ap, ◌∙◌, ◌↔◌, ◌⊎◌, inl, inr, Bool, true, false, List, [], ◌∷◌, ◌++◌, map,
  ◌==◌, eq_iff, if◌then◌else◌, Bool-cases, append-In-left, append-In-right, append-In-cases, keep,
  In, keep-cons,
}
use goss.System.Accounts.{added, group_loop, groups_for_user, split_on, comma, colon, is_primary}
use goss.Errors.{Result}
use goss.Base.Int.{ℤ}

keep-In :
    {A : Type 0} (p : A → Bool) (xs : List A) (a : A) → In a (keep p xs) → In a xs × (p a ≡ true)
keep-In p [] a h = absurd h
keep-In p (x ∷ xs) a h = elim (Bool-cases (p x)) [
  | inl yes_it_is ↦ elim (rw (keep-cons p x xs true yes_it_is) at h) [
    | inl e ↦ (inl e, ap p (sym e) ∙ yes_it_is)
    | inr k ↦ let (there, q) = keep-In p xs a k in (inr there, q)
  ]
  | inr not_it ↦
      let (there, q) = keep-In p xs a (rw (keep-cons p x xs false not_it) at h) in (inr there, q)
]

In-keep :
    {A : Type 0} (p : A → Bool) (xs : List A) (a : A) → In a xs → (p a ≡ true) → In a (keep p xs)
In-keep p [] a h q = absurd h
In-keep p (x ∷ xs) a h q = elim (Bool-cases (p x)) [
  | inl passes ↦
      rw (keep-cons p x xs true passes)
        (elim h [ inl e ↦ inl e | inr k ↦ inr (In-keep p xs a k q) ])
  | inr fails ↦
      rw (keep-cons p x xs false fails)
        (elim h [ inl e ↦ absurd (cc (ap p e)) | inr k ↦ In-keep p xs a k q ])
]

In-const :
    (name g : String) (xs : List String)
    → In g (map (λ m. name) xs)
    → (name ≡ g) × (x : String) × In x xs
In-const name g [] h = absurd h
In-const name g (x ∷ xs) (inl e) = (e, x, inl refl)
In-const name g (x ∷ xs) (inr h) = let (e, y, there) = In-const name g xs h in (e, y, inr there)

const-In : (name g x : String) (xs : List String) → name ≡ g → In x xs → In g (map (λ m. name) xs)
const-In name g x [] e h = absurd h
const-In name g x (y ∷ xs) e (inl q) = inl e
const-In name g x (y ∷ xs) e (inr h) = inr (const-In name g x xs e h)

module _ (atoi : String → Result ℤ) (sort : List String → List String) (user : String)
    (pgid : ℤ) where
  -- A line `name:password:gid:members` puts the user into the group `g`.
  abbrev pub Belongs : String → List String → Type 0
  Belongs g (name ∷ password ∷ gid ∷ members ∷ []) =
      (name ≡ g) × ((is_primary (atoi gid) pgid ≡ true) ⊎ In user (split_on comma members))
  Belongs g _ = ⊥

  added-Belongs :
      (parts : List String) (g : String) → In g (added atoi sort user pgid parts) ↔ Belongs g parts
  added-Belongs [] g = (λ h. h, λ h. h)
  added-Belongs (a ∷ []) g = (λ h. h, λ h. h)
  added-Belongs (a ∷ b ∷ []) g = (λ h. h, λ h. h)
  added-Belongs (a ∷ b ∷ c ∷ []) g = (λ h. h, λ h. h)
  added-Belongs (a ∷ b ∷ c ∷ d ∷ e ∷ rest) g = (λ h. h, λ h. h)
  added-Belongs (name ∷ password ∷ gid ∷ members ∷ []) g =
      elim (Bool-cases (is_primary (atoi gid) pgid)) [
        | inl primary ↦
            rw primary
              ((λ h. elim h [ inl e ↦ (e, inl refl) | inr n ↦ absurd n ]), λ (e, why). inl e)
        | inr other ↦
            let is_user = λ (m : String). m == user in
            let listed_in = split_on comma members in
            rw other (
              (λ h.
                  let (e, m, there) = In-const name g (keep is_user listed_in) h in
                  let (k, q) = keep-In is_user listed_in m there in
                  (e, inr (rw ((eq_iff m user).0 q) at k))),
              λ (e, why). elim why [
                | inl p ↦ absurd (cc p)
                | inr k ↦
                    const-In name g user (keep is_user listed_in) e
                      (In-keep is_user listed_in user k ((eq_iff user user).1 refl))
              ],
            )
      ]

  abbrev pub Names : String → List String → Type 0
  Names g lines = (line : String) × In line lines × Belongs g (split_on colon line)

  -- What a line makes of the groups found so far.
  abbrev after_line : List String → String → List String
  after_line out text =
      if text == "" then out else out ++ added atoi sort user pgid (split_on colon text)

  after_line-Belongs :
      (out : List String) (text g : String)
      → In g (after_line out text) ↔ (In g out ⊎ Belongs g (split_on colon text))
  unfolding split_on
  after_line-Belongs out text g = elim (Bool-cases (text == "")) [
    | inl empty ↦ rw empty (
      (λ h. inl h),
      λ h. elim h [ inl k ↦ k | inr n ↦ absurd (rw ((eq_iff text "").0 empty) at n) ],
    )
    | inr full ↦
        let (one, two) = added-Belongs (split_on colon text) g in
        rw full (
          (λ h. elim (append-In-cases g out (added atoi sort user pgid (split_on colon text)) h) [
            | inl k ↦ inl k
            | inr k ↦ inr (one k)
          ]),
          λ h. elim h [
            | inl k ↦ append-In-left g out (added atoi sort user pgid (split_on colon text)) k
            | inr k ↦
                append-In-right g out (added atoi sort user pgid (split_on colon text)) (two k)
          ],
        )
  ]

  group_loop-Names :
      (lines out : List String) (g : String)
      → In g (group_loop atoi sort user pgid out lines) ↔ (In g out ⊎ Names g lines)
  unfolding group_loop
  group_loop-Names [] out g =
      ((λ h. inl h), λ h. elim h [ inl k ↦ k | inr (line, n, b) ↦ absurd n ])
  group_loop-Names (text ∷ lines) out g =
      let (go, back) = group_loop-Names lines (after_line out text) g in
      let (one, two) = after_line-Belongs out text g in
      (
        (λ h. elim (go h) [
          | inl k ↦ elim (one k) [ inl old ↦ inl old | inr here ↦ inr (text, inl refl, here) ]
          | inr (line, there, b) ↦ inr (line, inr there, b)
        ]),
        λ h. elim h [
          | inl old ↦ back (inl (two (inl old)))
          | inr (line, inl e, b) ↦ back (inl (two (inr (rw (← e) at b))))
          | inr (line, inr there, b) ↦ back (inr (line, there, b))
        ],
      )

  -- A user's groups are exactly the names on the lines of four parts whose number is the user's own
  -- group, or whose list names the user, if sorting keeps what is in a list.
  pub groups_for_user-Names :
      ((xs : List String) (x : String) → In x (sort xs) ↔ In x xs)
      → (lines : List String) (g : String)
      → In g (groups_for_user atoi sort user pgid lines) ↔ Names g lines
  unfolding groups_for_user
  groups_for_user-Names sort-In lines g =
      let (s, s') = sort-In (group_loop atoi sort user pgid [] lines) g in
      let (l, l') = group_loop-Names lines [] g in
      ((λ h. elim (l (s h)) [ inl n ↦ absurd n | inr k ↦ k ]), λ k. s' (l' (inr k)))
