-- ===== src/Repository/Version/Deletion.antt =====
-- `delete` of a complete version.
use pulpcore.Prelude.{
  ℕ, ◌≡◌, ◌≢◌, refl, sym, ◌∙◌, subst, true, false, ◌&&◌, Option, none, some, List, [], ◌∷◌, ◌<◌,
  ◌≤◌, arith, ◌⊎◌, inl, inr, if◌then◌else◌, ltb, leb, ◌==◌, eq_nat, opt_beq, any, contains,
  delete_where, count_where, In, Bool-cases, eq_of_opt_beq,
}
use pulpcore.Repository.Version.{Membership, Version, is_in, Result, ok, err}
use pulpcore.Repository.Version.Members.{member, any-update, any-delete}
use pulpcore.Repository.Version.Delete.{
  move_forward, squash, forget, mentions, relations_without, delete,
}
use pulpcore.Repository.Version.Delete.{next, lowest, lower}
use pulpcore.Repository.Version.Preserve.{WellFormed, member-squash}

-- No row of the result speaks of the version that goes.
moved-mentions :
    (m n : ℕ) → m < n → (rows : List Membership) → any (mentions m) (move_forward m n rows) ≡ false
moved-mentions m n after [] = refl
moved-mentions m n after (r ∷ rows) =
    let below = moved-mentions m n after rows in
    elim (Bool-cases (r.version_added == m)) [
      | inl at ↦ elim (Bool-cases (opt_beq r.version_removed (some m))) [
        | inl end ↦ rw (at, end, below) (ground arith)
        | inr end ↦ rw (at, end, below) (ground arith)
      ]
      | inr at ↦ elim (Bool-cases (opt_beq r.version_removed (some m))) [
        | inl end ↦ rw (at, end, at, below) (ground arith)
        | inr end ↦ rw (at, end, at, end, below) (ground arith)
      ]
    ]

squash-mentions :
    (m n : ℕ) → m < n → (rows : List Membership) → any (mentions m) (squash m n rows) ≡ false
unfolding squash
squash-mentions m n after rows = moved-mentions m n after _

forget-mentions : (m : ℕ) (rows : List Membership) → any (mentions m) (forget m rows) ≡ false
forget-mentions m [] = refl
forget-mentions m (r ∷ rows) =
    let below = forget-mentions m rows in
    elim (Bool-cases (r.version_added == m)) [
      | inl at ↦ rw at below
      | inr at ↦ elim (Bool-cases (opt_beq r.version_removed (some m))) [
        | inl end ↦ rw (at, end, at, below) (ground arith)
        | inr end ↦ rw (at, end, at, end, below) (ground arith)
      ]
    ]

-- The versions before stay as they are when the latest one is forgotten.
member-forget :
    (m k x : ℕ) → k < m → (rows : List Membership) → member k x (forget m rows) ≡ member k x rows
member-forget m k x below rows =
    any-update (λ r. r.content == x && is_in k r) (λ r. opt_beq r.version_removed (some m))
      (λ r. record r { version_removed = none })
      (λ r h.
        let e : r.version_removed ≡ some m = eq_of_opt_beq r.version_removed (some m) h in
        rw e (ground arith))
      (delete_where (λ r. r.version_added == m) rows)
    ∙ any-delete (λ r. r.content == x && is_in k r) (λ r. r.version_added == m)
        (λ r h. ground arith) rows

-- The next version is the first complete one above.
abbrev IsNext : ℕ → Option Version → List Version → Type 0
IsNext number none versions = (w : Version) → In w versions → w.complete ≡ true → w.number ≤ number
IsNext number (some s) versions =
    (number < s.number)
    × ((w : Version)
        → In w versions
        → w.complete ≡ true
        → (w.number ≤ number) ⊎ (s.number ≤ w.number))

passed :
    (number : ℕ) (v : Version)
    → (v.complete && ltb number v.number) ≡ false
    → v.complete ≡ true
    → v.number ≤ number
passed number v h c = ground arith

IsNext-step :
    (number : ℕ) (v : Version) (rest : Option Version) (versions : List Version)
    → IsNext number rest versions
    → IsNext number
        (if v.complete && ltb number v.number then some (lower v rest) else rest)
        (v ∷ versions)
IsNext-step number v none versions h = elim (Bool-cases (v.complete && ltb number v.number)) [
  | inl take ↦ rw take (
    ground arith,
    λ w i c. elim i [
      | inl e ↦ inr (subst (λ y. v.number ≤ y.number) (sym e) (omega arith))
      | inr j ↦ inl (h w j c)
    ],
  )
  | inr skip ↦ rw skip (λ w i c. elim i [
    | inl e ↦
        subst (λ y. y.number ≤ number) (sym e)
          (passed number v skip (subst (λ y. y.complete ≡ true) e c))
    | inr j ↦ h w j c
  ])
]
IsNext-step number v (some s) versions h = elim (Bool-cases (v.complete && ltb number v.number)) [
  | inl take ↦ elim (Bool-cases (leb v.number s.number)) [
    | inl first ↦
        rw (take, first)
          (
            ground arith,
            λ w i c. elim i [
              | inl e ↦ inr (subst (λ y. v.number ≤ y.number) (sym e) (omega arith))
              | inr j ↦ let far = h.1 w j c in ground arith
            ],
          )
    | inr second ↦
        rw (take, second)
          (
            h.0,
            λ w i c. elim i [
              | inl e ↦ inr (subst (λ y. s.number ≤ y.number) (sym e) (ground arith))
              | inr j ↦ h.1 w j c
            ],
          )
  ]
  | inr skip ↦ rw skip (
    h.0,
    λ w i c. elim i [
      | inl e ↦ inl (
          subst (λ y. y.number ≤ number) (sym e)
            (passed number v skip (subst (λ y. y.complete ≡ true) e c)))
      | inr j ↦ h.1 w j c
    ],
  )
]

next-IsNext : (number : ℕ) (versions : List Version) → IsNext number (next number versions) versions
unfolding next lowest
next-IsNext number [] = λ w i _. absurd i
next-IsNext number (v ∷ versions) =
    IsNext-step number v (next number versions) versions (next-IsNext number versions)

relations-mentions :
    (number : ℕ) (successor : Option Version) (versions : List Version) (rows : List Membership)
    → IsNext number successor versions
    → any (mentions number) (relations_without number successor rows) ≡ false
relations-mentions number none versions rows h = forget-mentions number rows
relations-mentions number (some s) versions rows h = squash-mentions number s.number h.0 rows

member-relations :
    (number : ℕ) (successor : Option Version) (versions : List Version) (rows : List Membership)
    → IsNext number successor versions
    → WellFormed rows
    → (w : Version) → In w versions
    → w.complete ≡ true
    → w.number ≢ number
    → (x : ℕ) → member w.number x (relations_without number successor rows) ≡ member w.number x rows
member-relations number none versions rows h wf w i c other x =
    let below = h w i c in member-forget number w.number x (omega arith) rows
member-relations number (some s) versions rows h wf w i c other x = elim (h.1 w i c) [
  | inl below ↦ member-squash number s.number h.0 w.number (inl (omega arith)) x rows wf
  | inr above ↦ member-squash number s.number h.0 w.number (inr above) x rows wf
]

-- The call succeeds, and the content of the other complete versions is what it was.
abbrev pub KeepsOthers :
    Version → List Version → List Membership → Result (List Version × List Membership) → Type 0
KeepsOthers v versions rows (ok (left, rows')) =
    (left ≡ delete_where (λ w. w.number == v.number) versions)
    × (any (mentions v.number) rows' ≡ false)
    × ((w : Version)
        → In w versions
        → w.complete ≡ true
        → w.number ≢ v.number
        → (x : ℕ) → member w.number x rows' ≡ member w.number x rows)
KeepsOthers v versions rows (err e) = ⊥

-- Deleting a complete version that is not protected and not the last complete one succeeds: the
-- version is gone, no membership speaks of it, and every other complete version has the content that
-- it had. The table is well formed: each membership ends after it begins, and no version adds a
-- content twice.
pub delete-KeepsOthers :
    (protected_numbers : List ℕ) (v : Version) (versions : List Version) (rows : List Membership)
    → WellFormed rows
    → v.complete ≡ true
    → 2 ≤ count_where (λ w. w.complete) versions
    → contains protected_numbers v.number ≡ false
    → KeepsOthers v versions rows (delete protected_numbers v versions rows)
unfolding delete
delete-KeepsOthers protected_numbers v versions rows wf complete two free =
    let many : leb (count_where (λ w. w.complete) versions) 1 ≡ false = ground arith in
    let n = next-IsNext v.number versions in
    let clean = relations-mentions v.number (next v.number versions) versions rows n in
    rw (complete, many, clean, free)
      (refl, clean, member-relations v.number (next v.number versions) versions rows n wf)
