-- ===== src/Tasking/RedisWorker/Cleanup/Rows.antt =====
-- Writing some rows of a table, one after the other, by their keys.
use pulpcore.Prelude.{
  ℕ, ◌≡◌, ◌≢◌, refl, sym, ap, ◌∙◌, Bool, true, false, some, List, [], ◌∷◌, All, filter,
  update_where, ◌==◌, eq_nat, eq_of_==, ==-refl, Bool-cases, inl, inr, arith, All-filter, subst,
}
use pulpcore.Tasking.Task.{Task}
use pulpcore.Tasking.Task.Keys.{find_row, HasPrimaryKey}

-- The row with a key replaced.
abbrev pub write : ℕ → Task → List Task → List Task
write k a rows = update_where (λ s. s.pk == k) (λ _. a) rows

pub write-write :
    (k : ℕ) (a b : Task) (rows : List Task) → a.pk ≡ k → write k b (write k a rows) ≡ write k b rows
write-write k a b [] e = refl
write-write k a b (r ∷ rows) e = elim (Bool-cases (r.pk == k)) [
  | inl here ↦
      let mine : (a.pk == k) ≡ true = ground arith in
      rw (here, mine) (ap (λ xs. b ∷ xs) (write-write k a b rows e))
  | inr other ↦ rw (other, other) (ap (λ xs. r ∷ xs) (write-write k a b rows e))
]

pub find-write :
    (k : ℕ) (a r : Task) (rows : List Task)
    → a.pk ≡ k
    → find_row k rows ≡ some r
    → find_row k (write k a rows) ≡ some a
find-write k a r [] e h = cc
find-write k a r (s ∷ rows) e h = elim (Bool-cases (s.pk == k)) [
  | inl here ↦ let mine : (a.pk == k) ≡ true = ground arith in rw (here, mine) refl
  | inr other ↦ rw (other, other) (find-write k a r rows e (rw other at h))
]

pub find-write_other :
    (k j : ℕ) (a : Task) (rows : List Task)
    → a.pk ≡ k
    → j ≢ k
    → find_row j (write k a rows) ≡ find_row j rows
find-write_other k j a [] e h = refl
find-write_other k j a (s ∷ rows) e h = elim (Bool-cases (s.pk == k)) [
  | inl here ↦
      let no_a : (a.pk == j) ≡ false = ground arith in
      let no_s : (s.pk == j) ≡ false = ground arith in
      rw (here, no_a, no_s) (find-write_other k j a rows e h)
  | inr other ↦ let rest = find-write_other k j a rows e h in rw (other, rest) refl
]

All-write :
    (j k : ℕ) (a : Task) (rows : List Task)
    → a.pk ≡ k
    → All (λ s. s.pk ≢ j) rows
    → All (λ s. s.pk ≢ j) (write k a rows)
All-write j k a [] e h = tt
All-write j k a (r ∷ rows) e (h, hs) = elim (Bool-cases (r.pk == k)) [
  | inl here ↦
      let same = eq_of_== r.pk k here in
      rw here ((λ e'. h (same ∙ sym e ∙ e')), All-write j k a rows e hs)
  | inr other ↦ rw other (h, All-write j k a rows e hs)
]

pub HasPrimaryKey-write :
    (k : ℕ) (a : Task) (rows : List Task)
    → a.pk ≡ k
    → HasPrimaryKey rows
    → HasPrimaryKey (write k a rows)
HasPrimaryKey-write k a [] e h = tt
HasPrimaryKey-write k a (r ∷ rows) e (h, hs) =
    let rest = HasPrimaryKey-write k a rows e hs in
    elim (Bool-cases (r.pk == k)) [
      | inl here ↦
          let same : r.pk ≡ a.pk = eq_of_== r.pk k here ∙ sym e in
          rw here (All-write a.pk k a rows e (subst (λ j. All (λ s. s.pk ≢ j) rows) same h), rest)
      | inr other ↦ rw other (All-write r.pk k a rows e h, rest)
    ]

pub HasPrimaryKey-filter :
    (p : Task → Bool) (rows : List Task) → HasPrimaryKey rows → HasPrimaryKey (filter p rows)
HasPrimaryKey-filter p [] h = tt
HasPrimaryKey-filter p (r ∷ rows) (h, hs) = elim (Bool-cases (p r)) [
  | inl keep ↦ rw keep (All-filter (λ s. s.pk ≢ r.pk) p rows h, HasPrimaryKey-filter p rows hs)
  | inr drop ↦ rw drop (HasPrimaryKey-filter p rows hs)
]

module _ (f : Task → Task) (keeps : (r : Task) → (f r).pk ≡ r.pk) where
  -- The rows of a list written one after the other.
  abbrev pub write_all : List Task → List Task → List Task
  write_all [] rows = rows
  write_all (t ∷ tasks) rows = write_all tasks (write t.pk (f t) rows)

  write_all-head :
      (tasks rows : List Task) (x : Task)
      → All (λ t. x.pk ≢ t.pk) tasks
      → write_all tasks (x ∷ rows) ≡ x ∷ write_all tasks rows
  write_all-head [] rows x h = refl
  write_all-head (t ∷ tasks) rows x (h, hs) =
      let other : (x.pk == t.pk) ≡ false = ground arith in
      rw other (write_all-head tasks (write t.pk (f t) rows) x hs)

  write-absent :
      (k : ℕ) (a : Task) (rows : List Task) → All (λ s. s.pk ≢ k) rows → write k a rows ≡ rows
  write-absent k a [] h = refl
  write-absent k a (r ∷ rows) (h, hs) =
      let other : (r.pk == k) ≡ false = ground arith in
      rw other (ap (λ xs. r ∷ xs) (write-absent k a rows hs))

  filter-other :
      (p : Task → Bool) (x : Task) (rows : List Task)
      → All (λ s. s.pk ≢ x.pk) rows
      → All (λ t. x.pk ≢ t.pk) (filter p rows)
  filter-other p x [] h = tt
  filter-other p x (r ∷ rows) (h, hs) = elim (Bool-cases (p r)) [
    | inl keep ↦ rw keep ((λ e. h (sym e)), filter-other p x rows hs)
    | inr drop ↦ rw drop (filter-other p x rows hs)
  ]

  -- Writing the rows that pass a test is an update of those rows.
  pub write_all-update :
      (p : Task → Bool) (rows : List Task)
      → HasPrimaryKey rows
      → write_all (filter p rows) rows ≡ update_where p f rows
  write_all-update p [] h = refl
  write_all-update p (r ∷ rows) (h, hs) =
      let own : (r.pk == r.pk) ≡ true = ==-refl r.pk in
      let below = write_all-update p rows hs in
      elim (Bool-cases (p r)) [
        | inl keep ↦
            let away = filter-other p r rows h in
            let away' : All (λ t. (f r).pk ≢ t.pk) (filter p rows) =
              subst (λ k. All (λ t. k ≢ t.pk) (filter p rows)) (sym (keeps r)) away in
            let first : write r.pk (f r) (r ∷ rows) ≡ f r ∷ rows =
              rw own (ap (λ xs. f r ∷ xs) (write-absent r.pk (f r) rows h)) in
            rw keep (
              ap (write_all (filter p rows)) first
              ∙ write_all-head (filter p rows) rows (f r) away'
              ∙ ap (λ xs. f r ∷ xs) below)
        | inr drop ↦ rw drop (
            write_all-head (filter p rows) rows r (filter-other p r rows h)
            ∙ ap (λ xs. r ∷ xs) below)
      ]
