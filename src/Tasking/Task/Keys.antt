-- ===== src/Tasking/Task/Keys.antt =====
-- The table of tasks has a primary key: updates and counts by key are about one row.
use pulpcore.Prelude.{
  ◌∙◌, sym, All-In, In, first_where-none, ==-refl, ℕ, fun_ext, ◌≡◌, refl, subst, ap, ◌≢◌, inl, inr,
  true, false, Bool, ◌&&◌, Option, none, some, List, [], ◌∷◌, arith, ◌≤◌, if◌then◌else◌,
  update_where, All, ◌==◌, eq_nat, Bool-cases, count_where, first_where, update_where-none,
}
use pulpcore.Tasking.Task.{Task, eq_state}

-- The row that `refresh_from_db` reads.
abbrev pub find_row : ℕ → List Task → Option Task
find_row k rows = first_where (λ r. r.pk == k) rows

-- `pk` is the primary key of the table.
abbrev pub HasPrimaryKey : List Task → Type 0
HasPrimaryKey [] = Unit
HasPrimaryKey (r ∷ rows) = All (λ s. s.pk ≢ r.pk) rows × HasPrimaryKey rows

module _ (k : ℕ) (q : Task → Bool) where
  count-absent :
      (rows : List Task) → All (λ s. s.pk ≢ k) rows → count_where (λ s. s.pk == k && q s) rows ≡ 0
  count-absent [] h = refl
  count-absent (r ∷ rows) h = ground (arith, count-absent rows h.1)

  count-le-one :
      (rows : List Task) → HasPrimaryKey rows → count_where (λ s. s.pk == k && q s) rows ≤ 1
  count-le-one [] h = omega arith
  count-le-one (r ∷ rows) h = elim (Bool-cases (r.pk == k)) [
    | inl here ↦
        let e : r.pk ≡ k = (eq_nat.same_iff r.pk k).0 here in
        ground (arith, count-absent rows (subst (λ j. All (λ s. s.pk ≢ j) rows) e h.0))
    | inr other ↦ rw other (count-le-one rows h.1)
  ]

  unhit :
      (f : Task → Task) (rows : List Task)
      → All (λ s. s.pk ≢ k) rows
      → update_where (λ s. s.pk == k && q s) f rows ≡ rows
  unhit f [] h = refl
  unhit f (r ∷ rows) h = ground (arith, unhit f rows h.1)

  pub count-found :
      (rows : List Task) (r : Task)
      → HasPrimaryKey rows
      → find_row k rows ≡ some r
      → count_where (λ s. s.pk == k && q s) rows ≡ (if q r then 1 else 0)
  count-found [] r h e = cc
  count-found (s ∷ rows) r h e = elim (Bool-cases (s.pk == k)) [
    | inl here ↦
        let same : s.pk ≡ k = (eq_nat.same_iff s.pk k).0 here in
        let none_left = count-absent rows (subst (λ j. All (λ t. t.pk ≢ j) rows) same h.0) in
        ground (arith, none_left)
    | inr other ↦ ground (arith, count-found rows r h.1)
  ]

  pub count-missing :
      (rows : List Task) → find_row k rows ≡ none → count_where (λ s. s.pk == k && q s) rows ≡ 0
  count-missing [] e = refl
  count-missing (s ∷ rows) e = ground (arith, count-missing rows)

unhit_key :
    (k : ℕ) (f : Task → Task) (rows : List Task)
    → All (λ s. s.pk ≢ k) rows
    → update_where (λ s. s.pk == k) f rows ≡ rows
unhit_key k f [] h = refl
unhit_key k f (r ∷ rows) h = ground (arith, unhit_key k f rows h.1)

-- An update by key and test, as an update of the one row with that key.
pub update-found :
    (k : ℕ) (q : Task → Bool) (f : Task → Task) (rows : List Task) (r : Task)
    → HasPrimaryKey rows
    → find_row k rows ≡ some r
    → update_where (λ s. s.pk == k && q s) f rows
      ≡ update_where (λ s. s.pk == k) (λ _. if q r then f r else r) rows
update-found k q f [] r h e = cc
update-found k q f (s ∷ rows) r h e = elim (Bool-cases (s.pk == k)) [
  | inl here ↦
      let same : s.pk ≡ k = (eq_nat.same_iff s.pk k).0 here in
      let others = subst (λ j. All (λ t. t.pk ≢ j) rows) same h.0 in
      ground (arith, unhit k q f rows others, unhit_key k (λ _. if q r then f r else r) rows others)
  | inr other ↦ ground (arith, update-found k q f rows r h.1)
]

-- Writing back the row that is there changes nothing.
pub rewrite_row :
    (k : ℕ) (rows : List Task) (r : Task)
    → HasPrimaryKey rows
    → find_row k rows ≡ some r
    → update_where (λ s. s.pk == k) (λ _. r) rows ≡ rows
rewrite_row k [] r h e = refl
rewrite_row k (s ∷ rows) r h e = elim (Bool-cases (s.pk == k)) [
  | inl here ↦
      let same : s.pk ≡ k = (eq_nat.same_iff s.pk k).0 here in
      let others = subst (λ j. All (λ t. t.pk ≢ j) rows) same h.0 in
      let it : s ≡ r = ground arith in rw here (cc (it, unhit_key k (λ _. r) rows others))
  | inr other ↦ rw other (ap (◌∷◌ s) (rewrite_row k rows r h.1 (rw other at e)))
]

module _ (k : ℕ) (q : Task → Bool) (f : Task → Task) (rows : List Task) (r : Task)
    (h : HasPrimaryKey rows) (e : find_row k rows ≡ some r) where
  pub update-hit :
      q r ≡ true
      → (count_where (λ s. s.pk == k && q s) rows ≡ 1)
        × (update_where (λ s. s.pk == k && q s) f rows
            ≡ update_where (λ s. s.pk == k) (λ _. f r) rows)
  update-hit hit = (
    ground (arith, count-found k q rows r h e),
    subst
        (λ b.
          update_where (λ s. s.pk == k && q s) f rows
          ≡ update_where (λ s. s.pk == k) (λ _. if b then f r else r) rows)
        hit (update-found k q f rows r h e),
  )

  pub update-miss :
      q r ≡ false
      → (count_where (λ s. s.pk == k && q s) rows ≡ 0)
        × (update_where (λ s. s.pk == k && q s) f rows ≡ rows)
  update-miss miss =
      let zero_rows : count_where (λ s. s.pk == k && q s) rows ≡ 0 =
        ground (arith, count-found k q rows r h e) in
      (zero_rows, update_where-none (λ s. s.pk == k && q s) f rows zero_rows)

module _ (k : ℕ) (f : Task → Task) (rows : List Task) (r : Task) (h : HasPrimaryKey rows)
    (e : find_row k rows ≡ some r) where
  and_always : ◌≡◌ {A = Task → Bool} (λ s. s.pk == k && true) (λ s. s.pk == k)
  and_always = fun_ext λ s. ground arith

  pub update-key :
      (count_where (λ s. s.pk == k) rows ≡ 1)
      × (update_where (λ s. s.pk == k) f rows ≡ update_where (λ s. s.pk == k) (λ _. f r) rows)
  update-key =
      subst
        (λ (t : Task → Bool).
          (count_where t rows ≡ 1)
          × (update_where t f rows ≡ update_where (λ s. s.pk == k) (λ _. f r) rows))
        and_always (update-hit k (λ _. true) f rows r h e refl)

module _ (p : Task → Bool) (f : Task → Task) (keeps : (r : Task) → (f r).pk ≡ r.pk) where
  pub pk-update : (r : Task) → (if p r then f r else r).pk ≡ r.pk
  pk-update r = ground (arith, keeps r)

  All-pk-update :
      (k : ℕ) (rows : List Task)
      → All (λ s. s.pk ≢ k) rows
      → All (λ s. s.pk ≢ k) (update_where p f rows)
  All-pk-update k [] h = tt
  All-pk-update k (r ∷ rows) h = (λ e. h.0 (sym (pk-update r) ∙ e), All-pk-update k rows h.1)

  pub HasPrimaryKey-update :
      (rows : List Task) → HasPrimaryKey rows → HasPrimaryKey (update_where p f rows)
  HasPrimaryKey-update [] h = tt
  HasPrimaryKey-update (r ∷ rows) h = (
    subst (λ k. All (λ s. s.pk ≢ k) (update_where p f rows)) (sym (pk-update r))
        (All-pk-update r.pk rows h.0),
    HasPrimaryKey-update rows h.1,
  )

  pub find_row-update :
      (k : ℕ) (rows : List Task)
      → find_row k rows ≢ none
      → find_row k (update_where p f rows) ≢ none
  find_row-update k [] h = h
  find_row-update k (r ∷ rows) h = elim (Bool-cases (r.pk == k)) [
    | inl here ↦ rw (pk-update r, here) (λ e. cc)
    | inr other ↦ rw (pk-update r, other) (find_row-update k rows (rw other at h))
  ]

pub In-find_row : (r : Task) (rows : List Task) → In r rows → find_row r.pk rows ≢ none
In-find_row r rows m e = cc (first_where-none (λ s. s.pk == r.pk) rows r e m, ==-refl r.pk)

pub find-In :
    (t : Task) (rows : List Task) → HasPrimaryKey rows → In t rows → find_row t.pk rows ≡ some t
find-In t [] h m = absurd m
find-In t (r ∷ rows) (h, hs) (inl e) =
    let own : (r.pk == t.pk) ≡ true = rw e (==-refl r.pk) in rw own (ap some (sym e))
find-In t (r ∷ rows) (h, hs) (inr m) =
    let apart = All-In (λ s. s.pk ≢ r.pk) rows h t m in
    let other : (r.pk == t.pk) ≡ false = ground arith in rw other (find-In t rows hs m)
