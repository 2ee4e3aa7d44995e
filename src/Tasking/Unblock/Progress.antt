-- ===== src/Tasking/Unblock/Progress.antt =====
-- The unblocking pass ends normally.
use pulpcore.Prelude.{
  In-All, String, ◌≡◌, refl, ◌≢◌, ◌⊎◌, inl, inr, true, false, none, some, List, [], ◌∷◌, ◌++◌, any,
  arith, eq_string, filter, ◌==◌, eq_nat, In, In-filter, Bool-cases, All, leb, Option-cases,
}
use pulpcore.Tasking.Task.{Task, Db, Env, returned, unblock, eq_state, is_incomplete}
use pulpcore.Tasking.Task.Keys.{
  HasPrimaryKey, find_row, update-key, HasPrimaryKey-update, find_row-update, In-find_row,
}
use pulpcore.Tasking.Resources.{reserved, exclusive_of, shared_of}
use pulpcore.Tasking.Unblock.{
  is_free, is_to_unblock, visit, unblock_loop, incomplete_tasks, unblock_tasks, insert_by_created,
  order_by_created,
}

In-insert : (t r : Task) (rows : List Task) → In t (insert_by_created r rows) → (t ≡ r) ⊎ In t rows
unfolding insert_by_created
In-insert t r [] m = m
In-insert t r (s ∷ rows) m = elim (Bool-cases (leb r.pulp_created s.pulp_created)) [
  | inl first ↦ rw first at m
  | inr later ↦ past (In-insert t r rows) (rw later at m)
]
  where
    past :
        (In t (insert_by_created r rows) → (t ≡ r) ⊎ In t rows)
        → (t ≡ s) ⊎ In t (insert_by_created r rows)
        → (t ≡ r) ⊎ In t (s ∷ rows)
    past ih (inl e) = inr (inl e)
    past ih (inr i) = elim (ih i) [ inl e ↦ inl e | inr j ↦ inr (inr j) ]

pub In-order : (t : Task) (rows : List Task) → In t (order_by_created rows) → In t rows
unfolding order_by_created
In-order t [] m = m
In-order t (r ∷ rows) m = elim (In-insert t r (order_by_created rows) m) [
  | inl e ↦ inl e
  | inr i ↦ inr (In-order t rows i)
]

pub In-incomplete_tasks :
    (t : Task) (db : Db)
    → In t (incomplete_tasks db)
    → In t db.tasks × (is_incomplete t.state ≡ true)
unfolding incomplete_tasks
In-incomplete_tasks t db m =
    In-filter (λ r. is_incomplete r.state) t db.tasks
      (In-order t (filter (λ r. is_incomplete r.state) db.tasks) m)

-- The task has a row.
abbrev HasRow : Db → Task → Type 0
HasRow db t = find_row t.pk db.tasks ≢ none

module _ (env : Env) (t : Task) (db : Db) (keyed : HasPrimaryKey db.tasks) (row : HasRow db t) where
  unblock-returned : (unblock env t db).0 ≡ returned
  unfolding unblock
  unblock-returned = elim (Option-cases (find_row t.pk db.tasks)) [
    | inl missing ↦ absurd (row missing)
    | inr (r, found) ↦
        let (one, _) =
          update-key t.pk (λ r. record r { unblocked_at = some env.now }) db.tasks r keyed found in
        rw one refl
  ]

  unblock-HasPrimaryKey : HasPrimaryKey (unblock env t db).2.tasks
  unfolding unblock
  unblock-HasPrimaryKey = ground (
    arith,
    HasPrimaryKey-update (λ r. r.pk == t.pk) (λ r. record r { unblocked_at = some env.now })
        (λ r. refl) db.tasks keyed,
  )

  unblock-HasRow : (s : Task) → HasRow db s → HasRow (unblock env t db).2 s
  unfolding unblock
  unblock-HasRow s h =
      let kept =
        find_row-update (λ r. r.pk == t.pk) (λ r. record r { unblocked_at = some env.now })
          (λ r. refl) s.pk db.tasks h in
      ground (arith, kept)

module _ (env : Env) (exclusive shared : List String) (t : Task) (db : Db)
    (keyed : HasPrimaryKey db.tasks) where
  visit-returned : HasRow db t → (visit env exclusive shared t db).0 ≡ returned
  unfolding visit
  visit-returned row = elim (Bool-cases (is_to_unblock exclusive shared t)) [
    | inl chosen ↦ rw chosen (unblock-returned env t db keyed row)
    | inr left ↦ rw left refl
  ]

  visit-HasPrimaryKey : HasRow db t → HasPrimaryKey (visit env exclusive shared t db).2.tasks
  unfolding visit
  visit-HasPrimaryKey row = elim (Bool-cases (is_to_unblock exclusive shared t)) [
    | inl chosen ↦ rw chosen (unblock-HasPrimaryKey env t db keyed row)
    | inr left ↦ rw left keyed
  ]

  visit-HasRow :
      HasRow db t → (s : Task) → HasRow db s → HasRow (visit env exclusive shared t db).2 s
  unfolding visit
  visit-HasRow row s h = elim (Bool-cases (is_to_unblock exclusive shared t)) [
    | inl chosen ↦ rw chosen (unblock-HasRow env t db keyed row s h)
    | inr left ↦ rw left h
  ]

All-HasRow-visit :
    (env : Env) (exclusive shared : List String) (t : Task) (db : Db)
    → HasPrimaryKey db.tasks
    → HasRow db t
    → (ts : List Task) → All (HasRow db) ts
    → All (HasRow (visit env exclusive shared t db).2) ts
All-HasRow-visit env exclusive shared t db keyed row [] h = tt
All-HasRow-visit env exclusive shared t db keyed row (s ∷ ts) h = (
  visit-HasRow env exclusive shared t db keyed row s h.0,
  All-HasRow-visit env exclusive shared t db keyed row ts h.1,
)

loop-returned :
    (env : Env) (exclusive shared : List String) (ts : List Task) (db : Db)
    → HasPrimaryKey db.tasks
    → All (HasRow db) ts
    → (unblock_loop env exclusive shared ts db).0 ≡ returned
unfolding unblock_loop
loop-returned env exclusive shared [] db keyed h = refl
loop-returned env exclusive shared (t ∷ ts) db keyed h =
    rw (visit-returned env exclusive shared t db keyed h.0) (
      loop-returned env (exclusive ++ exclusive_of (reserved t)) (shared ++ shared_of (reserved t))
        ts (visit env exclusive shared t db).2
        (visit-HasPrimaryKey env exclusive shared t db keyed h.0)
        (All-HasRow-visit env exclusive shared t db keyed h.0 ts h.1))

-- On a table with a primary key the pass ends normally: no call of `unblock` raises.
pub unblock_tasks-returned :
    (env : Env) (db : Db) → HasPrimaryKey db.tasks → (unblock_tasks env db).0 ≡ returned
unfolding unblock_tasks
unblock_tasks-returned env db keyed = loop-returned env [] [] (incomplete_tasks db) db keyed (
    In-All (HasRow db) (incomplete_tasks db)
      (λ t m. In-find_row t db.tasks (In-incomplete_tasks t db m).0))

any-never : (xs : List String) → any (λ x. false) xs ≡ false
any-never [] = refl
any-never (x ∷ xs) = any-never xs

pub free_of_nothing : (t : Task) → is_free [] [] t ≡ true
free_of_nothing t =
    rw (any-never (exclusive_of (reserved t)), any-never (shared_of (reserved t))) refl
