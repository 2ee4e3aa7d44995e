-- ===== src/Tasking/Unblock/Oldest.antt =====
-- The oldest task of the queue comes out of an unblocking pass with its row unblocked.
use pulpcore.Prelude.{
  ℕ, String, ◌≡◌, refl, sym, ap, subst, ◌∙◌, ◌≢◌, inl, inr, true, false, Bool, none, some, List, [],
  ◌∷◌, ◌++◌, if◌then◌else◌, ◌==◌, eq_nat, ==-refl, Bool-cases, update_where, arith,
}
use pulpcore.Tasking.Task.{Task, TaskState, Db, Env, Outcome, returned, unblock, is_incomplete}
use pulpcore.Tasking.Task.Keys.{HasPrimaryKey, find_row, find-In, pk-update}
use pulpcore.Tasking.Resources.{reserved, exclusive_of, shared_of}
use pulpcore.Tasking.Unblock.{
  is_to_unblock, visit, go_on, unblock_loop, incomplete_tasks, unblock_tasks,
}
use pulpcore.Tasking.Unblock.Progress.{In-incomplete_tasks, free_of_nothing}

-- What an update makes of the row with a key.
find_row-update_where :
    (p : Task → Bool) (f : Task → Task) (keeps : (r : Task) → (f r).pk ≡ r.pk) (k : ℕ)
    (rows : List Task) (r : Task)
    → find_row k rows ≡ some r
    → find_row k (update_where p f rows) ≡ some (if p r then f r else r)
find_row-update_where p f keeps k [] r e = cc
find_row-update_where p f keeps k (s ∷ rows) r e = elim (Bool-cases (s.pk == k)) [
  | inl here ↦
      let it : s ≡ r = ground arith in
      rw (pk-update p f keeps s, here) (ap (λ x. some (if p x then f x else x)) it)
  | inr other ↦
      rw (pk-update p f keeps s, other) (find_row-update_where p f keeps k rows r (rw other at e))
]

-- The row with the key is unblocked, and in the state.
pub record IsUnblocked (k : ℕ) (state : TaskState) (db : Db) : Type 0 where
  pub row : Task
  pub found : find_row k db.tasks ≡ some row
  pub same_state : row.state ≡ state
  pub unblocked : row.unblocked_at ≢ none

module _ (env : Env) where
  -- `unblock` writes the rows of its key, whatever it raises.
  unblock-find_row :
      (t : Task) (db : Db) (k : ℕ) (r : Task)
      → find_row k db.tasks ≡ some r
      → find_row k (unblock env t db).2.tasks
        ≡ some (if r.pk == t.pk then record r { unblocked_at = some env.now } else r)
  unfolding unblock
  unblock-find_row t db k r e =
      let written =
        find_row-update_where (λ r. r.pk == t.pk) (λ r. record r { unblocked_at = some env.now })
          (λ r. refl) k db.tasks r e in
      ground (arith, written)

  unblock-IsUnblocked :
      (t : Task) (db : Db) (k : ℕ) (state : TaskState)
      → IsUnblocked k state db
      → IsUnblocked k state (unblock env t db).2
  unblock-IsUnblocked t db k state u = elim (Bool-cases (u.row.pk == t.pk)) [
    | inl here ↦ record {
      row = record (u.row) { unblocked_at = some env.now };
      found = unblock-find_row t db k u.row u.found ∙ rw here refl;
      same_state = u.same_state;
      unblocked = λ e. cc;
    }
    | inr other ↦ record {
      row = u.row;
      found = unblock-find_row t db k u.row u.found ∙ rw other refl;
      same_state = u.same_state;
      unblocked = u.unblocked;
    }
  ]

  visit-IsUnblocked :
      (exclusive shared : List String) (t : Task) (db : Db) (k : ℕ) (state : TaskState)
      → IsUnblocked k state db
      → IsUnblocked k state (visit env exclusive shared t db).2
  unfolding visit
  visit-IsUnblocked exclusive shared t db k state u =
      elim (Bool-cases (is_to_unblock exclusive shared t)) [
        | inl chosen ↦ rw chosen (unblock-IsUnblocked t db k state u)
        | inr left ↦ rw left u
      ]

  go_on-IsUnblocked :
      (o : Outcome) (t : Task) (db : Db) (ts : List Task) (rest : Db → Outcome × List Task × Db)
      (k : ℕ) (state : TaskState)
      → IsUnblocked k state db
      → IsUnblocked k state (rest db).2
      → IsUnblocked k state (go_on o t db ts rest).2
  go_on-IsUnblocked returned t db ts rest k state u v = v
  go_on-IsUnblocked Outcome.runtime_error t db ts rest k state u v = u
  go_on-IsUnblocked Outcome.does_not_exist t db ts rest k state u v = u
  go_on-IsUnblocked Outcome.attribute_error t db ts rest k state u v = u
  go_on-IsUnblocked Outcome.assertion_error t db ts rest k state u v = u

  -- No step of the loop takes an `unblocked_at` back.
  loop-IsUnblocked :
      (exclusive shared : List String) (ts : List Task) (db : Db) (k : ℕ) (state : TaskState)
      → IsUnblocked k state db
      → IsUnblocked k state (unblock_loop env exclusive shared ts db).2
  unfolding unblock_loop
  loop-IsUnblocked exclusive shared [] db k state u = u
  loop-IsUnblocked exclusive shared (t ∷ ts) db k state u =
      let here = visit env exclusive shared t db in
      let next =
        unblock_loop env (exclusive ++ exclusive_of (reserved t)) (shared ++ shared_of (reserved t))
          ts in
      let v = visit-IsUnblocked exclusive shared t db k state u in
      go_on-IsUnblocked here.0 here.1 here.2 ts next k state v (
        loop-IsUnblocked (exclusive ++ exclusive_of (reserved t)) (shared ++ shared_of (reserved t))
          ts here.2 k state v)

  -- The first task of the query is unblocked before the loop or by its first round.
  left-unblocked :
      (t : Task)
      → is_incomplete t.state ≡ true
      → is_to_unblock [] [] t ≡ false
      → t.unblocked_at ≢ none
  left-unblocked t h left = ground (arith, free_of_nothing t)

  first-IsUnblocked :
      (t : Task) (db : Db)
      → find_row t.pk db.tasks ≡ some t
      → is_incomplete t.state ≡ true
      → IsUnblocked t.pk t.state (visit env [] [] t db).2
  unfolding visit
  first-IsUnblocked t db found h = elim (Bool-cases (is_to_unblock [] [] t)) [
    | inl chosen ↦ rw chosen (record {
      row = record t { unblocked_at = some env.now };
      found = unblock-find_row t db t.pk t found ∙ rw (==-refl t.pk) refl;
      same_state = refl;
      unblocked = λ e. cc;
    })
    | inr left ↦
        rw left (record {
          row = t;
          found = found;
          same_state = refl;
          unblocked = left-unblocked t h left;
        })
  ]

  -- On a table with a primary key, after a pass over a queue that is not empty, the row of the oldest
  -- task of the queue is there, in the state that the task had, and is unblocked, whatever resources
  -- the task reserves.
  pub unblock_tasks-oldest :
      (db : Db) (t : Task) (ts : List Task)
      → HasPrimaryKey db.tasks
      → incomplete_tasks db ≡ t ∷ ts
      → IsUnblocked t.pk t.state (unblock_tasks env db).2
  unfolding unblock_tasks unblock_loop
  unblock_tasks-oldest db t ts keyed e =
      let (there, open_) = In-incomplete_tasks t db (rw e (inl refl)) in
      let here = visit env [] [] t db in
      let next =
        unblock_loop env ([] ++ exclusive_of (reserved t)) ([] ++ shared_of (reserved t)) ts in
      let v = first-IsUnblocked t db (find-In t db.tasks keyed there) open_ in
      subst (λ tasks. IsUnblocked t.pk t.state (unblock_loop env [] [] tasks db).2) (sym e)
        (go_on-IsUnblocked here.0 here.1 here.2 ts next t.pk t.state v (
          loop-IsUnblocked ([] ++ exclusive_of (reserved t)) ([] ++ shared_of (reserved t)) ts
            here.2 t.pk t.state v))
