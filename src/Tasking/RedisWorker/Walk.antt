-- ===== src/Tasking/RedisWorker/Walk.antt =====
-- What the `for` loop of `fetch_task` returns, pulpcore/tasking/redis_worker.py.
use pulpcore.Prelude.{
  false_or, true_and, String, ◌≡◌, refl, sym, false, Option, none, some, List, [], ◌∷◌, ◌++◌,
  Bool-cases, inl, inr, All, count_where, update_where, ap, ◌∙◌, ◌==◌, eq_nat, eq_of_==, false_or,
  true_and, ℕ, In,
}
use pulpcore.Tasking.Task.{Task, Db, waiting, eq_state}
use pulpcore.Tasking.Resources.{reserved, exclusive_of, shared_names, Conflict}
use pulpcore.Tasking.Redis.{Redis}
use pulpcore.Tasking.Locks.{Reply, done, wrong_type}
use pulpcore.Tasking.RedisWorker.{
  Worker, should_skip, is_claimable, World, claim, after_acquire, try_task, Walked, found, passed,
  go_on, walk,
}
use pulpcore.Tasking.RedisWorker.Metric.{conflicts, conflicts_iff, skip-append}

clear : (t u : Task) → conflicts t u ≡ false → ¬ Conflict (reserved t) (reserved u)
clear t u none_now c = let k = (conflicts_iff t u).1 c in cc

module _ (R : Redis) (id_text : ℕ → String) where
  -- The object of the list that is returned, its `app_lock` set.
  abbrev pub Holds : Worker → Task → Task → Type 0
  Holds w u t = t ≡ record u { app_lock = some w.app_status }

  -- The worker's row of the table that it has claimed.
  abbrev pub Claimed : Worker → Task → Db → Type 0
  Claimed w t db =
      (r : Task) × In r db.tasks
      × (r.pk ≡ t.pk)
      × (r.state ≡ waiting)
      × (r.app_lock ≡ some w.app_status)

  -- A try that returns a task returns its own, and has claimed its row.
  abbrev pub Tried : Worker → Task → Option Task × World R id_text → Type 0
  Tried w u (none, s) = Unit
  Tried w u (some t, (db, d)) = Holds w u t × Claimed w t db

  claim-Tried : (w : Worker) (u : Task) (s : World R id_text) → Tried w u (claim R id_text w u s)
  claim-Tried w u (db, d) =
      elim (Bool-cases (count_where (is_claimable R id_text u) db.tasks == 0)) [
        | inl gone ↦ rw gone tt
        | inr there ↦ rw there (refl, claimed db.tasks there)
      ]
    where
      claimed :
          (rows : List Task)
          → (count_where (is_claimable R id_text u) rows == 0) ≡ false
          → (r : Task) × In r (
              update_where
                (is_claimable R id_text u)
                (λ x. record x { app_lock = some w.app_status })
                rows)
            × (r.pk ≡ u.pk)
            × (r.state ≡ waiting)
            × (r.app_lock ≡ some w.app_status)
      claimed [] h = cc
      claimed (r ∷ rows) h = elim (Bool-cases (is_claimable R id_text u r)) [
        | inl hit ↦ (
          record r { app_lock = some w.app_status },
          rw hit (inl refl),
          eq_of_== r.pk u.pk (true_and (r.pk == u.pk) _ hit).0,
          eq_of_== r.state waiting
              (true_and (r.state == waiting) _ (true_and (r.pk == u.pk) _ hit).1).0,
          refl,
        )
        | inr miss ↦ let (x, m, a, b, c) = claimed rows (rw miss at h) in (x, inr m, a, b, c)
      ]

  module _ (meanwhile : World R id_text → World R id_text) where
    after_acquire-Tried :
        (w : Worker) (u : Task) (db : Db) (r : Reply (List String) × R.Db)
        → Tried w u (after_acquire R id_text meanwhile w u db r)
    after_acquire-Tried w u db (wrong_type, d) = tt
    after_acquire-Tried w u db (done (name ∷ names), d) = tt
    after_acquire-Tried w u db (done [], d) = claim-Tried w u (meanwhile (db, d))

    try_task-Tried :
        (w : Worker) (u : Task) (s : World R id_text)
        → Tried w u (try_task R id_text meanwhile w u s)
    unfolding try_task
    try_task-Tried w u (db, d) = after_acquire-Tried w u db _

    -- What the loop has passed over, the task that it returns and what it leaves.
    abbrev pub FoundFirst :
        Worker
        → List String
        → List String
        → List Task
        → Walked R id_text meanwhile × World R id_text
        → Type 0
    FoundFirst w te ts tasks (passed _ _, s) = Unit
    FoundFirst w te ts tasks (found t, (db, d)) =
        (before : List Task) × (u : Task) × (after : List Task) × (tasks ≡ before ++ u ∷ after)
        × Holds w u t
        × (should_skip te ts u ≡ false)
        × All (λ v. ¬ Conflict (reserved v) (reserved u)) before
        × Claimed w t db

    -- A task of the rest of the list was passed over by the sets with one more task taken.
    later :
        (w : Worker) (te ts : List String) (t : Task) (tasks : List Task)
        (x : Walked R id_text meanwhile × World R id_text)
        → FoundFirst w (te ++ exclusive_of (reserved t)) (ts ++ shared_names (reserved t)) tasks x
        → FoundFirst w te ts (t ∷ tasks) x
    later w te ts t tasks (passed _ _, s) h = tt
    later w te ts t tasks (found v, s)
          (before, u, after, split, holds, free, none_before, claimed) =
        let both = sym (skip-append te ts t u) ∙ free in
        let (first, second) = false_or (should_skip te ts u) (conflicts t u) both in
        (
          t ∷ before,
          u,
          after,
          ap (λ xs. t ∷ xs) split,
          holds,
          first,
          (clear t u second, none_before),
          claimed,
        )

    now :
        (w : Worker) (te ts : List String) (t : Task) (tasks : List Task)
        → should_skip te ts t ≡ false
        → (tried : Option Task × World R id_text) → Tried w t tried
        → (rest : World R id_text → Walked R id_text meanwhile × World R id_text)
        → ((s : World R id_text) → FoundFirst w te ts (t ∷ tasks) (rest s))
        → FoundFirst w te ts (t ∷ tasks) (go_on R id_text meanwhile tried rest)
    now w te ts t tasks free (none, s) h rest below = below s
    now w te ts t tasks free (some v, (db, d)) (holds, claimed) rest below =
        ([], t, tasks, refl, holds, free, tt, claimed)

    -- Whatever the other processes do, a task that the loop returns is an object of its list with
    -- `app_lock` set to the worker: the sets at the start of the loop do not leave it out, no task
    -- before it in the list conflicts with it, and the table holds a waiting row of its key that the
    -- worker has locked.
    pub walk-FoundFirst :
        (w : Worker) (taken_exclusive taken_shared : List String) (tasks : List Task)
        (s : World R id_text)
        → FoundFirst w taken_exclusive taken_shared tasks
            (walk R id_text meanwhile w taken_exclusive taken_shared tasks s)
    unfolding walk
    walk-FoundFirst w te ts [] s = tt
    walk-FoundFirst w te ts (t ∷ tasks) s = elim (Bool-cases (should_skip te ts t)) [
      | inl skip ↦ rw skip (
          later w te ts t tasks _ (
            walk-FoundFirst w (te ++ exclusive_of (reserved t)) (ts ++ shared_names (reserved t))
              tasks s))
      | inr take ↦ rw take (
          now w te ts t tasks take _ (try_task-Tried w t (meanwhile s)) _ (λ s'.
            later w te ts t tasks _ (
              walk-FoundFirst w (te ++ exclusive_of (reserved t)) (ts ++ shared_names (reserved t))
                tasks s')))
    ]
