-- ===== src/Tasking/RedisWorker/Cleanup/Result.antt =====
-- The table of tasks after `cleanup_redis_locks_for_worker`.
use pulpcore.Prelude.{
  ℕ, String, ◌≡◌, ◌≢◌, refl, sym, ap, ◌∙◌, subst, Bool, true, false, not, some, List, [], ◌∷◌, All,
  In, In-All, In-filter, filter, update_where, opt_beq, eq_nat, arith, true_and, Bool-cases, inl,
  inr,
}
use pulpcore.Tasking.Task.{Task, Db, is_final}
use pulpcore.Tasking.Task.Keys.{find-In, find_row, HasPrimaryKey}
use pulpcore.Tasking.Redis.{Redis}
use pulpcore.Tasking.Locks.{Reply, done, wrong_type}
use pulpcore.Tasking.RedisWorker.{Worker, World}
use pulpcore.Tasking.RedisWorker.Cleanup.{
  Missing, is_held, release_held, after_release, cleanup_task, cleanup_tasks, sweep,
  cleanup_redis_locks_for_worker, settle_task,
}
use pulpcore.Tasking.RedisWorker.Cleanup.Rows.{
  write, write_all, write_all-update, find-write_other, HasPrimaryKey-write, HasPrimaryKey-filter,
}
use pulpcore.Tasking.RedisWorker.Cleanup.Settle.{settled, settled-pk, settle_task-settled}

-- The tasks of the loop are rows of the table that have not ended, with keys of their own.
abbrev Ready : List Task → List Task → Type 0
Ready [] rows = Unit
Ready (t ∷ tasks) rows =
    (find_row t.pk rows ≡ some t)
    × (is_final t.state ≡ false)
    × All (λ u. u.pk ≢ t.pk) tasks
    × Ready tasks rows

Ready-write :
    (t a : Task) (tasks rows : List Task)
    → a.pk ≡ t.pk
    → All (λ u. u.pk ≢ t.pk) tasks
    → Ready tasks rows
    → Ready tasks (write t.pk a rows)
Ready-write t a [] rows e h r = tt
Ready-write t a (u ∷ tasks) rows e (h, hs) (found, open_, apart, rest) = (
  find-write_other t.pk u.pk a rows e h ∙ found,
  open_,
  apart,
  Ready-write t a tasks rows e hs rest,
)

In-Ready :
    (tasks rows : List Task)
    → HasPrimaryKey rows
    → HasPrimaryKey tasks
    → All (λ t. In t rows × (is_final t.state ≡ false)) tasks
    → Ready tasks rows
In-Ready [] rows keyed h m = tt
In-Ready (t ∷ tasks) rows keyed (h, hs) ((m, open_), ms) =
    (find-In t rows keyed m, open_, h, In-Ready tasks rows keyed hs ms)

held-open : (m : Missing) (t : Task) → is_held m t ≡ true → is_final t.state ≡ false
held-open m t h =
    let (_, open_) = true_and (opt_beq t.app_lock (some m.app_status)) (not (is_final t.state)) h in
    ground arith

module _ (R : Redis) (id_text : ℕ → String) (w : Worker) (now : ℕ) (m : Missing) where
  after_release-written :
      (t : Task) (db : Db) (reply : Reply Unit × R.Db)
      → HasPrimaryKey db.tasks
      → find_row t.pk db.tasks ≡ some t
      → is_final t.state ≡ false
      → (after_release R id_text w now t db reply).0 ≡ true
      → (after_release R id_text w now t db reply).1.0.tasks ≡ write t.pk (settled w now t) db.tasks
  after_release-written t db (wrong_type, d) keyed found open_ h = cc h
  after_release-written t db (done _, d) keyed found open_ h =
      (settle_task-settled w now t db keyed found open_).1

  cleanup_tasks-written :
      (tasks : List Task) (s : World R id_text)
      → HasPrimaryKey s.0.tasks
      → Ready tasks s.0.tasks
      → (cleanup_tasks R id_text w now m tasks s).0 ≡ true
      → (cleanup_tasks R id_text w now m tasks s).1.0.tasks
        ≡ write_all (settled w now) (settled-pk w now) tasks s.0.tasks
  cleanup_tasks-written [] s keyed ready h = refl
  cleanup_tasks-written (t ∷ tasks) (db, d) keyed (found, open_, apart, rest) h =
      let s' = (cleanup_task R id_text w now m t (db, d)).1 in
      let (first, others) =
        true_and (cleanup_task R id_text w now m t (db, d)).0
          (cleanup_tasks R id_text w now m tasks s').0 h in
      let written =
        after_release-written t db (release_held R id_text m t d) keyed found open_ first in
      let keyed' : HasPrimaryKey s'.0.tasks =
        subst HasPrimaryKey (sym written)
          (HasPrimaryKey-write t.pk (settled w now t) db.tasks (settled-pk w now t) keyed) in
      let ready' : Ready tasks s'.0.tasks =
        subst (Ready tasks) (sym written)
          (Ready-write t (settled w now t) tasks db.tasks (settled-pk w now t) apart rest) in
      cleanup_tasks-written tasks s' keyed' ready' others
      ∙ ap (write_all (settled w now) (settled-pk w now) tasks) written

  -- With a live successor the server is left alone, and no task leads to an error.
  cleanup_tasks-successor :
      m.successor_online ≡ true
      → (tasks : List Task) (s : World R id_text) → HasPrimaryKey s.0.tasks
      → Ready tasks s.0.tasks
      → ((cleanup_tasks R id_text w now m tasks s).0 ≡ true)
        × ((cleanup_tasks R id_text w now m tasks s).1.1 ≡ s.1)
  cleanup_tasks-successor online [] s keyed ready = (refl, refl)
  cleanup_tasks-successor online (t ∷ tasks) (db, d) keyed (found, open_, apart, rest) =
      let (good, written) = settle_task-settled w now t db keyed found open_ in
      let db' = (settle_task w now t db).1 in
      let keyed' : HasPrimaryKey db'.tasks =
        subst HasPrimaryKey (sym written)
          (HasPrimaryKey-write t.pk (settled w now t) db.tasks (settled-pk w now t) keyed) in
      let ready' : Ready tasks db'.tasks =
        subst (Ready tasks) (sym written)
          (Ready-write t (settled w now t) tasks db.tasks (settled-pk w now t) apart rest) in
      let (others, same) = cleanup_tasks-successor online tasks (db', d) keyed' ready' in
      rw (online, good) (others, same)

  sweep-same :
      (x : Bool × World R id_text)
      → (sweep R id_text m x).0 ≡ true
      → (x.0 ≡ true) × ((sweep R id_text m x).1.0 ≡ x.1.0)
  sweep-same (success, (db, d)) h = elim (Bool-cases m.successor_online) [
    | inl online ↦ (rw online at h, rw online refl)
    | inr gone ↦ ((true_and success _ (rw gone at h)).0, rw gone refl)
  ]

  sweep-successor :
      m.successor_online ≡ true → (x : Bool × World R id_text) → sweep R id_text m x ≡ x
  sweep-successor online (success, (db, d)) = rw online refl

  held-Ready : (db : Db) → HasPrimaryKey db.tasks → Ready (filter (is_held m) db.tasks) db.tasks
  held-Ready db keyed =
      In-Ready (filter (is_held m) db.tasks) db.tasks keyed
        (HasPrimaryKey-filter (is_held m) db.tasks keyed)
        (In-All (λ t. In t db.tasks × (is_final t.state ≡ false)) (filter (is_held m) db.tasks)
          λ t i. let (j, e) = In-filter (is_held m) t db.tasks i in (j, held-open m t e))

  -- Where the cleanup reports success, on a table with a primary key, it has put each task that the
  -- missing worker held into its end and left every other task as it was: a waiting task is free
  -- again, and any other has failed, with the time and the reason, and belongs to the cleaning
  -- worker.
  pub cleanup_redis_locks_for_worker-settled :
      (s : World R id_text)
      → HasPrimaryKey s.0.tasks
      → (cleanup_redis_locks_for_worker R id_text w now m s).0 ≡ true
      → (cleanup_redis_locks_for_worker R id_text w now m s).1.0.tasks
        ≡ update_where (is_held m) (settled w now) s.0.tasks
  unfolding cleanup_redis_locks_for_worker
  cleanup_redis_locks_for_worker-settled (db, d) keyed h =
      let held = filter (is_held m) db.tasks in
      let (success, same) = sweep-same (cleanup_tasks R id_text w now m held (db, d)) h in
      ap (λ (x : Db). x.tasks) same
      ∙ cleanup_tasks-written held (db, d) keyed (held-Ready db keyed) success
      ∙ write_all-update (settled w now) (settled-pk w now) (is_held m) db.tasks keyed

  -- Where a live worker has the name of the missing one, the cleanup of a table with a primary key
  -- reports success and leaves the server as it was.
  pub cleanup_redis_locks_for_worker-successor :
      (s : World R id_text)
      → HasPrimaryKey s.0.tasks
      → m.successor_online ≡ true
      → ((cleanup_redis_locks_for_worker R id_text w now m s).0 ≡ true)
        × ((cleanup_redis_locks_for_worker R id_text w now m s).1.1 ≡ s.1)
  unfolding cleanup_redis_locks_for_worker
  cleanup_redis_locks_for_worker-successor (db, d) keyed online =
      let (success, same) =
        cleanup_tasks-successor online (filter (is_held m) db.tasks) (db, d) keyed
          (held-Ready db keyed) in
      let e =
        sweep-successor online
          (cleanup_tasks R id_text w now m (filter (is_held m) db.tasks) (db, d)) in
      (ap (λ x. x.0) e ∙ success, ap (λ x. x.1.1) e ∙ same)
