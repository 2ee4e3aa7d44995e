-- ===== src/Tasking/RedisWorker/Cleanup.antt =====
-- What a worker does with the tasks and locks of a worker that has gone missing,
-- `cleanup_redis_locks_for_worker` of pulpcore/tasking/redis_worker.py. An exception in the treatment
-- of one task is passed over, and shows in the result.
pub mod Settle
pub mod Rows
pub mod Result
mod Tests
use pulpcore.Prelude.{
  ℕ, String, Bool, true, false, not, ◌&&◌, Option, none, some, List, [], ◌∷◌, filter, ◌==◌, eq_nat,
  opt_beq, if◌then◌else◌,
}
use pulpcore.Tasking.Task.{
  Task, Db, Env, Outcome, returned, waiting, failed, eq_state, is_final, update_tasks,
  set_canceling, set_canceled,
}
use pulpcore.Tasking.Resources.{reserved, exclusive_of, shared_names}
use pulpcore.Tasking.Redis.{Redis}
use pulpcore.Tasking.Locks.{Reply, done, wrong_type, get_task_lock_key}
use pulpcore.Tasking.Locks.Client.{release_resource_locks, cleanup_locks_for_owner}
use pulpcore.Tasking.RedisWorker.{Worker, World}

-- The missing worker, and whether a live one has its name.
pub record Missing : Type 0 where
  pub name : String
  pub app_status : ℕ
  pub successor_online : Bool

-- `AppStatus.objects.current()` is the worker's own row.
abbrev pub env_of : Worker → ℕ → Env
env_of w now = record { current = some w.app_status; now = now }

abbrev pub is_returned : Outcome × Task × Db → Bool × Db
is_returned (returned, t, db) = (true, db)
is_returned (_, t, db) = (false, db)

-- `set_canceled` after `set_canceling`, which may raise.
abbrev pub finish : Env → Outcome × Task × Db → Bool × Db
finish env (returned, t, db) =
    is_returned (set_canceled failed (some "Worker has gone missing.") env t db)
finish env (_, t, db) = (false, db)

-- What happens to the row once the locks of the task are released.
unfoldable pub settle_task : Worker → ℕ → Task → Db → Bool × Db
settle_task w now task db =
    let lock = some w.app_status in
    let mine = update_tasks (λ r. r.pk == task.pk) (λ r. record r { app_lock = lock }) db in
    let ended =
      finish (env_of w now) (set_canceling (env_of w now) (record task { app_lock = lock }) mine) in
    if task.state == waiting
    then (true, update_tasks (λ r. r.pk == task.pk) (λ r. record r { app_lock = none }) db)
    else ended

-- The query of the tasks that the missing worker holds.
abbrev pub is_held : Missing → Task → Bool
is_held m t = opt_beq t.app_lock (some m.app_status) && not (is_final t.state)

module _ (R : Redis) (id_text : ℕ → String) where
  abbrev pub release_held : Missing → Task → R.Db → Reply Unit × R.Db
  release_held m t d =
      if m.successor_online
      then (done tt, d)
      else release_resource_locks R m.name (get_task_lock_key (id_text t.pk))
          (some (exclusive_of (reserved t))) (some (shared_names (reserved t))) d

  abbrev pub after_release : Worker → ℕ → Task → Db → Reply Unit × R.Db → Bool × World R id_text
  after_release w now t db (wrong_type, d) = (false, (db, d))
  after_release w now t db (done _, d) =
      let (done_, db') = settle_task w now t db in (done_, (db', d))

  abbrev pub cleanup_task : Worker → ℕ → Missing → Task → World R id_text → Bool × World R id_text
  cleanup_task w now m t (db, d) = after_release w now t db (release_held m t d)

  -- The `for` loop, with `success`.
  abbrev pub cleanup_tasks :
      Worker → ℕ → Missing → List Task → World R id_text → Bool × World R id_text
  cleanup_tasks w now m [] s = (true, s)
  cleanup_tasks w now m (t ∷ tasks) s =
      let (first, s') = cleanup_task w now m t s in
      let (others, s'') = cleanup_tasks w now m tasks s' in (first && others, s'')

  -- The locks that are left under the name.
  abbrev pub sweep : Missing → Bool × World R id_text → Bool × World R id_text
  sweep m (success, (db, d)) =
      let (swept, d') = cleanup_locks_for_owner R [] [] m.name false d in
      if m.successor_online then (success, (db, d)) else (success && swept, (db, d'))

  unfoldable pub cleanup_redis_locks_for_worker :
      Worker → ℕ → Missing → World R id_text → Bool × World R id_text
  unfolding settle_task
  cleanup_redis_locks_for_worker w now m (db, d) =
      sweep m (cleanup_tasks w now m (filter (is_held m) db.tasks) (db, d))
