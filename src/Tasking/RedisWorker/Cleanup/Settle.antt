-- ===== src/Tasking/RedisWorker/Cleanup/Settle.antt =====
-- The treatment of one task of a missing worker.
use pulpcore.Prelude.{
  ℕ, ◌≡◌, refl, ap, ◌∙◌, Bool, true, false, ◌&&◌, none, some, ◌==◌, eq_nat, ==-refl, Bool-cases,
  inl, inr, arith, if◌then◌else◌, count_where,
}
use pulpcore.Tasking.Task.{
  Task, TaskState, Db, Outcome, returned, waiting, canceling, failed, eq_state, is_final,
  is_incomplete, set_canceling, set_canceled, call, finish_cancel, update_tasks,
}
use pulpcore.Tasking.Task.Keys.{
  find_row, HasPrimaryKey, update-key, update-hit, HasPrimaryKey-update,
}
use pulpcore.Tasking.Task.Atomic.{effect, HasEffect, call-HasEffect}
use pulpcore.Tasking.RedisWorker.{Worker}
use pulpcore.Tasking.RedisWorker.Cleanup.{env_of, is_returned, settle_task}
use pulpcore.Tasking.RedisWorker.Cleanup.Rows.{write, write-write, find-write}

-- A task that waits is free again; one that runs has failed, and is the cleaning worker's.
abbrev pub settled : Worker → ℕ → Task → Task
settled w now t = if t.state == waiting then record t { app_lock = none } else record t {
  state = failed;
  finished_at = some now;
  error = some "Worker has gone missing.";
  app_lock = some w.app_status;
}

pub settled-pk : (w : Worker) (now : ℕ) (t : Task) → (settled w now t).pk ≡ t.pk
settled-pk w now t = ground arith

incomplete_state : (s : TaskState) → is_final s ≡ false → is_incomplete s ≡ true
incomplete_state s h = ground arith

is_returned-returned :
    (x : Outcome × Task × Db)
    → x.0 ≡ returned
    → ((is_returned x).0 ≡ true) × ((is_returned x).1 ≡ x.2)
is_returned-returned (returned, t, db) h = (refl, refl)
is_returned-returned (_, t, db) h = cc

module _ (w : Worker) (now : ℕ) (t : Task) (db : Db) (keyed : HasPrimaryKey db.tasks)
    (found : find_row t.pk db.tasks ≡ some t) where
  abbrev mine : Task
  mine = record t { app_lock = some w.app_status }

  abbrev started : Db
  started = update_tasks (λ r. r.pk == t.pk) (λ r. record r { app_lock = some w.app_status }) db

  started-write : started.tasks ≡ write t.pk mine db.tasks
  started-write =
      (update-key t.pk (λ r. record r { app_lock = some w.app_status }) db.tasks t keyed found).1

  started-keyed : HasPrimaryKey started.tasks
  started-keyed =
      HasPrimaryKey-update (λ r. r.pk == t.pk) (λ r. record r { app_lock = some w.app_status })
        (λ r. refl) db.tasks keyed

  started-found : find_row t.pk started.tasks ≡ some mine
  started-found = ap (find_row t.pk) started-write ∙ find-write t.pk mine t db.tasks refl found

  abbrev canceled_row : Task
  canceled_row = record mine { state = canceling }

  abbrev incomplete : Task → Bool
  incomplete r = r.pk == t.pk && is_incomplete r.state

  abbrev stopped : Db
  stopped = update_tasks incomplete (λ r. record r { state = canceling }) started

  stopped-hit :
      is_final t.state ≡ false
      → (count_where incomplete started.tasks ≡ 1)
        × (stopped.tasks ≡ write t.pk canceled_row started.tasks)
  stopped-hit open_ =
      update-hit t.pk (λ r. is_incomplete r.state) (λ r. record r { state = canceling })
        started.tasks mine started-keyed started-found (incomplete_state t.state open_)

  -- `set_canceling` on the row that the worker has made its own.
  set_canceling-returned :
      is_final t.state ≡ false
      → set_canceling (env_of w now) mine started ≡ (returned, canceled_row, stopped)
  unfolding set_canceling
  set_canceling-returned open_ = rw ((stopped-hit open_).0) refl

  ended-HasEffect :
      is_final t.state ≡ false
      → HasEffect t.pk stopped
          (effect
            (finish_cancel failed (some "Worker has gone missing."))
            (env_of w now)
            canceled_row)
          (set_canceled failed
            (some "Worker has gone missing.")
            (env_of w now)
            canceled_row
            stopped)
  unfolding call
  ended-HasEffect open_ =
      let stopped_keyed : HasPrimaryKey stopped.tasks =
        HasPrimaryKey-update incomplete (λ r. record r { state = canceling }) (λ r. refl)
          started.tasks started-keyed in
      let stopped_found : find_row t.pk stopped.tasks ≡ some canceled_row =
        ap (find_row t.pk) (stopped-hit open_).1
        ∙ find-write t.pk canceled_row mine started.tasks refl started-found in
      call-HasEffect (env_of w now) canceled_row stopped canceled_row stopped_keyed stopped_found
        (finish_cancel failed (some "Worker has gone missing."))

  abbrev failed_row : Task
  failed_row = record t {
    state = failed;
    finished_at = some now;
    error = some "Worker has gone missing.";
    app_lock = some w.app_status;
  }

  ended :
      is_final t.state ≡ false
      → let after =
          set_canceled failed
            (some "Worker has gone missing.")
            (env_of w now)
            canceled_row
            stopped in
        (after.0 ≡ returned) × (after.2.tasks ≡ write t.pk failed_row stopped.tasks)
  ended open_ =
      let own : (w.app_status == w.app_status) ≡ true = ==-refl w.app_status in
      let e = ended-HasEffect open_ in (rw own at e.same_outcome, rw own at e.one_row)

  -- The task that has not ended is treated without an error, and its row alone is written.
  pub settle_task-settled :
      is_final t.state ≡ false
      → ((settle_task w now t db).0 ≡ true)
        × ((settle_task w now t db).1.tasks ≡ write t.pk (settled w now t) db.tasks)
  unfolding settle_task
  settle_task-settled open_ = elim (Bool-cases (t.state == waiting)) [
    | inl waits ↦
        rw waits
          (refl, (update-key t.pk (λ r. record r { app_lock = none }) db.tasks t keyed found).1)
    | inr runs ↦
        let (outcome, row) = ended open_ in
        let (good, same) = is_returned-returned _ outcome in
        let all : stopped.tasks ≡ write t.pk canceled_row (write t.pk mine db.tasks) =
          (stopped-hit open_).1 ∙ ap (write t.pk canceled_row) started-write in
        let rows =
          ap (λ (x : Db). x.tasks) same
          ∙ row
          ∙ ap (write t.pk failed_row) all
          ∙ write-write t.pk canceled_row failed_row (write t.pk mine db.tasks) refl
          ∙ write-write t.pk mine failed_row db.tasks refl in
        rw (runs, set_canceling-returned open_) (good, rows)
  ]
