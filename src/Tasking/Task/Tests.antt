-- ===== src/Tasking/Task/Tests.antt =====
-- Runs of the methods of `Task` on small tables, and the theorems at them.
use pulpcore.Prelude.{◌≡◌, refl, none, some, List, [], ◌∷◌, arith, false, All₂}
use pulpcore.Tasking.Task.{
  Task, Db, Env, waiting, running, completed, canceled, failed, run, complete, cancel,
  finish_cancel, call, run_events, Event, set_running, set_completed, set_canceling, set_canceled,
  runtime_error, with_status,
}
use pulpcore.Tasking.Task.Lifecycle.{RowStep, call-RowStep, SameEnd, run_events-SameEnd}
use pulpcore.Tasking.Task.Invariant.{AllConsistent, run_events-AllConsistent}
use pulpcore.Tasking.Task.Atomic.{HasEffect, effect, call-HasEffect}

abbrev waiting_task : Task
waiting_task = record {
  pk = 7;
  state = waiting;
  pulp_created = 1;
  unblocked_at = some 2;
  started_at = none;
  finished_at = none;
  error = none;
  result = none;
  app_lock = some 3;
  reserved_resources_record = none;
  immediate = false;
}

abbrev failed_task : Task
failed_task = record waiting_task {
  pk = 8;
  state = failed;
  started_at = some 4;
  finished_at = some 5;
  error = some "boom";
}

abbrev start : Db
start = record {
  tasks = failed_task ∷ waiting_task ∷ [];
  reports = record { task = 7; report_state = running } ∷ [];
}

abbrev worker : Env
worker = record { current = some 3; now = 10 }

abbrev api : Env
api = record { current = some 4; now = 11 }

-- The worker starts the task, the API cancels it, the worker completes it and then ends it.
abbrev story : List Event
story =
    (worker, waiting_task, run)
    ∷ (api, waiting_task, cancel)
    ∷ (worker, waiting_task, complete (some "done"))
    ∷ (worker, waiting_task, finish_cancel canceled (some "asked"))
    ∷ []

story_ends : run_events story start ≡ record {
  tasks =
      failed_task
      ∷ record waiting_task {
        state = canceled;
        started_at = some 10;
        finished_at = some 10;
        error = some "asked";
      }
      ∷ [];
  reports = record { task = 7; report_state = completed } ∷ [];
}
unfolding with_status run_events call set_running set_completed set_canceling set_canceled
story_ends = refl

-- Another process cannot start the task.
run_by_other : (call run api waiting_task start).0 ≡ runtime_error
unfolding with_status call set_running
run_by_other = refl

-- A process without a row of `AppStatus` cannot start a task, not even one that nobody has locked.
run_without_status :
    call run
      (record api { current = none })
      (record waiting_task { app_lock = none })
      (record start { tasks = record waiting_task { app_lock = none } ∷ [] })
    ≡ (
      runtime_error,
      record waiting_task { app_lock = none },
      record start { tasks = record waiting_task { app_lock = none } ∷ [] },
    )
unfolding with_status call set_running
run_without_status = refl

call-RowStep_example :
    All₂ (RowStep worker) start.tasks (call run worker waiting_task start).2.tasks
call-RowStep_example = call-RowStep worker waiting_task start run

run_events-SameEnd_example : All₂ SameEnd start.tasks (run_events story start).tasks
run_events-SameEnd_example = run_events-SameEnd story start

start-AllConsistent : AllConsistent start
start-AllConsistent = ground arith

run_events-AllConsistent_example : AllConsistent (run_events story start)
run_events-AllConsistent_example = run_events-AllConsistent story start start-AllConsistent

call-HasEffect_example :
    HasEffect 7 start (effect run worker waiting_task) (call run worker waiting_task start)
call-HasEffect_example =
    call-HasEffect worker waiting_task start waiting_task (omega arith) refl run
