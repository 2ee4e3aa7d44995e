-- ===== src/Tasking/RedisWorker/Cleanup/Tests.antt =====
-- The cleanup of a small table, and the theorems at it.
use pulpcore.Prelude.{
  ℕ, String, ◌≡◌, refl, none, some, [], ◌∷◌, if◌then◌else◌, ◌==◌, eq_nat, true, false, update_where,
  arith,
}
use pulpcore.Tasking.Task.{
  Task, TaskState, Db, waiting, running, completed, canceling, eq_state, set_canceling,
  set_canceled, with_status,
}
use pulpcore.Tasking.Redis.Memory.{memory, Entry, set_entry}
use pulpcore.Tasking.Resources.{is_shared, strip}
use pulpcore.Tasking.Locks.{
  release_script, get_task_lock_key, resource_to_lock_key, get_owner_registry_key,
  active_owners_key,
}
use pulpcore.Tasking.Locks.Client.{release_resource_locks, cleanup_locks_for_owner}
use pulpcore.Tasking.RedisWorker.{Worker}
use pulpcore.Tasking.RedisWorker.Cleanup.{
  Missing, is_held, cleanup_redis_locks_for_worker, settle_task,
}
use pulpcore.Tasking.RedisWorker.Cleanup.Settle.{settled}
use pulpcore.Tasking.RedisWorker.Cleanup.Result.{
  cleanup_redis_locks_for_worker-settled, cleanup_redis_locks_for_worker-successor,
}

abbrev task : ℕ → TaskState → ℕ → Task
task k state lock = record {
  pk = k;
  state = state;
  pulp_created = k;
  unblocked_at = none;
  started_at = none;
  finished_at = none;
  error = none;
  result = none;
  app_lock = some lock;
  reserved_resources_record = some ("repo" ∷ []);
  immediate = false;
}

abbrev table : Db
table = record {
  tasks =
      task 1 waiting 5
      ∷ task 2 running 5
      ∷ task 3 canceling 5
      ∷ task 4 completed 5
      ∷ task 5 running 6
      ∷ [];
  reports = [];
}

abbrev worker : Worker
worker = record { name = "worker"; app_status = 7; ignored_task_ids = [] }

abbrev gone : Missing
gone = record { name = "gone"; app_status = 5; successor_online = false }

abbrev replaced : Missing
replaced = record { name = "gone"; app_status = 5; successor_online = true }

abbrev id_text : ℕ → String
id_text k = if k == 1 then "1" else (if k == 2 then "2" else "3")

abbrev no_locks : String → Entry
no_locks key = set_entry []

succeeds : (cleanup_redis_locks_for_worker memory id_text worker 9 gone (table, no_locks)).0 ≡ true
unfolding with_status cleanup_redis_locks_for_worker settle_task set_canceling set_canceled
    release_resource_locks release_script is_shared strip get_task_lock_key resource_to_lock_key
    get_owner_registry_key active_owners_key cleanup_locks_for_owner
succeeds = refl

cleanup_redis_locks_for_worker-settled_example :
    (cleanup_redis_locks_for_worker memory id_text worker 9 gone (table, no_locks)).1.0.tasks
    ≡ update_where (is_held gone) (settled worker 9) table.tasks
cleanup_redis_locks_for_worker-settled_example =
    cleanup_redis_locks_for_worker-settled memory id_text worker 9 gone (table, no_locks)
      (omega arith) succeeds

cleanup_redis_locks_for_worker-successor_example :
    ((cleanup_redis_locks_for_worker memory id_text worker 9 replaced (table, no_locks)).0 ≡ true)
    × ((cleanup_redis_locks_for_worker memory id_text worker 9 replaced (table, no_locks)).1.1
        ≡ no_locks)
cleanup_redis_locks_for_worker-successor_example =
    cleanup_redis_locks_for_worker-successor memory id_text worker 9 replaced (table, no_locks)
      (omega arith) refl
