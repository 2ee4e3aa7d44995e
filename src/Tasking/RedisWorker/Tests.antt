-- ===== src/Tasking/RedisWorker/Tests.antt =====
-- Runs of the search for a task, and the theorems at them.
use pulpcore.Prelude.{
  true_or, eq_of_==, eq_string, contains, any, not, ◌&&◌, In, inl, inr, subst, sym, count_where,
  ◌<◌, arith, ℕ, String, ◌≡◌, refl, none, some, List, [], ◌∷◌, if◌then◌else◌, ◌==◌, eq_nat, filter,
  ltb, ◌||◌, false,
}
use pulpcore.Tasking.Task.{completed, is_incomplete, Task, Db, waiting, running, eq_state}
use pulpcore.Tasking.Redis.Memory.{memory, Entry, text_entry, set_entry, put}
use pulpcore.Tasking.Resources.{is_shared, strip, reserved, exclusive_of, shared_names}
use pulpcore.Tasking.Unblock.{order_by_created, insert_by_created}
use pulpcore.Tasking.Locks.{
  resource_to_lock_key, get_task_lock_key, acquire_script, sorted, get_owner_registry_key,
  active_owners_key,
}
use pulpcore.Tasking.Locks.Client.{acquire_locks}
use pulpcore.Tasking.RedisWorker.{
  Worker, World, is_candidate, count_waiting_tasks_for_metric, walk, fetch_task, task_found,
  unfinished, fetch_rounds, waiting_tasks, try_task,
}
use pulpcore.Tasking.RedisWorker.Metric.{Independent, count_waiting_tasks_for_metric-Independent}
use pulpcore.Tasking.RedisWorker.Taken.{Reserves}
use pulpcore.Tasking.RedisWorker.Rounds.{Finishes, fetch_task-Finishes}
use pulpcore.Tasking.RedisWorker.Claim.{Excludes, LeavesLocks, locked, try_task-Excludes}
use pulpcore.Tasking.Locks.Acquire.{IsFree, Serves}
use pulpcore.Tasking.RedisWorker.Ignored.{cleanup_ignored_tasks, cleanup_ignored_tasks-contains}
use pulpcore.Tasking.RedisWorker.Walk.{FoundFirst, walk-FoundFirst}

abbrev task : ℕ → List String → Task
task k names = record {
  pk = k;
  state = waiting;
  pulp_created = k;
  unblocked_at = none;
  started_at = none;
  finished_at = none;
  error = none;
  result = none;
  app_lock = none;
  reserved_resources_record = some names;
  immediate = false;
}

abbrev publish : Task
publish = task 1 ("shared:repo" ∷ [])

abbrev sync : Task
sync = task 2 ("repo" ∷ [])

abbrev other : Task
other = task 3 ("file" ∷ [])

abbrev table : Db
table = record { tasks = sync ∷ publish ∷ other ∷ []; reports = [] }

abbrev worker : Worker
worker = record { name = "worker"; app_status = 7; ignored_task_ids = [] }

abbrev id_text : ℕ → String
id_text k = if k == 1 then "1" else (if k == 2 then "2" else "3")

abbrev no_locks : String → Entry
no_locks key = set_entry []

abbrev quiet : World memory id_text → World memory id_text
quiet s = s

-- `publish` and `other` can run at once, `sync` cannot run beside `publish`.
metric : count_waiting_tasks_for_metric 9 table ≡ 2
unfolding count_waiting_tasks_for_metric insert_by_created is_shared strip
metric = refl

count_waiting_tasks_for_metric-Independent_example :
    Independent []
      (order_by_created (
        filter
          (λ t. (t.state == running || t.state == waiting) && ltb t.pulp_created 9)
          table.tasks))
      (count_waiting_tasks_for_metric 9 table)
count_waiting_tasks_for_metric-Independent_example =
    count_waiting_tasks_for_metric-Independent 9 table

walk-FoundFirst_example :
    FoundFirst memory id_text quiet worker [] []
      (publish ∷ sync ∷ other ∷ [])
      (walk memory id_text quiet worker [] [] (publish ∷ sync ∷ other ∷ []) (table, no_locks))
walk-FoundFirst_example =
    walk-FoundFirst memory id_text quiet worker [] [] (publish ∷ sync ∷ other ∷ [])
      (table, no_locks)

program : Unit {0}
unfolding fetch_task fetch_rounds waiting_tasks try_task walk acquire_locks acquire_script sorted
    order_by_created insert_by_created is_shared strip get_task_lock_key resource_to_lock_key
    get_owner_registry_key active_owners_key
program = tt

-- The oldest task is taken.
fetches_oldest :
    (fetch_task memory id_text quiet 2 20 worker (table, no_locks)).0
    ≡ task_found (record publish { app_lock = some 7 })
unfolding program
fetches_oldest = refl

abbrev repo_locked : String → Entry
repo_locked = put (resource_to_lock_key "repo") (text_entry "elsewhere") no_locks

-- A task that is blocked makes the worker pass over those that conflict with it.
fetches_independent :
    (fetch_task memory id_text quiet 2 20 worker (table, repo_locked)).0
    ≡ task_found (record other { app_lock = some 7 })
unfolding program
fetches_independent = refl

-- With as many blocked tasks as the limit, all of them with shared resources only, each round of the
-- loop finds the same tasks.
fetches_again :
    (fetch_task memory id_text quiet 5 1 worker
      (record table { tasks = publish ∷ [] }, repo_locked)).0
    ≡ unfinished
unfolding program
fetches_again = refl

abbrev exclusive_table : Db
exclusive_table = record table { tasks = sync ∷ other ∷ [] }

all-Reserves : (t : Task) → In t exclusive_table.tasks → t.state ≡ waiting → Reserves t
unfolding is_shared
all-Reserves t (inl e) s = subst Reserves (sym e) ("repo", inl refl)
all-Reserves t (inr (inl e)) s = subst Reserves (sym e) ("file", inl refl)
all-Reserves t (inr (inr m)) s = absurd m

few : count_where (is_candidate worker [] []) exclusive_table.tasks < 3
few = omega arith

fetch_task-Finishes_example :
    Finishes memory id_text quiet
      (λ s. refl)
      (fetch_task memory id_text quiet 3 1 worker (exclusive_table, repo_locked))
fetch_task-Finishes_example =
    fetch_task-Finishes memory id_text quiet (λ s. refl) 3 1 worker (exclusive_table, repo_locked)
      all-Reserves few

abbrev other_worker : Worker
other_worker = record { name = "elsewhere"; app_status = 8; ignored_task_ids = [] }

publish-IsFree :
    IsFree memory "1"
      (sorted (exclusive_of (reserved publish)))
      (sorted (shared_names (reserved publish)))
      no_locks
unfolding sorted is_shared strip
publish-IsFree = record { task = refl; alone = refl; share = (refl, tt); disjoint = (refl, tt) }

no_locks-Serves : Serves memory "worker" no_locks
no_locks-Serves = record { registry = refl; owners = refl }

publish-Excludes-sync : Excludes id_text publish sync
unfolding is_shared strip
publish-Excludes-sync = inr ("repo", inl (inl refl, inr (inl refl)))

-- Meanwhile another worker takes the locks of the third task.
abbrev both_locked : String → Entry
both_locked =
    locked memory id_text quiet other_worker other
      (locked memory id_text quiet worker publish no_locks)

both-LeavesLocks :
    LeavesLocks memory id_text quiet worker publish
      (locked memory id_text quiet worker publish no_locks)
      both_locked
unfolding program
both-LeavesLocks = record {
  texts = λ k h. elim (true_or (k == "task:1") false h) [
    | inl t ↦ let e : k ≡ "task:1" = eq_of_== k "task:1" t in rw e refl
    | inr f ↦ cc f
  ];
  members = λ r m. elim m [ inl e ↦ rw e refl | inr n ↦ absurd n ];
}

try_task-Excludes_example :
    try_task memory id_text quiet other_worker sync (table, both_locked)
    ≡ (none, (table, both_locked))
try_task-Excludes_example =
    try_task-Excludes memory id_text quiet worker publish no_locks both_locked publish-IsFree
      no_locks-Serves both-LeavesLocks other_worker sync table publish-Excludes-sync

abbrev ignoring : Worker
ignoring = record worker { ignored_task_ids = 1 ∷ 2 ∷ [] }

abbrev ended_table : Db
ended_table = record table { tasks = record publish { state = completed } ∷ sync ∷ [] }

still_ignored : (cleanup_ignored_tasks ignoring ended_table).ignored_task_ids ≡ 2 ∷ []
unfolding cleanup_ignored_tasks
still_ignored = refl

cleanup_ignored_tasks-contains_example :
    contains (cleanup_ignored_tasks ignoring ended_table).ignored_task_ids 1 ≡ (
      contains ignoring.ignored_task_ids 1
      && not (any (λ t. t.pk == 1 && not (is_incomplete t.state)) ended_table.tasks))
cleanup_ignored_tasks-contains_example =
    cleanup_ignored_tasks-contains ignoring ended_table 1 (refl, (refl, tt))
