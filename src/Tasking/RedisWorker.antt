-- ===== src/Tasking/RedisWorker.antt =====
-- The worker that takes Redis locks, pulpcore/tasking/redis_worker.py: how it finds a task to run.
-- `id_text` is the text of a primary key, and `meanwhile` is what the other processes do between two
-- steps of this one, as a function of the tables and the server.
pub mod Metric
pub mod Walk
pub mod Cleanup
pub mod Taken
pub mod Rounds
pub mod Claim
pub mod Ignored
mod Tests
use pulpcore.Prelude.{
  ℕ, zero, suc, String, ◌≡◌, Bool, true, false, not, ◌&&◌, ◌||◌, Option, none, some, List, [], ◌∷◌,
  ◌++◌, map, filter, any, contains, ◌==◌, eq_nat, eq_string, if◌then◌else◌, length, update_where,
  count_where, leb, ltb,
}
use pulpcore.Tasking.Task.{Task, TaskState, waiting, running, Db, eq_state}
use pulpcore.Tasking.Resources.{reserved, exclusive_of, shared_names, shared_name, overlaps}
use pulpcore.Tasking.Unblock.{order_by_created, is_none}
use pulpcore.Tasking.Redis.{Redis}
use pulpcore.Tasking.Locks.{Reply, done, wrong_type, get_task_lock_key}
use pulpcore.Tasking.Locks.Client.{acquire_locks, safe_release_task_locks}

-- What a worker is told apart by, and the tasks that it has put aside.
pub record Worker : Type 0 where
  pub name : String
  pub app_status : ℕ
  pub ignored_task_ids : List ℕ

-- The two loops over the resources of a task, on the sets of resources that are taken.
abbrev pub should_skip : List String → List String → Task → Bool
should_skip taken_exclusive taken_shared task =
    any (λ r. contains taken_exclusive r || contains taken_shared r) (exclusive_of (reserved task))
    || any (λ r. contains taken_exclusive r) (shared_names (reserved task))

-- `count_waiting_tasks_for_metric` on the tasks of its query.
unfoldable pub count_parallel : List String → List String → List Task → ℕ
count_parallel taken_exclusive taken_shared [] = 0
count_parallel taken_exclusive taken_shared (task ∷ tasks) =
    let rest =
      count_parallel (taken_exclusive ++ exclusive_of (reserved task))
        (taken_shared ++ shared_names (reserved task)) tasks in
    if should_skip taken_exclusive taken_shared task then rest else suc rest

-- The tasks older than the cutoff that run or wait.
unfoldable pub count_waiting_tasks_for_metric : ℕ → Db → ℕ
unfolding count_parallel order_by_created
count_waiting_tasks_for_metric cutoff_time db = count_parallel [] [] (
    order_by_created (
      filter (λ t. (t.state == running || t.state == waiting) && ltb t.pulp_created cutoff_time)
        db.tasks))

-- The names that the query leaves out.
abbrev pub blocked : List String → List String → List String
blocked taken_exclusive taken_shared =
    taken_shared ++ (taken_exclusive ++ map shared_name taken_exclusive)

-- The tests of the query of `fetch_task`.
abbrev pub is_candidate : Worker → List String → List String → Task → Bool
is_candidate w taken_exclusive taken_shared t =
    (t.state == waiting && is_none t.app_lock)
    && (not (contains w.ignored_task_ids t.pk)
        && not (overlaps (blocked taken_exclusive taken_shared) (reserved t)))

abbrev pub take : ℕ → List Task → List Task
take zero tasks = []
take (suc n) [] = []
take (suc n) (t ∷ tasks) = t ∷ take n tasks

unfoldable pub waiting_tasks : ℕ → Worker → List String → List String → Db → List Task
unfolding order_by_created
waiting_tasks limit w taken_exclusive taken_shared db =
    take limit (order_by_created (filter (is_candidate w taken_exclusive taken_shared) db.tasks))

module _ (R : Redis) (id_text : ℕ → String) where
  abbrev pub World : Type 0
  World = Db × R.Db

  -- `safe_release_task_locks(task, lock_owner=self.name)` on an object whose locks it has not released.
  abbrev pub release : Worker → Task → R.Db → Reply Bool × (Bool × R.Db)
  release w t d =
      safe_release_task_locks R (some w.name) none (id_text t.pk) (exclusive_of (reserved t))
        (shared_names (reserved t)) false d

  -- The handler of the loop, which passes over an error of its own.
  abbrev pub release_quietly : Worker → Task → R.Db → R.Db
  release_quietly w t d = (release w t d).1.1

  -- The release of a task that is no longer to be had; an error leads to the handler.
  abbrev pub give_back : Worker → Task → Reply Bool × (Bool × R.Db) → R.Db
  give_back w t (done _, (_, d)) = d
  give_back w t (wrong_type, (_, d)) = release_quietly w t d

  -- `pk=task.pk, state=WAITING, app_lock__isnull=True`
  abbrev pub is_claimable : Task → Task → Bool
  is_claimable t r = r.pk == t.pk && (r.state == waiting && is_none r.app_lock)

  abbrev pub claim : Worker → Task → World → Option Task × World
  claim w t (db, d) =
      let test = is_claimable t in
      if count_where test db.tasks == 0 then (none, (db, give_back w t (release w t d))) else (
        some (record t { app_lock = some w.app_status }),
        (
          record db {
            tasks = update_where test (λ r. record r { app_lock = some w.app_status }) db.tasks;
          },
          d,
        ),
      )

  module _ (meanwhile : Db × R.Db → Db × R.Db) where
    -- What follows `acquire_locks`: nothing where it raises or names what blocks the task.
    abbrev pub after_acquire : Worker → Task → Db → Reply (List String) × R.Db → Option Task × World
    after_acquire w t db (wrong_type, d) = (none, (db, release_quietly w t d))
    after_acquire w t db (done (name ∷ names), d) = (none, (db, d))
    after_acquire w t db (done [], d) = claim w t (meanwhile (db, d))

    unfoldable pub try_task : Worker → Task → World → Option Task × World
    try_task w t (db, d) = after_acquire w t db (
        acquire_locks R w.name (get_task_lock_key (id_text t.pk)) (exclusive_of (reserved t))
          (shared_names (reserved t)) d)

    -- The `for` loop: the task that it returns, or the sets of taken resources at its end.
    pub data Walked : Type 0 where
      found : Task → Walked
      passed : List String → List String → Walked

    abbrev pub go_on : Option Task × World → (World → Walked × World) → Walked × World
    go_on (some t, s) rest = (found t, s)
    go_on (none, s) rest = rest s

    unfoldable pub walk : Worker → List String → List String → List Task → World → Walked × World
    walk w taken_exclusive taken_shared [] s = (passed taken_exclusive taken_shared, s)
    walk w taken_exclusive taken_shared (t ∷ tasks) s =
        let rest =
          walk w (taken_exclusive ++ exclusive_of (reserved t))
            (taken_shared ++ shared_names (reserved t)) tasks in
        if should_skip taken_exclusive taken_shared t
        then rest s
        else go_on (try_task w t (meanwhile s)) rest

    -- How `fetch_task` ends; `unfinished` where the fuel ends before its loop does.
    pub data Fetched : Type 0 where
      task_found : Task → Fetched
      no_task : Fetched
      unfinished : Fetched

    abbrev pub is_empty_list : List Task → Bool
    is_empty_list [] = true
    is_empty_list (_ ∷ _) = false

    abbrev pub next_round :
        Bool
        → (List String → List String → World → Fetched × World)
        → Walked × World
        → Fetched × World
    next_round full again (found t, s) = (task_found t, s)
    next_round full again (passed taken_exclusive taken_shared, s) =
        if full then again taken_exclusive taken_shared s else (no_task, s)

    -- The `while` loop. The fuel counts its rounds; the program's limit is 20.
    unfoldable pub fetch_rounds :
        ℕ → ℕ → Worker → List String → List String → World → Fetched × World
    unfolding waiting_tasks
    fetch_rounds zero limit w taken_exclusive taken_shared s = (unfinished, s)
    fetch_rounds (suc fuel) limit w taken_exclusive taken_shared s =
        let (db, d) = meanwhile s in
        let tasks = waiting_tasks limit w taken_exclusive taken_shared db in
        let round =
          next_round (not (ltb (length tasks) limit)) (fetch_rounds fuel limit w)
            (walk w taken_exclusive taken_shared tasks (db, d)) in
        if is_empty_list tasks then (no_task, (db, d)) else round

    unfoldable pub fetch_task : ℕ → ℕ → Worker → World → Fetched × World
    unfolding fetch_rounds
    fetch_task fuel limit w s = fetch_rounds fuel limit w [] [] s
