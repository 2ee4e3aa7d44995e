-- ===== src/Tasking/Unblock.antt =====
-- `_unblock_tasks` of pulpcore/tasking/worker.py.
pub mod Exclusion
pub mod Progress
pub mod Oldest
mod Changes
pub mod Queue
mod Tests
use pulpcore.Prelude.{
  ℕ, String, ◌≡◌, ◌≢◌, Bool, true, false, not, ◌&&◌, ◌||◌, Option, none, some, List, [], ◌∷◌, ◌++◌,
  any, contains, eq_string, if◌then◌else◌, leb, opt_beq, filter, ◌==◌, eq_nat,
}
use pulpcore.Tasking.Task.{
  Task, Db, Env, TaskState, Outcome, returned, waiting, running, canceling, unblock, eq_state,
  is_incomplete,
}
use pulpcore.Tasking.Resources.{reserved, exclusive_of, shared_of}

abbrev pub is_none {ℓ} : {A : Type ℓ} → Option A → Bool
is_none none = true
is_none (some _) = false

-- The guards of the loop body; `exclusive` and `shared` are the sets of taken resources.
abbrev pub is_free : List String → List String → Task → Bool
is_free exclusive shared task =
    not (
      any (λ resource. contains exclusive resource || contains shared resource)
        (exclusive_of (reserved task)))
    && not (any (λ resource. contains exclusive resource) (shared_of (reserved task)))

abbrev pub is_to_unblock : List String → List String → Task → Bool
is_to_unblock exclusive shared task =
    if task.state == canceling
    then is_none task.unblocked_at
    else if (task.state == waiting) && (is_none task.unblocked_at && is_free exclusive shared task)
    then true
    else (task.state == running) && is_none task.unblocked_at

-- The loop body: `task.unblock()`, if the guards say so.
unfoldable pub visit : Env → List String → List String → Task → Db → Outcome × Task × Db
visit env exclusive shared task db =
    if is_to_unblock exclusive shared task then unblock env task db else (returned, task, db)

-- The rest of the loop, unless the body raised.
abbrev pub go_on :
    Outcome → Task → Db → List Task → (Db → Outcome × List Task × Db) → Outcome × List Task × Db
go_on returned task db tasks rest = let (o, objects, db') = rest db in (o, task ∷ objects, db')
go_on raised task db tasks rest = (raised, task ∷ tasks, db)

-- The loop over the tasks of the query. Beside the outcome stand the objects as it leaves them.
unfoldable pub unblock_loop :
    Env → List String → List String → List Task → Db → Outcome × List Task × Db
unblock_loop env exclusive shared [] db = (returned, [], db)
unblock_loop env exclusive shared (task ∷ tasks) db =
    let (o, object, db') = visit env exclusive shared task db in
    go_on o object db' tasks (
      unblock_loop env (exclusive ++ exclusive_of (reserved task))
        (shared ++ shared_of (reserved task)) tasks)

-- `.order_by("pulp_created")`, a stable sort.
unfoldable pub insert_by_created : Task → List Task → List Task
insert_by_created t [] = t ∷ []
insert_by_created t (r ∷ rows) =
    if leb t.pulp_created r.pulp_created then t ∷ r ∷ rows else r ∷ insert_by_created t rows

unfoldable pub order_by_created : List Task → List Task
unfolding insert_by_created
order_by_created [] = []
order_by_created (t ∷ rows) = insert_by_created t (order_by_created rows)

-- `Task.objects.filter(state__in=TASK_INCOMPLETE_STATES).order_by("pulp_created")`
unfoldable pub incomplete_tasks : Db → List Task
unfolding order_by_created
incomplete_tasks db = order_by_created (filter (λ r. is_incomplete r.state) db.tasks)

-- `_unblock_tasks`, for the worker that holds the lock for it.
unfoldable pub unblock_tasks : Env → Db → Outcome × List Task × Db
unfolding unblock_loop incomplete_tasks
unblock_tasks env db = unblock_loop env [] [] (incomplete_tasks db) db

-- The tests of the query of `fetch_task`; which of the tasks that pass it is taken is left to chance.
abbrev pub is_fetchable : List ℕ → Task → Bool
is_fetchable ignored_task_ids t =
    (is_incomplete t.state && not (is_none t.unblocked_at))
    && (is_none t.app_lock && not (contains ignored_task_ids t.pk))
