-- ===== src/Tasking/Unblock/Tests.antt =====
-- A pass over a small queue, the steps of a queue, and the theorems at them.
use pulpcore.Prelude.{ℕ, String, ◌≡◌, refl, none, some, List, [], ◌∷◌, arith, false, true, ◌↔◌}
use pulpcore.Tasking.Task.{Task, Db, Env, waiting, running, returned, unblock}
use pulpcore.Tasking.Resources.{get_resources, overlaps, Conflict, is_shared, strip, reserved}
use pulpcore.Tasking.Resources.Collision.{overlap-iff-Conflict}
use pulpcore.Tasking.Unblock.{
  unblock_tasks, incomplete_tasks, unblock_loop, visit, order_by_created, insert_by_created,
}
use pulpcore.Tasking.Unblock.Exclusion.{IsExclusive, unblock_tasks-IsExclusive}
use pulpcore.Tasking.Unblock.Progress.{unblock_tasks-returned}
use pulpcore.Tasking.Unblock.Oldest.{IsUnblocked, unblock_tasks-oldest}

abbrev task : ℕ → List String → Task
task k names = record {
  pk = k;
  state = waiting;
  pulp_created = k;
  unblocked_at = none;
  started_at = none;
  finished_at = none;
  error = none;
  result = none;
  app_lock = none;
  reserved_resources_record = some names;
  immediate = false;
}

abbrev unblocked : Task → Task
unblocked t = record t { unblocked_at = some 9 }

abbrev sync : Task
sync = task 1 ("repo" ∷ "shared:domain" ∷ [])

abbrev publish : Task
publish = task 2 ("shared:repo" ∷ "shared:domain" ∷ [])

abbrev other : Task
other = task 3 ("file" ∷ "shared:domain" ∷ [])

-- The table does not hold the rows in the order of creation.
abbrev table : Db
table = record { tasks = other ∷ sync ∷ publish ∷ []; reports = [] }

abbrev worker : Env
worker = record { current = some 1; now = 9 }

program : Unit {0}
unfolding unblock_tasks incomplete_tasks unblock_loop visit order_by_created insert_by_created
    unblock is_shared strip
program = tt

queue : incomplete_tasks table ≡ sync ∷ publish ∷ other ∷ []
unfolding program
queue = refl

-- The second task waits for the first.
pass : unblock_tasks worker table ≡ (
  returned,
  unblocked sync ∷ publish ∷ unblocked other ∷ [],
  record { tasks = unblocked other ∷ unblocked sync ∷ publish ∷ []; reports = [] },
)
unfolding program
pass = refl

unblock_tasks-returned_example : (unblock_tasks worker table).0 ≡ returned
unblock_tasks-returned_example = unblock_tasks-returned worker table (omega arith)

unblock_tasks-IsExclusive_example : IsExclusive [] (unblock_tasks worker table).1
unfolding program
unblock_tasks-IsExclusive_example =
    unblock_tasks-IsExclusive worker table (ground arith)
      (λ a. tt, (λ a. absurd (a.unblocked refl), (λ a. absurd (a.unblocked refl), tt))) refl

unblock_tasks-oldest_example : IsUnblocked 1 waiting (unblock_tasks worker table).2
unfolding program
unblock_tasks-oldest_example =
    unblock_tasks-oldest worker table sync (publish ∷ other ∷ []) (omega arith) refl

overlap-iff-Conflict_example :
    (overlaps (get_resources "domain" (some ("repo" ∷ [])) none true).0 (reserved publish) ≡ true)
    ↔ Conflict (reserved publish) (get_resources "domain" (some ("repo" ∷ [])) none true).1
unfolding is_shared
overlap-iff-Conflict_example =
    overlap-iff-Conflict "domain" (some ("repo" ∷ [])) none (reserved publish) refl (refl, tt) tt

abbrev fetched_by : ℕ → Task → Task
fetched_by worker t = record t { app_lock = some worker }

abbrev start_it : Task → Task
start_it t = record t { state = running; started_at = some 10 }

abbrev running_sync : Task
running_sync = start_it (fetched_by 1 (unblocked sync))

abbrev running_other : Task
running_other = start_it (fetched_by 2 (unblocked other))
