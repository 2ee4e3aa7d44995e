-- ===== src/Tasking/Unblock/Queue.antt =====
-- The life of the queue: the incomplete tasks in the order of their creation, and what the API
-- (`dispatch` of pulpcore/tasking/tasks.py) and the workers do to it, in any interleaving.
use pulpcore.Prelude.{
  ℕ, String, ◌≡◌, ◌≢◌, true, false, Option, none, some, List, [], ◌∷◌, ◌++◌, All,
}
use pulpcore.Tasking.Task.{Task, Env, waiting, running, canceling}
use pulpcore.Tasking.Resources.{reserved, get_resources, overlaps, or_empty, is_shared}
use pulpcore.Tasking.Resources.Collision.{AreBare}
use pulpcore.Tasking.Unblock.{is_fetchable}
use pulpcore.Tasking.Unblock.Exclusion.{IsExclusive, RunningUnblocked, marks}

-- The arguments of an immediate `dispatch`: no name in them begins with `shared:`.
pub record Dispatch : Type 0 where
  pub domain_prn : String
  pub exclusive_arg : Option (List String)
  pub shared_arg : Option (List String)
  pub bare_domain : is_shared domain_prn ≡ false
  pub bare_exclusive : AreBare (or_empty exclusive_arg)
  pub bare_shared : AreBare (or_empty shared_arg)

-- A change of the queue, in the order of creation. A pass of `unblock_tasks` is one step, and so is the
-- look of an immediate task at the tasks before it together with its `unblock`.
pub data QueueStep (ts us : List Task) : Type 0 where
  -- `dispatch` creates a task.
  dispatched :
      (t : Task) → t.state ≡ waiting → t.unblocked_at ≡ none → us ≡ ts ++ t ∷ [] → QueueStep ts us
  -- `dispatch` finds the resources of its immediate task available and unblocks it, whatever has been
  -- asked of the task meanwhile.
  unblocked_at_once :
      (d : Dispatch) (above below : List Task) (t : Task) (at : ℕ)
      → reserved t ≡ (get_resources d.domain_prn d.exclusive_arg d.shared_arg true).1
      → All
          (λ p.
            overlaps (get_resources d.domain_prn d.exclusive_arg d.shared_arg true).0 (reserved p)
            ≡ false)
          above
      → ts ≡ above ++ t ∷ below
      → us ≡ above ++ record t { unblocked_at = some at } ∷ below
      → QueueStep ts us
  -- `dispatch` gives up the lock of an immediate task, and leaves it to the workers.
  deferred :
      (above below : List Task) (t : Task)
      → ts ≡ above ++ t ∷ below
      → us ≡ above ++ record t { app_lock = none } ∷ below
      → QueueStep ts us
  -- A worker makes a pass of `unblock_tasks`.
  passed : (env : Env) → us ≡ marks env [] [] ts → QueueStep ts us
  -- A worker fetches a task.
  fetched :
      (ignored_task_ids : List ℕ) (above below : List Task) (t : Task) (worker : ℕ)
      → is_fetchable ignored_task_ids t ≡ true
      → ts ≡ above ++ t ∷ below
      → us ≡ above ++ record t { app_lock = some worker } ∷ below
      → QueueStep ts us
  -- The process that has the lock of an unblocked task starts it: a worker that fetched it, or the
  -- process that dispatched it and unblocked it at once.
  started :
      (above below : List Task) (t : Task) (holder : ℕ) (at : Option ℕ)
      → t.state ≡ waiting
      → t.app_lock ≡ some holder
      → t.unblocked_at ≢ none
      → ts ≡ above ++ t ∷ below
      → us ≡ above ++ record t { state = running; started_at = at } ∷ below
      → QueueStep ts us
  -- A task is asked to cancel.
  cancel_requested :
      (above below : List Task) (t : Task)
      → ts ≡ above ++ t ∷ below
      → us ≡ above ++ record t { state = canceling } ∷ below
      → QueueStep ts us
  -- A task comes into a final state and leaves the queue.
  left :
      (above below : List Task) (t : Task)
      → ts ≡ above ++ t ∷ below
      → us ≡ above ++ below
      → QueueStep ts us

pub data Reach : List Task → Type 0 where
  empty : Reach []
  next : {ts us : List Task} → Reach ts → QueueStep ts us → Reach us

pub record IsSafe (ts : List Task) : Type 0 where
  pub exclusive : IsExclusive [] ts
  pub running_unblocked : RunningUnblocked ts
