-- ===== src/Tasking/Resources.antt =====
-- The resources that a task reserves: names, where a prefix "shared:" marks the shared ones
-- (pulpcore/tasking/tasks.py, worker.py and redis_locks.py).
pub mod Collision
use Prim.Native.String.{◌++◌ as append, slice, len}
use text.Mathlib.Text.{starts_with}
use pulpcore.Prelude.{
  String, ◌≡◌, Bool, true, false, not, ◌&&◌, ◌||◌, ltb, Option, none, some, List, [], ◌∷◌, ◌++◌,
  map, filter, any, contains, eq_string, if◌then◌else◌, ◌⊎◌, In,
}
use pulpcore.Tasking.Task.{Task, Db, is_incomplete}

-- `resource.startswith("shared:")`
unfoldable pub is_shared : String → Bool
is_shared resource = starts_with resource "shared:"

-- `resource[7:]`; the seven characters of the prefix are seven bytes.
unfoldable pub strip : String → String
strip resource = slice resource 7 (len resource)

-- `f"shared:{resource}"`
unfoldable pub shared_name : String → String
shared_name resource = append "shared:" resource

-- `task.reserved_resources_record or []`
abbrev pub reserved : Task → List String
reserved task = elim task.reserved_resources_record [ none ↦ [] | some record_ ↦ record_ ]

abbrev pub exclusive_of : List String → List String
exclusive_of names = filter (λ resource. not (is_shared resource)) names

-- `extract_task_resources` of redis_locks.py keeps every shared name.
abbrev pub shared_names : List String → List String
shared_names names = map strip (filter is_shared names)

pub extract_task_resources : Task → List String × List String
extract_task_resources task = (exclusive_of (reserved task), shared_names (reserved task))

-- `_unblock_tasks` of worker.py leaves out the shared names that are exclusive as well.
abbrev pub shared_of : List String → List String
shared_of names = map strip (
    filter (λ resource. is_shared resource && not (contains (exclusive_of names) (strip resource)))
      names)

-- An argument of `dispatch` after validation; `None` stands for the empty list.
abbrev pub or_empty : Option (List String) → List String
or_empty none = []
or_empty (some names) = names

-- A task that is exclusive on a domain does not share it.
abbrev pub with_domain : String → List String → List String → List String
with_domain domain_prn exclusive shared =
    if contains exclusive domain_prn then shared else shared ++ domain_prn ∷ []

abbrev pub colliding_names : List String → List String → List String
colliding_names exclusive shared = shared ++ (exclusive ++ map shared_name exclusive)

abbrev pub record_of : List String → List String → List String
record_of exclusive shared = exclusive ++ map shared_name shared

-- `get_resources` of tasks.py on validated lists; `domain_prn` names the current domain. Returns
-- the colliding and the reserved resources.
unfoldable pub get_resources :
    String → Option (List String) → Option (List String) → Bool → List String × List String
get_resources domain_prn exclusive_arg shared_arg immediate =
    let exclusive = or_empty exclusive_arg in
    let shared = with_domain domain_prn exclusive (or_empty shared_arg) in
    (if immediate then colliding_names exclusive shared else [], record_of exclusive shared)

-- `reserved_resources_record__overlap=colliding`
abbrev pub overlaps : List String → List String → Bool
overlaps colliding names = any (λ resource. contains names resource) colliding

abbrev is_empty : List String → Bool
is_empty [] = true
is_empty (_ ∷ _) = false

-- `are_resources_available` of tasks.py.
unfoldable pub are_resources_available : List String → Task → Db → Bool
are_resources_available colliding task db =
    is_empty colliding
    || not (
        any
          (λ (prior : Task).
            is_incomplete prior.state
            && (ltb prior.pulp_created task.pulp_created && overlaps colliding (reserved prior)))
          db.tasks)

-- What two tasks may not do at once: one uses a resource that the other has for itself.
abbrev pub Uses : List String → String → Type 0
Uses names x = In x (exclusive_of names) ⊎ In x (shared_names names)

abbrev pub Conflict : List String → List String → Type 0
Conflict earlier later =
    (x : String) × ((In x (exclusive_of later) × Uses earlier x)
      ⊎ (Uses later x × In x (exclusive_of earlier)))
