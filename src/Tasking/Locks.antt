-- ===== src/Tasking/Locks.antt =====
-- The locks of the Redis workers, pulpcore/tasking/redis_locks.py: the names of the keys and the
-- scripts that the server runs. A script is given its resources by name; KEYS and ARGV are built
-- from those names alone. A script that meets a key of the wrong type stops there, and the server
-- keeps what it did before.
pub mod Client
pub mod Keys
mod Loops
pub mod Acquire
pub mod Exclusion
pub mod Release
mod Leave
pub mod ReleaseScript
pub mod RoundTrip
mod Tests
use Prim.Native.Nat.{Ordering}
use Prim.Native.String.{◌++◌ as append, compare as compare_text}
use pulpcore.Prelude.{
  ℕ, suc, ◌+◌, String, ◌≡◌, Bool, true, false, not, ◌&&◌, ◌||◌, Option, none, some, List, [], ◌∷◌,
  ◌++◌, map, filter, ◌==◌, eq_string, if◌then◌else◌,
}
use pulpcore.Tasking.Redis.{Kind, Redis, exists_kind, is_text, accepts_set, accepts_get}

-- `f"{REDIS_LOCK_PREFIX}{resource_name}"`
unfoldable pub resource_to_lock_key : String → String
resource_to_lock_key resource_name = append "pulp:resource_lock:" resource_name

unfoldable pub get_task_lock_key : String → String
get_task_lock_key task_id = append "task:" task_id

unfoldable pub get_owner_registry_key : String → String
get_owner_registry_key owner = append "pulp:owner_locks:" owner

unfoldable pub active_owners_key : String
active_owners_key = "pulp:active_owners"

-- `sorted(...)` of names.
unfoldable pub insert_name : String → List String → List String
insert_name x [] = x ∷ []
insert_name x (y ∷ ys) =
    let rest = insert_name x ys in
    elim (compare_text y x) [ Ordering.gt ↦ x ∷ y ∷ ys | _ ↦ y ∷ rest ]

unfoldable pub sorted : List String → List String
unfolding insert_name
sorted [] = []
sorted (x ∷ xs) = insert_name x (sorted xs)

-- `redis.call("get", key) == lock_owner`, and that the answer is another text.
abbrev pub is_own : String → Option String → Bool
is_own owner none = false
is_own owner (some name) = name == owner

abbrev pub is_other : String → Option String → Bool
is_other owner none = false
is_other owner (some name) = not (name == owner)

abbrev pub count_of : Bool → ℕ
count_of true = 1
count_of false = 0

-- The answer of a command or a script.
pub data Reply (A : Type 0) : Type 0 where
  done : A → Reply A
  wrong_type : Reply A

abbrev pub is_empty : List String → Bool
is_empty [] = true
is_empty (_ ∷ _) = false

module _ (R : Redis) where
  -- The rest of a script, after a command or a loop.
  abbrev pub chain : {A B : Type 0} → Reply A × R.Db → (A → R.Db → Reply B × R.Db) → Reply B × R.Db
  chain (done a, d) rest = rest a d
  chain (wrong_type, d) rest = (wrong_type, d)

  abbrev pub sadd : String → String → R.Db → Reply Unit × R.Db
  sadd key member d =
      if accepts_set (R.kind d key) then (done tt, R.set_add key member d) else (wrong_type, d)

  -- Whether the member was there.
  abbrev pub srem : String → String → R.Db → Reply Bool × R.Db
  srem key member d =
      if accepts_set (R.kind d key)
      then (done (R.has d key member), R.set_remove key member d)
      else (wrong_type, d)

  abbrev pub get : String → R.Db → Reply (Option String) × R.Db
  get key d = if accepts_get (R.kind d key) then (done (R.text d key), d) else (wrong_type, d)

  abbrev pub smembers : String → R.Db → Reply (List String) × R.Db
  smembers key d =
      if accepts_set (R.kind d key) then (done (R.smembers d key), d) else (wrong_type, d)

  abbrev pub set_each : String → List String → R.Db → R.Db
  set_each owner [] d = d
  set_each owner (key ∷ keys) d = set_each owner keys (R.set_text key owner d)

  abbrev pub sadd_each : String → List String → R.Db → Reply Unit × R.Db
  sadd_each owner [] d = (done tt, d)
  sadd_each owner (key ∷ keys) d = chain (sadd key owner d) λ _ d'. sadd_each owner keys d'

  -- One variadic `SADD`.
  abbrev pub add_members : String → List String → R.Db → R.Db
  add_members key [] d = d
  add_members key (member ∷ members) d = add_members key members (R.set_add key member d)

  abbrev pub sadd_all : String → List String → R.Db → Reply Unit × R.Db
  sadd_all key members d =
      if accepts_set (R.kind d key) then (done tt, add_members key members d) else (wrong_type, d)

  abbrev pub lock_keys : String → List String → List String → List String
  lock_keys task_lock_key exclusive shared =
      task_lock_key ∷ (map resource_to_lock_key exclusive ++ map resource_to_lock_key shared)

  abbrev pub taken : R.Db → String → Bool
  taken d resource = exists_kind (R.kind d (resource_to_lock_key resource))

  abbrev pub exclusively_held : R.Db → String → Bool
  exclusively_held d resource = is_text (R.kind d (resource_to_lock_key resource))

  -- The part of the script that takes the locks.
  abbrev pub take_locks :
      String → String → List String → List String → R.Db → Reply (List String) × R.Db
  take_locks owner task_lock_key exclusive shared d =
      let set =
        set_each owner (map resource_to_lock_key exclusive) (R.set_text task_lock_key owner d) in
      chain (sadd_each owner (map resource_to_lock_key shared) set) λ _ d1.
        chain
          (sadd_all (get_owner_registry_key owner) (lock_keys task_lock_key exclusive shared) d1)
          λ _ d2. chain (sadd active_owners_key owner d2) λ _ d3. (done [], d3)

  -- `REDIS_ACQUIRE_LOCKS_SCRIPT`: the names that block the request, none where the locks are taken.
  unfoldable pub acquire_script :
      String → String → List String → List String → R.Db → Reply (List String) × R.Db
  acquire_script owner task_lock_key exclusive shared d =
      let blocked_exclusive = filter (taken d) exclusive in
      let blocked_shared = filter (exclusively_held d) shared in
      if exists_kind (R.kind d task_lock_key)
      then (done ("__task_lock__" ∷ []), d)
      else if not (is_empty blocked_exclusive)
      then (done blocked_exclusive, d)
      else if not (is_empty blocked_shared)
      then (done blocked_shared, d)
      else take_locks owner task_lock_key exclusive shared d

  -- Deletes a text that names the owner: what was there, and the lock of the registry goes with it.
  abbrev pub release_text : String → String → R.Db → Reply (Option String) × R.Db
  release_text owner key d = chain (get key d) λ current d0.
      if is_own owner current
      then (chain (srem (get_owner_registry_key owner) key (R.delete key d0))
          λ _ d1. (done current, d1))
      else (done current, d0)

  abbrev pub release_exclusive : String → List String → R.Db → Reply (List String) × R.Db
  release_exclusive owner [] d = (done [], d)
  release_exclusive owner (resource ∷ exclusive) d =
      chain (release_text owner (resource_to_lock_key resource) d) λ current d1.
        chain (release_exclusive owner exclusive d1)
          λ others d2. (done (if is_other owner current then resource ∷ others else others), d2)

  abbrev pub release_shared : String → List String → R.Db → Reply (List String) × R.Db
  release_shared owner [] d = (done [], d)
  release_shared owner (resource ∷ shared) d =
      chain (srem (resource_to_lock_key resource) owner d) λ removed d1.
        chain (srem (get_owner_registry_key owner) (resource_to_lock_key resource) d1) λ _ d2.
          chain (release_shared owner shared d2)
            λ others d3. (done (if removed then others else resource ∷ others), d3)

  -- `REDIS_RELEASE_LOCKS_SCRIPT`: exclusive resources of other owners, shared resources without the
  -- owner, and whether the task lock is another's.
  unfoldable pub release_script :
      String
      → String
      → List String
      → List String
      → R.Db
      → Reply (List String × (List String × Bool)) × R.Db
  release_script owner task_lock_key exclusive shared d =
      chain (release_exclusive owner exclusive d) λ not_owned d1.
        chain (release_shared owner shared d1) λ not_in d2.
          chain (release_text owner task_lock_key d2)
            λ current d3. (done (not_owned, (not_in, is_other owner current)), d3)

  -- One entry of the registry, by the type of its key: how many locks it released, and the key where
  -- it is skipped.
  abbrev pub cleanup_entry : String → String → R.Db → Reply (ℕ × List String) × R.Db
  cleanup_entry owner key d = elim (R.kind d key) [
    | Kind.text_key ↦ chain (get key d) λ current d0.
        let own = is_own owner current in
        let d1 = if own then R.delete key d0 else d0 in
        chain (srem (get_owner_registry_key owner) key d1) λ _ d2. (done (count_of own, []), d2)
    | Kind.set_key ↦ chain (srem key owner d) λ removed d1.
        chain (srem (get_owner_registry_key owner) key d1) λ _ d2. (done (count_of removed, []), d2)
    | Kind.no_key ↦ chain (srem (get_owner_registry_key owner) key d) λ _ d1. (done (0, []), d1)
    | Kind.other_key ↦ (done (0, key ∷ []), d)
  ]

  abbrev pub cleanup_entries : String → List String → R.Db → Reply (ℕ × List String) × R.Db
  cleanup_entries owner [] d = (done (0, []), d)
  cleanup_entries owner (key ∷ keys) d = chain (cleanup_entry owner key d) λ here d1.
      chain (cleanup_entries owner keys d1)
        λ rest d2. (done (here.0 + rest.0, here.1 ++ rest.1), d2)

  -- `REDIS_CLEANUP_OWNER_LOCKS_SCRIPT`: how many locks it released, and the keys it skipped.
  unfoldable pub cleanup_script : String → R.Db → Reply (ℕ × List String) × R.Db
  cleanup_script owner d = chain (smembers (get_owner_registry_key owner) d) λ keys d0.
      chain (cleanup_entries owner keys d0) λ out d1.
        if is_empty (R.smembers d1 (get_owner_registry_key owner))
        then (chain (srem active_owners_key owner d1) λ _ d2. (done out, d2))
        else (done out, d1)
