-- ===== src/Tasking/Locks/Client.antt =====
-- The functions of pulpcore/tasking/redis_locks.py around the scripts. A command that fails raises;
-- `wrong_type` stands for the exception.
use pulpcore.Prelude.{
  ◌++◌, ◌==◌, eq_string, ℕ, ◌+◌, String, Bool, true, false, Option, none, some, List, [], ◌∷◌,
  eq_string, if◌then◌else◌,
}
use pulpcore.Tasking.Redis.{Redis, exists_kind, is_text}
use pulpcore.Tasking.Resources.{or_empty}
use pulpcore.Tasking.Locks.{
  Reply, done, wrong_type, chain, smembers, srem, get, get_task_lock_key, get_owner_registry_key,
  active_owners_key, sorted, acquire_script, release_script, cleanup_script, release_text, count_of,
  is_own,
}

-- The owner that `safe_release_task_locks` acts for: the one it is given, or the name of the row that
-- `AppStatus.objects.current()` finds. Where the process has none, that call raises, so the owner
-- `immediate-<pk>` of the source is never built.
abbrev pub owner_of : Option String → Option String → Reply String
owner_of (some lock_owner) current_app = done lock_owner
owner_of none (some name) = done name
owner_of none none = wrong_type

-- `if value: owners.add(value)`
abbrev pub named : Option String → List String
named none = []
named (some name) = if name == "" then [] else name ∷ []

abbrev mark_released : {D : Type 0} → Bool → Reply Unit × D → Reply Bool × (Bool × D)
mark_released released (done _, d) = (done true, (true, d))
mark_released released (wrong_type, d) = (wrong_type, (released, d))

module _ (R : Redis) where
  -- `acquire_locks`
  unfoldable pub acquire_locks :
      String → String → List String → List String → R.Db → Reply (List String) × R.Db
  acquire_locks owner task_lock_key exclusive_resources shared_resources d =
      acquire_script R owner task_lock_key (sorted exclusive_resources) (sorted shared_resources) d

  -- `release_resource_locks`; what the script reports goes to the log.
  unfoldable pub release_resource_locks :
      String → String → Option (List String) → Option (List String) → R.Db → Reply Unit × R.Db
  release_resource_locks owner task_lock_key resources shared_resources d =
      let exclusive = or_empty resources in
      let shared = or_empty shared_resources in
      chain R (release_script R owner task_lock_key exclusive shared d) λ _ d1. (done tt, d1)

  -- The same call awaited.
  abbrev pub async_release_resource_locks :
      String → String → Option (List String) → Option (List String) → R.Db → Reply Unit × R.Db
  async_release_resource_locks = release_resource_locks

  -- `REDIS_DELETE_STRING_IF_OWNER_SCRIPT` and `REDIS_SREM_OWNER_SCRIPT`
  abbrev pub delete_if_owner : String → String → R.Db → Reply ℕ × R.Db
  delete_if_owner owner key d =
      chain R (release_text R owner key d)
        λ current d1. (done (count_of (is_own owner current)), d1)

  abbrev pub srem_owner : String → String → R.Db → Reply ℕ × R.Db
  srem_owner owner key d = chain R (srem R key owner d) λ removed d1.
      chain R (srem R (get_owner_registry_key owner) key d1) λ _ d2. (done (count_of removed), d2)

  -- The two loops of `_legacy_scan_cleanup_for_owner`; `keys` are those that the scan yields.
  abbrev pub scan_tasks : String → List String → R.Db → Reply ℕ × R.Db
  scan_tasks owner [] d = (done 0, d)
  scan_tasks owner (key ∷ keys) d = chain R (get R key d) λ current d0.
      let own = (is_own owner current) in
      chain R (if own then delete_if_owner owner key d0 else (done 0, d0))
        λ here d1. chain R (scan_tasks owner keys d1) λ rest d2. (done (here + rest), d2)

  abbrev pub scan_resources : String → List String → R.Db → Reply ℕ × R.Db
  scan_resources owner [] d = (done 0, d)
  scan_resources owner (key ∷ keys) d =
      let own = chain R (get R key d) λ current d0.
        if (is_own owner current) then delete_if_owner owner key d0 else (done 0, d0) in
      chain R (if is_text (R.kind d key) then own else srem_owner owner key d)
        λ here d1. chain R (scan_resources owner keys d1) λ rest d2. (done (here + rest), d2)

  unfoldable pub legacy_scan_cleanup_for_owner :
      List String → List String → String → R.Db → Reply ℕ × R.Db
  legacy_scan_cleanup_for_owner task_keys resource_keys owner d =
      chain R (scan_tasks owner task_keys d) λ tasks d1.
        chain R (scan_resources owner resource_keys d1) λ resources d2.
          chain R (srem R active_owners_key owner (R.delete (get_owner_registry_key owner) d2))
            λ _ d3. (done (tasks + resources), d3)

  -- `cleanup_locks_for_owner`: false where a command raised; what was done before stays.
  abbrev pub caught : {A : Type 0} → Reply A × R.Db → Bool × R.Db
  caught (done a, d) = (true, d)
  caught (wrong_type, d) = (false, d)

  unfoldable pub cleanup_locks_for_owner :
      List String → List String → String → Bool → R.Db → Bool × R.Db
  cleanup_locks_for_owner task_keys resource_keys owner allow_legacy_scan d =
      if exists_kind (R.kind d (get_owner_registry_key owner))
      then caught (cleanup_script R owner d)
      else if allow_legacy_scan
      then caught (legacy_scan_cleanup_for_owner task_keys resource_keys owner d)
      else caught (srem R active_owners_key owner d)

  -- `collect_lock_owners`: the active owners, and with a scan those that the yielded keys name.
  abbrev pub collect_tasks : List String → R.Db → Reply (List String) × R.Db
  collect_tasks [] d = (done [], d)
  collect_tasks (key ∷ keys) d =
      chain R (get R key d)
        λ value d0. chain R (collect_tasks keys d0) λ rest d1. (done (named value ++ rest), d1)

  abbrev pub collect_resources : List String → R.Db → Reply (List String) × R.Db
  collect_resources [] d = (done [], d)
  collect_resources (key ∷ keys) d =
      let holder = chain R (get R key d) λ value d0. (done (named value), d0) in
      chain R (if is_text (R.kind d key) then holder else smembers R key d)
        λ here d1. chain R (collect_resources keys d1) λ rest d2. (done (here ++ rest), d2)

  unfoldable pub collect_lock_owners :
      List String → List String → Bool → R.Db → Reply (List String) × R.Db
  collect_lock_owners task_keys resource_keys allow_legacy_scan d =
      chain R (smembers R active_owners_key d) λ owners d0.
        let scanned = chain R (collect_tasks task_keys d0) λ tasks d1.
          chain R (collect_resources resource_keys d1)
            λ resources d2. (done (owners ++ (tasks ++ resources)), d2) in
        if allow_legacy_scan then scanned else (done owners, d0)

  -- The release by an owner, unless the search for the owner raised.
  abbrev release_as :
      Reply String → String → List String → List String → Bool → R.Db → Reply Bool × (Bool × R.Db)
  release_as (done owner) task_id exclusive shared released d =
      mark_released released
        (release_resource_locks owner (get_task_lock_key task_id) (some exclusive) (some shared) d)
  release_as wrong_type task_id exclusive shared released d = (wrong_type, (released, d))

  -- `safe_release_task_locks`: the flag `_all_locks_released` of the task object, which a call that
  -- raises leaves as it was. `exclusive` and `shared` are what `extract_task_resources` returns.
  unfoldable pub safe_release_task_locks :
      Option String
      → Option String
      → String
      → List String
      → List String
      → Bool
      → R.Db
      → Reply Bool × (Bool × R.Db)
  safe_release_task_locks lock_owner current_app task_id exclusive shared released d =
      if released
      then (done false, (released, d))
      else release_as (owner_of lock_owner current_app) task_id exclusive shared released d

  -- The same calls awaited.
  abbrev pub async_safe_release_task_locks :
      Option String
      → Option String
      → String
      → List String
      → List String
      → Bool
      → R.Db
      → Reply Bool × (Bool × R.Db)
  async_safe_release_task_locks = safe_release_task_locks
