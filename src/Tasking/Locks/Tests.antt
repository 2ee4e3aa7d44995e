-- ===== src/Tasking/Locks/Tests.antt =====
-- Runs of the scripts on a server in memory.
use pulpcore.Prelude.{Bool, false, List, String, ◌≡◌, refl, [], ◌∷◌, inl, eq_string}
use pulpcore.Tasking.Redis.Memory.{put, text_entry, memory, Entry, set_entry}
use pulpcore.Tasking.Locks.{
  release_script, Reply, wrong_type, get_owner_registry_key, resource_to_lock_key, done,
  acquire_script, get_task_lock_key, sorted,
}
use pulpcore.Tasking.Locks.Acquire.{IsFree, Serves, Acquired, acquire_script-Acquired}
use pulpcore.Tasking.Locks.ReleaseScript.{Releasable, Released, release_script-Released}
use pulpcore.Tasking.Locks.RoundTrip.{Restored, release_script-acquire_script}
use pulpcore.Tasking.Locks.Exclusion.{Refused, exclusive_shared, acquire_script-excludes}

abbrev no_locks : String → Entry
no_locks key = set_entry []

no_locks-IsFree : IsFree memory "1" ("a" ∷ []) ("b" ∷ []) no_locks
no_locks-IsFree = record { task = refl; alone = refl; share = (refl, tt); disjoint = (refl, tt) }

no_locks-Serves : Serves memory "worker" no_locks
no_locks-Serves = record { registry = refl; owners = refl }

names_sorted : sorted ("b" ∷ "c" ∷ "a" ∷ []) ≡ "a" ∷ "b" ∷ "c" ∷ []
unfolding sorted
names_sorted = refl

acquire_script-Acquired_example :
    (d' : String → Entry) × (acquire_script memory "worker"
        (get_task_lock_key "1")
        ("a" ∷ [])
        ("b" ∷ [])
        no_locks
      ≡ (done [], d'))
    × Acquired memory "worker" "1" ("a" ∷ []) ("b" ∷ []) no_locks d'
acquire_script-Acquired_example =
    acquire_script-Acquired memory "worker" "1" ("a" ∷ []) ("b" ∷ []) no_locks no_locks-IsFree
      no_locks-Serves

acquire_script-excludes_example :
    let d' =
      (acquire_script memory "worker" (get_task_lock_key "1") ("a" ∷ []) ("b" ∷ []) no_locks).1 in
    Refused memory "2" []
      ("a" ∷ [])
      d'
      (acquire_script memory "other" (get_task_lock_key "2") [] ("a" ∷ []) d')
acquire_script-excludes_example =
    acquire_script-excludes memory "worker" "1" ("a" ∷ []) ("b" ∷ []) no_locks no_locks-IsFree
      no_locks-Serves "other" "2" [] ("a" ∷ []) (exclusive_shared "a" (inl refl) (inl refl))

-- A task that shares a resource which it reserves for itself stops in the middle of the script: its
-- task lock is set, and no registry has it.
unfoldable both_ways : Reply (List String) × (String → Entry)
unfolding acquire_script
both_ways = acquire_script memory "worker" (get_task_lock_key "1") ("a" ∷ []) ("a" ∷ []) no_locks

both_ways_stops :
    (both_ways.0 ≡ wrong_type)
    × (both_ways.1 (get_task_lock_key "1") ≡ text_entry "worker")
    × (both_ways.1 (get_owner_registry_key "worker") ≡ set_entry [])
unfolding both_ways acquire_script get_task_lock_key resource_to_lock_key get_owner_registry_key
both_ways_stops = (refl, refl, refl)

-- The task lock is the worker's, the lock of `a` another's, and both share `b`.
abbrev some_locks : String → Entry
some_locks = put (get_task_lock_key "1") (text_entry "worker") (
    put (resource_to_lock_key "a") (text_entry "other")
      (put (resource_to_lock_key "b") (set_entry ("other" ∷ "worker" ∷ [])) no_locks))

some_locks-Releasable : Releasable memory "worker" "1" ("a" ∷ []) ("b" ∷ []) some_locks
unfolding get_task_lock_key resource_to_lock_key get_owner_registry_key
some_locks-Releasable = record {
  task = refl;
  texts = (refl, tt);
  sets = (refl, tt);
  registered = refl;
}

release_script-Released_example :
    (d' : String → Entry) × (out : List String × (List String × Bool)) × (release_script memory
        "worker"
        (get_task_lock_key "1")
        ("a" ∷ [])
        ("b" ∷ [])
        some_locks
      ≡ (done out, d'))
    × Released memory "worker" "1" ("a" ∷ []) ("b" ∷ []) some_locks d'
release_script-Released_example =
    release_script-Released memory "worker" "1" ("a" ∷ []) ("b" ∷ []) some_locks
      some_locks-Releasable

-- What the script reports there: the lock of `a` is not the worker's.
release_reports :
    (release_script memory "worker" (get_task_lock_key "1") ("a" ∷ []) ("b" ∷ []) some_locks).0
    ≡ done ("a" ∷ [], ([], false))
unfolding release_script get_task_lock_key resource_to_lock_key get_owner_registry_key
release_reports = refl

release_script-acquire_script_example :
    Restored memory "worker" "1" ("a" ∷ []) ("b" ∷ []) no_locks (
      release_script memory "worker"
        (get_task_lock_key "1")
        ("a" ∷ [])
        ("b" ∷ [])
        (acquire_script memory "worker" (get_task_lock_key "1") ("a" ∷ []) ("b" ∷ []) no_locks).1)
release_script-acquire_script_example =
    release_script-acquire_script memory "worker" "1" ("a" ∷ []) ("b" ∷ []) no_locks no_locks-IsFree
      no_locks-Serves (refl, tt)
