-- ===== src/Tasking/Locks/ReleaseScript.antt =====
-- The release script as a whole.
use pulpcore.Prelude.{
  String, ◌≡◌, refl, ap, ◌∙◌, Bool, true, false, not, ◌&&◌, ◌||◌, Option, none, some, List, [], ◌∷◌,
  map, contains, ◌==◌, eq_string, if◌then◌else◌, All, arith,
}
use pulpcore.Tasking.Redis.{Redis, accepts_set, accepts_get}
use pulpcore.Tasking.Locks.{
  done, is_own, is_other, release_script, resource_to_lock_key, get_task_lock_key,
  get_owner_registry_key,
}
use pulpcore.Tasking.Locks.Keys.{registry-task, task-registry, task-lock, contains-lock_keys_apart}
use pulpcore.Tasking.Locks.Acquire.{own_keys}
use pulpcore.Tasking.Locks.Release.{Freed, release_text-Freed, release_exclusive-Freed}
use pulpcore.Tasking.Locks.Leave.{release_shared-Left}

module _ (R : Redis) (owner task_id : String) (exclusive shared : List String) where
  abbrev registry : String
  registry = get_owner_registry_key owner

  abbrev task_key : String
  task_key = get_task_lock_key task_id

  -- No command of the script meets a key of a type that it refuses.
  pub record Releasable (d : R.Db) : Type 0 where
    pub task : accepts_get (R.kind d task_key) ≡ true
    pub texts : All (λ r. accepts_get (R.kind d (resource_to_lock_key r)) ≡ true) exclusive
    pub sets : All (λ r. accepts_set (R.kind d (resource_to_lock_key r)) ≡ true) shared
    pub registered : accepts_set (R.kind d registry) ≡ true

  -- The texts of the owner at its keys are gone, the owner has left the sets at the keys that it
  -- shares, its registry has none of them, and nothing else has changed.
  pub record Released (d d' : R.Db) : Type 0 where
    pub text_now :
        (k : String)
        → R.text d' k ≡ (
            if contains (own_keys R task_id exclusive) k && is_own owner (R.text d k)
            then none
            else R.text d k)
    pub has_now :
        (k m : String)
        → (k == registry) ≡ false
        → R.has d' k m
          ≡ (R.has d k m && not (contains (map resource_to_lock_key shared) k && m == owner))
    pub registered :
        (m : String)
        → R.has d' registry m ≡ (
            R.has d registry m
            && not (
                (contains (own_keys R task_id exclusive) m && is_own owner (R.text d m))
                || contains (map resource_to_lock_key shared) m))

  two_texts :
      (a b : Bool) (o : Option String)
      → (if (a || false) && is_own owner (if b && is_own owner o then none else o)
          then none
          else (if b && is_own owner o then none else o))
        ≡ (if (a || b) && is_own owner o then none else o)
  two_texts a b none = ground arith
  two_texts a b (some v) = ground arith

  two_sets :
      (h a b s : Bool) (o : Option String)
      → (((h && not (b && is_own owner o)) && not s)
          && not ((a || false) && is_own owner (if b && is_own owner o then none else o)))
        ≡ (h && not (((a || b) && is_own owner o) || s))
  two_sets h a b s none = ground arith
  two_sets h a b s (some v) = ground arith

  still :
      (rest : List String) {d d1 : R.Db}
      → Freed R owner (map resource_to_lock_key exclusive) d d1
      → All (λ r. accepts_set (R.kind d (resource_to_lock_key r)) ≡ true) rest
      → All (λ r. accepts_set (R.kind d1 (resource_to_lock_key r)) ≡ true) rest
  still [] f t = tt
  still (x ∷ rest) f t = (f.sets (resource_to_lock_key x) t.0, still rest f t.1)

  -- Where no key has a type that a command refuses, the release script ends normally: the texts that
  -- name the owner at the task lock and the exclusive locks are gone, those of other owners stay, the
  -- owner has left the sets of the shared locks, other members stay, the registry of the owner loses
  -- what was released, and no other text or membership changes.
  pub release_script-Released :
      (d : R.Db)
      → Releasable d
      → (d' : R.Db) × (out : List String × (List String × Bool)) × (release_script R owner task_key
            exclusive shared d
          ≡ (done out, d'))
        × Released d d'
  unfolding release_script
  release_script-Released d h =
      let (d1, not_owned, e1, f1) =
        release_exclusive-Freed R owner exclusive d h.texts h.registered in
      let (d2, not_in, e2, f2) =
        release_shared-Left R owner shared d1 (still shared f1 h.sets)
          (f1.sets registry h.registered) in
      let (d3, e3, f3) =
        release_text-Freed R owner task_key d2 (registry-task owner task_id)
          (f2.gets task_key (task-registry task_id owner)
            (contains-lock_keys_apart task_key (task-lock task_id) shared)
            (f1.gets task_key (task-registry task_id owner) h.task))
          (f2.sets registry (f1.sets registry h.registered)) in
      (
        d3,
        (not_owned, (not_in, is_other owner (R.text d2 task_key))),
        rw (e1, e2, e3) refl,
        record {
          text_now = λ k.
              f3.text_now k
              ∙ rw (f2.text_same k, f1.text_now k)
                  (two_texts (k == task_key) (contains (map resource_to_lock_key exclusive) k)
                    (R.text d k));
          has_now = λ k m other.
              f3.has_now k m other
              ∙ f2.has_now k m other
              ∙ ap (λ b. b && not (contains (map resource_to_lock_key shared) k && m == owner))
                  (f1.has_now k m other);
          registered = λ m.
              f3.registered m
              ∙ rw (f2.registered m, f1.registered m, f2.text_same m, f1.text_now m)
                  (two_sets (R.has d registry m) (m == task_key)
                    (contains (map resource_to_lock_key exclusive) m)
                    (contains (map resource_to_lock_key shared) m) (R.text d m));
        },
      )
