-- ===== src/Tasking/Locks/Acquire.antt =====
-- Taking locks: a request that nothing blocks gets all its locks, and one that conflicts with locks
-- that are held gets none.
use pulpcore.Prelude.{
  String, ◌≡◌, refl, sym, ap, ◌∙◌, Bool, true, false, not, ◌&&◌, ◌||◌, some, List, [], ◌∷◌, map,
  filter, any, contains, ◌==◌, eq_string, if◌then◌else◌, Bool-cases, inl, inr, All,
}
use pulpcore.Tasking.Redis.{Kind, Redis, accepts_set, exists_kind, is_text}
use pulpcore.Tasking.Locks.{
  done, set_each, add_members, lock_keys, taken, exclusively_held, take_locks, acquire_script,
  is_empty, resource_to_lock_key, get_task_lock_key, get_owner_registry_key, active_owners_key,
}
use pulpcore.Tasking.Locks.Keys.{
  registry-lock, registry-task, active-lock, active-task, active-registry, lock-task,
  contains-lock_keys, contains-lock_keys_apart,
}
use pulpcore.Tasking.Locks.Loops.{
  kind-set_each, text-set_each, has-set_each, Added, sadd_each-Added, Joined, add_members-Joined,
}

pub any-filter : (p : String → Bool) (xs : List String) → any p xs ≡ not (is_empty (filter p xs))
any-filter p [] = refl
any-filter p (x ∷ xs) = elim (Bool-cases (p x)) [
  | inl keep ↦ rw keep refl
  | inr drop ↦ rw drop (any-filter p xs)
]

module _ (R : Redis) where
  -- The server keeps sets, if anything, at the registry of the owner and at the set of owners.
  pub record Serves (owner : String) (d : R.Db) : Type 0 where
    pub registry : accepts_set (R.kind d (get_owner_registry_key owner)) ≡ true
    pub owners : accepts_set (R.kind d active_owners_key) ≡ true

  -- Nothing blocks the request, and it shares no resource that it reserves for itself.
  pub record IsFree (task_id : String) (exclusive shared : List String) (d : R.Db) : Type 0 where
    pub task : exists_kind (R.kind d (get_task_lock_key task_id)) ≡ false
    pub alone : any (taken R d) exclusive ≡ false
    pub share : All (λ r. accepts_set (R.kind d (resource_to_lock_key r)) ≡ true) shared
    pub disjoint : All (λ r. contains exclusive r ≡ false) shared

  abbrev pub own_keys : String → List String → List String
  own_keys task_id exclusive = get_task_lock_key task_id ∷ map resource_to_lock_key exclusive

  -- The owner holds every lock of the request, each of them is in its registry, it is one of the
  -- active owners, and no other text or membership has changed.
  pub record Acquired (owner task_id : String) (exclusive shared : List String) (d d' : R.Db)
      : Type 0 where
    pub text_now :
        (k : String)
        → R.text d' k ≡ (if contains (own_keys task_id exclusive) k then some owner else R.text d k)
    pub has_now :
        (k m : String)
        → R.has d' k m ≡ (
            (k == active_owners_key && m == owner)
            || ((k == get_owner_registry_key owner
                  && contains (lock_keys R (get_task_lock_key task_id) exclusive shared) m)
                || ((contains (map resource_to_lock_key shared) k && m == owner)
                    || (if contains (own_keys task_id exclusive) k then false else R.has d k m))))

  held_text :
      (d : R.Db) (k : String) → accepts_set (R.kind d k) ≡ true → is_text (R.kind d k) ≡ false
  held_text d k h = accepted (R.kind d k) h
    where
      accepted : (e : Kind) → accepts_set e ≡ true → is_text e ≡ false
      accepted Kind.no_key h = refl
      accepted Kind.set_key h = refl
      accepted Kind.text_key h = sym h
      accepted Kind.other_key h = refl

  free_shared :
      (d : R.Db) (shared : List String)
      → All (λ r. accepts_set (R.kind d (resource_to_lock_key r)) ≡ true) shared
      → any (exclusively_held R d) shared ≡ false
  free_shared d [] h = refl
  free_shared d (r ∷ shared) h =
      rw (held_text d (resource_to_lock_key r) h.0) (free_shared d shared h.1)

  module _ (owner task_id : String) (exclusive shared : List String) (d : R.Db) where
    abbrev task_key : String
    task_key = get_task_lock_key task_id

    abbrev set_db : R.Db
    set_db = set_each R owner (map resource_to_lock_key exclusive) (R.set_text task_key owner d)

    -- A key that the request does not own is as before the texts are set.
    set-apart :
        (k : String)
        → (k == task_key) ≡ false
        → contains (map resource_to_lock_key exclusive) k ≡ false
        → R.kind set_db k ≡ R.kind d k
    set-apart k ht he =
        kind-set_each R owner k (map resource_to_lock_key exclusive) (R.set_text task_key owner d)
        ∙ rw he (R.kind-set d task_key owner k ∙ rw ht refl)

    share-set :
        (rest : List String)
        → All (λ r. accepts_set (R.kind d (resource_to_lock_key r)) ≡ true) rest
        → All (λ r. contains exclusive r ≡ false) rest
        → All (λ key. accepts_set (R.kind set_db key) ≡ true) (map resource_to_lock_key rest)
    share-set [] h n = tt
    share-set (r ∷ rest) h n = (
      ap accepts_set (
            set-apart (resource_to_lock_key r) (lock-task r task_id)
              (contains-lock_keys exclusive r ∙ n.0))
          ∙ h.0,
      share-set rest h.1 n.1,
    )

    -- A key of no request keeps its kind until the owner is registered.
    kind-apart :
        (d1 : R.Db)
        → Added R owner (map resource_to_lock_key shared) set_db d1
        → (k : String) → (k == task_key) ≡ false
        → ((r : String) → (k == resource_to_lock_key r) ≡ false)
        → R.kind d1 k ≡ R.kind d k
    kind-apart d1 a k ht hr =
        a.kind_same k
        ∙ rw (contains-lock_keys_apart k hr shared)
            (set-apart k ht (contains-lock_keys_apart k hr exclusive))

    take_locks-Acquired :
        IsFree task_id exclusive shared d
        → Serves owner d
        → (d' : R.Db) × (take_locks R owner task_key exclusive shared d ≡ (done [], d'))
          × Acquired owner task_id exclusive shared d d'
    take_locks-Acquired f s =
        let registry = get_owner_registry_key owner in
        let keys = lock_keys R task_key exclusive shared in
        let (d1, e1, a) =
          sadd_each-Added R owner (map resource_to_lock_key shared) set_db
            (share-set shared f.share f.disjoint) in
        let ok1 : accepts_set (R.kind d1 registry) ≡ true =
          ap accepts_set
            (kind-apart d1 a registry (registry-task owner task_id) (registry-lock owner))
          ∙ s.registry in
        let d2 = add_members R registry keys d1 in
        let j : Joined R registry keys d1 d2 = add_members-Joined R registry keys d1 ok1 in
        let ok2 : accepts_set (R.kind d2 active_owners_key) ≡ true =
          ap accepts_set (
            j.kind_same active_owners_key (active-registry owner)
            ∙ kind-apart d1 a active_owners_key (active-task task_id) active-lock)
          ∙ s.owners in
        (
          R.set_add active_owners_key owner d2,
          rw (e1, ok1, ok2) refl,
          record {
            text_now = λ k.
                R.text-add d2 active_owners_key owner k ok2
                ∙ j.text_same k
                ∙ a.text_same k
                ∙ text-set_each R owner k (own_keys task_id exclusive) d;
            has_now = λ k m.
                R.has-add d2 active_owners_key owner k m ok2
                ∙ ap (λ b. (k == active_owners_key && m == owner) || b)
                    (j.has_now k m
                      ∙ ap (λ b. (k == registry && contains keys m) || b)
                          (a.has_now k m
                            ∙ ap
                                (λ b.
                                  (contains (map resource_to_lock_key shared) k && m == owner) || b)
                                (has-set_each R owner k m (own_keys task_id exclusive) d)));
          },
        )

  -- A request that nothing blocks, and that shares no resource which it reserves for itself, on a
  -- server that keeps sets at the registry and at the set of owners, succeeds: its task lock and its
  -- exclusive locks name the owner, the owner is in the set of each shared lock, the registry of the
  -- owner has every key of the request, the owner is active, and no other text or membership changes,
  -- but that a key which the request owns has no members.
  pub acquire_script-Acquired :
      (owner task_id : String) (exclusive shared : List String) (d : R.Db)
      → IsFree task_id exclusive shared d
      → Serves owner d
      → (d' : R.Db) × (acquire_script R owner (get_task_lock_key task_id) exclusive shared d
          ≡ (done [], d'))
        × Acquired owner task_id exclusive shared d d'
  unfolding acquire_script
  acquire_script-Acquired owner task_id exclusive shared d f s =
      let (d', e, a) = take_locks-Acquired owner task_id exclusive shared d f s in
      let none_blocked = sym (any-filter (taken R d) exclusive) ∙ f.alone in
      let none_held =
        sym (any-filter (exclusively_held R d) shared) ∙ free_shared d shared f.share in
      (d', rw (f.task, none_blocked, none_held) e, a)
