-- ===== src/Tasking/RedisWorker/Claim.antt =====
-- Two workers and two tasks that must not run together, pulpcore/tasking/redis_worker.py.
use Prim.Native.Nat.{Ordering}
use Prim.Native.String.{compare as compare_text}
use pulpcore.Prelude.{
  ℕ, String, ◌≡◌, sym, ap, ◌∙◌, true, contains, eq_string, none, List, [], ◌∷◌, ◌⊎◌, inl, inr, In,
}
use pulpcore.Tasking.Task.{Task, Db}
use pulpcore.Tasking.Resources.{reserved, exclusive_of, shared_names, Conflict}
use pulpcore.Tasking.Redis.{Redis}
use pulpcore.Tasking.Locks.{
  Reply, done, wrong_type, get_task_lock_key, resource_to_lock_key, sorted, insert_name,
}
use pulpcore.Tasking.Locks.Client.{acquire_locks}
use pulpcore.Tasking.Locks.Acquire.{IsFree, Serves, own_keys, acquire_script-Acquired}
use pulpcore.Tasking.Locks.Exclusion.{
  Refused, Overlap, same_task, both_exclusive, exclusive_shared, shared_exclusive, Held,
  Held-Refused, Acquired-Held,
}
use pulpcore.Tasking.RedisWorker.{Worker, World, after_acquire, try_task}

-- A name is put before or after the first of the others.
In-place :
    (o : Ordering) (x y z : String) (zs rest : List String)
    → ((x ≡ y) ⊎ In x zs → In x rest)
    → (x ≡ y) ⊎ In x (z ∷ zs)
    → In x (elim o [ Ordering.gt ↦ y ∷ z ∷ zs | _ ↦ z ∷ rest ])
In-place Ordering.gt x y z zs rest h m = m
In-place Ordering.lt x y z zs rest h (inl e) = inr (h (inl e))
In-place Ordering.lt x y z zs rest h (inr (inl e)) = inl e
In-place Ordering.lt x y z zs rest h (inr (inr m)) = inr (h (inr m))
In-place Ordering.eq x y z zs rest h (inl e) = inr (h (inl e))
In-place Ordering.eq x y z zs rest h (inr (inl e)) = inl e
In-place Ordering.eq x y z zs rest h (inr (inr m)) = inr (h (inr m))

In-insert_name : (x y : String) (xs : List String) → (x ≡ y) ⊎ In x xs → In x (insert_name y xs)
unfolding insert_name
In-insert_name x y [] m = m
In-insert_name x y (z ∷ zs) m =
    In-place (compare_text z y) x y z zs (insert_name y zs) (In-insert_name x y zs) m

In-sorted : (x : String) (xs : List String) → In x xs → In x (sorted xs)
unfolding sorted
In-sorted x [] m = m
In-sorted x (y ∷ xs) (inl e) = In-insert_name x y (sorted xs) (inl e)
In-sorted x (y ∷ xs) (inr m) = In-insert_name x y (sorted xs) (inr (In-sorted x xs m))

module _ (id_text : ℕ → String) where
  -- Two tasks that must not hold their locks together.
  abbrev pub Excludes : Task → Task → Type 0
  Excludes t u = (u.pk ≡ t.pk) ⊎ Conflict (reserved t) (reserved u)

  Excludes-Overlap :
      (t u : Task)
      → Excludes t u
      → Overlap
          (id_text t.pk)
          (sorted (exclusive_of (reserved t)))
          (sorted (shared_names (reserved t)))
          (id_text u.pk)
          (sorted (exclusive_of (reserved u)))
          (sorted (shared_names (reserved u)))
  Excludes-Overlap t u (inl e) = same_task (ap id_text (sym e))
  Excludes-Overlap t u (inr (x, inl (m, inl n))) =
      both_exclusive x (In-sorted x (exclusive_of (reserved t)) n)
        (In-sorted x (exclusive_of (reserved u)) m)
  Excludes-Overlap t u (inr (x, inl (m, inr n))) =
      shared_exclusive x (In-sorted x (shared_names (reserved t)) n)
        (In-sorted x (exclusive_of (reserved u)) m)
  Excludes-Overlap t u (inr (x, inr (inl m, n))) =
      both_exclusive x (In-sorted x (exclusive_of (reserved t)) n)
        (In-sorted x (exclusive_of (reserved u)) m)
  Excludes-Overlap t u (inr (x, inr (inr m, n))) =
      exclusive_shared x (In-sorted x (exclusive_of (reserved t)) n)
        (In-sorted x (shared_names (reserved u)) m)

module _ (R : Redis) (id_text : ℕ → String) (meanwhile : World R id_text → World R id_text) where
  Refused-after_acquire :
      (task_id : String) (exclusive shared : List String) (w : Worker) (t : Task) (db : Db)
      (d : R.Db) (r : Reply (List String) × R.Db)
      → Refused R task_id exclusive shared d r
      → after_acquire R id_text meanwhile w t db r ≡ (none, (db, d))
  Refused-after_acquire task_id exclusive shared w t db d (done [], d') (h, _, _) = cc h
  Refused-after_acquire task_id exclusive shared w t db d (done (name ∷ names), d') (h, e, _) =
      ap (λ x. (none, (db, x))) e
  Refused-after_acquire task_id exclusive shared w t db d (wrong_type, d') h = absurd h

  -- The server after a worker has taken the locks of a task.
  abbrev pub locked : Worker → Task → R.Db → R.Db
  locked w t d =
      (acquire_locks R w.name (get_task_lock_key (id_text t.pk)) (exclusive_of (reserved t))
        (shared_names (reserved t)) d).1

  -- Whatever happens to the server, the locks of a task that the worker holds are left as they are.
  pub record LeavesLocks (w : Worker) (t : Task) (d d' : R.Db) : Type 0 where
    pub texts :
        (k : String)
        → contains (own_keys R (id_text t.pk) (sorted (exclusive_of (reserved t)))) k ≡ true
        → R.text d' k ≡ R.text d k
    pub members :
        (r : String)
        → In r (sorted (shared_names (reserved t)))
        → R.has d' (resource_to_lock_key r) w.name ≡ R.has d (resource_to_lock_key r) w.name

  locked-Held :
      (w : Worker) (t : Task) (d d' : R.Db)
      → IsFree R
          (id_text t.pk)
          (sorted (exclusive_of (reserved t)))
          (sorted (shared_names (reserved t)))
          d
      → Serves R w.name d
      → LeavesLocks w t (locked w t d) d'
      → Held R w.name
          (id_text t.pk)
          (sorted (exclusive_of (reserved t)))
          (sorted (shared_names (reserved t)))
          d'
  unfolding acquire_locks
  locked-Held w t d d' free serves same =
      let exclusive = sorted (exclusive_of (reserved t)) in
      let shared = sorted (shared_names (reserved t)) in
      let (d1, e, a) =
        acquire_script-Acquired R w.name (id_text t.pk) exclusive shared d free serves in
      let held = Acquired-Held R w.name (id_text t.pk) exclusive shared d d1 a in
      let there : locked w t d ≡ d1 = ap (λ out. out.1) e in
      record {
        texts = λ k h. same.texts k h ∙ ap (λ x. R.text x k) there ∙ held.texts k h;
        members = λ r m.
            same.members r m
            ∙ ap (λ x. R.has x (resource_to_lock_key r) w.name) there
            ∙ held.members r m;
      }

  -- A worker takes the locks of a task, which nothing blocks and which shares nothing that it reserves
  -- for itself, on a server that keeps sets at the registry and at the set of owners. On every server
  -- that differs from what this leaves only in other things than the locks of the task, a try of any
  -- worker for this task, or for one that conflicts with it, gives no task and leaves the tables and
  -- the server as they are.
  pub try_task-Excludes :
      (w : Worker) (t : Task) (d d' : R.Db)
      → IsFree R
          (id_text t.pk)
          (sorted (exclusive_of (reserved t)))
          (sorted (shared_names (reserved t)))
          d
      → Serves R w.name d
      → LeavesLocks w t (locked w t d) d'
      → (w' : Worker) (u : Task) (db : Db) → Excludes id_text t u
      → try_task R id_text meanwhile w' u (db, d') ≡ (none, (db, d'))
  unfolding try_task acquire_locks
  try_task-Excludes w t d d' free serves same w' u db o = Refused-after_acquire _ _ _ w' u db d' _ (
      Held-Refused R w.name (id_text t.pk) (sorted (exclusive_of (reserved t)))
        (sorted (shared_names (reserved t))) d' (locked-Held w t d d' free serves same) w'.name
        (id_text u.pk) (sorted (exclusive_of (reserved u))) (sorted (shared_names (reserved u)))
        (Excludes-Overlap id_text t u o))
