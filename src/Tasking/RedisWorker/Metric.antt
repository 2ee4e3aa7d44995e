-- ===== src/Tasking/RedisWorker/Metric.antt =====
-- The tasks that the sets of taken resources leave out are those that conflict with an earlier task.
use pulpcore.Prelude.{
  ℕ, suc, In, String, ◌≡◌, refl, ◌∙◌, Bool, true, ◌&&◌, ◌||◌, List, [], ◌∷◌, ◌++◌, any, contains,
  eq_string, arith, any-append, any-none, ◌↔◌, Bool-cases, inl, inr, any-In, In-any, contains-In,
  In-contains, true_or, filter, ltb, ◌==◌,
}
use pulpcore.Tasking.Task.{Task, Db, eq_state, running, waiting}
use pulpcore.Tasking.Resources.{reserved, exclusive_of, shared_names, Conflict}
use pulpcore.Tasking.Unblock.{order_by_created}
use pulpcore.Tasking.RedisWorker.{should_skip, count_parallel, count_waiting_tasks_for_metric}

-- One task uses a resource that the other reserves for itself.
abbrev pub conflicts : Task → Task → Bool
conflicts earlier t =
    should_skip (exclusive_of (reserved earlier)) (shared_names (reserved earlier)) t

any-or :
    (p q : String → Bool) (xs : List String) → any (λ x. p x || q x) xs ≡ (any p xs || any q xs)
any-or p q [] = refl
any-or p q (x ∷ xs) = ground (arith, any-or p q xs)

any-eq :
    (p q : String → Bool) → ((x : String) → p x ≡ q x) → (xs : List String) → any p xs ≡ any q xs
any-eq p q h [] = refl
any-eq p q h (x ∷ xs) = rw (h x, any-eq p q h xs) refl

-- Taking the resources of one more task.
pub skip-append :
    (taken_exclusive taken_shared : List String) (u t : Task)
    → should_skip
        (taken_exclusive ++ exclusive_of (reserved u))
        (taken_shared ++ shared_names (reserved u))
        t
      ≡ (should_skip taken_exclusive taken_shared t || conflicts u t)
skip-append te ts u t =
    let eu = exclusive_of (reserved u) in
    let su = shared_names (reserved u) in
    let one =
      any-eq (λ r. contains (te ++ eu) r || contains (ts ++ su) r)
        (λ r. (contains te r || contains ts r) || (contains eu r || contains su r))
        (λ r. rw (any-append (λ x. r == x) te eu, any-append (λ x. r == x) ts su) (ground arith))
        (exclusive_of (reserved t))
      ∙ any-or (λ r. contains te r || contains ts r) (λ r. contains eu r || contains su r)
          (exclusive_of (reserved t)) in
    let two =
      any-eq (λ r. contains (te ++ eu) r) (λ r. contains te r || contains eu r)
        (λ r. any-append (λ x. r == x) te eu) (shared_names (reserved t))
      ∙ any-or (contains te) (contains eu) (shared_names (reserved t)) in
    rw (one, two) (ground arith)

pub conflicts_iff : (u t : Task) → (conflicts u t ≡ true) ↔ Conflict (reserved u) (reserved t)
conflicts_iff u t = (to, from)
  where
    used : String → Bool
    used r = contains (exclusive_of (reserved u)) r || contains (shared_names (reserved u)) r

    to : conflicts u t ≡ true → Conflict (reserved u) (reserved t)
    to h =
        elim (true_or (any used (exclusive_of (reserved t)))
          (any (contains (exclusive_of (reserved u))) (shared_names (reserved t))) h) [
            | inl a ↦
                let (x, m, c) = any-In used (exclusive_of (reserved t)) a in
                (
                  x,
                  inl (
                    m,
                    elim (true_or (contains (exclusive_of (reserved u)) x)
                        (contains (shared_names (reserved u)) x) c) [
                          | inl e ↦ inl (contains-In x (exclusive_of (reserved u)) e)
                          | inr s ↦ inr (contains-In x (shared_names (reserved u)) s)
                        ],
                  ),
                )
            | inr b ↦
                let (x, m, c) =
                  any-In (contains (exclusive_of (reserved u))) (shared_names (reserved t)) b in
                (x, inr (inr m, contains-In x (exclusive_of (reserved u)) c))
          ]

    from : Conflict (reserved u) (reserved t) → conflicts u t ≡ true
    from (x, inl (m, inl a)) =
        let c = In-contains x (exclusive_of (reserved u)) a in
        let b = In-any used x (exclusive_of (reserved t)) m (rw c refl) in rw b refl
    from (x, inl (m, inr a)) =
        let c = In-contains x (shared_names (reserved u)) a in
        let b = In-any used x (exclusive_of (reserved t)) m (rw c (ground arith)) in rw b refl
    from (x, inr (inl m, a)) =
        let c = In-contains x (exclusive_of (reserved u)) a in
        let b = In-any used x (exclusive_of (reserved t)) m (rw c refl) in rw b refl
    from (x, inr (inr m, a)) =
        let c = In-contains x (exclusive_of (reserved u)) a in
        let b = In-any (contains (exclusive_of (reserved u))) x (shared_names (reserved t)) m c in
        rw b (ground arith)

-- How many tasks of a list conflict with none before them, nor with one of `earlier`.
pub data Independent : List Task → List Task → ℕ → Type 0 where
  no_tasks : (earlier : List Task) → Independent earlier [] 0
  conflicting :
      (earlier : List Task) (t u : Task) (tasks : List Task) (n : ℕ)
      → In u earlier
      → Conflict (reserved u) (reserved t)
      → Independent (earlier ++ t ∷ []) tasks n
      → Independent earlier (t ∷ tasks) n
  independent :
      (earlier : List Task) (t : Task) (tasks : List Task) (n : ℕ)
      → ((u : Task) → In u earlier → ¬ Conflict (reserved u) (reserved t))
      → Independent (earlier ++ t ∷ []) tasks n
      → Independent earlier (t ∷ tasks) (suc n)

count_parallel-Independent :
    (taken_exclusive taken_shared : List String) (earlier tasks : List Task)
    → ((t : Task) → should_skip taken_exclusive taken_shared t ≡ any (λ u. conflicts u t) earlier)
    → Independent earlier tasks (count_parallel taken_exclusive taken_shared tasks)
unfolding count_parallel
count_parallel-Independent te ts earlier [] h = no_tasks earlier
count_parallel-Independent te ts earlier (t ∷ tasks) h =
    let rest =
      count_parallel (te ++ exclusive_of (reserved t)) (ts ++ shared_names (reserved t)) tasks in
    let next : Independent (earlier ++ t ∷ []) tasks rest =
      count_parallel-Independent (te ++ exclusive_of (reserved t)) (ts ++ shared_names (reserved t))
        (earlier ++ t ∷ []) tasks
        (λ x.
          skip-append te ts t x
          ∙ rw (h x, any-append (λ u. conflicts u x) earlier (t ∷ [])) (ground arith)) in
    elim (Bool-cases (any (λ u. conflicts u t) earlier)) [
      | inl b ↦
          let (u, m, c) = any-In (λ u. conflicts u t) earlier b in
          rw (h t, b) (conflicting earlier t u tasks rest m ((conflicts_iff u t).0 c) next)
      | inr b ↦
          rw (h t, b)
            (independent earlier t tasks rest
              (λ u m c.
                let a = In-any (λ u. conflicts u t) u earlier m ((conflicts_iff u t).1 c) in
                cc (a, b))
              next)
    ]

-- The metric is the number of running and waiting tasks older than the cutoff that conflict with no
-- such task created before them, counted or not, where two tasks conflict if one of them uses a
-- resource that the other reserves for itself.
pub count_waiting_tasks_for_metric-Independent :
    (cutoff_time : ℕ) (db : Db)
    → Independent []
        (order_by_created (
          filter
            (λ t. (t.state == running || t.state == waiting) && ltb t.pulp_created cutoff_time)
            db.tasks))
        (count_waiting_tasks_for_metric cutoff_time db)
unfolding count_waiting_tasks_for_metric
count_waiting_tasks_for_metric-Independent cutoff_time db =
    count_parallel-Independent [] [] [] _ (λ t.
      rw
        (
          any-none (λ r. contains [] r || contains [] r) (λ r. refl) (exclusive_of (reserved t)),
          any-none (contains []) (λ r. refl) (shared_names (reserved t)),
        )
        refl)
