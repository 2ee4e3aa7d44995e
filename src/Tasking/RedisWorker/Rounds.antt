-- ===== src/Tasking/RedisWorker/Rounds.antt =====
-- The loop of `fetch_task` ends where each waiting task reserves something for itself and the tables
-- do not change meanwhile.
use pulpcore.Prelude.{
  ℕ, zero, suc, ◌<◌, String, ◌≡◌, ◌≢◌, refl, sym, ◌∙◌, subst, Bool, true, false, not, ◌&&◌, Option,
  none, some, List, [], ◌∷◌, ◌++◌, filter, ◌==◌, eq_nat, eq_string, if◌then◌else◌, length,
  count_where, arith, Bool-cases, inl, inr, In, In-filter, In-append_left, In-append_right,
  eq_of_==, true_and, ltb,
}
use pulpcore.Tasking.Task.{Task, Db, waiting, eq_state}
use pulpcore.Tasking.Resources.{reserved, exclusive_of, shared_names}
use pulpcore.Tasking.Unblock.{order_by_created, is_none}
use pulpcore.Tasking.Unblock.Progress.{In-order}
use pulpcore.Tasking.Redis.{Redis}
use pulpcore.Tasking.Locks.{Reply, done, wrong_type}
use pulpcore.Tasking.RedisWorker.{
  Worker, World, should_skip, is_candidate, waiting_tasks, is_claimable, claim, after_acquire,
  try_task, Walked, found, passed, no_task, go_on, walk, Fetched, unfinished, is_empty_list,
  next_round, fetch_rounds, fetch_task,
}
use pulpcore.Tasking.RedisWorker.Taken.{
  Subset, count-lt, take-In, candidate-Subset, Reserves, taken-candidate,
}

module _ (R : Redis) (id_text : ℕ → String) (meanwhile : World R id_text → World R id_text)
    (quiet : (s : World R id_text) → (meanwhile s).0 ≡ s.0) where
  abbrev SameTables : Db → Option Task × World R id_text → Type 0
  SameTables db (some t, s) = Unit
  SameTables db (none, s) = s.0 ≡ db

  claim-SameTables :
      (w : Worker) (t : Task) (s : World R id_text) → SameTables s.0 (claim R id_text w t s)
  claim-SameTables w t (db, d) =
      elim (Bool-cases (count_where (is_claimable R id_text t) db.tasks == 0)) [
        | inl gone ↦ rw gone refl
        | inr there ↦ rw there tt
      ]

  after_acquire-SameTables :
      (w : Worker) (t : Task) (db : Db) (r : Reply (List String) × R.Db)
      → SameTables db (after_acquire R id_text meanwhile w t db r)
  after_acquire-SameTables w t db (wrong_type, d) = refl
  after_acquire-SameTables w t db (done (name ∷ names), d) = refl
  after_acquire-SameTables w t db (done [], d) =
      subst (λ x. SameTables x (claim R id_text w t (meanwhile (db, d)))) (quiet (db, d))
        (claim-SameTables w t (meanwhile (db, d)))

  try_task-SameTables :
      (w : Worker) (t : Task) (s : World R id_text)
      → SameTables s.0 (try_task R id_text meanwhile w t s)
  unfolding try_task
  try_task-SameTables w t (db, d) = after_acquire-SameTables w t db _

  -- What a loop that returns no task has taken.
  abbrev Grown :
      List String
      → List String
      → List Task
      → Db
      → Walked R id_text meanwhile × World R id_text
      → Type 0
  Grown te ts tasks db (found t, s) = Unit
  Grown te ts tasks db (passed te' ts', s) =
      Subset te te'
      × Subset ts ts'
      × ((t : Task) → In t tasks → Subset (exclusive_of (reserved t)) te')
      × (s.0 ≡ db)

  later :
      (te ts : List String) (t : Task) (tasks : List Task) (db : Db)
      (x : Walked R id_text meanwhile × World R id_text)
      → Grown (te ++ exclusive_of (reserved t)) (ts ++ shared_names (reserved t)) tasks db x
      → Grown te ts (t ∷ tasks) db x
  later te ts t tasks db (found _, s) h = tt
  later te ts t tasks db (passed te' ts', s) (a, b, own, same) = (
    (λ x m. a x (In-append_left x te (exclusive_of (reserved t)) m)),
    (λ x m. b x (In-append_left x ts (shared_names (reserved t)) m)),
    reserves,
    same,
  )
    where
      reserves : (u : Task) → In u (t ∷ tasks) → Subset (exclusive_of (reserved u)) te'
      reserves u (inl e) x m = a x (
          In-append_right x te (exclusive_of (reserved t))
            (subst (λ v. In x (exclusive_of (reserved v))) e m))
      reserves u (inr n) x m = own u n x m

  go_on-Grown :
      (te ts : List String) (tasks : List Task) (db : Db) (tried : Option Task × World R id_text)
      (rest : World R id_text → Walked R id_text meanwhile × World R id_text)
      → SameTables db tried
      → ((s : World R id_text) → s.0 ≡ db → Grown te ts tasks db (rest s))
      → Grown te ts tasks db (go_on R id_text meanwhile tried rest)
  go_on-Grown te ts tasks db (some t, s) rest h below = tt
  go_on-Grown te ts tasks db (none, s) rest h below = below s h

  walk-Grown :
      (w : Worker) (te ts : List String) (tasks : List Task) (db : Db) (s : World R id_text)
      → s.0 ≡ db
      → Grown te ts tasks db (walk R id_text meanwhile w te ts tasks s)
  unfolding walk
  walk-Grown w te ts [] db s e = ((λ x m. m), (λ x m. m), (λ t m. absurd m), e)
  walk-Grown w te ts (t ∷ tasks) db s e =
      let below = λ (s' : World R id_text) (e' : s'.0 ≡ db). later te ts t tasks db _ (
        walk-Grown w (te ++ exclusive_of (reserved t)) (ts ++ shared_names (reserved t)) tasks db s'
          e') in
      elim (Bool-cases (should_skip te ts t)) [
        | inl skip ↦ rw skip (below s e)
        | inr try ↦
            let tried : SameTables db (try_task R id_text meanwhile w t (meanwhile s)) =
              subst (λ x. SameTables x (try_task R id_text meanwhile w t (meanwhile s)))
                (quiet s ∙ e) (try_task-SameTables w t (meanwhile s)) in
            rw try (go_on-Grown te ts (t ∷ tasks) db _ _ tried below)
      ]

  waiting-In :
      (limit : ℕ) (w : Worker) (te ts : List String) (db : Db) (u : Task)
      → In u (waiting_tasks limit w te ts db)
      → In u db.tasks × (is_candidate w te ts u ≡ true)
  unfolding waiting_tasks
  waiting-In limit w te ts db u m =
      let ordered = order_by_created (filter (is_candidate w te ts) db.tasks) in
      In-filter (is_candidate w te ts) u db.tasks
        (In-order u (filter (is_candidate w te ts) db.tasks) (take-In limit u ordered m))

  -- After a round that returns no task less tasks are left.
  round-lt :
      (limit : ℕ) (w : Worker) (te ts te' ts' : List String) (db : Db) (u : Task)
      → ((t : Task) → In t db.tasks → t.state ≡ waiting → Reserves t)
      → In u (waiting_tasks limit w te ts db)
      → Subset te te'
      → Subset ts ts'
      → Subset (exclusive_of (reserved u)) te'
      → count_where (is_candidate w te' ts') db.tasks < count_where (is_candidate w te ts) db.tasks
  round-lt limit w te ts te' ts' db u own m a b c =
      let (i, t) = waiting-In limit w te ts db u m in
      let (first, _) = true_and (u.state == waiting && is_none u.app_lock) _ t in
      let (state, _) = true_and (u.state == waiting) (is_none u.app_lock) first in
      count-lt (is_candidate w te' ts') (is_candidate w te ts)
        (candidate-Subset w te ts te' ts' a b) db.tasks u i t
        (taken-candidate w te' ts' u (own u i (eq_of_== u.state waiting state)) c)

  nonempty-In :
      (xs : List Task) → is_empty_list R id_text meanwhile xs ≡ false → (u : Task) × In u xs
  nonempty-In [] h = cc h
  nonempty-In (x ∷ xs) h = (x, inl refl)

  abbrev pub Finishes : Fetched R id_text meanwhile × World R id_text → Type 0
  Finishes x = x.0 ≢ unfinished

  next_round-Finishes :
      (te ts : List String) (tasks : List Task) (db : Db) (full : Bool)
      (again : List String
        → List String
        → World R id_text
        → Fetched R id_text meanwhile × World R id_text)
      (x : Walked R id_text meanwhile × World R id_text)
      → Grown te ts tasks db x
      → ((te' ts' : List String) (s : World R id_text)
          → Grown te ts tasks db (passed te' ts', s)
          → Finishes (again te' ts' s))
      → Finishes (next_round R id_text meanwhile full again x)
  next_round-Finishes te ts tasks db full again (found t, s) g h = λ e. cc e
  next_round-Finishes te ts tasks db true again (passed te' ts', s) g h = h te' ts' s g
  next_round-Finishes te ts tasks db false again (passed te' ts', s) g h = λ e. cc e

  rounds-Finishes :
      (fuel limit : ℕ) (w : Worker) (te ts : List String) (db : Db) (s : World R id_text)
      → s.0 ≡ db
      → ((t : Task) → In t db.tasks → t.state ≡ waiting → Reserves t)
      → count_where (is_candidate w te ts) db.tasks < fuel
      → Finishes (fetch_rounds R id_text meanwhile fuel limit w te ts s)
  unfolding fetch_rounds
  rounds-Finishes zero limit w te ts db s e own bound = let bad : ⊥ = omega arith in absurd bad
  rounds-Finishes (suc fuel) limit w te ts db s e own bound =
      let s1 = meanwhile s in
      let e1 : s1.0 ≡ db = quiet s ∙ e in
      let tasks = waiting_tasks limit w te ts s1.0 in
      let walked = walk R id_text meanwhile w te ts tasks s1 in
      let round =
        next_round R id_text meanwhile (not (ltb (length tasks) limit))
          (fetch_rounds R id_text meanwhile fuel limit w) walked in
      elim (Bool-cases (is_empty_list R id_text meanwhile tasks)) [
        | inl none_left ↦
            subst (λ b. Finishes (if b then (no_task, s1) else round)) (sym none_left) (λ h. cc h)
        | inr some_left ↦
            let (u, m) = nonempty-In tasks some_left in
            let m' : In u (waiting_tasks limit w te ts db) =
              subst (λ x. In u (waiting_tasks limit w te ts x)) e1 m in
            subst (λ b. Finishes (if b then (no_task, s1) else round)) (sym some_left)
              (next_round-Finishes te ts tasks db (not (ltb (length tasks) limit))
                (fetch_rounds R id_text meanwhile fuel limit w) walked
                (walk-Grown w te ts tasks db s1 e1)
                λ te' ts' s' (a, b, c, e').
                  let less = round-lt limit w te ts te' ts' db u own m' a b (c u m) in
                  rounds-Finishes fuel limit w te' ts' db s' e' own (omega arith))
      ]

  -- Where the other processes leave the tables alone meanwhile, and each waiting task reserves a
  -- resource for itself, the search ends, with a task or without one, in any number of rounds that is
  -- greater than the number of waiting tasks without a lock that the worker does not ignore.
  pub fetch_task-Finishes :
      (fuel limit : ℕ) (w : Worker) (s : World R id_text)
      → ((t : Task) → In t s.0.tasks → t.state ≡ waiting → Reserves t)
      → count_where (is_candidate w [] []) s.0.tasks < fuel
      → Finishes (fetch_task R id_text meanwhile fuel limit w s)
  unfolding fetch_task
  fetch_task-Finishes fuel limit w s own bound =
      rounds-Finishes fuel limit w [] [] s.0 s refl own bound
