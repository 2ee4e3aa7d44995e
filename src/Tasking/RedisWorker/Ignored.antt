-- ===== src/Tasking/RedisWorker/Ignored.antt =====
-- `RedisWorker.cleanup_ignored_tasks` of pulpcore/tasking/redis_worker.py.
use pulpcore.Prelude.{
  ℕ, ◌≡◌, refl, sym, ap, ◌∙◌, Bool, true, false, not, ◌&&◌, List, [], ◌∷◌, map, filter, any,
  contains, ◌==◌, eq_nat, eq_of_==, if◌then◌else◌, Bool-cases, inl, inr, arith, true_and,
}
use pulpcore.Tasking.Task.{Task, Db, is_incomplete}
use pulpcore.Tasking.RedisWorker.{Worker}

-- `ids.remove(pk)` where `pk` is in the list: its first occurrence goes. Python raises a `ValueError`
-- for another `pk`; the keys of the query are in the list, each of them once.
abbrev pub remove : ℕ → List ℕ → List ℕ
remove pk [] = []
remove pk (x ∷ ids) = let rest = remove pk ids in if x == pk then ids else x ∷ rest

-- The loop over the keys of the query, which is read before the list changes.
abbrev pub remove_each : List ℕ → List ℕ → List ℕ
remove_each [] ids = ids
remove_each (pk ∷ pks) ids = remove_each pks (remove pk ids)

-- The query: rows that the worker ignores and that are not incomplete.
abbrev pub is_over : List ℕ → Task → Bool
is_over ids t = contains ids t.pk && not (is_incomplete t.state)

unfoldable pub cleanup_ignored_tasks : Worker → Db → Worker
cleanup_ignored_tasks w db = record w {
  ignored_task_ids =
      remove_each (map (λ t. t.pk) (filter (is_over w.ignored_task_ids) db.tasks))
        w.ignored_task_ids;
}

-- No key stands twice in the list.
abbrev pub HasOnce : List ℕ → Type 0
HasOnce [] = Unit
HasOnce (x ∷ ids) = (contains ids x ≡ false) × HasOnce ids

contains-remove :
    (pk k : ℕ) (ids : List ℕ)
    → HasOnce ids
    → contains (remove pk ids) k ≡ (contains ids k && not (k == pk))
contains-remove pk k [] h = refl
contains-remove pk k (x ∷ ids) (h, hs) =
    let below = contains-remove pk k ids hs in
    elim (Bool-cases (x == pk)) [
      | inl here ↦
          let e = eq_of_== x pk here in
          elim (Bool-cases (k == pk)) [
            | inl mine ↦
                let f : x ≡ k = e ∙ sym (eq_of_== k pk mine) in
                let away : contains ids k ≡ false = ap (contains ids) (sym f) ∙ h in
                rw (here, mine, away) (ground arith)
            | inr other ↦
                let apart : (k == x) ≡ false = ap (λ y. k == y) e ∙ other in
                rw (here, other, apart) (ground arith)
          ]
      | inr there ↦ elim (Bool-cases (k == x)) [
        | inl mine ↦
            let apart : (k == pk) ≡ false = ap (λ y. y == pk) (eq_of_== k x mine) ∙ there in
            rw (there, mine, apart) refl
        | inr other ↦ rw (there, other) below
      ]
    ]

HasOnce-remove : (pk : ℕ) (ids : List ℕ) → HasOnce ids → HasOnce (remove pk ids)
HasOnce-remove pk [] h = tt
HasOnce-remove pk (x ∷ ids) (h, hs) = elim (Bool-cases (x == pk)) [
  | inl here ↦ rw here hs
  | inr there ↦ rw there (contains-remove pk x ids hs ∙ rw h refl, HasOnce-remove pk ids hs)
]

contains-remove_each :
    (pks : List ℕ) (k : ℕ) (ids : List ℕ)
    → HasOnce ids
    → contains (remove_each pks ids) k ≡ (contains ids k && not (contains pks k))
contains-remove_each [] k ids h = ground arith
contains-remove_each (pk ∷ pks) k ids h =
    contains-remove_each pks k (remove pk ids) (HasOnce-remove pk ids h)
    ∙ rw (contains-remove pk k ids h) (ground arith)

eq_comm : (a b : ℕ) → (a == b) ≡ (b == a)
eq_comm a b = ground arith

contains-over :
    (ids : List ℕ) (k : ℕ) (rows : List Task)
    → contains ids k ≡ true
    → contains (map (λ t. t.pk) (filter (is_over ids) rows)) k
      ≡ any (λ t. t.pk == k && not (is_incomplete t.state)) rows
contains-over ids k [] h = refl
contains-over ids k (t ∷ rows) h =
    let below = contains-over ids k rows h in
    elim (Bool-cases (is_over ids t)) [
      | inl hit ↦
          let (known, over) = true_and (contains ids t.pk) (not (is_incomplete t.state)) hit in
          let swap = eq_comm t.pk k in rw hit (ground (arith, below, swap, over))
      | inr miss ↦ elim (Bool-cases (t.pk == k)) [
        | inl mine ↦
            let known : contains ids t.pk ≡ true = ap (contains ids) (eq_of_== t.pk k mine) ∙ h in
            let still : not (is_incomplete t.state) ≡ false = ground arith in
            rw miss (ground (arith, below, still))
        | inr other ↦ rw miss (ground (arith, below, other))
      ]
    ]

-- Where the worker's list has each key once, a task is ignored after the cleanup exactly where it was
-- ignored before and the table has no row of it that is over.
pub cleanup_ignored_tasks-contains :
    (w : Worker) (db : Db) (k : ℕ)
    → HasOnce w.ignored_task_ids
    → contains (cleanup_ignored_tasks w db).ignored_task_ids k ≡ (
        contains w.ignored_task_ids k
        && not (any (λ t. t.pk == k && not (is_incomplete t.state)) db.tasks))
unfolding cleanup_ignored_tasks
cleanup_ignored_tasks-contains w db k h =
    let ids = w.ignored_task_ids in
    let loop = contains-remove_each (map (λ t. t.pk) (filter (is_over ids) db.tasks)) k ids h in
    elim (Bool-cases (contains ids k)) [
      | inl known ↦ loop ∙ ap (λ b. contains ids k && not b) (contains-over ids k db.tasks known)
      | inr unknown ↦
          loop
          ∙ ap (λ b. b && not (contains (map (λ t. t.pk) (filter (is_over ids) db.tasks)) k))
              unknown
          ∙ sym (
              ap (λ b. b && not (any (λ t. t.pk == k && not (is_incomplete t.state)) db.tasks))
                unknown)
    ]
