-- ===== src/Tasking/RedisWorker/Taken.antt =====
-- What the names that a worker has passed over leave of the query of `fetch_task`,
-- pulpcore/tasking/redis_worker.py.
use pulpcore.Prelude.{
  ℕ, zero, suc, ◌≤◌, ◌<◌, String, ◌≡◌, sym, ap, ◌∙◌, subst, Bool, true, false, not, List, [], ◌∷◌,
  ◌++◌, map, contains, eq_nat, eq_string, count_where, arith, Bool-cases, inl, inr, In, In-filter,
  In-append, In-append_left, In-append_right, In-any, any-In, In-map, map-In, In-contains,
}
use pulpcore.Tasking.Task.{Task, eq_state}
use pulpcore.Tasking.Resources.{reserved, exclusive_of, shared_name, overlaps, is_shared}
use pulpcore.Tasking.RedisWorker.{Worker, blocked, is_candidate, take}

-- Membership in one list gives membership in the other.
abbrev pub Subset : List String → List String → Type 0
Subset xs ys = (x : String) → In x xs → In x ys

count-le :
    (p q : Task → Bool)
    → ((t : Task) → p t ≡ true → q t ≡ true)
    → (rows : List Task) → count_where p rows ≤ count_where q rows
count-le p q h [] = omega arith
count-le p q h (r ∷ rows) =
    let below = count-le p q h rows in
    elim (Bool-cases (p r)) [
      | inl hit ↦ let also = h r hit in rw (hit, also) (omega arith)
      | inr miss ↦ ground arith
    ]

-- One row less passes.
pub count-lt :
    (p q : Task → Bool)
    → ((t : Task) → p t ≡ true → q t ≡ true)
    → (rows : List Task) (u : Task) → In u rows
    → q u ≡ true
    → p u ≡ false
    → count_where p rows < count_where q rows
count-lt p q h [] u m a b = absurd m
count-lt p q h (r ∷ rows) u (inl e) a b =
    let below = count-le p q h rows in
    let a' : q r ≡ true = ap q (sym e) ∙ a in
    let b' : p r ≡ false = ap p (sym e) ∙ b in rw (a', b') (omega arith)
count-lt p q h (r ∷ rows) u (inr m) a b =
    let below = count-lt p q h rows u m a b in
    elim (Bool-cases (p r)) [
      | inl hit ↦ let also = h r hit in rw (hit, also) (omega arith)
      | inr miss ↦ ground arith
    ]

pub take-In : (n : ℕ) (w : Task) (xs : List Task) → In w (take n xs) → In w xs
take-In zero w xs m = absurd m
take-In (suc n) w [] m = m
take-In (suc n) w (x ∷ xs) (inl e) = inl e
take-In (suc n) w (x ∷ xs) (inr m) = inr (take-In n w xs m)

overlaps-Subset :
    (xs ys names : List String) → Subset xs ys → overlaps xs names ≡ true → overlaps ys names ≡ true
overlaps-Subset xs ys names sub h =
    let (x, m, t) = any-In (λ r. contains names r) xs h in
    In-any (λ r. contains names r) x ys (sub x m) t

map-Subset : (xs ys : List String) → Subset xs ys → Subset (map shared_name xs) (map shared_name ys)
map-Subset xs ys sub x m =
    let (y, n, e) = map-In shared_name x xs m in
    subst (λ z. In z (map shared_name ys)) (sym e) (In-map shared_name y ys (sub y n))

blocked-Subset :
    (te ts te' ts' : List String)
    → Subset te te'
    → Subset ts ts'
    → Subset (blocked te ts) (blocked te' ts')
blocked-Subset te ts te' ts' a b x m = elim (In-append x ts (te ++ map shared_name te) m) [
  | inl i ↦ In-append_left x ts' (te' ++ map shared_name te') (b x i)
  | inr n ↦
      In-append_right x ts' (te' ++ map shared_name te')
        (elim (In-append x te (map shared_name te) n) [
          | inl i ↦ In-append_left x te' (map shared_name te') (a x i)
          | inr k ↦ In-append_right x te' (map shared_name te') (map-Subset te te' a x k)
        ])
]

-- With more taken, less tasks are left.
pub candidate-Subset :
    (w : Worker) (te ts te' ts' : List String)
    → Subset te te'
    → Subset ts ts'
    → (t : Task) → is_candidate w te' ts' t ≡ true
    → is_candidate w te ts t ≡ true
candidate-Subset w te ts te' ts' a b t h =
    elim (Bool-cases (overlaps (blocked te ts) (reserved t))) [
      | inl over ↦
          let over' =
            overlaps-Subset (blocked te ts) (blocked te' ts') (reserved t)
              (blocked-Subset te ts te' ts' a b) over in
          let bad : ⊥ = ground arith in absurd bad
      | inr free ↦ ground arith
    ]

-- The task reserves something for itself.
abbrev pub Reserves : Task → Type 0
Reserves t = (x : String) × In x (exclusive_of (reserved t))

-- A task whose resources are taken is left no more.
pub taken-candidate :
    (w : Worker) (te ts : List String) (t : Task)
    → Reserves t
    → Subset (exclusive_of (reserved t)) te
    → is_candidate w te ts t ≡ false
taken-candidate w te ts t (x, m) sub =
    let (i, _) = In-filter (λ r. not (is_shared r)) x (reserved t) m in
    let over : overlaps (blocked te ts) (reserved t) ≡ true =
      In-any (λ r. contains (reserved t) r) x (blocked te ts)
        (In-append_right x ts (te ++ map shared_name te)
          (In-append_left x te (map shared_name te) (sub x m)))
        (In-contains x (reserved t) i) in
    ground arith
