-- ===== src/Tasking/Unblock/Exclusion.antt =====
-- The unblocking pass never lets two tasks that conflict be unblocked at once.
use pulpcore.Prelude.{
  In-map, map-In, String, ◌≡◌, refl, sym, subst, ◌∙◌, ◌≢◌, ◌⊎◌, inl, inr, true, false, not, ◌&&◌,
  ◌||◌, none, some, List, [], ◌∷◌, ◌++◌, any, contains, arith, eq_string, if◌then◌else◌, filter,
  eq_nat, In, In-any, In-contains, contains-In, In-append_left, In-append_right, Bool-cases, All,
  false_or, In-filter, filter-In,
}
use pulpcore.Tasking.Task.{
  Task, Db, Env, Outcome, returned, runtime_error, does_not_exist, attribute_error, assertion_error,
  waiting, running, unblock, eq_state,
}
use pulpcore.Tasking.Resources.{reserved, exclusive_of, shared_of, is_shared, strip, Uses, Conflict}
use pulpcore.Tasking.Unblock.{
  is_free, is_to_unblock, visit, go_on, unblock_loop, incomplete_tasks, unblock_tasks,
}

-- A task that a worker may be running, or may take up at once.
pub record IsActive (t : Task) : Type 0 where
  pub unblocked : t.unblocked_at ≢ none
  pub live : (t.state ≡ waiting) ⊎ (t.state ≡ running)

-- `names` is free of conflicts with each list of names that stands above it.
abbrev pub FreeOf : List (List String) → List String → Type 0
FreeOf [] names = Unit
FreeOf (r ∷ rs) names = (¬ Conflict r names) × FreeOf rs names

-- Every active task of the list is free of conflicts with each task that stands before it,
-- active or not. `above` holds the resources of the tasks before the list.
abbrev pub IsExclusive : List (List String) → List Task → Type 0
IsExclusive above [] = Unit
IsExclusive above (t ∷ ts) =
    (IsActive t → FreeOf above (reserved t)) × IsExclusive (reserved t ∷ above) ts

-- The resources that the loop has recorded for the tasks above.
abbrev taken_exclusive : List (List String) → List String
taken_exclusive [] = []
taken_exclusive (r ∷ rs) = taken_exclusive rs ++ exclusive_of r

abbrev taken_shared : List (List String) → List String
taken_shared [] = []
taken_shared (r ∷ rs) = taken_shared rs ++ shared_of r

-- Leaving out the shared names that are exclusive as well loses no use.
Uses-kept :
    (names : List String) (x : String)
    → Uses names x
    → In x (exclusive_of names) ⊎ In x (shared_of names)
Uses-kept names x (inl m) = inl m
Uses-kept names x (inr m) =
    let (y, i, e) = map-In strip x (filter is_shared names) m in
    let (j, marked) = In-filter is_shared y names i in
    elim (Bool-cases (contains (exclusive_of names) (strip y))) [
      | inl both ↦ inl (
          subst (λ z. In z (exclusive_of names)) (sym e)
            (contains-In (strip y) (exclusive_of names) both))
      | inr only ↦ inr (
          subst (λ z. In z (shared_of names)) (sym e)
            (In-map strip y _ (
              filter-In
                (λ resource.
                  is_shared resource && not (contains (exclusive_of names) (strip resource)))
                y names j (rw (marked, only) refl))))
    ]

free_parts :
    (exclusive shared : List String) (t : Task)
    → is_free exclusive shared t ≡ true
    → (any
          (λ resource. contains exclusive resource || contains shared resource)
          (exclusive_of (reserved t))
        ≡ false)
      × (any (λ resource. contains exclusive resource) (shared_of (reserved t)) ≡ false)
free_parts exclusive shared t free = ground arith

-- What the guards of the loop establish for a task `r` whose resources are among the taken ones.
module _ (exclusive shared : List String) (r : List String) (t : Task)
    (has_exclusive : (x : String) → In x (exclusive_of r) → In x exclusive)
    (has_shared : (x : String) → In x (shared_of r) → In x shared)
    (free : is_free exclusive shared t ≡ true) where
  blocked_exclusive :
      (x : String)
      → In x (exclusive_of (reserved t))
      → (contains exclusive x || contains shared x) ≡ false
  blocked_exclusive x m = elim (Bool-cases (contains exclusive x || contains shared x)) [
    | inr clear ↦ clear
    | inl hit ↦
        let found =
          In-any (λ resource. contains exclusive resource || contains shared resource) x
            (exclusive_of (reserved t)) m hit in
        cc (found, (free_parts exclusive shared t free).0)
  ]

  blocked_shared : (x : String) → In x (shared_of (reserved t)) → contains exclusive x ≡ false
  blocked_shared x m = elim (Bool-cases (contains exclusive x)) [
    | inr clear ↦ clear
    | inl hit ↦
        let found =
          In-any (λ resource. contains exclusive resource) x (shared_of (reserved t)) m hit in
        cc (found, (free_parts exclusive shared t free).1)
  ]

  free-exclusive : (x : String) → In x (exclusive_of (reserved t)) → Uses r x → ⊥
  free-exclusive x m u =
      let (clear_exclusive, clear_shared) =
        false_or (contains exclusive x) _ (blocked_exclusive x m) in
      elim (Uses-kept r x u) [
        | inl e ↦ cc (In-contains x exclusive (has_exclusive x e), clear_exclusive)
        | inr s ↦ cc (In-contains x shared (has_shared x s), clear_shared)
      ]

  free-shared : (x : String) → Uses (reserved t) x → In x (exclusive_of r) → ⊥
  free-shared x u m =
      let taken = In-contains x exclusive (has_exclusive x m) in
      elim (Uses-kept (reserved t) x u) [
        | inl e ↦ cc (taken, (false_or (contains exclusive x) _ (blocked_exclusive x e)).0)
        | inr s ↦ cc (taken, blocked_shared x s)
      ]

  free-no-Conflict : ¬ Conflict r (reserved t)
  free-no-Conflict (x, inl (m, u)) = free-exclusive x m u
  free-no-Conflict (x, inr (u, m)) = free-shared x u m

free-FreeOf :
    (exclusive shared : List String) (above : List (List String)) (t : Task)
    → ((x : String) → In x (taken_exclusive above) → In x exclusive)
    → ((x : String) → In x (taken_shared above) → In x shared)
    → is_free exclusive shared t ≡ true
    → FreeOf above (reserved t)
free-FreeOf exclusive shared [] t he hs free = tt
free-FreeOf exclusive shared (r ∷ rs) t he hs free = (
  free-no-Conflict exclusive shared r t (λ x m. he x (In-append_right x (taken_exclusive rs) _ m))
      (λ x m. hs x (In-append_right x (taken_shared rs) _ m)) free,
  free-FreeOf exclusive shared rs t (λ x m. he x (In-append_left x _ _ m))
      (λ x m. hs x (In-append_left x _ _ m)) free,
)

-- The objects after a pass that ends normally.
abbrev pub mark : Env → List String → List String → Task → Task
mark env exclusive shared t =
    if is_to_unblock exclusive shared t then record t { unblocked_at = some env.now } else t

-- A running task is unblocked already.
abbrev pub RunningUnblocked : List Task → Type 0
RunningUnblocked = All (λ t. t.state ≡ running → t.unblocked_at ≢ none)

mark-IsActive :
    (env : Env) (exclusive shared : List String) (t : Task)
    → (t.state ≡ running → t.unblocked_at ≢ none)
    → IsActive (mark env exclusive shared t)
    → IsActive t ⊎ (is_free exclusive shared t ≡ true)
mark-IsActive env exclusive shared t h a = elim (Bool-cases (is_free exclusive shared t)) [
  | inl free ↦ inr free
  | inr taken ↦
      inl (record { unblocked = ground (arith, a.unblocked); live = ground (arith, a.live) })
]

mark-reserved :
    (env : Env) (exclusive shared : List String) (t : Task)
    → (reserved (mark env exclusive shared t) ≡ reserved t)
mark-reserved env exclusive shared t = ground arith

unfoldable pub marks : Env → List String → List String → List Task → List Task
marks env exclusive shared [] = []
marks env exclusive shared (t ∷ ts) =
    mark env exclusive shared t
    ∷ marks env (exclusive ++ exclusive_of (reserved t)) (shared ++ shared_of (reserved t)) ts

pub marks-IsExclusive :
    (env : Env) (above : List (List String)) (ts : List Task)
    → RunningUnblocked ts
    → IsExclusive above ts
    → IsExclusive above (marks env (taken_exclusive above) (taken_shared above) ts)
unfolding marks
marks-IsExclusive env above [] h x = tt
marks-IsExclusive env above (t ∷ ts) h x =
    let exclusive = taken_exclusive above in
    let shared = taken_shared above in
    let same = mark-reserved env exclusive shared t in
    let rest = marks-IsExclusive env (reserved t ∷ above) ts h.1 x.1 in
    (
      λ active.
          subst (FreeOf above) (sym same) (elim (mark-IsActive env exclusive shared t h.0 active) [
            | inl before ↦ x.0 before
            | inr free ↦ free-FreeOf exclusive shared above t (λ y m. m) (λ y m. m) free
          ]),
      subst
          (λ names. IsExclusive (names ∷ above) (
            marks env (exclusive ++ exclusive_of (reserved t)) (shared ++ shared_of (reserved t))
              ts))
          (sym same) rest,
    )

unblock-object :
    (env : Env) (t : Task) (db : Db)
    → (unblock env t db).0 ≡ returned
    → (unblock env t db).1 ≡ record t { unblocked_at = some env.now }
unfolding unblock
unblock-object env t db h = ground arith

visit-object :
    (env : Env) (exclusive shared : List String) (t : Task) (db : Db)
    → (visit env exclusive shared t db).0 ≡ returned
    → (visit env exclusive shared t db).1 ≡ mark env exclusive shared t
unfolding visit
visit-object env exclusive shared t db h = elim (Bool-cases (is_to_unblock exclusive shared t)) [
  | inl chosen ↦ rw chosen (unblock-object env t db (rw chosen at h))
  | inr left ↦ rw left refl
]

go_on-returned :
    (o : Outcome) (t : Task) (db : Db) (ts : List Task) (rest : Db → Outcome × List Task × Db)
    → (go_on o t db ts rest).0 ≡ returned
    → (o ≡ returned) × ((rest db).0 ≡ returned) × ((go_on o t db ts rest).1 ≡ t ∷ (rest db).1)
go_on-returned returned t db ts rest h = (refl, h, refl)
go_on-returned runtime_error t db ts rest h = cc
go_on-returned does_not_exist t db ts rest h = cc
go_on-returned attribute_error t db ts rest h = cc
go_on-returned assertion_error t db ts rest h = cc

-- The objects of a loop that ends normally.
pub loop-marks :
    (env : Env) (exclusive shared : List String) (ts : List Task) (db : Db)
    → (unblock_loop env exclusive shared ts db).0 ≡ returned
    → (unblock_loop env exclusive shared ts db).1 ≡ marks env exclusive shared ts
unfolding unblock_loop marks
loop-marks env exclusive shared [] db h = refl
loop-marks env exclusive shared (t ∷ ts) db h =
    let here = visit env exclusive shared t db in
    let next =
      unblock_loop env (exclusive ++ exclusive_of (reserved t)) (shared ++ shared_of (reserved t))
        ts in
    let (visited, rest_ok, objects) = go_on-returned here.0 here.1 here.2 ts next h in
    let tail =
      loop-marks env (exclusive ++ exclusive_of (reserved t)) (shared ++ shared_of (reserved t)) ts
        here.2 rest_ok in
    objects ∙ cc (visit-object env exclusive shared t db visited, tail)

-- Let the tasks of a pass be exclusive, every active one free of conflicts with every task created
-- before it, and let every running one be unblocked. If the pass ends normally then its tasks, as
-- it leaves them, are exclusive again, newly unblocked ones included.
pub unblock_tasks-IsExclusive :
    (env : Env) (db : Db)
    → RunningUnblocked (incomplete_tasks db)
    → IsExclusive [] (incomplete_tasks db)
    → (unblock_tasks env db).0 ≡ returned
    → IsExclusive [] (unblock_tasks env db).1
unfolding unblock_tasks
unblock_tasks-IsExclusive env db h x done =
    rw (loop-marks env [] [] (incomplete_tasks db) db done)
      (marks-IsExclusive env [] (incomplete_tasks db) h x)
