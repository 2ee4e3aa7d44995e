-- ===== src/Tasking/Unblock/Changes.antt =====
-- How changes of a queue keep it exclusive: a task more, a task less, another task in its place.
use pulpcore.Prelude.{String, ◌≡◌, sym, subst, List, [], ◌∷◌, ◌++◌, arith, All}
use pulpcore.Tasking.Task.{Task, Env}
use pulpcore.Tasking.Resources.{reserved, exclusive_of, shared_of, Conflict}
use pulpcore.Tasking.Unblock.Exclusion.{IsActive, FreeOf, IsExclusive, RunningUnblocked, marks}

-- The resources of the tasks of a list, put on those above it.
abbrev pub push : List (List String) → List Task → List (List String)
push above [] = above
push above (t ∷ ts) = push (reserved t ∷ above) ts

pub IsExclusive-snoc :
    (above : List (List String)) (ts : List Task) (t : Task)
    → IsExclusive above ts
    → (IsActive t → FreeOf (push above ts) (reserved t))
    → IsExclusive above (ts ++ t ∷ [])
IsExclusive-snoc above [] t x free = (free, tt)
IsExclusive-snoc above (s ∷ ts) t x free =
    (x.0, IsExclusive-snoc (reserved s ∷ above) ts t x.1 free)

pub FreeOf-push :
    (above : List (List String)) (ts : List Task) (names : List String)
    → FreeOf above names
    → All (λ p. ¬ Conflict (reserved p) names) ts
    → FreeOf (push above ts) names
FreeOf-push above [] names f h = f
FreeOf-push above (t ∷ ts) names f h = FreeOf-push (reserved t ∷ above) ts names (h.0, f) h.1

pub IsExclusive-weaken :
    (wide above : List (List String))
    → ((names : List String) → FreeOf wide names → FreeOf above names)
    → (ts : List Task) → IsExclusive wide ts
    → IsExclusive above ts
IsExclusive-weaken wide above f [] x = tt
IsExclusive-weaken wide above f (t ∷ ts) x = (
  λ active. f (reserved t) (x.0 active),
  IsExclusive-weaken (reserved t ∷ wide) (reserved t ∷ above) (λ names h. (h.0, f names h.1)) ts
      x.1,
)

pub IsExclusive-remove :
    (above : List (List String)) (xs : List Task) (t : Task) (ys : List Task)
    → IsExclusive above (xs ++ t ∷ ys)
    → IsExclusive above (xs ++ ys)
IsExclusive-remove above [] t ys x =
    IsExclusive-weaken (reserved t ∷ above) above (λ names h. h.1) ys x.1
IsExclusive-remove above (s ∷ xs) t ys x =
    (x.0, IsExclusive-remove (reserved s ∷ above) xs t ys x.1)

pub IsExclusive-replace :
    (above : List (List String)) (xs : List Task) (t s : Task) (ys : List Task)
    → reserved s ≡ reserved t
    → (IsActive s → IsActive t)
    → IsExclusive above (xs ++ t ∷ ys)
    → IsExclusive above (xs ++ s ∷ ys)
IsExclusive-replace above [] t s ys e a x = (
  λ active. subst (FreeOf above) (sym e) (x.0 (a active)),
  subst (λ names. IsExclusive (names ∷ above) ys) (sym e) x.1,
)
IsExclusive-replace above (r ∷ xs) t s ys e a x =
    (x.0, IsExclusive-replace (reserved r ∷ above) xs t s ys e a x.1)

-- A task becomes active that conflicts with none above it.
pub IsExclusive-activate :
    (above : List (List String)) (xs : List Task) (t s : Task) (ys : List Task)
    → reserved s ≡ reserved t
    → (IsActive s → FreeOf (push above xs) (reserved s))
    → IsExclusive above (xs ++ t ∷ ys)
    → IsExclusive above (xs ++ s ∷ ys)
IsExclusive-activate above [] t s ys e f x =
    (f, subst (λ names. IsExclusive (names ∷ above) ys) (sym e) x.1)
IsExclusive-activate above (r ∷ xs) t s ys e f x =
    (x.0, IsExclusive-activate (reserved r ∷ above) xs t s ys e f x.1)

module _ (P : Task → Type 0) where
  pub All-snoc : (ts : List Task) (t : Task) → All P ts → P t → All P (ts ++ t ∷ [])
  All-snoc [] t h p = (p, tt)
  All-snoc (s ∷ ts) t h p = (h.0, All-snoc ts t h.1 p)

  pub All-middle : (xs : List Task) (t : Task) (ys : List Task) → All P (xs ++ t ∷ ys) → P t
  All-middle [] t ys h = h.0
  All-middle (s ∷ xs) t ys h = All-middle xs t ys h.1

  pub All-remove :
      (xs : List Task) (t : Task) (ys : List Task) → All P (xs ++ t ∷ ys) → All P (xs ++ ys)
  All-remove [] t ys h = h.1
  All-remove (s ∷ xs) t ys h = (h.0, All-remove xs t ys h.1)

  pub All-replace :
      (xs : List Task) (t s : Task) (ys : List Task)
      → (P t → P s)
      → All P (xs ++ t ∷ ys)
      → All P (xs ++ s ∷ ys)
  All-replace [] t s ys f h = (f h.0, h.1)
  All-replace (r ∷ xs) t s ys f h = (h.0, All-replace xs t s ys f h.1)

pub RunningUnblocked-marks :
    (env : Env) (exclusive shared : List String) (ts : List Task)
    → RunningUnblocked ts
    → RunningUnblocked (marks env exclusive shared ts)
unfolding marks
RunningUnblocked-marks env exclusive shared [] h = tt
RunningUnblocked-marks env exclusive shared (t ∷ ts) h = (
  λ e. ground (arith, h.0),
  RunningUnblocked-marks env (exclusive ++ exclusive_of (reserved t))
      (shared ++ shared_of (reserved t)) ts h.1,
)

pub FreeOf-pushed :
    (above : List (List String)) (ts : List Task) (names : List String)
    → FreeOf (push above ts) names
    → FreeOf above names
FreeOf-pushed above [] names f = f
FreeOf-pushed above (t ∷ ts) names f = (FreeOf-pushed (reserved t ∷ above) ts names f).1

pub IsExclusive-split :
    (above : List (List String)) (xs ys : List Task)
    → IsExclusive above (xs ++ ys)
    → IsExclusive (push above xs) ys
IsExclusive-split above [] ys x = x
IsExclusive-split above (t ∷ xs) ys x = IsExclusive-split (reserved t ∷ above) xs ys x.1
