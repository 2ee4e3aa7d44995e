-- ===== src/Prelude/Rows.antt =====
-- The database as the models use it: a table is the list of its rows, and a queryset's
-- `filter(...)` followed by `update`, `delete`, `count` or `exists` acts on the rows that pass
-- the test. `update` and `count` return numbers of rows.
use Prim.Native.Nat.{ℕ, ◌≤◌}
use mathlib.Core.Path.{◌≡◌, refl}
use mathlib.Core.Logic.{inl, inr}
use mathlib.Core.Bool.{Bool, true, false, not}
use mathlib.Core.List.{List, [], ◌∷◌, map}
use mathlib.Core.Option.{Option, none, some}
use native.Mathlib.Omega.{arith}
use pulpcore.Prelude.Tests.{if◌then◌else◌, Bool-cases}
use pulpcore.Prelude.Lists.{length, filter, All, All₂, All₂-map, In}

module _ {ℓ} {A : Type ℓ} where
  -- The rows after `filter(p).update(f)`.
  abbrev pub update_where : (A → Bool) → (A → A) → List A → List A
  update_where p f rows = map (λ r. if p r then f r else r) rows

  -- The rows after `filter(p).delete()`.
  abbrev pub delete_where : (A → Bool) → List A → List A
  delete_where p rows = filter (λ r. not (p r)) rows

  -- `filter(p).count()`, which is also what `filter(p).update(...)` returns.
  abbrev pub count_where : (A → Bool) → List A → ℕ
  count_where p rows = length (filter p rows)

  -- `filter(p)[0]`, or `none` where the program gets an `IndexError` or a `DoesNotExist`.
  abbrev pub first_where : (A → Bool) → List A → Option A
  first_where p [] = none
  first_where p (r ∷ rows) = if p r then some r else first_where p rows

  pub first_where-some :
      (p : A → Bool) (rows : List A) (r : A) → first_where p rows ≡ some r → p r ≡ true
  first_where-some p [] r h = cc
  first_where-some p (x ∷ rows) r h = ground (arith, first_where-some p rows r)

module _ {A : Type 0} where
  pub In-first_where :
      (p : A → Bool) (rows : List A) (r : A) → first_where p rows ≡ some r → In r rows
  In-first_where p [] r h = cc
  In-first_where p (x ∷ rows) r h = ground (arith, In-first_where p rows r)

  pub first_where-none :
      (p : A → Bool) (rows : List A) (r : A) → first_where p rows ≡ none → In r rows → p r ≡ false
  first_where-none p [] r h m = absurd m
  first_where-none p (x ∷ rows) r h (inl e) = ground arith
  first_where-none p (x ∷ rows) r h (inr m) = ground (arith, first_where-none p rows r)

  -- An update relates each row to its new version, at the same place.
  pub All₂-update_where :
      (R : A → A → Type 0) (p : A → Bool) (f : A → A)
      → ((r : A) → R r r)
      → ((r : A) → p r ≡ true → R r (f r))
      → (rows : List A) → All₂ R rows (update_where p f rows)
  All₂-update_where R p f same change =
      All₂-map R (λ r. if p r then f r else r)
        λ r. elim (Bool-cases (p r)) [
          | inl hit ↦ rw hit (change r hit)
          | inr miss ↦ rw miss (same r)
        ]

  pub All-update_where :
      (P : A → Type 0) (p : A → Bool) (f : A → A)
      → ((r : A) → p r ≡ true → P r → P (f r))
      → (rows : List A) → All P rows
      → All P (update_where p f rows)
  All-update_where P p f change [] h = tt
  All-update_where P p f change (r ∷ rows) h =
      let rest = All-update_where P p f change rows h.1 in
      elim (Bool-cases (p r)) [
        | inl hit ↦ rw hit (change r hit h.0, rest)
        | inr miss ↦ rw miss (h.0, rest)
      ]

  -- Where no row passes the test an update changes nothing.
  pub update_where-none :
      (p : A → Bool) (f : A → A) (rows : List A)
      → count_where p rows ≡ 0
      → update_where p f rows ≡ rows
  update_where-none p f [] h = refl
  update_where-none p f (r ∷ rows) h = ground (arith, update_where-none p f rows)

  pub count_where-le-In :
      (p : A → Bool) (rows : List A) (r : A) → In r rows → p r ≡ true → 1 ≤ count_where p rows
  count_where-le-In p [] r m h = absurd m
  count_where-le-In p (x ∷ rows) r (inl e) h = rw (← e, h) (omega arith)
  count_where-le-In p (x ∷ rows) r (inr m) h = ground (arith, count_where-le-In p rows r m h)
