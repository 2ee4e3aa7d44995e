-- ===== src/Prelude/Lists.antt =====
-- Lists measured by native numbers, Boolean filters and quantifiers, membership tests, and
-- predicates by recursion, which the tactics read.
use Prim.Native.Nat.{ℕ, suc, ◌+◌}
use mathlib.Core.Path.{◌≡◌, refl, sym, subst}
use mathlib.Core.Logic.{◌⊎◌, inl, inr}
use mathlib.Core.Bool.{Bool, true, false, ◌&&◌, ◌||◌}
use mathlib.Core.List.{List, [], ◌∷◌, ◌++◌, map}
use native.Mathlib.Omega.{arith}
use pulpcore.Prelude.Tests.{HasEq, ◌==◌, ==-refl, if◌then◌else◌, Bool-cases}

module _ {ℓ} {A : Type ℓ} where
  abbrev pub length : List A → ℕ
  length [] = 0
  length (x ∷ xs) = suc (length xs)

  -- The rows that pass a test, in order: a comprehension `[x for x in xs if p(x)]`.
  abbrev pub filter : (A → Bool) → List A → List A
  filter p [] = []
  filter p (x ∷ xs) = if p x then x ∷ filter p xs else filter p xs

  -- `any(p(x) for x in xs)` and `all(p(x) for x in xs)`.
  abbrev pub any : (A → Bool) → List A → Bool
  any p [] = false
  any p (x ∷ xs) = p x || any p xs

  abbrev pub all : (A → Bool) → List A → Bool
  all p [] = true
  all p (x ∷ xs) = p x && all p xs

  abbrev pub All {κ} : (A → Type κ) → List A → Type κ
  All P [] = Unit
  All P (x ∷ xs) = P x × All P xs

  pub any-append : (p : A → Bool) (xs ys : List A) → any p (xs ++ ys) ≡ (any p xs || any p ys)
  any-append p [] ys = refl
  any-append p (x ∷ xs) ys = ground (arith, any-append p xs ys)

  pub any-none : (p : A → Bool) → ((x : A) → p x ≡ false) → (xs : List A) → any p xs ≡ false
  any-none p h [] = refl
  any-none p h (x ∷ xs) = rw (h x, any-none p h xs) refl

  pub length-append : (xs ys : List A) → length (xs ++ ys) ≡ length xs + length ys
  length-append [] ys = omega arith
  length-append (x ∷ xs) ys = omega (arith, length-append xs ys)

-- `a in xs` of the program.
module _ {ℓ} {A : Type ℓ} ⦃e : HasEq A⦄ where
  abbrev pub contains : List A → A → Bool
  contains xs a = any (λ x. a == x) xs

-- `a` stands in the list; the place is kept, so that proofs can compute with it.
abbrev pub In : {A : Type 0} → A → List A → Type 0
In a [] = ⊥
In a (x ∷ xs) = (a ≡ x) ⊎ In a xs

-- Two lists of one length, related place by place.
abbrev pub All₂ : {A : Type 0} → (A → A → Type 0) → List A → List A → Type 0
All₂ R [] [] = Unit
All₂ R (x ∷ xs) (y ∷ ys) = R x y × All₂ R xs ys
All₂ R _ _ = ⊥

module _ {A : Type 0} where
  pub All₂-map :
      (R : A → A → Type 0) (f : A → A)
      → ((x : A) → R x (f x))
      → (xs : List A) → All₂ R xs (map f xs)
  All₂-map R f h [] = tt
  All₂-map R f h (x ∷ xs) = (h x, All₂-map R f h xs)

  pub All₂-refl : (R : A → A → Type 0) → ((x : A) → R x x) → (xs : List A) → All₂ R xs xs
  All₂-refl R h [] = tt
  All₂-refl R h (x ∷ xs) = (h x, All₂-refl R h xs)

  pub All₂-trans :
      (R : A → A → Type 0)
      → ((x y z : A) → R x y → R y z → R x z)
      → (xs ys zs : List A) → All₂ R xs ys
      → All₂ R ys zs
      → All₂ R xs zs
  All₂-trans R h [] [] [] p q = tt
  All₂-trans R h (x ∷ xs) (y ∷ ys) (z ∷ zs) p q = (h x y z p.0 q.0, All₂-trans R h xs ys zs p.1 q.1)
  All₂-trans R h [] [] (z ∷ zs) p q = absurd q
  All₂-trans R h [] (y ∷ ys) zs p q = absurd p
  All₂-trans R h (x ∷ xs) [] zs p q = absurd p
  All₂-trans R h (x ∷ xs) (y ∷ ys) [] p q = absurd q

  pub All₂-imp :
      (R S : A → A → Type 0)
      → ((x y : A) → R x y → S x y)
      → (xs ys : List A) → All₂ R xs ys
      → All₂ S xs ys
  All₂-imp R S h [] [] r = tt
  All₂-imp R S h (x ∷ xs) (y ∷ ys) r = (h x y r.0, All₂-imp R S h xs ys r.1)
  All₂-imp R S h [] (y ∷ ys) r = r
  All₂-imp R S h (x ∷ xs) [] r = r

  pub All-All₂ :
      (R : A → A → Type 0) (P : A → Type 0)
      → ((x y : A) → R x y → P x → P y)
      → (xs ys : List A) → All₂ R xs ys
      → All P xs
      → All P ys
  All-All₂ R P h [] [] r p = tt
  All-All₂ R P h (x ∷ xs) (y ∷ ys) r p = (h x y r.0 p.0, All-All₂ R P h xs ys r.1 p.1)
  All-All₂ R P h [] (y ∷ ys) r p = absurd r
  All-All₂ R P h (x ∷ xs) [] r p = absurd r

  pub In-any : (p : A → Bool) (a : A) (xs : List A) → In a xs → p a ≡ true → any p xs ≡ true
  In-any p a [] m h = absurd m
  In-any p a (x ∷ xs) (inl e) h = rw (← e, h)
  In-any p a (x ∷ xs) (inr m) h = ground (arith, In-any p a xs m h)

  pub any-In : (p : A → Bool) (xs : List A) → any p xs ≡ true → (a : A) × In a xs × (p a ≡ true)
  any-In p [] h = cc
  any-In p (x ∷ xs) h = elim (Bool-cases (p x)) [
    | inl yes_x ↦ (x, inl refl, yes_x)
    | inr no_x ↦ let (a, m, t) = any-In p xs (rw no_x at h) in (a, inr m, t)
  ]

  pub In-append_left : (a : A) (xs ys : List A) → In a xs → In a (xs ++ ys)
  In-append_left a [] ys m = absurd m
  In-append_left a (x ∷ xs) ys (inl e) = inl e
  In-append_left a (x ∷ xs) ys (inr m) = inr (In-append_left a xs ys m)

  pub In-append_right : (a : A) (xs ys : List A) → In a ys → In a (xs ++ ys)
  In-append_right a [] ys m = m
  In-append_right a (x ∷ xs) ys m = inr (In-append_right a xs ys m)

  pub In-append : (a : A) (xs ys : List A) → In a (xs ++ ys) → In a xs ⊎ In a ys
  In-append a [] ys m = inr m
  In-append a (x ∷ xs) ys (inl e) = inl (inl e)
  In-append a (x ∷ xs) ys (inr m) = elim (In-append a xs ys m) [
    | inl l ↦ inl (inr l)
    | inr r ↦ inr r
  ]

  pub In-filter : (p : A → Bool) (a : A) (xs : List A) → In a (filter p xs) → In a xs × (p a ≡ true)
  In-filter p a [] m = absurd m
  In-filter p a (x ∷ xs) m = elim (Bool-cases (p x)) [
    | inl keep ↦ kept keep (In-filter p a xs) (rw keep at m)
    | inr drop ↦ let (i, t) = In-filter p a xs (rw drop at m) in (inr i, t)
  ]
    where
      kept :
          p x ≡ true
          → (In a (filter p xs) → In a xs × (p a ≡ true))
          → (a ≡ x) ⊎ In a (filter p xs)
          → In a (x ∷ xs) × (p a ≡ true)
      kept keep below (inl e) = (inl e, rw (e, keep))
      kept keep below (inr i) = let (m', t) = below i in (inr m', t)

  pub filter-In : (p : A → Bool) (a : A) (xs : List A) → In a xs → p a ≡ true → In a (filter p xs)
  filter-In p a [] m h = absurd m
  filter-In p a (x ∷ xs) (inl e) h = rw (← e, h) (inl refl)
  filter-In p a (x ∷ xs) (inr m) h = elim (Bool-cases (p x)) [
    | inl keep ↦ rw keep (inr (filter-In p a xs m h))
    | inr drop ↦ rw drop (filter-In p a xs m h)
  ]

module _ {A : Type 0} where
  pub All-In : (P : A → Type 0) (xs : List A) → All P xs → (a : A) → In a xs → P a
  All-In P [] h a m = absurd m
  All-In P (x ∷ xs) h a (inl e) = subst P (sym e) h.0
  All-In P (x ∷ xs) h a (inr m) = All-In P xs h.1 a m

  pub In-All : (P : A → Type 0) (xs : List A) → ((a : A) → In a xs → P a) → All P xs
  In-All P [] h = tt
  In-All P (x ∷ xs) h = (h x (inl refl), In-All P xs (λ a m. h a (inr m)))

  pub All-filter : (P : A → Type 0) (p : A → Bool) (xs : List A) → All P xs → All P (filter p xs)
  All-filter P p [] h = tt
  All-filter P p (x ∷ xs) h = elim (Bool-cases (p x)) [
    | inl keep ↦ rw keep (h.0, All-filter P p xs h.1)
    | inr drop ↦ rw drop (All-filter P p xs h.1)
  ]

  pub All-append : (P : A → Type 0) (xs ys : List A) → All P xs → All P ys → All P (xs ++ ys)
  All-append P [] ys h k = k
  All-append P (x ∷ xs) ys h k = (h.0, All-append P xs ys h.1 k)

module _ {A B : Type 0} (f : A → B) where
  pub All-map : (P : B → Type 0) → ((x : A) → P (f x)) → (xs : List A) → All P (map f xs)
  All-map P h [] = tt
  All-map P h (x ∷ xs) = (h x, All-map P h xs)

  pub In-map : (x : A) (xs : List A) → In x xs → In (f x) (map f xs)
  In-map x [] m = m
  In-map x (y ∷ ys) (inl e) = inl (cc)
  In-map x (y ∷ ys) (inr m) = inr (In-map x ys m)

  pub map-In : (b : B) (xs : List A) → In b (map f xs) → (x : A) × In x xs × (b ≡ f x)
  map-In b [] m = absurd m
  map-In b (x ∷ xs) (inl e) = (x, inl refl, e)
  map-In b (x ∷ xs) (inr m) = let (z, i, e) = map-In b xs m in (z, inr i, e)

module _ {A : Type 0} ⦃e : HasEq A⦄ where
  pub In-contains : (a : A) (xs : List A) → In a xs → contains xs a ≡ true
  In-contains a xs m = In-any (λ x. a == x) a xs m (==-refl a)

  pub contains-In : (a : A) (xs : List A) → contains xs a ≡ true → In a xs
  contains-In a xs h =
      let (b, m, t) = any-In (λ x. a == x) xs h in
      subst (λ c. In c xs) (sym ((e.same_iff a b).0 t)) m
