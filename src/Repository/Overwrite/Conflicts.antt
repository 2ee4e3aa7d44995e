-- ===== src/Repository/Overwrite/Conflicts.antt =====
-- When the check passes.
use pulpcore.Prelude.{
  ℕ, zero, suc, ◌+◌, ◌-◌, ◌≤◌, ◌<◌, leb, ltb, false, if◌then◌else◌, String, ◌≡◌, ◌↔◌, refl, sym, ap,
  ◌∙◌, true, some, List, [], ◌∷◌, ◌++◌, map, contains, length, ◌==◌, eq_nat, eq_of_==, ==-refl, All,
  All-In, In-All, In, In-map, In-contains, filter-In, In-filter, arith, Bool-cases, Option-cases,
  inl, inr, All-append, subst,
}
use pulpcore.Repository.Duplicates.{ContentRow, ContentType, keyset_value, eq_texts}
use pulpcore.Repository.Duplicates.Validate.{IsDistinct}
use pulpcore.Repository.Overwrite.{
  first, after, slice, batches, existing_by_key, find_dup, conflict_map,
}

module _ {A : Type 0} where
  pub first-after : (n : ℕ) (xs : List A) → first n xs ++ after n xs ≡ xs
  first-after zero xs = refl
  first-after (suc n) [] = refl
  first-after (suc n) (x ∷ xs) = ap (λ ys. x ∷ ys) (first-after n xs)

  length-after : (n : ℕ) (xs : List A) → length (after n xs) ≡ length xs - n
  length-after zero xs = omega arith
  length-after (suc n) [] = omega arith
  length-after (suc n) (x ∷ xs) = omega (arith, length-after n xs)

  after-all : (n : ℕ) (xs : List A) → length xs ≤ n → after n xs ≡ []
  after-all zero [] h = refl
  after-all zero (x ∷ xs) h = let bad : ⊥ = omega arith in absurd bad
  after-all (suc n) [] h = refl
  after-all (suc n) (x ∷ xs) h = after-all n xs (omega arith)

  first-all : (n : ℕ) (xs : List A) → length xs ≤ n → first n xs ≡ xs
  first-all zero [] h = refl
  first-all zero (x ∷ xs) h = let bad : ⊥ = omega arith in absurd bad
  first-all (suc n) [] h = refl
  first-all (suc n) (x ∷ xs) h = ap (λ ys. x ∷ ys) (first-all n xs (omega arith))

  after-nil : (n : ℕ) → ◌≡◌ {A = List A} (after n []) []
  after-nil zero = refl
  after-nil (suc n) = refl

  after-after : (m n k : ℕ) (xs : List A) → k ≡ m + n → after k xs ≡ after n (after m xs)
  after-after zero n k xs e = let same : k ≡ n = omega arith in ap (λ j. after j xs) same
  after-after (suc m) n zero xs e = let bad : ⊥ = omega arith in absurd bad
  after-after (suc m) n (suc k) [] e = sym (after-nil n)
  after-after (suc m) n (suc k) (x ∷ xs) e = after-after m n k xs (omega arith)

  -- The last slice ends with the query.
  slice-first :
      (start size total : ℕ) (xs : List A)
      → total ≡ length xs
      → start ≤ total
      → slice start (if leb (start + size) total then start + size else total) xs
        ≡ first size (after start xs)
  slice-first start size total xs e h = elim (Bool-cases (leb (start + size) total)) [
    | inl full ↦
        let same : (start + size) - start ≡ size = omega arith in
        rw full (ap (λ k. first k (after start xs)) same)
    | inr last ↦
        let fits : length (after start xs) ≤ total - start = omega (arith, length-after start xs) in
        let less : total < start + size = ground arith in
        let fits' : length (after start xs) ≤ size = omega (arith, length-after start xs) in
        rw last (
          first-all (total - start) (after start xs) fits
          ∙ sym (first-all size (after start xs) fits'))
  ]

  All-split : (P : A → Type 0) (xs ys : List A) → All P (xs ++ ys) → All P xs × All P ys
  All-split P [] ys h = (tt, h)
  All-split P (x ∷ xs) ys (h, hs) = let (a, b) = All-split P xs ys hs in ((h, a), b)

  -- In a query that all batches read in the same order, each row from `start` on stands in one of
  -- the batches, and nothing else does.
  pub All-batches :
      (P : A → Type 0) (n fuel total start : ℕ) (xs : List A)
      → total ≡ length xs
      → total ≤ fuel + start
      → All (All P) (batches fuel (suc n) total start (λ _. xs)) ↔ All P (after start xs)
  All-batches P n zero total start xs e h = rw (after-all start xs (omega arith)) (λ _. tt, λ _. tt)
  All-batches P n (suc fuel) total start xs e h = elim (Bool-cases (ltb start total)) [
    | inr done ↦
        let all : length xs ≤ start = ground arith in
        rw (done, after-all start xs all) (λ _. tt, λ _. tt)
    | inl more ↦
        let ys = after start xs in
        let begun : start ≤ total = ground arith in
        let (to, back) = All-batches P n fuel total (start + suc n) xs e (omega arith) in
        let next = after-after start (suc n) (start + suc n) xs refl in
        let whole = first-after (suc n) ys in
        rw (more, slice-first start (suc n) total xs e begun)
          (
            λ (a, rest). subst (All P) whole (
                All-append P (first (suc n) ys) (after (suc n) ys) a
                  (subst (All P) next (to rest))),
            λ a.
                let (b, c) =
                  All-split P (first (suc n) ys) (after (suc n) ys) (subst (All P) (sym whole) a) in
                (b, back (subst (All P) (sym next) c)),
          )
  ]

  -- Where one batch is enough, only its own query counts.
  pub batches-one :
      (fuel size total : ℕ) (answer : ℕ → List A)
      → total ≤ size
      → batches fuel size total 0 answer ≡ batches fuel size total 0 (λ _. answer 0)
  batches-one zero size total answer h = refl
  batches-one (suc fuel) size total answer h =
      rw (no_more fuel answer, no_more fuel (λ _. answer 0)) refl
    where
      no_more : (fuel : ℕ) (answer : ℕ → List A) → batches fuel size total (0 + size) answer ≡ []
      no_more zero answer = refl
      no_more (suc fuel) answer =
          let done : ltb (0 + size) total ≡ false = ground arith in rw done refl

module _ (t : ContentType) where
  abbrev key : ContentRow → List String
  key = keyset_value t

  by_key-some :
      (k : List String) (rows : List ContentRow) (pk : ℕ)
      → existing_by_key t k rows ≡ some pk
      → (x : ContentRow) × In x rows × (key x ≡ k) × (x.pk ≡ pk)
  by_key-some k [] pk h = cc
  by_key-some k (c ∷ rows) pk h = elim (Option-cases (existing_by_key t k rows)) [
    | inr (q, later) ↦
        let (x, m, e, f) = by_key-some k rows q later in
        let same : q ≡ pk = cc (rw later at h) in (x, inr m, e, f ∙ same)
    | inl none_later ↦ elim (Bool-cases (key c == k)) [
      | inl here ↦
          let same : c.pk ≡ pk = cc (rw (none_later, here) at h) in
          (c, inl refl, eq_of_== (key c) k here, same)
      | inr other ↦ let bad = rw (none_later, other) at h in cc bad
    ]
  ]

  by_key-In :
      (k : List String) (rows : List ContentRow) (x : ContentRow)
      → In x rows
      → key x ≡ k
      → (pk : ℕ) × (existing_by_key t k rows ≡ some pk)
  by_key-In k [] x m e = absurd m
  by_key-In k (c ∷ rows) x m e = elim (Option-cases (existing_by_key t k rows)) [
    | inr (q, later) ↦ (q, rw later refl)
    | inl none_later ↦ elim m [
      | inl here ↦
          let same : (key c == k) ≡ true = rw (← e, here) (==-refl (key c)) in
          (c.pk, rw (none_later, same) refl)
      | inr there ↦
          let (q, h) = by_key-In k rows x there e in let bad = sym none_later ∙ h in cc bad
    ]
  ]

  same_key :
      (rows : List ContentRow) (x y : ContentRow)
      → IsDistinct (map key rows)
      → In x rows
      → In y rows
      → key x ≡ key y
      → x.pk ≡ y.pk
  same_key [] x y d m n e = absurd m
  same_key (c ∷ rows) x y (d, ds) (inl a) (inl b) e = cc
  same_key (c ∷ rows) x y (d, ds) (inl a) (inr n) e =
      let twice = In-contains (key y) (map key rows) (In-map key y rows n) in
      let again : contains (map key rows) (key c) ≡ true =
        subst (λ k. contains (map key rows) k ≡ true) (sym e ∙ ap key a) twice in
      let bad = sym d ∙ again in cc bad
  same_key (c ∷ rows) x y (d, ds) (inr m) (inl b) e =
      let twice = In-contains (key x) (map key rows) (In-map key x rows m) in
      let again : contains (map key rows) (key c) ≡ true =
        subst (λ k. contains (map key rows) k ≡ true) (e ∙ ap key b) twice in
      let bad = sym d ∙ again in cc bad
  same_key (c ∷ rows) x y (d, ds) (inr m) (inr n) e = same_key rows x y ds m n e

  -- The unit has no other unit with its key fields among the rows.
  abbrev pub IsAlone : List ContentRow → ContentRow → Type 0
  IsAlone rows c = All (λ x. key x ≡ key c → x.pk ≡ c.pk) rows

  -- What the dictionary says of one unit of a batch.
  abbrev pub Agrees : List ContentRow → ContentRow → Type 0
  Agrees rows c = (q : ℕ) → existing_by_key t (key c) rows ≡ some q → c.pk ≡ q

  pub conflict_map-Agrees :
      (rows batch : List ContentRow) → conflict_map t rows batch ≡ [] → All (Agrees rows) batch
  conflict_map-Agrees rows [] h = tt
  conflict_map-Agrees rows (c ∷ batch) h = elim (Option-cases (existing_by_key t (key c) rows)) [
    | inl nothing ↦ (
      (λ q e. let bad = sym nothing ∙ e in cc bad),
      conflict_map-Agrees rows batch (rw nothing at h),
    )
    | inr (q, there) ↦ elim (Bool-cases (c.pk == q)) [
      | inl same ↦ (
        (λ r e. let f : q ≡ r = cc (sym there ∙ e) in eq_of_== c.pk q same ∙ f),
        conflict_map-Agrees rows batch (rw (there, same) at h),
      )
      | inr other ↦ let bad = rw (there, other) at h in cc bad
    ]
  ]

  pub Agrees-conflict_map :
      (rows batch : List ContentRow) → All (Agrees rows) batch → conflict_map t rows batch ≡ []
  Agrees-conflict_map rows [] h = refl
  Agrees-conflict_map rows (c ∷ batch) (h, hs) =
      elim (Option-cases (existing_by_key t (key c) rows)) [
        | inl nothing ↦ rw nothing (Agrees-conflict_map rows batch hs)
        | inr (q, there) ↦
            let same : (c.pk == q) ≡ true = rw (← (h q there)) (==-refl c.pk) in
            rw (there, same) (Agrees-conflict_map rows batch hs)
      ]

  module _ (existing batch : List ContentRow) where
    pub Agrees-IsAlone :
        IsDistinct (map key existing)
        → (c : ContentRow) → In c batch
        → Agrees (find_dup t batch existing) c
        → IsAlone existing c
    Agrees-IsAlone d c m h =
        In-All (λ x. key x ≡ key c → x.pk ≡ c.pk) existing
          λ x i e.
            let dup : contains (map key batch) (key x) ≡ true =
              subst (λ k. contains (map key batch) k ≡ true) (sym e)
                (In-contains (key c) (map key batch) (In-map key c batch m)) in
            let at = filter-In (λ y. contains (map key batch) (key y)) x existing i dup in
            let (q, there) = by_key-In (key c) (find_dup t batch existing) x at e in
            let (y, j, f, g) = by_key-some (key c) (find_dup t batch existing) q there in
            let (j', _) = In-filter (λ z. contains (map key batch) (key z)) y existing j in
            same_key existing x y d i j' (e ∙ sym f) ∙ g ∙ sym (h q there)

    pub IsAlone-Agrees :
        (c : ContentRow) → IsAlone existing c → Agrees (find_dup t batch existing) c
    IsAlone-Agrees c alone q there =
        let (y, j, f, g) = by_key-some (key c) (find_dup t batch existing) q there in
        let (j', _) = In-filter (λ z. contains (map key batch) (key z)) y existing j in
        sym (All-In (λ x. key x ≡ key c → x.pk ≡ c.pk) existing alone y j' f) ∙ g
