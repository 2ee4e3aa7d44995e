-- ===== src/Repository/Retention/Count.antt =====
-- How many versions are left where `cleanup_old_versions` returns.
use pulpcore.Prelude.{
  ℕ, zero, suc, ◌+◌, ◌≤◌, ◌≡◌, refl, sym, ap, ◌∙◌, subst, Bool, true, false, not, ◌&&◌, some, List,
  [], ◌∷◌, ◌++◌, filter, any, contains, leb, ◌==◌, eq_nat, length, count_where, arith, inl, inr,
  Bool-cases, In, In-contains, In-map,
}
use pulpcore.Repository.Version.{Version, Membership}
use pulpcore.Repository.Version.Delete.{delete}
use pulpcore.Repository.Overwrite.{first, after}
use pulpcore.Repository.Overwrite.Conflicts.{first-after}
use pulpcore.Repository.Retention.{
  Publication, Distribution, protected_versions, insert_newest, newest_first, is_cleanable, beyond,
  returned, delete_versions, cleanup_old_versions,
}
use pulpcore.Repository.Retention.Keep.{
  Result-cases, delete-left, delete_versions-ok, delete_versions-err, numbers, if_else,
}

filter-filter :
    (p q r : Version → Bool)
    → ((x : Version) → (p x && q x) ≡ r x)
    → (xs : List Version) → filter q (filter p xs) ≡ filter r xs
filter-filter p q r h [] = refl
filter-filter p q r h (x ∷ xs) =
    let below = filter-filter p q r h xs in
    let here = h x in
    elim (Bool-cases (p x)) [
      | inl yes_ ↦ elim (Bool-cases (q x)) [
        | inl also ↦
            let both : r x ≡ true = sym here ∙ rw (yes_, also) refl in
            rw (yes_, also, both) (ap (λ ys. x ∷ ys) below)
        | inr not_ ↦
            let both : r x ≡ false = sym here ∙ rw (yes_, not_) refl in rw (yes_, not_, both) below
      ]
      | inr not_ ↦ let both : r x ≡ false = sym here ∙ rw not_ refl in rw (not_, both) below
    ]

count-insert :
    (p : Version → Bool) (v : Version) (xs : List Version)
    → count_where p (insert_newest v xs) ≡ count_where p (v ∷ xs)
count-insert p v [] = refl
count-insert p v (x ∷ xs) = elim (Bool-cases (leb x.number v.number)) [
  | inl here ↦ rw here refl
  | inr later ↦ rw later (ground (arith, count-insert p v xs))
]

count-newest_first :
    (p : Version → Bool) (xs : List Version) → count_where p (newest_first xs) ≡ count_where p xs
unfolding newest_first
count-newest_first p [] = refl
count-newest_first p (x ∷ xs) =
    count-insert p x (newest_first xs) ∙ ground (arith, count-newest_first p xs)

count-append :
    (p : Version → Bool) (xs ys : List Version)
    → count_where p (xs ++ ys) ≡ count_where p xs + count_where p ys
count-append p [] ys = omega arith
count-append p (x ∷ xs) ys = ground (arith, count-append p xs ys)

count-first : (p : Version → Bool) (n : ℕ) (xs : List Version) → count_where p (first n xs) ≤ n
count-first p zero xs = omega arith
count-first p (suc n) [] = omega arith
count-first p (suc n) (x ∷ xs) = ground (arith, count-first p n xs)

count-none :
    (p : Version → Bool) (xs : List Version)
    → ((x : Version) → In x xs → p x ≡ false)
    → count_where p xs ≡ 0
count-none p [] h = refl
count-none p (x ∷ xs) h = rw (h x (inl refl)) (count-none p xs (λ y m. h y (inr m)))

module _ (dists : List Distribution) (pubs : List Publication) where
  abbrev spared : List Version → Version → Bool
  spared old w = not (contains (numbers dists pubs old) w.number)

  delete_versions-left :
      (old versions : List Version) (rows : List Membership)
      → (delete_versions dists pubs old versions rows).0 ≡ returned
      → (delete_versions dists pubs old versions rows).1 ≡ filter (spared old) versions
  unfolding delete_versions
  delete_versions-left [] versions rows h = sym (filter_all versions)
    where
      filter_all : (xs : List Version) → filter (spared []) xs ≡ xs
      filter_all [] = refl
      filter_all (x ∷ xs) = ap (λ ys. x ∷ ys) (filter_all xs)
  delete_versions-left (v ∷ old) versions rows h =
      elim (Result-cases (delete (protected_versions dists pubs versions) v versions rows)) [
        | inl (left, rows', e) ↦
            let step = delete_versions-ok dists pubs v old versions rows left rows' e in
            let split =
              delete-left (protected_versions dists pubs versions) v versions rows left rows' e in
            ap (λ x. x.1) step
            ∙ delete_versions-left old left rows' (sym (ap (λ x. x.0) step) ∙ h)
            ∙ ap (filter (spared old)) split
            ∙ filter-filter (λ w. not (w.number == v.number)) (spared old) (spared (v ∷ old))
                (λ w. ground arith) versions
        | inr (fault, e) ↦
            let bad =
              sym (ap (λ x. x.0) (delete_versions-err dists pubs v old versions rows fault e))
              ∙ h in
            cc bad
      ]

  limit-count :
      (n : ℕ) (guarded : List ℕ) (versions : List Version)
      → count_where (is_cleanable guarded) (filter (spared (beyond n guarded versions)) versions)
        ≤ n
  limit-count n guarded versions =
      let old = beyond n guarded versions in
      let sorted_ = newest_first (filter (is_cleanable guarded) versions) in
      let swap : filter (is_cleanable guarded) (filter (spared old) versions)
          ≡ filter (spared old) (filter (is_cleanable guarded) versions) =
        filter-filter (spared old) (is_cleanable guarded)
          (λ w. spared old w && is_cleanable guarded w) (λ w. refl) versions
        ∙ sym (
            filter-filter (is_cleanable guarded) (spared old)
              (λ w. spared old w && is_cleanable guarded w) (λ w. ground arith) versions) in
      let sorted_count = count-newest_first (spared old) (filter (is_cleanable guarded) versions) in
      let parts =
        ap (count_where (spared old)) (sym (first-after n sorted_))
        ∙ count-append (spared old) (first n sorted_) (after n sorted_) in
      let gone : count_where (spared old) (after n sorted_) ≡ 0 =
        count-none (spared old) (after n sorted_) λ x m.
          let there =
            In-contains x.number (numbers dists pubs old)
              (In-map (λ (w : Version). w.number) x old m) in
          rw there refl in
      let few = count-first (spared old) n sorted_ in
      let same = ap length swap in omega (arith, same, sorted_count, parts, gone, few)

  -- With a limit of at least one, a cleanup that returns leaves at most as many complete versions
  -- that are not protected.
  pub cleanup_old_versions-count :
      (n : ℕ) (versions : List Version) (rows : List Membership)
      → (cleanup_old_versions (some (suc n)) dists pubs versions rows).0 ≡ returned
      → count_where
          (is_cleanable (protected_versions dists pubs versions))
          (cleanup_old_versions (some (suc n)) dists pubs versions rows).1
        ≤ suc n
  unfolding cleanup_old_versions
  cleanup_old_versions-count n versions rows h =
      elim (Bool-cases (any (λ (v : Version). not v.complete) versions)) [
        | inl in_flight ↦
            let same = ap (if_else dists pubs (some (suc n)) versions rows) in_flight in
            let bad = sym (ap (λ x. x.0) same) ∙ h in cc bad
        | inr settled ↦
            let guarded = protected_versions dists pubs versions in
            let same = ap (if_else dists pubs (some (suc n)) versions rows) settled in
            let left =
              delete_versions-left (beyond (suc n) guarded versions) versions rows
                (sym (ap (λ x. x.0) same) ∙ h) in
            let whole = ap (λ x. x.1) same ∙ left in
            subst (λ xs. count_where (is_cleanable guarded) xs ≤ suc n) (sym whole)
              (limit-count (suc n) guarded versions)
      ]
