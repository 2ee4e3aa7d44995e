-- ===== src/Repository/Retention/Keep.antt =====
-- The versions that `cleanup_old_versions` leaves alone, and what is left where it returns.
use pulpcore.Prelude.{
  ℕ, zero, suc, ◌≡◌, refl, sym, ap, ◌∙◌, subst, Bool, true, false, not, Option, none, some, List,
  [], ◌∷◌, map, filter, any, contains, leb, ◌==◌, eq_nat, if◌then◌else◌, In, In-filter, filter-In,
  contains-In, map-In, delete_where, count_where, arith, ◌⊎◌, inl, inr, Bool-cases, false_or,
  true_and,
}
use pulpcore.Repository.Version.{Version, Membership, Fault, Result, ok, err}
use pulpcore.Repository.Version.Delete.{delete, mentions, next, relations_without, forget}
use pulpcore.Repository.Overwrite.{after}
use pulpcore.Repository.Retention.{
  Publication, Distribution, protected_versions, insert_newest, newest_first, is_cleanable, beyond,
  Ended, runtime_error, failed, next_deletion, delete_versions, limit_to, cleanup_old_versions,
}

pub Result-cases :
    (r : Result (List Version × List Membership))
    → ((left : List Version) × (rows : List Membership) × (r ≡ ok (left, rows)))
      ⊎ ((fault : Fault) × (r ≡ err fault))
Result-cases (ok (left, rows)) = inl (left, rows, refl)
Result-cases (err fault) = inr (fault, refl)

-- The branches of `delete`.
abbrev branches :
    Bool
    → Bool
    → Bool
    → Bool
    → List Version
    → List Membership
    → List Membership
    → Result (List Version × List Membership)
branches complete last bad guarded left rows rows' =
    if complete
    then if last
      then err Fault.last_version
      else if bad
      then err Fault.untranslated
      else if guarded
      then err Fault.protected_version
      else ok (left, rows)
    else if guarded
    then err Fault.protected_version
    else ok (left, rows')

branches-left :
    (complete last bad guarded : Bool) (left : List Version) (rows rows' : List Membership)
    (out : List Version) (rows'' : List Membership)
    → branches complete last bad guarded left rows rows' ≡ ok (out, rows'')
    → out ≡ left
branches-left true true bad guarded left rows rows' out rows'' h = cc h
branches-left true false true guarded left rows rows' out rows'' h = cc h
branches-left true false false true left rows rows' out rows'' h = cc h
branches-left true false false false left rows rows' out rows'' h = cc h
branches-left false last bad true left rows rows' out rows'' h = cc h
branches-left false last bad false left rows rows' out rows'' h = cc h

-- What is left of the versions where a deletion succeeds.
pub delete-left :
    (protected_numbers : List ℕ) (v : Version) (versions : List Version) (rows : List Membership)
    (left : List Version) (rows' : List Membership)
    → delete protected_numbers v versions rows ≡ ok (left, rows')
    → left ≡ delete_where (λ (w : Version). w.number == v.number) versions
unfolding delete
delete-left protected_numbers v versions rows left rows' h =
    let moved = relations_without v.number (next v.number versions) rows in
    branches-left v.complete (leb (count_where (λ (w : Version). w.complete) versions) 1)
      (any (mentions v.number) moved) (contains protected_numbers v.number)
      (delete_where (λ (w : Version). w.number == v.number) versions) moved (forget v.number rows)
      left rows' h

module _ (dists : List Distribution) (pubs : List Publication) where
  abbrev pub numbers : List Version → List ℕ
  numbers versions = map (λ (v : Version). v.number) versions

  pub delete_versions-ok :
      (v : Version) (old versions : List Version) (rows : List Membership) (left : List Version)
      (rows' : List Membership)
      → delete (protected_versions dists pubs versions) v versions rows ≡ ok (left, rows')
      → delete_versions dists pubs (v ∷ old) versions rows
        ≡ delete_versions dists pubs old left rows'
  unfolding delete_versions
  delete_versions-ok v old versions rows left rows' e =
      ap (next_deletion (delete_versions dists pubs old) versions rows) e

  pub delete_versions-err :
      (v : Version) (old versions : List Version) (rows : List Membership) (fault : Fault)
      → delete (protected_versions dists pubs versions) v versions rows ≡ err fault
      → delete_versions dists pubs (v ∷ old) versions rows ≡ (failed fault, versions, rows)
  unfolding delete_versions
  delete_versions-err v old versions rows fault e =
      ap (next_deletion (delete_versions dists pubs old) versions rows) e

  -- A version that is not among those to delete stays.
  delete_versions-keeps :
      (old versions : List Version) (rows : List Membership) (w : Version)
      → In w versions
      → contains (numbers old) w.number ≡ false
      → In w (delete_versions dists pubs old versions rows).1
  unfolding delete_versions
  delete_versions-keeps [] versions rows w m h = m
  delete_versions-keeps (v ∷ old) versions rows w m h =
      let (other, others) = false_or (w.number == v.number) (contains (numbers old) w.number) h in
      elim (Result-cases (delete (protected_versions dists pubs versions) v versions rows)) [
        | inl (left, rows', e) ↦
            let split =
              delete-left (protected_versions dists pubs versions) v versions rows left rows' e in
            let stays : In w left = subst (In w) (sym split) (
              filter-In (λ (x : Version). not (x.number == v.number)) w versions m
                (rw other refl)) in
            subst (λ x. In w x.1) (sym (delete_versions-ok v old versions rows left rows' e))
              (delete_versions-keeps old left rows' w stays others)
        | inr (fault, e) ↦
            subst (λ x. In w x.1) (sym (delete_versions-err v old versions rows fault e)) m
      ]

  -- Nothing is added, and where the loop returns those to delete are gone.
  delete_versions-from :
      (old versions : List Version) (rows : List Membership) (w : Version)
      → In w (delete_versions dists pubs old versions rows).1
      → In w versions
  unfolding delete_versions
  delete_versions-from [] versions rows w m = m
  delete_versions-from (v ∷ old) versions rows w m =
      elim (Result-cases (delete (protected_versions dists pubs versions) v versions rows)) [
        | inl (left, rows', e) ↦
            let split =
              delete-left (protected_versions dists pubs versions) v versions rows left rows' e in
            let below =
              delete_versions-from old left rows' w
                (subst (λ x. In w x.1) (delete_versions-ok v old versions rows left rows' e) m) in
            (In-filter (λ (x : Version). not (x.number == v.number)) w versions
              (subst (In w) split below)).0
        | inr (fault, e) ↦ subst (λ x. In w x.1) (delete_versions-err v old versions rows fault e) m
      ]

  -- A protected version is not beyond the limit.
  after-In : (n : ℕ) (w : Version) (xs : List Version) → In w (after n xs) → In w xs
  after-In zero w xs m = m
  after-In (suc n) w [] m = m
  after-In (suc n) w (x ∷ xs) m = inr (after-In n w xs m)

  insert-In : (w v : Version) (xs : List Version) → In w (insert_newest v xs) → (w ≡ v) ⊎ In w xs
  insert-In w v [] m = m
  insert-In w v (x ∷ xs) m = elim (Bool-cases (leb x.number v.number)) [
    | inl here ↦ rw here at m
    | inr later ↦ elim (rw later at m) [
      | inl e ↦ inr (inl e)
      | inr n ↦ elim (insert-In w v xs n) [ inl e ↦ inl e | inr k ↦ inr (inr k) ]
    ]
  ]

  newest_first-In : (w : Version) (xs : List Version) → In w (newest_first xs) → In w xs
  unfolding newest_first
  newest_first-In w [] m = m
  newest_first-In w (x ∷ xs) m = elim (insert-In w x (newest_first xs) m) [
    | inl e ↦ inl e
    | inr n ↦ inr (newest_first-In w xs n)
  ]

  beyond-protected :
      (n : ℕ) (protected_numbers : List ℕ) (versions : List Version) (k : ℕ)
      → contains protected_numbers k ≡ true
      → contains (numbers (beyond n protected_numbers versions)) k ≡ false
  beyond-protected n protected_numbers versions k h =
      elim (Bool-cases (contains (numbers (beyond n protected_numbers versions)) k)) [
        | inl there ↦
            let i = contains-In k (numbers (beyond n protected_numbers versions)) there in
            let (v, j, e) =
              map-In (λ (x : Version). x.number) k (beyond n protected_numbers versions) i in
            let sorted_ = newest_first (filter (is_cleanable protected_numbers) versions) in
            let l =
              newest_first-In v (filter (is_cleanable protected_numbers) versions)
                (after-In n v sorted_ j) in
            let (_, t) = In-filter (is_cleanable protected_numbers) v versions l in
            let (_, free) = true_and v.complete (not (contains protected_numbers v.number)) t in
            let guarded : contains protected_numbers v.number ≡ true =
              ap (contains protected_numbers) (sym e) ∙ h in
            let bad : ⊥ = ground arith in absurd bad
        | inr away ↦ away
      ]

  abbrev pub if_else :
      Option ℕ → List Version → List Membership → Bool → Ended × List Version × List Membership
  if_else retain versions rows b =
      if b then (runtime_error, versions, rows) else limit_to retain dists pubs versions rows

  limit_to-keeps :
      (retain : Option ℕ) (versions : List Version) (rows : List Membership) (w : Version)
      → let left = (limit_to retain dists pubs versions rows).1 in
        (In w left → In w versions)
        × (In w versions
            → contains (protected_versions dists pubs versions) w.number ≡ true
            → In w left)
  limit_to-keeps none versions rows w = ((λ m. m), λ m _. m)
  limit_to-keeps (some zero) versions rows w = ((λ m. m), λ m _. m)
  limit_to-keeps (some (suc n)) versions rows w =
      let guarded = protected_versions dists pubs versions in
      let old = beyond (suc n) guarded versions in
      (
        delete_versions-from old versions rows w,
        λ m h.
            delete_versions-keeps old versions rows w m
              (beyond-protected (suc n) guarded versions w.number h),
      )

  -- The cleanup adds no version and takes no protected one, whether it returns or raises.
  pub cleanup_old_versions-keeps :
      (retain : Option ℕ) (versions : List Version) (rows : List Membership) (w : Version)
      → let left = (cleanup_old_versions retain dists pubs versions rows).1 in
        (In w left → In w versions)
        × (In w versions
            → contains (protected_versions dists pubs versions) w.number ≡ true
            → In w left)
  unfolding cleanup_old_versions
  cleanup_old_versions-keeps retain versions rows w =
      elim (Bool-cases (any (λ (v : Version). not v.complete) versions)) [
        | inl in_flight ↦
            let same : cleanup_old_versions retain dists pubs versions rows
                ≡ (runtime_error, versions, rows) =
              ap (if_else retain versions rows) in_flight in
            (subst (λ x. In w x.1) same, λ m _. subst (λ x. In w x.1) (sym same) m)
        | inr settled ↦
            let same : cleanup_old_versions retain dists pubs versions rows
                ≡ limit_to retain dists pubs versions rows =
              ap (if_else retain versions rows) settled in
            let (from_, keeps) = limit_to-keeps retain versions rows w in
            (
              (λ m. from_ (subst (λ x. In w x.1) same m)),
              λ m h. subst (λ x. In w x.1) (sym same) (keeps m h),
            )
      ]
