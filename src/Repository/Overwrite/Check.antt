-- ===== src/Repository/Overwrite/Check.antt =====
-- When `check_content_overwrite` lets the content pass.
use pulpcore.Prelude.{
  ℕ, suc, ◌≤◌, ◌⊎◌, In, ap, subst, fun_ext, ◌≡◌, ◌↔◌, refl, sym, ◌∙◌, false, List, [], ◌∷◌, map,
  length, All, All-In, In-All, Bool-cases, inl, inr, arith, String,
}
use pulpcore.Repository.Duplicates.{ContentRow, ContentType, keyset_value, has_no_keys}
use pulpcore.Repository.Duplicates.Validate.{IsDistinct}
use pulpcore.Repository.Overwrite.{
  batch_qs, batches, existing_content, incoming_content, find_dup, conflict_map, Outcome, returned,
  raise_or, check_batches, check_content_overwrite,
}
use pulpcore.Repository.Overwrite.Conflicts.{
  All-batches, batches-one, Agrees, IsAlone, conflict_map-Agrees, Agrees-conflict_map,
  Agrees-IsAlone, IsAlone-Agrees,
}

raise_or-returned :
    (name : String) (m : List (ℕ × ℕ)) (rest : Outcome)
    → raise_or name m rest ≡ returned
    → (m ≡ []) × (rest ≡ returned)
raise_or-returned name [] rest h = (refl, h)
raise_or-returned name (c ∷ m) rest h = cc h

module _ (t : ContentType) (existing : List ContentRow) where
  batches-pass :
      IsDistinct (map (keyset_value t) existing)
      → (batches : List (List ContentRow)) (rest : Outcome)
      → check_batches t existing batches rest ≡ returned
      → All (All (IsAlone t existing)) batches × (rest ≡ returned)
  batches-pass d [] rest h = (tt, h)
  batches-pass d (batch ∷ batches) rest h =
      let (none_found, h') =
        raise_or-returned t.pulp_type (conflict_map t (find_dup t batch existing) batch) _ h in
      let agree = conflict_map-Agrees t (find_dup t batch existing) batch none_found in
      let (others, last) = batches-pass d batches rest h' in
      (
        (
          In-All (IsAlone t existing) batch λ c m.
              Agrees-IsAlone t existing batch d c m
                (All-In (Agrees t (find_dup t batch existing)) batch agree c m),
          others,
        ),
        last,
      )

  pass-batches :
      (batches : List (List ContentRow)) (rest : Outcome)
      → All (All (IsAlone t existing)) batches
      → check_batches t existing batches rest ≡ rest
  pass-batches [] rest h = refl
  pass-batches (batch ∷ batches) rest (h, hs) =
      let nothing = Agrees-conflict_map t (find_dup t batch existing) batch (
        In-All (Agrees t (find_dup t batch existing)) batch
          λ c m. IsAlone-Agrees t existing batch c (All-In (IsAlone t existing) batch h c m)) in
      rw nothing (pass-batches batches rest hs)

module _ (order : ℕ → List ContentRow → List ContentRow) (n : ℕ) (content added removed : List ℕ)
    (rows : List ContentRow) where
  -- The content of a type that stays has each tuple of key values once.
  abbrev pub IsKeyed : ContentType → Type 0
  IsKeyed t =
      has_no_keys t ≡ false
      → IsDistinct (map (keyset_value t) (existing_content t content removed rows))

  -- No added unit of the type has the key values of another unit that stays.
  abbrev pub OverwritesNothing : ContentType → Type 0
  OverwritesNothing t =
      has_no_keys t ≡ false
      → All (IsAlone t (existing_content t content removed rows)) (incoming_content t added rows)

  -- The database answers a query with its rows, in some order; and the batches of the type are slices
  -- of one answer, since one batch is enough or since all their queries are answered in one order.
  pub record IsAnswered (t : ContentType) : Type 0 where
    pub rows_of :
        (x : ContentRow)
        → In x (order 0 (incoming_content t added rows)) ↔ In x (incoming_content t added rows)
    pub count :
        length (order 0 (incoming_content t added rows)) ≡ length (incoming_content t added rows)
    pub one_answer :
        (length (incoming_content t added rows) ≤ suc n)
        ⊎ ((start : ℕ)
            → order start (incoming_content t added rows) ≡ order 0 (incoming_content t added rows))

  All-batch_qs :
      (t : ContentType) (P : ContentRow → Type 0)
      → IsAnswered t
      → let incoming = incoming_content t added rows in
        All (All P) (batch_qs (suc n) (length incoming) (λ start. order start incoming))
        ↔ All P incoming
  unfolding batch_qs
  All-batch_qs t P h =
      let incoming = incoming_content t added rows in
      let first = order 0 incoming in
      let total = length incoming in
      let one : batches total (suc n) total 0 (λ start. order start incoming)
          ≡ batches total (suc n) total 0 (λ _. first) =
        elim h.one_answer [
          | inl few ↦ batches-one total (suc n) total (λ start. order start incoming) few
          | inr stable ↦ ap (batches total (suc n) total 0) (fun_ext stable)
        ] in
      let (to, back) = All-batches P n total total 0 first (sym h.count) (omega arith) in
      (
        λ a.
            In-All P incoming
              λ x m. All-In P first (to (subst (All (All P)) one a)) x ((h.rows_of x).1 m),
        λ a.
            subst (All (All P)) (sym one)
              (back (In-All P first λ x m. All-In P incoming a x ((h.rows_of x).0 m))),
      )

  passes :
      (types : List ContentType)
      → All IsAnswered types
      → All IsKeyed types
      → check_content_overwrite order (suc n) types content added removed rows ≡ returned
      → All OverwritesNothing types
  unfolding check_content_overwrite
  passes [] answered keyed h = tt
  passes (t ∷ types) (answer, others) (k, ks) h = elim (Bool-cases (has_no_keys t)) [
    | inl keyless ↦
        ((λ e. let bad = sym keyless ∙ e in cc bad), passes types others ks (rw keyless at h))
    | inr keys ↦
        let existing = existing_content t content removed rows in
        let incoming = incoming_content t added rows in
        let (alone, rest) =
          batches-pass t existing (k keys)
            (batch_qs (suc n) (length incoming) (λ start. order start incoming)) _ (rw keys at h) in
        ((λ _. (All-batch_qs t (IsAlone t existing) answer).0 alone), passes types others ks rest)
  ]

  passed :
      (types : List ContentType)
      → All IsAnswered types
      → All OverwritesNothing types
      → check_content_overwrite order (suc n) types content added removed rows ≡ returned
  unfolding check_content_overwrite
  passed [] answered h = refl
  passed (t ∷ types) (answer, others) (h, hs) = elim (Bool-cases (has_no_keys t)) [
    | inl keyless ↦ rw keyless (passed types others hs)
    | inr keys ↦
        let existing = existing_content t content removed rows in
        let incoming = incoming_content t added rows in
        let alone = (All-batch_qs t (IsAlone t existing) answer).1 (h keys) in
        rw keys (
          pass-batches t existing
            (batch_qs (suc n) (length incoming) (λ start. order start incoming)) _ alone
          ∙ passed types others hs)
  ]

  -- With a batch size of at least one, where the content that stays has each tuple of key values of a
  -- type at most once, and where for each type one batch is enough or the database answers the queries
  -- of all batches in the same order: the check passes exactly where no added unit has the key values
  -- of another unit that stays.
  pub check_content_overwrite_iff :
      (types : List ContentType)
      → All IsAnswered types
      → All IsKeyed types
      → (check_content_overwrite order (suc n) types content added removed rows ≡ returned)
        ↔ All OverwritesNothing types
  check_content_overwrite_iff types answered keyed =
      (passes types answered keyed, passed types answered)
