-- ===== src/Repository/Duplicates/Validate.antt =====
-- When a version is valid.
use pulpcore.Prelude.{
  ℕ, ◌≤◌, String, ◌≡◌, refl, sym, ◌↔◌, true, false, List, [], ◌∷◌, arith, length, contains, All,
  ltb, Bool-cases, inl, inr, ◌∙◌, eq_nat,
}
use pulpcore.Repository.Duplicates.{
  ContentRow, ContentType, distinct_on, count_duplicates, keysets, has_no_keys, validate_loop,
  returned, validate_duplicate_content, eq_texts,
}

-- No tuple stands twice in the list.
abbrev pub IsDistinct : List (List String) → Type 0
IsDistinct [] = Unit
IsDistinct (k ∷ ks) = (contains ks k ≡ false) × IsDistinct ks

length-distinct_on : (ks : List (List String)) → length (distinct_on ks) ≤ length ks
length-distinct_on [] = omega arith
length-distinct_on (k ∷ ks) = ground (arith, length-distinct_on ks)

pub count_duplicates_iff : (ks : List (List String)) → (count_duplicates ks ≡ 0) ↔ IsDistinct ks
unfolding count_duplicates
count_duplicates_iff ks = (to ks, from ks)
  where
    to : (xs : List (List String)) → count_duplicates xs ≡ 0 → IsDistinct xs
    to [] h = tt
    to (k ∷ xs) h =
        let bound = length-distinct_on xs in
        elim (Bool-cases (contains xs k)) [
          | inl again ↦ let h' = rw again at h in let bad : ⊥ = omega arith in absurd bad
          | inr new ↦ (new, to xs (let h' = rw new at h in omega arith))
        ]

    from : (xs : List (List String)) → IsDistinct xs → count_duplicates xs ≡ 0
    from [] h = refl
    from (k ∷ xs) (new, h) = let below = from xs h in rw new (omega arith)

-- The content of a type with key fields has no two units with the same values.
abbrev pub IsValid : List ℕ → List ContentRow → ContentType → Type 0
IsValid content rows t = has_no_keys t ≡ false → IsDistinct (keysets t content rows)

module _ (content : List ℕ) (rows : List ContentRow) where
  stays : (types : List ContentType) (n : ℕ) → (validate_loop types content rows (true, n)).0 ≡ true
  stays [] n = refl
  stays (t ∷ types) n = elim (Bool-cases (has_no_keys t)) [
    | inl keyless ↦ rw keyless (stays types n)
    | inr keyed ↦ elim (Bool-cases (ltb 0 (count_duplicates (keysets t content rows)))) [
      | inl some_ ↦ rw (keyed, some_) (stays types _)
      | inr none_ ↦ rw (keyed, none_) (stays types _)
    ]
  ]

  -- The flag after the loop over types without duplicates, and over others.
  loop-valid :
      (types : List ContentType) (n : ℕ)
      → All (IsValid content rows) types
      → (validate_loop types content rows (false, n)).0 ≡ false
  loop-valid [] n h = refl
  loop-valid (t ∷ types) n (h, hs) = elim (Bool-cases (has_no_keys t)) [
    | inl keyless ↦ rw keyless (loop-valid types n hs)
    | inr keyed ↦
        let zero_ = (count_duplicates_iff (keysets t content rows)).1 (h keyed) in
        rw (keyed, zero_) (loop-valid types 0 hs)
  ]

  valid-loop :
      (types : List ContentType) (n : ℕ)
      → (validate_loop types content rows (false, n)).0 ≡ false
      → All (IsValid content rows) types
  valid-loop [] n h = tt
  valid-loop (t ∷ types) n h = elim (Bool-cases (has_no_keys t)) [
    | inl keyless ↦
        ((λ keyed. let bad = sym keyless ∙ keyed in cc bad), valid-loop types n (rw keyless at h))
    | inr keyed ↦ elim (Bool-cases (ltb 0 (count_duplicates (keysets t content rows)))) [
      | inl some_ ↦ let bad = sym (stays types _) ∙ (rw (keyed, some_) at h) in cc bad
      | inr none_ ↦ (
        (λ _. (count_duplicates_iff (keysets t content rows)).0 (ground arith)),
        valid-loop types _ (rw (keyed, none_) at h),
      )
    ]
  ]

-- The validation passes exactly where no type of the repository with key fields has two units in the
-- version with the same values in them.
pub validate_duplicate_content_iff :
    (types : List ContentType) (content : List ℕ) (rows : List ContentRow)
    → (validate_duplicate_content types content rows ≡ returned) ↔ All (IsValid content rows) types
unfolding validate_duplicate_content
validate_duplicate_content_iff types content rows = (to, back)
  where
    to : validate_duplicate_content types content rows ≡ returned → All (IsValid content rows) types
    to h = elim (Bool-cases (validate_loop types content rows (false, 0)).0) [
      | inl found ↦ let h' = rw found at h in cc h'
      | inr valid ↦ valid-loop content rows types 0 valid
    ]

    back :
        All (IsValid content rows) types → validate_duplicate_content types content rows ≡ returned
    back h = rw (loop-valid content rows types 0 h) refl
