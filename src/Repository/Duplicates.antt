-- ===== src/Repository/Duplicates.antt =====
-- The search for duplicate content of pulpcore/plugin/repo_version_utils.py. A content unit is its
-- key, its type and the values of its fields, which stand as text.
pub mod Validate
mod Tests
use pulpcore.Prelude.{
  ℕ, ◌-◌, String, ◌≡◌, ◌↔◌, Bool, true, false, ◌&&◌, ◌||◌, List, [], ◌∷◌, map, filter, length,
  contains, HasEq, ◌==◌, eq_nat, eq_string, if◌then◌else◌, ltb, true_and, and_true, eq_of_==,
  ==-refl, refl, subst,
}

-- A tuple of values.
abbrev pub texts_beq : List String → List String → Bool
texts_beq [] [] = true
texts_beq (x ∷ xs) (y ∷ ys) = (x == y) && texts_beq xs ys
texts_beq _ _ = false

texts_beq-eq : (xs ys : List String) → texts_beq xs ys ≡ true → xs ≡ ys
texts_beq-eq [] [] h = refl
texts_beq-eq [] (y ∷ ys) h = cc
texts_beq-eq (x ∷ xs) [] h = cc
texts_beq-eq (x ∷ xs) (y ∷ ys) h =
    let (a, b) = true_and (x == y) (texts_beq xs ys) h in cc (eq_of_== x y a, texts_beq-eq xs ys b)

texts_beq_refl : (xs : List String) → texts_beq xs xs ≡ true
texts_beq_refl [] = refl
texts_beq_refl (x ∷ xs) = and_true (x == x) (texts_beq xs xs) (==-refl x) (texts_beq_refl xs)

pub texts_beq_iff : (xs ys : List String) → (texts_beq xs ys ≡ true) ↔ (xs ≡ ys)
texts_beq_iff xs ys =
    (texts_beq-eq xs ys, λ e. subst (λ zs. texts_beq xs zs ≡ true) e (texts_beq_refl xs))

instance abbrev pub eq_texts : HasEq (List String)
eq_texts = record { same = texts_beq; same_iff = texts_beq_iff }

pub record ContentRow : Type 0 where
  pub pk : ℕ
  pub pulp_type : String
  pub field : String → String

-- A class of `CONTENT_TYPES`.
pub record ContentType : Type 0 where
  pub pulp_type : String
  pub repo_key_fields : List String

-- The values of the key fields.
abbrev pub keyset_value : ContentType → ContentRow → List String
keyset_value t c = map c.field t.repo_key_fields

-- `distinct(*unique_keys)`: one row for each tuple of values.
abbrev pub distinct_on : List (List String) → List (List String)
distinct_on [] = []
distinct_on (k ∷ ks) = let rest = distinct_on ks in if contains ks k then rest else k ∷ rest

unfoldable pub count_duplicates : List (List String) → ℕ
count_duplicates keysets = length keysets - length (distinct_on keysets)

-- The keysets of the content of one type in a version, whose content is given by its keys.
abbrev pub keysets : ContentType → List ℕ → List ContentRow → List (List String)
keysets t content rows =
    map (keyset_value t) (filter (λ c. contains content c.pk && (c.pulp_type == t.pulp_type)) rows)

abbrev pub has_no_keys : ContentType → Bool
has_no_keys t = elim t.repo_key_fields [ [] ↦ true | _ ∷ _ ↦ false ]

-- The loop over the types, with `dup_found` and `dup_count`.
abbrev pub validate_loop : List ContentType → List ℕ → List ContentRow → Bool × ℕ → Bool × ℕ
validate_loop [] content rows s = s
validate_loop (t ∷ types) content rows (dup_found, dup_count) =
    let count = count_duplicates (keysets t content rows) in
    let next = if ltb 0 count then (true, count) else (dup_found, count) in
    if has_no_keys t
    then validate_loop types content rows (dup_found, dup_count)
    else validate_loop types content rows next

pub data Outcome : Type 0 where
  returned : Outcome
  duplicate_content : ℕ → Outcome

unfoldable pub validate_duplicate_content : List ContentType → List ℕ → List ContentRow → Outcome
unfolding count_duplicates
validate_duplicate_content types content rows =
    let (dup_found, dup_count) = validate_loop types content rows (false, 0) in
    if dup_found then duplicate_content dup_count else returned
