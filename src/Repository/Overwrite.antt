-- ===== src/Repository/Overwrite.antt =====
-- `check_content_overwrite` of pulpcore/app/models/repository.py, and the batches of `batch_qs` of
-- pulpcore/app/util.py. Each batch is a query of its own: `order` says in which order the database
-- answers the query of the batch that begins at an offset.
pub mod Conflicts
pub mod Check
mod Tests
use pulpcore.Prelude.{
  ℕ, zero, suc, ◌+◌, ◌-◌, leb, ltb, String, Bool, true, false, not, ◌&&◌, Option, none, some, List,
  [], ◌∷◌, map, filter, contains, length, ◌==◌, eq_nat, eq_string, if◌then◌else◌,
}
use pulpcore.Repository.Duplicates.{ContentRow, ContentType, keyset_value, has_no_keys, eq_texts}

module _ {A : Type 0} where
  abbrev pub first : ℕ → List A → List A
  first zero xs = []
  first (suc n) [] = []
  first (suc n) (x ∷ xs) = x ∷ first n xs

  abbrev pub after : ℕ → List A → List A
  after zero xs = xs
  after (suc n) [] = []
  after (suc n) (x ∷ xs) = after n xs

  -- `qs[start:end]`
  abbrev pub slice : ℕ → ℕ → List A → List A
  slice start end xs = first (end - start) (after start xs)

  -- The loop from `start` on. The fuel counts rows; each round moves `start` by the batch size.
  abbrev pub batches : ℕ → ℕ → ℕ → ℕ → (ℕ → List A) → List (List A)
  batches zero batch_size total start answer = []
  batches (suc fuel) batch_size total start answer =
      let end = if leb (start + batch_size) total then start + batch_size else total in
      let rest = batches fuel batch_size total (start + batch_size) answer in
      if ltb start total then slice start end (answer start) ∷ rest else []

  -- `total` is the count of the query, and `answer` what it gives, for the batch at each offset.
  unfoldable pub batch_qs : ℕ → ℕ → (ℕ → List A) → List (List A)
  batch_qs batch_size total answer = batches total batch_size total 0 answer

-- The content of the version that stays, and the content to add, of one type.
abbrev pub existing_content : ContentType → List ℕ → List ℕ → List ContentRow → List ContentRow
existing_content t content removed rows =
    filter
      (λ c. (contains content c.pk && not (contains removed c.pk)) && (c.pulp_type == t.pulp_type))
      rows

abbrev pub incoming_content : ContentType → List ℕ → List ContentRow → List ContentRow
incoming_content t added rows =
    filter (λ c. contains added c.pk && (c.pulp_type == t.pulp_type)) rows

-- The entry of a dictionary that a comprehension builds from the rows: the last one wins.
abbrev pub existing_by_key : ContentType → List String → List ContentRow → Option ℕ
existing_by_key t key [] = none
existing_by_key t key (c ∷ rows) = elim (existing_by_key t key rows) [
  | some pk ↦ some pk
  | none ↦ if keyset_value t c == key then some c.pk else none
]

-- `find_dup_qs`: the rows with the values of one of the batch.
abbrev pub find_dup : ContentType → List ContentRow → List ContentRow → List ContentRow
find_dup t batch existing =
    filter (λ c. contains (map (keyset_value t) batch) (keyset_value t c)) existing

abbrev pub add_conflict : ℕ → Option ℕ → List (ℕ × ℕ) → List (ℕ × ℕ)
add_conflict pk none conflicts = conflicts
add_conflict pk (some existing) conflicts =
    if pk == existing then conflicts else (pk, existing) ∷ conflicts

-- `conflict_map`, in the order of the batch.
abbrev pub conflict_map : ContentType → List ContentRow → List ContentRow → List (ℕ × ℕ)
conflict_map t existing [] = []
conflict_map t existing (c ∷ batch) =
    add_conflict c.pk (existing_by_key t (keyset_value t c) existing)
      (conflict_map t existing batch)

pub data Outcome : Type 0 where
  returned : Outcome
  content_overwrite : String → List (ℕ × ℕ) → Outcome

abbrev pub raise_or : String → List (ℕ × ℕ) → Outcome → Outcome
raise_or pulp_type [] rest = rest
raise_or pulp_type (conflict ∷ conflicts) rest = content_overwrite pulp_type (conflict ∷ conflicts)

abbrev pub check_batches :
    ContentType → List ContentRow → List (List ContentRow) → Outcome → Outcome
check_batches t existing [] rest = rest
check_batches t existing (batch ∷ others) rest =
    raise_or t.pulp_type (conflict_map t (find_dup t batch existing) batch)
      (check_batches t existing others rest)

-- The check on the content of a version; the program's batch size is 1000.
unfoldable pub check_content_overwrite :
    (ℕ → List ContentRow → List ContentRow)
    → ℕ
    → List ContentType
    → List ℕ
    → List ℕ
    → List ℕ
    → List ContentRow
    → Outcome
unfolding batch_qs
check_content_overwrite order batch_size [] content added removed rows = returned
check_content_overwrite order batch_size (t ∷ types) content added removed rows =
    let rest = check_content_overwrite order batch_size types content added removed rows in
    let incoming = incoming_content t added rows in
    let checked =
      check_batches t (existing_content t content removed rows)
        (batch_qs batch_size (length incoming) (λ start. order start incoming)) rest in
    if has_no_keys t then rest else checked
