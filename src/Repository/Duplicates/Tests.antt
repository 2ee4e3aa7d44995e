-- ===== src/Repository/Duplicates/Tests.antt =====
-- A version with two files of one path.
use pulpcore.Prelude.{ℕ, String, ◌≡◌, ◌↔◌, refl, List, [], ◌∷◌, All, eq_string}
use pulpcore.Repository.Duplicates.{
  ContentRow, ContentType, returned, duplicate_content, validate_duplicate_content,
}
use pulpcore.Repository.Duplicates.Validate.{IsValid, validate_duplicate_content_iff}

abbrev file : ContentType
file = record { pulp_type = "file.file"; repo_key_fields = "relative_path" ∷ [] }

abbrev other : ContentType
other = record { pulp_type = "file.other"; repo_key_fields = "relative_path" ∷ [] }

abbrev row : ℕ → String → ContentRow
row k path = record { pk = k; pulp_type = "file.file"; field = λ name. path }

abbrev rows : List ContentRow
rows = row 1 "a" ∷ row 2 "b" ∷ row 3 "a" ∷ []

validate_duplicate_content_iff_example :
    (validate_duplicate_content (file ∷ []) (1 ∷ 2 ∷ []) rows ≡ returned)
    ↔ All (IsValid (1 ∷ 2 ∷ []) rows) (file ∷ [])
validate_duplicate_content_iff_example =
    validate_duplicate_content_iff (file ∷ []) (1 ∷ 2 ∷ []) rows

-- The error counts the duplicates of the last type only.
counts :
    (validate_duplicate_content (file ∷ []) (1 ∷ 2 ∷ 3 ∷ []) rows ≡ duplicate_content 1)
    × (validate_duplicate_content (file ∷ other ∷ []) (1 ∷ 2 ∷ 3 ∷ []) rows ≡ duplicate_content 0)
unfolding validate_duplicate_content
counts = (refl, refl)
