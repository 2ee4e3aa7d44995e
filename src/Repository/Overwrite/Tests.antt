-- ===== src/Repository/Overwrite/Tests.antt =====
-- Files that are added to a version with a file of the same path.
use pulpcore.Prelude.{ℕ, zero, suc, inr, String, ◌≡◌, ◌↔◌, refl, List, [], ◌∷◌, All, eq_nat}
use pulpcore.Repository.Duplicates.{ContentRow, ContentType}
use pulpcore.Repository.Overwrite.{returned, content_overwrite, check_content_overwrite}
use pulpcore.Repository.Overwrite.Check.{OverwritesNothing, check_content_overwrite_iff}

abbrev file : ContentType
file = record { pulp_type = "file.file"; repo_key_fields = "relative_path" ∷ [] }

abbrev row : ℕ → String → ContentRow
row k path = record { pk = k; pulp_type = "file.file"; field = λ name. path }

abbrev rows : List ContentRow
rows = row 1 "a" ∷ row 2 "b" ∷ row 3 "a" ∷ row 4 "c" ∷ []

abbrev as_is : ℕ → List ContentRow → List ContentRow
as_is start xs = xs

abbrev other_rows : List ContentRow
other_rows = row 1 "a" ∷ row 2 "b" ∷ row 4 "c" ∷ row 3 "a" ∷ []

-- Unit 3 would take the place of unit 1, unless that one is removed.
overwrites :
    (check_content_overwrite as_is 2 (file ∷ []) (1 ∷ 2 ∷ []) (2 ∷ 3 ∷ 4 ∷ []) [] rows
      ≡ content_overwrite "file.file" ((3, 1) ∷ []))
    × (check_content_overwrite as_is 2 (file ∷ []) (1 ∷ 2 ∷ []) (2 ∷ 3 ∷ 4 ∷ []) (1 ∷ []) rows
        ≡ returned)
unfolding check_content_overwrite
overwrites = (refl, refl)

-- The database answers the query of the second batch in another order.
abbrev swapped : ℕ → List ContentRow → List ContentRow
swapped zero xs = xs
swapped (suc start) (x ∷ y ∷ z ∷ []) = y ∷ z ∷ x ∷ []
swapped (suc start) xs = xs

-- Unit 3 is in no batch then, and the check passes.
left_out :
    check_content_overwrite swapped 2 (file ∷ []) (1 ∷ []) (2 ∷ 4 ∷ 3 ∷ []) [] other_rows ≡ returned
unfolding check_content_overwrite
left_out = refl

check_content_overwrite_iff_example :
    (check_content_overwrite as_is 2 (file ∷ []) (1 ∷ 2 ∷ []) (3 ∷ 4 ∷ []) [] rows ≡ returned)
    ↔ All (OverwritesNothing as_is 1 (1 ∷ 2 ∷ []) (3 ∷ 4 ∷ []) [] rows) (file ∷ [])
check_content_overwrite_iff_example =
    check_content_overwrite_iff as_is 1 (1 ∷ 2 ∷ []) (3 ∷ 4 ∷ []) [] rows (file ∷ [])
      (record { rows_of = λ x. (λ m. m, λ m. m); count = refl; one_answer = inr (λ k. refl) }, tt)
      ((λ _. (refl, (refl, tt))), tt)
