-- ===== src/Repository/Version/Tests.antt =====
-- Runs of the operations of a version: version 2 of a repository that has units 1 to 3, where unit 3
-- was removed by version 2 itself.
use pulpcore.Prelude.{
  sym, ap, subst, ◌∙◌, ◌<◌, In, ℕ, ◌≡◌, refl, true, false, ◌||◌, ◌&&◌, not, none, some, List, [],
  ◌∷◌, arith, contains, inl, inr, eq_nat,
}
use pulpcore.Repository.Version.{
  order_pks, Membership, Version, ContentUnit, ok, pks, add_content, remove_content, set_content,
}
use pulpcore.Repository.Version.Members.{member}
use pulpcore.Repository.Version.Contract.{Tracks, SetsContent}
use pulpcore.Repository.Version.Add.{add_content-SetsContent}
use pulpcore.Repository.Version.Remove.{remove_content-SetsContent}
use pulpcore.Repository.Version.Delete.{delete, next, previous}
use pulpcore.Repository.Version.Preserve.{WellFormed}
use pulpcore.Repository.Version.Deletion.{KeepsOthers, delete-KeepsOthers}
use pulpcore.Repository.Version.Replace.{set_content-SetsContent}

abbrev unit_of : ℕ → ContentUnit
unit_of pk = record { pk = pk; pulp_domain = 1 }

abbrev second : Version
second = record { number = 2; complete = false; content_ids = 1 ∷ 2 ∷ [] }

abbrev table : List Membership
table =
    record { content = 1; version_added = 1; version_removed = none }
    ∷ record { content = 2; version_added = 2; version_removed = none }
    ∷ record { content = 3; version_added = 1; version_removed = some 2 }
    ∷ []

table-Tracks : Tracks second table
table-Tracks = record {
  up_to = (
    record { added = omega arith; removed = inr refl },
    (
      record { added = omega arith; removed = inr refl },
      (record { added = omega arith; removed = inl refl }, tt),
    ),
  );
  agree = λ x. ground arith;
}

two_added :
    add_content 1000 1 (unit_of 3 ∷ unit_of 4 ∷ unit_of 1 ∷ []) second table
    ≡ ok (
      record { number = 2; complete = false; content_ids = 1 ∷ 2 ∷ 3 ∷ 4 ∷ [] },
      record { content = 1; version_added = 1; version_removed = none }
          ∷ record { content = 2; version_added = 2; version_removed = none }
          ∷ record { content = 3; version_added = 1; version_removed = none }
          ∷ record { content = 4; version_added = 2; version_removed = none }
          ∷ [],
    )
unfolding add_content order_pks
two_added = refl

one_removed :
    remove_content 1 (unit_of 2 ∷ unit_of 1 ∷ []) second table
    ≡ ok (
      record { number = 2; complete = false; content_ids = [] },
      record { content = 1; version_added = 1; version_removed = some 2 }
          ∷ record { content = 3; version_added = 1; version_removed = some 2 }
          ∷ [],
    )
unfolding remove_content
one_removed = refl

add_content-SetsContent_example :
    SetsContent
      (λ x. member 2 x table || contains (pks (unit_of 3 ∷ unit_of 4 ∷ [])) x)
      second
      table
      (add_content 1000 1 (unit_of 3 ∷ unit_of 4 ∷ []) second table)
add_content-SetsContent_example =
    add_content-SetsContent 1000 1 (unit_of 3 ∷ unit_of 4 ∷ []) second table table-Tracks refl refl

remove_content-SetsContent_example :
    SetsContent
      (λ x. member 2 x table && not (contains (pks (unit_of 1 ∷ [])) x))
      second
      table
      (remove_content 1 (unit_of 1 ∷ []) second table)
remove_content-SetsContent_example =
    remove_content-SetsContent 1 (unit_of 1 ∷ []) second table table-Tracks refl refl

abbrev all_units : List ContentUnit
all_units = unit_of 1 ∷ unit_of 2 ∷ unit_of 3 ∷ unit_of 4 ∷ []

table-known : (x : ℕ) → member 2 x table ≡ true → contains (pks all_units) x ≡ true
table-known x h = ground arith

set_content-SetsContent_example :
    SetsContent
      (contains (pks (unit_of 3 ∷ unit_of 2 ∷ [])))
      second
      table
      (set_content 1000 1 all_units (unit_of 3 ∷ unit_of 2 ∷ []) second table)
set_content-SetsContent_example =
    set_content-SetsContent 1000 1 all_units (unit_of 3 ∷ unit_of 2 ∷ []) second table table-known
      table-Tracks refl refl refl

-- Content 5 was removed by version 2 and added again by version 3.
abbrev first_stay : Membership
first_stay = record { content = 5; version_added = 1; version_removed = some 2 }

abbrev second_stay : Membership
second_stay = record { content = 5; version_added = 3; version_removed = none }

abbrev history : List Membership
history = first_stay ∷ second_stay ∷ []

abbrev complete_version : ℕ → Version
complete_version number = record { number = number; complete = true; content_ids = [] }

abbrev three_versions : List Version
three_versions = complete_version 1 ∷ complete_version 2 ∷ complete_version 3 ∷ []

history-WellFormed : WellFormed history
history-WellFormed = record { ordered = ends_after; once = one_row }
  where
    ends_after :
        (r : Membership) (n : ℕ) → In r history → r.version_removed ≡ some n → r.version_added < n
    ends_after r n (inl e) h =
        let h' : some 2 ≡ some n = sym (ap (λ y. y.version_removed) e) ∙ h in
        subst (λ y. y.version_added < n) (sym e) (ground arith)
    ends_after r n (inr (inl e)) h =
        let h' : none ≡ some n = sym (ap (λ y. y.version_removed) e) ∙ h in absurd (cc h')
    ends_after r n (inr (inr z)) h = absurd z

    one_row :
        (r s : Membership)
        → In r history
        → In s history
        → r.content ≡ s.content
        → r.version_added ≡ s.version_added
        → r ≡ s
    one_row r s (inl e) (inl e') c a = e ∙ sym e'
    one_row r s (inl e) (inr (inl e')) c a =
        let x : 1 ≡ 3 = sym (ap (λ y. y.version_added) e) ∙ a ∙ ap (λ y. y.version_added) e' in
        absurd (omega (arith, x))
    one_row r s (inr (inl e)) (inl e') c a =
        let x : 3 ≡ 1 = sym (ap (λ y. y.version_added) e) ∙ a ∙ ap (λ y. y.version_added) e' in
        absurd (omega (arith, x))
    one_row r s (inr (inl e)) (inr (inl e')) c a = e ∙ sym e'
    one_row r s (inr (inr z)) j c a = absurd z
    one_row r s (inl e) (inr (inr z)) c a = absurd z
    one_row r s (inr (inl e)) (inr (inr z)) c a = absurd z

second_deleted :
    delete [] (complete_version 2) three_versions history
    ≡ ok (
      complete_version 1 ∷ complete_version 3 ∷ [],
      record { content = 5; version_added = 1; version_removed = none } ∷ [],
    )
unfolding delete
second_deleted = refl

neighbours :
    (next 1 three_versions ≡ some (complete_version 2))
    × (previous 3 three_versions ≡ some (complete_version 2))
unfolding next previous
neighbours = (refl, refl)

delete-KeepsOthers_example :
    KeepsOthers
      (complete_version 2)
      three_versions
      history
      (delete [] (complete_version 2) three_versions history)
delete-KeepsOthers_example =
    delete-KeepsOthers [] (complete_version 2) three_versions history history-WellFormed refl
      (omega arith) refl
