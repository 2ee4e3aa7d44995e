-- ===== src/Repository/Version/Delete.antt =====
-- `next`, `previous`, `_squash` and `delete` of a version.
use pulpcore.Prelude.{
  ℕ, Bool, ◌&&◌, ◌||◌, Option, none, some, List, [], ◌∷◌, ◌++◌, map, if◌then◌else◌, ltb, leb, ◌==◌,
  eq_nat, opt_beq, filter, any, contains, update_where, delete_where, count_where,
}
use pulpcore.Repository.Version.{Membership, Version, Fault, Result, ok, err, added_pks}

-- `versions.complete().filter(p).order_by("number")[0]`, and with "-number".
abbrev pub lower : Version → Option Version → Version
lower v none = v
lower v (some w) = if leb v.number w.number then v else w

abbrev pub upper : Version → Option Version → Version
upper v none = v
upper v (some w) = if leb w.number v.number then v else w

unfoldable pub lowest : (Version → Bool) → List Version → Option Version
lowest p [] = none
lowest p (v ∷ versions) =
    let rest = lowest p versions in if v.complete && p v then some (lower v rest) else rest

unfoldable pub highest : (Version → Bool) → List Version → Option Version
highest p [] = none
highest p (v ∷ versions) =
    let rest = highest p versions in if v.complete && p v then some (upper v rest) else rest

-- `next` and `previous`; none where the program raises `DoesNotExist`.
unfoldable pub next : ℕ → List Version → Option Version
unfolding lowest
next number versions = lowest (λ v. ltb number v.number) versions

unfoldable pub previous : ℕ → List Version → Option Version
unfolding highest
previous number versions = highest (λ v. ltb v.number number) versions

-- `version_removed_id_content_id_map`, by the version that removes the content again.
abbrev pub Groups : Type 0
Groups = List (Option ℕ × List ℕ)

unfoldable pub add_to : Option ℕ → ℕ → Groups → Groups
add_to key x [] = (key, x ∷ []) ∷ []
add_to key x ((k, xs) ∷ groups) =
    let rest = add_to key x groups in
    if opt_beq k key then (k, xs ++ x ∷ []) ∷ groups else (k, xs) ∷ rest

unfoldable pub group_rows : Groups → List Membership → Groups
unfolding add_to
group_rows groups [] = groups
group_rows groups (r ∷ rows) = group_rows (add_to r.version_removed r.content groups) rows

-- The updates of the loop over the map.
unfoldable pub set_removed : ℕ → Groups → List Membership → List Membership
set_removed number [] rows = rows
set_removed number ((key, ids) ∷ groups) rows = set_removed number groups (
    update_where (λ r. opt_beq r.version_removed (some number) && contains ids r.content)
      (λ r. record r { version_removed = key }) rows)

abbrev pub removed_and_readded : ℕ → ℕ → List Membership → List ℕ
removed_and_readded number next_number rows =
    map (λ r. r.content)
      (filter
        (λ r.
          opt_beq r.version_removed (some number)
          && contains (added_pks next_number rows) r.content)
        rows)

abbrev pub is_readded : ℕ → ℕ → List Membership → Membership → Bool
is_readded number next_number rows r =
    r.version_added == next_number
    && contains (removed_and_readded number next_number rows) r.content

-- Moves the additions and the removals of a version to the next one.
abbrev pub move_forward : ℕ → ℕ → List Membership → List Membership
move_forward number next_number rows =
    update_where (λ r. opt_beq r.version_removed (some number))
      (λ r. record r { version_removed = some next_number })
      (update_where (λ r. r.version_added == number) (λ r. record r { version_added = next_number })
        rows)

-- `_squash`, without the counts of the next version.
unfoldable pub squash : ℕ → ℕ → List Membership → List Membership
unfolding group_rows set_removed added_pks
squash number next_number rows =
    let rows1 =
      delete_where (λ r. r.version_added == number && opt_beq r.version_removed (some next_number))
        rows in
    let groups = group_rows [] (filter (is_readded number next_number rows1) rows1) in
    let rows2 = delete_where (is_readded number next_number rows1) rows1 in
    move_forward number next_number (set_removed number groups rows2)

-- Where the version is the latest, and where it is incomplete.
abbrev pub forget : ℕ → List Membership → List Membership
forget number rows =
    update_where (λ r. opt_beq r.version_removed (some number))
      (λ r. record r { version_removed = none })
      (delete_where (λ r. r.version_added == number) rows)

abbrev pub mentions : ℕ → Membership → Bool
mentions number r = r.version_added == number || opt_beq r.version_removed (some number)

abbrev pub relations_without : ℕ → Option Version → List Membership → List Membership
relations_without number (some successor) rows = squash number successor.number rows
relations_without number none rows = forget number rows

-- `delete` with `check_protected`: the versions and the memberships that are left, or the error, which
-- rolls the transaction back. `protected_numbers` are those of `repository.protected_versions()`.
unfoldable pub delete :
    List ℕ → Version → List Version → List Membership → Result (List Version × List Membership)
unfolding next squash
delete protected_numbers v versions rows =
    let rows' = relations_without v.number (next v.number versions) rows in
    let left = delete_where (λ w. w.number == v.number) versions in
    if v.complete
    then if leb (count_where (λ w. w.complete) versions) 1
      then err Fault.last_version
      else if any (mentions v.number) rows'
      then err Fault.untranslated
      else if contains protected_numbers v.number
      then err Fault.protected_version
      else ok (left, rows')
    else if contains protected_numbers v.number
    then err Fault.protected_version
    else ok (left, forget v.number rows)
