-- ===== src/Repository/Version.antt =====
-- `RepositoryVersion` of pulpcore/app/models/repository.py: the table of memberships of one
-- repository, and what a version adds to and removes from its content. Versions are named by
-- their numbers and content by its key.
pub mod Members
pub mod Contract
mod Readd
pub mod Add
pub mod Remove
pub mod Replace
pub mod Delete
mod Readding
pub mod Preserve
pub mod Deletion
mod Tests
use pulpcore.Prelude.{
  ℕ, zero, suc, ◌+◌, ◌-◌, ◌≡◌, Bool, true, false, not, ◌&&◌, ◌||◌, Option, none, some, List, [],
  ◌∷◌, ◌++◌, map, if◌then◌else◌, ltb, leb, ◌==◌, eq_nat, opt_beq, length, filter, any, contains,
  update_where, delete_where, first_where,
}

-- A row of `RepositoryContent`. Its constraints, one row for each content and `version_added` and one
-- for each content and `version_removed`, are not
-- enforced here.
pub record Membership : Type 0 where
  pub content : ℕ
  pub version_added : ℕ
  pub version_removed : Option ℕ

pub record Version : Type 0 where
  pub number : ℕ
  pub complete : Bool
  pub content_ids : List ℕ

-- An element of the queryset that a caller passes.
pub record ContentUnit : Type 0 where
  pub pk : ℕ
  pub pulp_domain : ℕ

pub data Fault : Type 0 where
  resource_immutable assertion_error does_not_exist last_version untranslated protected_version :
      Fault

pub data Result {ℓ} (A : Type ℓ) : Type ℓ where
  ok : A → Result A
  err : Fault → Result A

-- `version_removed__number__lte=number`, false where nothing is joined.
abbrev pub removed_by : ℕ → Option ℕ → Bool
removed_by number none = false
removed_by number (some n) = leb n number

-- The test of `_content_relationships`.
abbrev pub is_in : ℕ → Membership → Bool
is_in number r = leb r.version_added number && not (removed_by number r.version_removed)

unfoldable pub content_relationships : ℕ → List Membership → List Membership
content_relationships number rows = filter (is_in number) rows

-- `pk in set`, the set as a list.
abbrev pub pks : List ContentUnit → List ℕ
pks content = map (λ c. c.pk) content

-- `set(xs) - set(ys)`
abbrev pub minus : List ℕ → List ℕ → List ℕ
minus xs ys = filter (λ x. not (contains ys x)) xs

-- `set(xs) & set(ys)`
abbrev pub inter : List ℕ → List ℕ → List ℕ
inter xs ys = filter (λ x. contains ys x) xs

-- `set(xs)`: each element once.
abbrev pub distinct : List ℕ → List ℕ
distinct [] = []
distinct (x ∷ xs) = x ∷ filter (λ y. not (y == x)) (distinct xs)

-- `order_by("pk")`
unfoldable pub insert_pk : ℕ → List ℕ → List ℕ
insert_pk x [] = x ∷ []
insert_pk x (y ∷ ys) = if leb x y then x ∷ y ∷ ys else y ∷ insert_pk x ys

unfoldable pub order_pks : List ℕ → List ℕ
unfolding insert_pk
order_pks [] = []
order_pks (x ∷ xs) = insert_pk x (order_pks xs)

-- The keys of `self.removed()`: content with a membership that this version removed.
unfoldable pub removed_pks : ℕ → List Membership → List ℕ
removed_pks number rows =
    map (λ r. r.content) (filter (λ r. opt_beq r.version_removed (some number)) rows)

-- The keys of `self.added()`.
unfoldable pub added_pks : ℕ → List Membership → List ℕ
added_pks number rows = map (λ r. r.content) (filter (λ r. r.version_added == number) rows)

-- `qs[start:end]`
abbrev pub slice : ℕ → ℕ → List ℕ → List ℕ
slice zero zero xs = []
slice zero (suc end) [] = []
slice zero (suc end) (x ∷ xs) = x ∷ slice zero end xs
slice (suc start) end [] = []
slice (suc start) end (x ∷ xs) = slice start (end - 1) xs

-- `.filter(content__in=to_readd, version_removed=self).update(version_removed=None)`
abbrev pub undo_removal : ℕ → List ℕ → List Membership → List Membership
undo_removal number to_readd rows =
    update_where (λ r. contains to_readd r.content && opt_beq r.version_removed (some number))
      (λ r. record r { version_removed = none }) rows

-- The loop over `batch_qs(self.removed().order_by("pk"), batch_size)`. The number of rows is read
-- once, and each batch is a slice of the query as it stands when its turn comes. The fuel is that
-- number, which is enough since each round moves `start` by the batch size.
unfoldable pub readd_loop : ℕ → ℕ → ℕ → ℕ → ℕ → List ℕ → List Membership → List ℕ × List Membership
readd_loop zero batch_size total number start to_add rows = (to_add, rows)
readd_loop (suc fuel) batch_size total number start to_add rows =
    let end = if leb (start + batch_size) total then start + batch_size else total in
    let to_readd = inter to_add (slice start end (order_pks (removed_pks number rows))) in
    let rest =
      readd_loop fuel batch_size total number (start + batch_size) (minus to_add to_readd)
        (undo_removal number to_readd rows) in
    if ltb start total then rest else (to_add, rows)

abbrev pub new_membership : ℕ → ℕ → Membership
new_membership number pk = record { content = pk; version_added = number; version_removed = none }

-- `assert not Content.objects.filter(pk__in=content).exclude(pulp_domain_id=...).exists()`
abbrev pub in_domain : ℕ → List ContentUnit → Bool
in_domain domain content = not (any (λ c. not (c.pulp_domain == domain)) content)

-- `add_content`. The program's batch size is 1000.
unfoldable pub add_content :
    ℕ → ℕ → List ContentUnit → Version → List Membership → Result (Version × List Membership)
unfolding readd_loop removed_pks
add_content batch_size domain content v rows =
    let to_add = minus (distinct (pks content)) v.content_ids in
    let total = length (removed_pks v.number rows) in
    let (left, rows') = readd_loop total batch_size total v.number 0 to_add rows in
    if v.complete
    then err resource_immutable
    else if in_domain domain content
    then ok (
      record v { content_ids = v.content_ids ++ to_add },
      rows' ++ map (new_membership v.number) left,
    )
    else err assertion_error

-- The two queries of `remove_content`.
abbrev pub drop_memberships : ℕ → List ℕ → List Membership → List Membership
drop_memberships number ids rows =
    let kept =
      delete_where
        (λ (r : Membership).
          contains ids r.content && (r.version_added == number && opt_beq r.version_removed none))
        rows in
    update_where (λ (r : Membership). contains ids r.content && opt_beq r.version_removed none)
      (λ r. record r { version_removed = some number }) kept

abbrev pub is_empty_list {ℓ} : {A : Type ℓ} → List A → Bool
is_empty_list [] = true
is_empty_list (_ ∷ _) = false

unfoldable pub remove_content :
    ℕ → List ContentUnit → Version → List Membership → Result (Version × List Membership)
remove_content domain content v rows =
    let ids = pks content in
    if v.complete
    then err resource_immutable
    else if is_empty_list content
    then ok (v, rows)
    else if in_domain domain content
    then ok (
      record v { content_ids = minus (distinct v.content_ids) ids },
      drop_memberships v.number ids rows,
    )
    else err assertion_error

abbrev and_then :
    Result (Version × List Membership)
    → (Version → List Membership → Result (Version × List Membership))
    → Result (Version × List Membership)
and_then (ok (v, rows)) f = f v rows
and_then (err e) f = err e

-- `set_content`; `everything` is the table of content units.
unfoldable pub set_content :
    ℕ
    → ℕ
    → List ContentUnit
    → List ContentUnit
    → Version
    → List Membership
    → Result (Version × List Membership)
unfolding add_content remove_content
set_content batch_size domain everything content v rows =
    let surplus =
      filter (λ (c : ContentUnit). contains v.content_ids c.pk && not (contains (pks content) c.pk))
        everything in
    and_then (remove_content domain surplus v rows) λ w rows'.
      add_content batch_size domain
        (filter (λ (c : ContentUnit). not (contains w.content_ids c.pk)) content) w rows'
