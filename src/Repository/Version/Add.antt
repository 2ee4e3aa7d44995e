-- ===== src/Repository/Version/Add.antt =====
-- `add_content` of a version.
use pulpcore.Prelude.{
  ℕ, ◌≡◌, refl, sym, ap, ◌∙◌, true, false, not, ◌&&◌, ◌||◌, List, ◌++◌, map, ◌<◌, arith, ◌==◌,
  eq_nat, length, contains, All, any-append, inr, All-append, All-map,
}
use pulpcore.Repository.Version.{
  Membership, Version, ContentUnit, pks, is_in, minus, distinct, removed_pks, readd_loop,
  new_membership, in_domain, add_content,
}
use pulpcore.Repository.Version.Members.{
  member, IsUpTo, contains-filter, contains-append, contains-distinct,
}
use pulpcore.Repository.Version.Contract.{Tracks, SetsContent}
use pulpcore.Repository.Version.Readd.{member-new, member-new_below, IsReadd, readd_loop-IsReadd}

-- The version with the rows that the loop left and the memberships of the rest.
module _ (batch_size total : ℕ) (ids : List ℕ) (v : Version) (rows : List Membership)
    (t : Tracks v rows) where
  abbrev to_add : List ℕ
  to_add = minus (distinct ids) v.content_ids

  abbrev looped : List ℕ × List Membership
  looped = readd_loop total batch_size total v.number 0 to_add rows

  abbrev added_rows : List Membership
  added_rows = looped.1 ++ map (new_membership v.number) looped.0

  kept : IsReadd v.number batch_size total to_add rows looped
  kept = readd_loop-IsReadd v.number batch_size total total 0 to_add rows t.up_to

  contains-to_add :
      (x : ℕ)
      → (member v.number x rows || contains to_add x) ≡ (member v.number x rows || contains ids x)
  contains-to_add x =
      let filtered = contains-filter (λ y. not (contains v.content_ids y)) x (distinct ids) in
      rw (filtered, contains-distinct ids x, t.agree x) (ground arith)

  added_rows-content :
      (x : ℕ) → member v.number x added_rows ≡ (member v.number x rows || contains ids x)
  added_rows-content x =
      any-append (λ r. r.content == x && is_in v.number r) looped.1
        (map (new_membership v.number) looped.0)
      ∙ ap (λ b. member v.number x looped.1 || b) (member-new v.number looped.0 x)
      ∙ kept.content x
      ∙ contains-to_add x

  added_rows-earlier : (k x : ℕ) → k < v.number → member k x added_rows ≡ member k x rows
  added_rows-earlier k x below =
      any-append (λ r. r.content == x && is_in k r) looped.1
        (map (new_membership v.number) looped.0)
      ∙ ground (arith, member-new_below k v.number below looped.0 x, kept.earlier k x below)

  added_rows-agree : (x : ℕ) → contains (v.content_ids ++ to_add) x ≡ member v.number x added_rows
  added_rows-agree x =
      contains-append v.content_ids to_add x
      ∙ ap (λ b. b || contains to_add x) (t.agree x)
      ∙ contains-to_add x
      ∙ sym (added_rows-content x)

  added_rows-IsUpTo : All (IsUpTo v.number) added_rows
  added_rows-IsUpTo =
      All-append (IsUpTo v.number) looped.1 (map (new_membership v.number) looped.0) kept.up_to (
        All-map (new_membership v.number) (IsUpTo v.number)
          (λ pk. record { added = omega arith; removed = inr refl }) looped.0)

-- `add_content` on a new version that tracks its content, with content of its domain and any
-- batch size, succeeds and puts exactly the old content and the content passed in the version.
-- The array of keys agrees with the table afterwards, and the earlier versions keep their content.
pub add_content-SetsContent :
    (batch_size domain : ℕ) (content : List ContentUnit) (v : Version) (rows : List Membership)
    → Tracks v rows
    → v.complete ≡ false
    → in_domain domain content ≡ true
    → SetsContent
        (λ x. member v.number x rows || contains (pks content) x)
        v
        rows
        (add_content batch_size domain content v rows)
unfolding add_content
add_content-SetsContent batch_size domain content v rows t new own =
    let ids = pks content in
    let total = length (removed_pks v.number rows) in
    rw (new, own)
      (record {
        number = refl;
        complete = refl;
        tracks = record {
          up_to = added_rows-IsUpTo batch_size total ids v rows t;
          agree = added_rows-agree batch_size total ids v rows t;
        };
        content = added_rows-content batch_size total ids v rows t;
        earlier = added_rows-earlier batch_size total ids v rows t;
      })
