-- ===== src/Repository/Version/Remove.antt =====
-- `remove_content` of a version.
use pulpcore.Prelude.{
  ℕ, ◌≡◌, refl, sym, ap, ◌∙◌, Bool, true, false, not, ◌&&◌, none, some, List, [], ◌∷◌, arith, ◌==◌,
  eq_nat, opt_beq, contains, delete_where, All, inl, All-update_where, All-filter,
}
use pulpcore.Repository.Version.{
  Membership, Version, ContentUnit, pks, minus, distinct, in_domain, drop_memberships,
  remove_content,
}
use pulpcore.Repository.Version.Members.{
  member, IsUpTo, contains-filter, contains-distinct, member-drop, member-drop_below,
}
use pulpcore.Repository.Version.Contract.{Tracks, SetsContent}

drop-IsUpTo :
    (number : ℕ) (ids : List ℕ) (rows : List Membership)
    → All (IsUpTo number) rows
    → All (IsUpTo number) (drop_memberships number ids rows)
drop-IsUpTo number ids rows h =
    let gone : (r : Membership) → Bool = λ r.
      contains ids r.content && (r.version_added == number && opt_beq r.version_removed none) in
    All-update_where (IsUpTo number) (λ r. contains ids r.content && opt_beq r.version_removed none)
      (λ r. record r { version_removed = some number })
      (λ r _ b. record { added = b.added; removed = inl (ground arith) }) (delete_where gone rows)
      (All-filter (IsUpTo number) (λ r. not (gone r)) rows h)

-- The rows after the queries of `remove_content`.
drop-Tracks :
    (number : ℕ) (complete : Bool) (before ids : List ℕ) (rows : List Membership)
    → Tracks (record { number = number; complete = complete; content_ids = before }) rows
    → Tracks
        (record { number = number; complete = complete; content_ids = minus (distinct before) ids })
        (drop_memberships number ids rows)
drop-Tracks number complete before ids rows t = record {
  up_to = drop-IsUpTo number ids rows t.up_to;
  agree = λ x.
      contains-filter (λ y. not (contains ids y)) x (distinct before)
      ∙ ap (λ b. b && not (contains ids x)) (contains-distinct before x ∙ t.agree x)
      ∙ sym (member-drop number ids x rows t.up_to);
}

-- `remove_content` on a new version that tracks its content, with content of its domain, succeeds
-- and leaves exactly the old content without the content passed. The array of keys agrees with the
-- table afterwards, and the earlier versions keep their content.
pub remove_content-SetsContent :
    (domain : ℕ) (content : List ContentUnit) (v : Version) (rows : List Membership)
    → Tracks v rows
    → v.complete ≡ false
    → in_domain domain content ≡ true
    → SetsContent
        (λ x. member v.number x rows && not (contains (pks content) x))
        v
        rows
        (remove_content domain content v rows)
unfolding remove_content
remove_content-SetsContent domain [] v rows t new own =
    rw (new, own)
      (record {
        number = refl;
        complete = refl;
        tracks = record { up_to = t.up_to; agree = t.agree };
        content = λ x. ground arith;
        earlier = λ k x _. refl;
      })
remove_content-SetsContent domain (c ∷ content) v rows t new own =
    let ids = pks (c ∷ content) in
    rw (new, own)
      (record {
        number = refl;
        complete = refl;
        tracks =
            drop-Tracks v.number false v.content_ids ids rows
              (record { up_to = t.up_to; agree = t.agree });
        content = λ x. member-drop v.number ids x rows t.up_to;
        earlier = λ k x below. member-drop_below v.number ids x k below rows;
      })
