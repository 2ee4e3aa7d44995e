-- ===== src/Repository/Version/Contract.antt =====
-- What a version promises: its array of keys and the table of memberships tell one content.
use pulpcore.Prelude.{ℕ, ◌≡◌, Bool, List, ◌<◌, eq_nat, contains, All}
use pulpcore.Repository.Version.{Membership, Version, Result, ok, err}
use pulpcore.Repository.Version.Members.{member, IsUpTo}

-- The array `content_ids` and the table agree on a version that is the latest one.
pub record Tracks (v : Version) (rows : List Membership) : Type 0 where
  pub up_to : All (IsUpTo v.number) rows
  pub agree : (x : ℕ) → contains v.content_ids x ≡ member v.number x rows

-- The version `w` with the table `rows'` is `v` with the content `now`, and the table says of the
-- earlier versions what it said.
pub record BecomesContent (now : ℕ → Bool) (v : Version) (rows : List Membership) (w : Version)
    (rows' : List Membership) : Type 0 where
  pub number : w.number ≡ v.number
  pub complete : w.complete ≡ v.complete
  pub tracks : Tracks w rows'
  pub content : (x : ℕ) → member v.number x rows' ≡ now x
  pub earlier : (k x : ℕ) → k < v.number → member k x rows' ≡ member k x rows

-- The call succeeds, and the version has the content `now`.
abbrev pub SetsContent :
    (ℕ → Bool) → Version → List Membership → Result (Version × List Membership) → Type 0
SetsContent now v rows (ok (w, rows')) = BecomesContent now v rows w rows'
SetsContent now v rows (err e) = ⊥
