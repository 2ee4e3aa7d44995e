-- ===== src/Repository/Retention.antt =====
-- `protected_versions` and `cleanup_old_versions` of the repositories of
-- pulpcore/app/models/repository.py. The distributions and publications are rows of their tables; the
-- publications are those of the versions of the repository, and go with their version.
pub mod Keep
pub mod Count
mod Tests
use pulpcore.Prelude.{
  ℕ, zero, suc, Bool, true, false, not, ◌&&◌, ◌||◌, Option, none, some, List, [], ◌∷◌, ◌++◌, map,
  filter, any, contains, leb, ◌==◌, eq_nat, if◌then◌else◌, first_where,
}
use pulpcore.Repository.Version.{Version, Membership, Fault, Result, ok, err}
use pulpcore.Repository.Version.Delete.{delete, highest, upper}
use pulpcore.Repository.Overwrite.{after}

pub record Publication : Type 0 where
  pub pk : ℕ
  pub repository_version : ℕ
  pub complete : Bool
  pub checkpoint : Bool

-- A distribution: the version or publication it serves, whether it is the repository's, whether it is
-- for checkpoints, and whether its type serves publications.
pub record Distribution : Type 0 where
  pub repository_version : Option ℕ
  pub publication : Option ℕ
  pub of_repository : Bool
  pub checkpoint : Bool
  pub serve_from_publication : Bool

-- The values that are not `None`.
abbrev pub present : List (Option ℕ) → List ℕ
present [] = []
present (none ∷ values) = present values
present (some x ∷ values) = x ∷ present values

-- `self.versions.filter(p).last()`
abbrev pub last_version : (Version → Bool) → List Version → Option Version
last_version p [] = none
last_version p (v ∷ versions) =
    let rest = last_version p versions in if p v then some (upper v rest) else rest

unfoldable pub latest_version : List Version → Option Version
unfolding highest
latest_version versions = highest (λ v. true) versions

abbrev pub number_of : Option Version → List ℕ
number_of none = []
number_of (some v) = v.number ∷ []

-- The publications whose version is there still.
abbrev pub remaining : List Version → List Publication → List Publication
remaining versions pubs =
    filter (λ p. any (λ (v : Version). v.number == p.repository_version) versions) pubs

abbrev pub published : List Publication → List ℕ
published pubs = map (λ p. p.repository_version) pubs

-- The version that the first distribution of the repository, checkpoints aside, would serve.
abbrev pub served_latest : Option Distribution → List Publication → List Version → List ℕ
served_latest none pubs versions = []
served_latest (some distro) pubs versions =
    let complete_numbers = published (filter (λ p. p.complete) pubs) in
    if distro.serve_from_publication
    then number_of (last_version (λ v. contains complete_numbers v.number) versions)
    else number_of (latest_version versions)

-- The numbers of the protected versions.
unfoldable pub protected_versions : List Distribution → List Publication → List Version → List ℕ
unfolding latest_version
protected_versions dists all_pubs versions =
    let pubs = remaining versions all_pubs in
    let dist_pub_ids = present (map (λ d. d.publication) dists) in
    let by_version = present (map (λ d. d.repository_version) dists) in
    let by_publication = published (filter (λ p. contains dist_pub_ids p.pk) pubs) in
    let checkpoints = published (filter (λ p. p.checkpoint) pubs) in
    let by_checkpoint =
      if any (λ d. d.of_repository && d.checkpoint) dists then checkpoints else [] in
    let distro = first_where (λ d. d.of_repository && not d.checkpoint) dists in
    let numbers =
      by_version ++ (by_publication ++ (by_checkpoint ++ served_latest distro pubs versions)) in
    map (λ (v : Version). v.number) (filter (λ (v : Version). contains numbers v.number) versions)

-- `order_by("-number")`
abbrev pub insert_newest : Version → List Version → List Version
insert_newest v [] = v ∷ []
insert_newest v (w ∷ versions) =
    let rest = insert_newest v versions in
    if leb w.number v.number then v ∷ w ∷ versions else w ∷ rest

unfoldable pub newest_first : List Version → List Version
newest_first [] = []
newest_first (v ∷ versions) = insert_newest v (newest_first versions)

-- The versions that count for the limit, and those that are beyond it.
abbrev pub is_cleanable : List ℕ → Version → Bool
is_cleanable protected_numbers v = v.complete && not (contains protected_numbers v.number)

abbrev pub beyond : ℕ → List ℕ → List Version → List Version
beyond retain protected_numbers versions =
    after retain (newest_first (filter (is_cleanable protected_numbers) versions))

pub data Ended : Type 0 where
  returned runtime_error : Ended
  failed : Fault → Ended

-- What follows a deletion: the rest of the loop, or the end of it.
abbrev pub next_deletion :
    (List Version → List Membership → Ended × List Version × List Membership)
    → List Version
    → List Membership
    → Result (List Version × List Membership)
    → Ended × List Version × List Membership
next_deletion others versions rows (ok (left, rows')) = others left rows'
next_deletion others versions rows (err fault) = (failed fault, versions, rows)

-- The loop: each deletion looks up what is protected again; one that raises ends it.
unfoldable pub delete_versions :
    List Distribution
    → List Publication
    → List Version
    → List Version
    → List Membership
    → Ended × List Version × List Membership
unfolding delete protected_versions
delete_versions dists pubs [] versions rows = (returned, versions, rows)
delete_versions dists pubs (v ∷ old) versions rows =
    next_deletion (delete_versions dists pubs old) versions rows
      (delete (protected_versions dists pubs versions) v versions rows)

abbrev pub cleanup_beyond :
    ℕ
    → List Distribution
    → List Publication
    → List Version
    → List Membership
    → Ended × List Version × List Membership
cleanup_beyond retain dists pubs versions rows =
    delete_versions dists pubs (beyond retain (protected_versions dists pubs versions) versions)
      versions rows

-- `if self.retain_repo_versions`: neither `None` nor 0 limits anything.
abbrev pub limit_to :
    Option ℕ
    → List Distribution
    → List Publication
    → List Version
    → List Membership
    → Ended × List Version × List Membership
limit_to none dists pubs versions rows = (returned, versions, rows)
limit_to (some zero) dists pubs versions rows = (returned, versions, rows)
limit_to (some (suc n)) dists pubs versions rows = cleanup_beyond (suc n) dists pubs versions rows

unfoldable pub cleanup_old_versions :
    Option ℕ
    → List Distribution
    → List Publication
    → List Version
    → List Membership
    → Ended × List Version × List Membership
unfolding delete_versions newest_first
cleanup_old_versions retain dists pubs versions rows =
    if any (λ (v : Version). not v.complete) versions
    then (runtime_error, versions, rows)
    else limit_to retain dists pubs versions rows
