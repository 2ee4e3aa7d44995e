-- ===== src/Repository/Retention/Tests.antt =====
-- Three versions of a repository that keeps one besides those that are served.
use pulpcore.Prelude.{
  ℕ, ◌≤◌, ◌≡◌, refl, true, false, none, some, List, [], ◌∷◌, contains, In, count_where, eq_nat,
}
use pulpcore.Repository.Version.{Version, Membership}
use pulpcore.Repository.Retention.{
  Distribution, protected_versions, is_cleanable, returned, runtime_error, cleanup_old_versions,
}
use pulpcore.Repository.Retention.Keep.{cleanup_old_versions-keeps}
use pulpcore.Repository.Retention.Count.{cleanup_old_versions-count}

abbrev version : ℕ → Version
version n = record { number = n; complete = true; content_ids = [] }

abbrev versions : List Version
versions = version 1 ∷ version 2 ∷ version 3 ∷ []

abbrev rows : List Membership
rows = record { content = 5; version_added = 2; version_removed = none } ∷ []

abbrev served : List Distribution
served =
    record {
      repository_version = some 1;
      publication = none;
      of_repository = false;
      checkpoint = false;
      serve_from_publication = false;
    }
    ∷ []

cleaned : cleanup_old_versions (some 1) served [] versions rows ≡ (
  returned,
  version 1 ∷ version 3 ∷ [],
  record { content = 5; version_added = 3; version_removed = none } ∷ [],
)
unfolding cleanup_old_versions
cleaned = refl

in_flight :
    (cleanup_old_versions
      (some 1)
      served
      []
      (record (version 4) { complete = false } ∷ versions)
      rows).0
    ≡ runtime_error
unfolding cleanup_old_versions
in_flight = refl

returns : (cleanup_old_versions (some 1) served [] versions rows).0 ≡ returned
unfolding cleanup_old_versions
returns = refl

cleanup_old_versions-keeps_example :
    let left = (cleanup_old_versions (some 1) served [] versions rows).1 in
    (In (version 1) left → In (version 1) versions)
    × (In (version 1) versions
        → contains (protected_versions served [] versions) 1 ≡ true
        → In (version 1) left)
cleanup_old_versions-keeps_example =
    cleanup_old_versions-keeps served [] (some 1) versions rows (version 1)

cleanup_old_versions-count_example :
    count_where
      (is_cleanable (protected_versions served [] versions))
      (cleanup_old_versions (some 1) served [] versions rows).1
    ≤ 1
cleanup_old_versions-count_example = cleanup_old_versions-count served [] 0 versions rows returns
