-- ===== src/Repository/Version/Preserve.antt =====
-- Deleting a version keeps the content of every other version.
use pulpcore.Prelude.{
  ℕ, ◌≡◌, refl, sym, ap, ◌∙◌, subst, Bool, true, false, not, ◌&&◌, Option, none, some, List, [],
  ◌<◌, ◌≤◌, arith, ◌⊎◌, inl, inr, leb, ◌==◌, eq_nat, opt_beq, filter, any, contains, update_where,
  delete_where, In, Bool-cases, In-any, any-In, In-filter, filter-In, map-In, eq_of_==, ==-refl,
  eq_of_opt_beq, true_and,
}
use pulpcore.Repository.Version.{Membership, added_pks, is_in, removed_by}
use pulpcore.Repository.Version.Members.{member, any-update, any-delete}
use pulpcore.Repository.Version.Delete.{
  Groups, group_rows, set_removed, removed_and_readded, is_readded, move_forward, squash,
}
use pulpcore.Repository.Version.Readding.{
  has_pair, has_pair-group_rows, any-set_removed, assign, assign-other, assign-removed,
  opt_beq_refl,
}

-- Two tests that imply each other are equal.
bool_iff : (a b : Bool) → (a ≡ true → b ≡ true) → (b ≡ true → a ≡ true) → a ≡ b
bool_iff true b f g = sym (f refl)
bool_iff false true f g = g refl
bool_iff false false f g = refl

true-false : true ≡ false → ⊥
true-false h = cc

-- What the tables of the program satisfy: a membership ends after it begins, and a version adds a
-- content once.
pub record WellFormed (rows : List Membership) : Type 0 where
  pub ordered :
      (r : Membership) (n : ℕ) → In r rows → r.version_removed ≡ some n → r.version_added < n
  pub once :
      (r s : Membership)
      → In r rows
      → In s rows
      → r.content ≡ s.content
      → r.version_added ≡ s.version_added
      → r ≡ s

module _ (m n : ℕ) (after : m < n) (k : ℕ) (outside : (k < m) ⊎ (n ≤ k)) (x : ℕ) where
  abbrev is_x : Membership → Bool
  is_x r = r.content == x && is_in k r

  same_side : leb n k ≡ leb m k
  same_side = elim outside [ inl below ↦ ground arith | inr above ↦ ground arith ]

  -- Moving changes forward changes no version outside.
  moved_forward : (rows : List Membership) → member k x (move_forward m n rows) ≡ member k x rows
  moved_forward rows =
      any-update (λ r. r.content == x && is_in k r) (λ r. opt_beq r.version_removed (some m))
        (λ r. record r { version_removed = some n })
        (λ r h.
          let e : r.version_removed ≡ some m = eq_of_opt_beq r.version_removed (some m) h in
          rw (e, same_side) refl)
        (update_where (λ r. r.version_added == m) (λ r. record r { version_added = n }) rows)
      ∙ any-update (λ r. r.content == x && is_in k r) (λ r. r.version_added == m)
          (λ r. record r { version_added = n })
          (λ r h.
            let e : r.version_added ≡ m = eq_of_== r.version_added m h in rw (e, same_side) refl)
          rows

  -- The row of a removal that takes the end of the row that adds the content again.
  survives :
      (q r : Membership) (key : Option ℕ)
      → q.content ≡ r.content
      → q.version_added < m
      → r.version_added ≡ n
      → key ≡ r.version_removed
      → is_x r ≡ true
      → is_x (record q { version_removed = key }) ≡ true
  survives q r key same below a e t = rw (same, e) (ground arith)

  -- Before both versions, the end of a row does not matter as long as it stays behind them.
  ends_later :
      (r : Membership) (key : Option ℕ)
      → r.version_removed ≡ some m
      → ((v : ℕ) → key ≡ some v → n < v)
      → is_x r ≡ true
      → is_x (record r { version_removed = key }) ≡ true
  ends_later r none gone later t = ground arith
  ends_later r (some v) gone later t =
      let behind : n < v = later v refl in
      let t' : (r.content == x && (leb r.version_added k && not (leb m k))) ≡ true =
        sym (ap (λ o. r.content == x && (leb r.version_added k && not (removed_by k o))) gone)
        ∙ t in
      ground arith

  module _ (rows1 : List Membership) (wf : WellFormed rows1) where
    abbrev readded : Membership → Bool
    readded = is_readded m n rows1

    abbrev groups : Groups
    groups = group_rows [] (filter readded rows1)

    -- A pair of the map comes from a row that the next version adds.
    pair-row :
        (c : ℕ) (key : Option ℕ)
        → has_pair groups c key ≡ true
        → (s : Membership) × In s rows1
          × (s.version_removed ≡ key)
          × (s.content ≡ c)
          × (s.version_added ≡ n)
    pair-row c key h =
        let (s, i, t) =
          any-In (λ r. opt_beq r.version_removed key && c == r.content) (filter readded rows1)
            (sym (has_pair-group_rows [] (filter readded rows1) c key) ∙ h) in
        let (j, u) = In-filter readded s rows1 i in
        let (same_key, same_content) =
          true_and (opt_beq s.version_removed key) (c == s.content) t in
        (
          s,
          j,
          eq_of_opt_beq s.version_removed key same_key,
          sym (eq_of_== c s.content same_content),
          eq_of_== s.version_added n
              (true_and (s.version_added == n) (contains (removed_and_readded m n rows1) s.content)
                u).0,
        )

    row-pair :
        (r : Membership)
        → In r rows1
        → readded r ≡ true
        → has_pair groups r.content r.version_removed ≡ true
    row-pair r i u =
        has_pair-group_rows [] (filter readded rows1) r.content r.version_removed
        ∙ In-any (λ s. opt_beq s.version_removed r.version_removed && r.content == s.content) r
            (filter readded rows1) (filter-In readded r rows1 i u)
            (rw (opt_beq_refl r.version_removed, ==-refl r.content) refl)

    no_own_key : (c : ℕ) → has_pair groups c (some m) ≡ false
    no_own_key c = elim (Bool-cases (has_pair groups c (some m))) [
      | inr differ ↦ differ
      | inl has ↦
          let (s, i, e, _, a) = pair-row c (some m) has in
          let below = wf.ordered s m i e in absurd (omega (arith, below, a, after))
    ]

    -- The removal of a content that the next version adds again.
    removed-row :
        (r : Membership)
        → readded r ≡ true
        → (q : Membership) × In q rows1 × (q.version_removed ≡ some m) × (q.content ≡ r.content)
    removed-row r u =
        let u' =
          (true_and (r.version_added == n) (contains (removed_and_readded m n rows1) r.content)
            u).1 in
        let (c, i, t) = any-In (λ y. r.content == y) (removed_and_readded m n rows1) u' in
        let (q, j, e) =
          map-In (λ q. q.content) c
            (filter
              (λ q. opt_beq q.version_removed (some m) && contains (added_pks n rows1) q.content)
              rows1)
            i in
        let (l, v) =
          In-filter
            (λ q. opt_beq q.version_removed (some m) && contains (added_pks n rows1) q.content) q
            rows1 j in
        (
          q,
          l,
          eq_of_opt_beq q.version_removed (some m)
              (true_and (opt_beq q.version_removed (some m))
                (contains (added_pks n rows1) q.content) v).0,
          sym (eq_of_== r.content c t ∙ e),
        )

    forward :
        (r : Membership) → In r rows1 → is_x (assign m groups r) ≡ true → any is_x rows1 ≡ true
    forward r i t = elim (Bool-cases (opt_beq r.version_removed (some m))) [
      | inr other ↦ In-any is_x r rows1 i (sym (ap is_x (assign-other m groups r other)) ∙ t)
      | inl removed ↦ elim (assign-removed m groups r (no_own_key r.content) removed) [
        | inl (_, e) ↦ In-any is_x r rows1 i (sym (ap is_x e) ∙ t)
        | inr (key, has, e) ↦
            let t' : is_x (record r { version_removed = key }) ≡ true = sym (ap is_x e) ∙ t in
            let gone : r.version_removed ≡ some m =
              eq_of_opt_beq r.version_removed (some m) removed in
            elim outside [
              | inl below ↦ In-any is_x r rows1 i (rw gone (ground arith))
              | inr above ↦
                  let (s, j, same_key, same_content, a) = pair-row r.content key has in
                  In-any is_x s rows1 j (rw (same_key, same_content, a) (ground arith))
            ]
      ]
    ]

    abbrev is_now : Membership → Bool
    is_now r = is_x (assign m groups r)

    -- A row of the content that the next version adds again stands for the removal before it.
    backward_readded :
        (r : Membership)
        → In r rows1
        → readded r ≡ true
        → is_x r ≡ true
        → any is_now (delete_where readded rows1) ≡ true
    backward_readded r i u t =
        let a =
          eq_of_== r.version_added n
            (true_and (r.version_added == n) (contains (removed_and_readded m n rows1) r.content)
              u).0 in
        let (q, j, gone, same) = removed-row r u in
        let below = wf.ordered q m j gone in
        let old : readded q ≡ false = ground arith in
        let stays = filter-In (λ y. not (readded y)) q rows1 j (ap not old) in
        let removed : opt_beq q.version_removed (some m) ≡ true = rw gone (==-refl m) in
        elim (assign-removed m groups q (no_own_key q.content) removed) [
          | inl (no_key, _) ↦ absurd (
              true-false (
                sym (row-pair r i u)
                ∙ ap (λ c. has_pair groups c r.version_removed) (sym same)
                ∙ no_key r.version_removed))
          | inr (key, has, e) ↦
              let (s, l, same_key, same_content, added_s) = pair-row q.content key has in
              let one : s ≡ r = wf.once s r l i (same_content ∙ same) (added_s ∙ sym a) in
              let key_r : key ≡ r.version_removed =
                sym same_key ∙ ap (λ y. y.version_removed) one in
              In-any is_now q (delete_where readded rows1) stays
                (ap is_x e ∙ survives q r key same below a key_r t)
        ]

    backward_kept :
        (r : Membership)
        → In r rows1
        → readded r ≡ false
        → is_x r ≡ true
        → any is_now (delete_where readded rows1) ≡ true
    backward_kept r i u t =
        let stays = filter-In (λ y. not (readded y)) r rows1 i (ap not u) in
        In-any is_now r (delete_where readded rows1) stays
          (elim (Bool-cases (opt_beq r.version_removed (some m))) [
            | inr other ↦ ap is_x (assign-other m groups r other) ∙ t
            | inl removed ↦
                let gone : r.version_removed ≡ some m =
                  eq_of_opt_beq r.version_removed (some m) removed in
                elim (assign-removed m groups r (no_own_key r.content) removed) [
                  | inl (_, e) ↦ ap is_x e ∙ t
                  | inr (key, has, e) ↦
                      let (s, j, same_key, _, added_s) = pair-row r.content key has in
                      ap is_x e
                      ∙ ends_later r key gone
                          (λ v at. subst (λ y. y < v) added_s (wf.ordered s v j (same_key ∙ at))) t
                ]
          ])

    readded-member : any is_now (delete_where readded rows1) ≡ any is_x rows1
    readded-member =
        bool_iff (any is_now (delete_where readded rows1)) (any is_x rows1)
          (λ h.
            let (r, i, t) = any-In is_now (delete_where readded rows1) h in
            forward r (In-filter (λ y. not (readded y)) r rows1 i).0 t)
          (λ h.
            let (r, i, t) = any-In is_x rows1 h in
            elim (Bool-cases (readded r)) [
              | inl u ↦ backward_readded r i u t
              | inr u ↦ backward_kept r i u t
            ])

  -- Squashing a version into the next one keeps the content of every version before it and of
  -- every version from the next one on, where the table is well formed: each membership ends after
  -- it begins, and no version adds a content twice.
  pub member-squash :
      (rows : List Membership) → WellFormed rows → member k x (squash m n rows) ≡ member k x rows
  unfolding squash
  member-squash rows wf =
      let gone : Membership → Bool =
        λ r. r.version_added == m && opt_beq r.version_removed (some n) in
      let rows1 = delete_where gone rows in
      let kept : (r : Membership) → In r rows1 → In r rows =
        λ r i. (In-filter (λ y. not (gone y)) r rows i).0 in
      let wf1 : WellFormed rows1 = record {
        ordered = λ r v i. wf.ordered r v (kept r i);
        once = λ r s i j. wf.once r s (kept r i) (kept s j);
      } in
      moved_forward (set_removed m (groups rows1 wf1) (delete_where (is_readded m n rows1) rows1))
      ∙ any-set_removed is_x m (groups rows1 wf1) (delete_where (is_readded m n rows1) rows1)
      ∙ readded-member rows1 wf1
      ∙ any-delete is_x gone
          (λ r h.
            let (at, end) =
              true_and (r.version_added == m) (opt_beq r.version_removed (some n)) h in
            let e1 : r.version_added ≡ m = eq_of_== r.version_added m at in
            let e2 : r.version_removed ≡ some n = eq_of_opt_beq r.version_removed (some n) end in
            rw (e1, e2, same_side) (ground arith))
          rows
