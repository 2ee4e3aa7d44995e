-- ===== src/Repository/Version/Members.antt =====
-- Which content the table of memberships puts in a version, and how the updates of the table
-- change that.
use pulpcore.Prelude.{
  ℕ, zero, suc, ◌-◌, ◌≡◌, refl, sym, ap, ◌∙◌, Bool, true, false, not, ◌&&◌, ◌||◌, none, some, List,
  [], ◌∷◌, ◌++◌, ◌<◌, ◌≤◌, arith, ◌==◌, eq_nat, opt_beq, filter, any, contains, update_where,
  delete_where, ◌⊎◌, All, Bool-cases, any-append, inl, inr, true_and, eq_of_opt_beq, eq_of_==,
}
use pulpcore.Repository.Version.{
  Membership, removed_by, is_in, distinct, insert_pk, order_pks, removed_pks, slice, undo_removal,
  drop_memberships,
}

-- The content is in the version, by the test of `_content_relationships`.
abbrev pub member : ℕ → ℕ → List Membership → Bool
member number x rows = any (λ r. r.content == x && is_in number r) rows

module _ (p : ℕ → Bool) (x : ℕ) where
  pub contains-filter : (xs : List ℕ) → contains (filter p xs) x ≡ (contains xs x && p x)
  contains-filter [] = refl
  contains-filter (y ∷ ys) = elim (Bool-cases (x == y)) [
    | inl here ↦ let e : x ≡ y = ground arith in ground (arith, contains-filter ys, ap p e)
    | inr other ↦ ground (arith, contains-filter ys)
  ]

pub contains-append :
    (xs ys : List ℕ) (x : ℕ) → contains (xs ++ ys) x ≡ (contains xs x || contains ys x)
contains-append xs ys x = any-append (λ y. x == y) xs ys

contains-insert_pk :
    (y : ℕ) (xs : List ℕ) (x : ℕ) → contains (insert_pk y xs) x ≡ (x == y || contains xs x)
unfolding insert_pk
contains-insert_pk y [] x = refl
contains-insert_pk y (z ∷ xs) x = ground (arith, contains-insert_pk y xs x)

contains-order_pks : (xs : List ℕ) (x : ℕ) → contains (order_pks xs) x ≡ contains xs x
unfolding order_pks
contains-order_pks [] x = refl
contains-order_pks (y ∷ xs) x =
    ground (arith, contains-insert_pk y (order_pks xs) x, contains-order_pks xs x)

contains-slice :
    (start end : ℕ) (xs : List ℕ) (x : ℕ)
    → contains (slice start end xs) x ≡ true
    → contains xs x ≡ true
contains-slice zero zero xs x h = cc
contains-slice zero (suc end) [] x h = h
contains-slice zero (suc end) (y ∷ ys) x h = ground (arith, contains-slice zero end ys x)
contains-slice (suc start) end [] x h = h
contains-slice (suc start) end (y ∷ ys) x h = ground (arith, contains-slice start (end - 1) ys x)

-- A batch holds removed content only.
pub batch-removed :
    (start end number : ℕ) (rows : List Membership) (x : ℕ)
    → contains (slice start end (order_pks (removed_pks number rows))) x ≡ true
    → contains (removed_pks number rows) x ≡ true
batch-removed start end number rows x h =
    sym (contains-order_pks (removed_pks number rows) x)
    ∙ contains-slice start end (order_pks (removed_pks number rows)) x h

pub contains-distinct : (xs : List ℕ) (x : ℕ) → contains (distinct xs) x ≡ contains xs x
contains-distinct [] x = refl
contains-distinct (y ∷ xs) x =
    ground (arith, contains-filter (λ z. not (z == y)) x (distinct xs), contains-distinct xs x)

-- An update of rows of later versions, or that keeps the test, changes no membership.
pub any-update :
    (q p : Membership → Bool) (f : Membership → Membership)
    → ((r : Membership) → p r ≡ true → q (f r) ≡ q r)
    → (rows : List Membership) → any q (update_where p f rows) ≡ any q rows
any-update q p f same [] = refl
any-update q p f same (r ∷ rows) = elim (Bool-cases (p r)) [
  | inl hit ↦ rw hit (cc (same r hit, any-update q p f same rows))
  | inr miss ↦ rw miss (cc (any-update q p f same rows))
]

pub any-delete :
    (q p : Membership → Bool)
    → ((r : Membership) → p r ≡ true → q r ≡ false)
    → (rows : List Membership) → any q (delete_where p rows) ≡ any q rows
any-delete q p gone [] = refl
any-delete q p gone (r ∷ rows) = elim (Bool-cases (p r)) [
  | inl hit ↦ rw hit (ground (arith, gone r hit, any-delete q p gone rows))
  | inr miss ↦ rw miss (cc (any-delete q p gone rows))
]

-- No row belongs to a version after `number`.
pub record IsUpTo (number : ℕ) (r : Membership) : Type 0 where
  pub added : r.version_added ≤ number
  pub removed : removed_by number r.version_removed ≡ true ⊎ (r.version_removed ≡ none)

module _ (number : ℕ) (ids : List ℕ) (x : ℕ) where
  pub member-undo_removal_below :
      (k : ℕ)
      → k < number
      → (rows : List Membership) → member k x (undo_removal number ids rows) ≡ member k x rows
  member-undo_removal_below k below =
      any-update (λ r. r.content == x && is_in k r)
        (λ r. contains ids r.content && opt_beq r.version_removed (some number))
        (λ r. record r { version_removed = none })
        λ r h.
          let e : r.version_removed ≡ some number =
            eq_of_opt_beq r.version_removed (some number)
              (true_and (contains ids r.content) (opt_beq r.version_removed (some number)) h).1 in
          rw e (ground arith)

  pub member-undo_removal :
      (rows : List Membership)
      → All (IsUpTo number) rows
      → member number x (undo_removal number ids rows)
        ≡ (member number x rows || (contains ids x && contains (removed_pks number rows) x))
  unfolding removed_pks
  member-undo_removal [] h = ground arith
  member-undo_removal (r ∷ rows) h =
      let below = member-undo_removal rows h.1 in
      let now = h.0.added in
      let same : r.content ≡ x → contains ids r.content ≡ contains ids x = ap (contains ids) in
      elim (Bool-cases (opt_beq r.version_removed (some number))) [
        | inl removed ↦
            let e = eq_of_opt_beq r.version_removed (some number) removed in
            elim (Bool-cases (r.content == x)) [
              | inl here ↦
                  let e' : r.content ≡ x = eq_of_== r.content x here in
                  let s = same e' in rw (removed, e, s) (ground (arith, below))
              | inr other ↦ rw (removed, e, other) (ground (arith, below))
            ]
        | inr kept ↦ rw kept (ground (arith, below))
      ]

  pub member-drop_below :
      (k : ℕ)
      → k < number
      → (rows : List Membership) → member k x (drop_memberships number ids rows) ≡ member k x rows
  member-drop_below k below rows =
      any-update (λ r. r.content == x && is_in k r)
        (λ r. contains ids r.content && opt_beq r.version_removed none)
        (λ r. record r { version_removed = some number })
        (λ r h.
          let e : r.version_removed ≡ none =
            eq_of_opt_beq r.version_removed none
              (true_and (contains ids r.content) (opt_beq r.version_removed none) h).1 in
          rw e (ground arith))
        (delete_where
          (λ (r : Membership).
            contains ids r.content && (r.version_added == number && opt_beq r.version_removed none))
          rows)
      ∙ any-delete (λ r. r.content == x && is_in k r)
          (λ (r : Membership).
            contains ids r.content && (r.version_added == number && opt_beq r.version_removed none))
          (λ r h. ground arith) rows

  pub member-drop :
      (rows : List Membership)
      → All (IsUpTo number) rows
      → member number x (drop_memberships number ids rows)
        ≡ (member number x rows && not (contains ids x))
  member-drop [] h = refl
  member-drop (r ∷ rows) h =
      let below = member-drop rows h.1 in
      let same : r.content ≡ x → contains ids r.content ≡ contains ids x = ap (contains ids) in
      elim (Bool-cases (opt_beq r.version_removed none)) [
        | inl unremoved ↦
            let e = eq_of_opt_beq r.version_removed none unremoved in
            elim (Bool-cases (r.content == x)) [
              | inl here ↦
                  let s = same (eq_of_== r.content x here) in
                  elim (Bool-cases (r.version_added == number)) [
                    | inl own ↦ rw (unremoved, own, e, here, s) (ground (arith, below))
                    | inr old ↦ rw (unremoved, old, e, here, s) (ground (arith, below))
                  ]
              | inr other ↦ rw (unremoved, other) (ground (arith, below))
            ]
        | inr closed ↦
            let gone : removed_by number r.version_removed ≡ true = elim h.0.removed [
              | inl g ↦ g
              | inr e ↦ cc (closed, ap (λ o. opt_beq o none) e)
            ] in
            rw (closed, gone) (ground (arith, below))
      ]
