-- ===== src/Repository/Version/Readd.antt =====
-- The loop of `add_content` that takes back removals of the same version.
use pulpcore.Prelude.{
  ℕ, zero, suc, ◌+◌, ◌≡◌, refl, ap, ◌∙◌, Bool, true, false, not, ◌&&◌, ◌||◌, none, some, List, [],
  ◌∷◌, map, ◌<◌, ◌≤◌, arith, if◌then◌else◌, ltb, leb, eq_nat, opt_beq, contains, All, Bool-cases,
  inl, inr, All-update_where,
}
use pulpcore.Repository.Version.{
  Membership, minus, inter, order_pks, removed_pks, slice, undo_removal, readd_loop, new_membership,
}
use pulpcore.Repository.Version.Members.{
  member, IsUpTo, contains-filter, batch-removed, member-undo_removal, member-undo_removal_below,
}

undo-IsUpTo :
    (number : ℕ) (ids : List ℕ) (rows : List Membership)
    → All (IsUpTo number) rows
    → All (IsUpTo number) (undo_removal number ids rows)
undo-IsUpTo number ids rows h =
    All-update_where (IsUpTo number)
      (λ r. contains ids r.content && opt_beq r.version_removed (some number))
      (λ r. record r { version_removed = none })
      (λ r _ b. record { added = b.added; removed = inr refl }) rows h

-- The rows of new memberships.
pub member-new :
    (number : ℕ) (left : List ℕ) (x : ℕ)
    → member number x (map (new_membership number) left) ≡ contains left x
member-new number [] x = refl
member-new number (y ∷ left) x = ground (arith, member-new number left x)

pub member-new_below :
    (k number : ℕ)
    → k < number
    → (left : List ℕ) (x : ℕ) → member k x (map (new_membership number) left) ≡ false
member-new_below k number below [] x = refl
member-new_below k number below (y ∷ left) x =
    ground (arith, member-new_below k number below left x)

-- One batch: content `a` of the list to add that is in the batch `b` moves to the version.
moved :
    (m r a b : Bool)
    → (b ≡ true → r ≡ true)
    → ((m || ((a && b) && r)) || (a && not (a && b))) ≡ (m || a)
moved true r a b h = refl
moved false r false b h = refl
moved false r true false h = refl
moved false r true true h = rw (h refl) refl

module _ (number batch_size total : ℕ) where
  -- With a batch size of at least one, the loop gives the same result with any two fuels that are
  -- at least the number of rows it has left to read.
  pub readd_loop-enough :
      (fuel fuel' start : ℕ) (to_add : List ℕ) (rows : List Membership)
      → 1 ≤ batch_size
      → total ≤ fuel + start
      → total ≤ fuel' + start
      → readd_loop fuel batch_size total number start to_add rows
        ≡ readd_loop fuel' batch_size total number start to_add rows
  unfolding readd_loop
  readd_loop-enough zero zero start to_add rows b h h' = refl
  readd_loop-enough zero (suc fuel') start to_add rows b h h' =
      let done : ltb start total ≡ false = ground arith in rw done refl
  readd_loop-enough (suc fuel) zero start to_add rows b h h' =
      let done : ltb start total ≡ false = ground arith in rw done refl
  readd_loop-enough (suc fuel) (suc fuel') start to_add rows b h h' =
      let end = if leb (start + batch_size) total then start + batch_size else total in
      let to_readd = inter to_add (slice start end (order_pks (removed_pks number rows))) in
      let next =
        readd_loop-enough fuel fuel' (start + batch_size) (minus to_add to_readd)
          (undo_removal number to_readd rows) b (omega arith) (omega arith) in
      ap (λ rest. if ltb start total then rest else (to_add, rows)) next

  -- What the loop keeps: no later row appears, earlier versions stay, and each content that it
  -- takes off the list to add is in the version.
  pub record IsReadd (to_add : List ℕ) (rows : List Membership) (out : List ℕ × List Membership)
      : Type 0 where
    pub up_to : All (IsUpTo number) out.1
    pub earlier : (k x : ℕ) → k < number → member k x out.1 ≡ member k x rows
    pub content :
        (x : ℕ)
        → (member number x out.1 || contains out.0 x) ≡ (member number x rows || contains to_add x)

  readd_step :
      (start end : ℕ) (to_add : List ℕ) (rows : List Membership) (x : ℕ)
      → All (IsUpTo number) rows
      → let to_readd = inter to_add (slice start end (order_pks (removed_pks number rows))) in
        (member number x (undo_removal number to_readd rows) || contains (minus to_add to_readd) x)
        ≡ (member number x rows || contains to_add x)
  readd_step start end to_add rows x h =
      let batch = slice start end (order_pks (removed_pks number rows)) in
      let to_readd = inter to_add batch in
      let is_readd = contains-filter (contains batch) x to_add in
      let left = contains-filter (λ y. not (contains to_readd y)) x to_add in
      let now = member-undo_removal number to_readd x rows h in
      rw (now, left, is_readd)
        (moved (member number x rows) (contains (removed_pks number rows) x) (contains to_add x)
          (contains batch x) (batch-removed start end number rows x))

  pub readd_loop-IsReadd :
      (fuel start : ℕ) (to_add : List ℕ) (rows : List Membership)
      → All (IsUpTo number) rows
      → IsReadd to_add rows (readd_loop fuel batch_size total number start to_add rows)
  unfolding readd_loop
  readd_loop-IsReadd zero start to_add rows h = record {
    up_to = h;
    earlier = λ k x _. refl;
    content = λ x. refl;
  }
  readd_loop-IsReadd (suc fuel) start to_add rows h =
      let end = if leb (start + batch_size) total then start + batch_size else total in
      let batch = slice start end (order_pks (removed_pks number rows)) in
      let to_readd = inter to_add batch in
      let rest =
        readd_loop-IsReadd fuel (start + batch_size) (minus to_add to_readd)
          (undo_removal number to_readd rows) (undo-IsUpTo number to_readd rows h) in
      elim (Bool-cases (ltb start total)) [
        | inl more ↦ rw more (record {
          up_to = rest.up_to;
          earlier = λ k x below.
              rest.earlier k x below ∙ member-undo_removal_below number to_readd x k below rows;
          content = λ x. rest.content x ∙ readd_step start end to_add rows x h;
        })
        | inr done ↦ rw done (record { up_to = h; earlier = λ k x _. refl; content = λ x. refl })
      ]
