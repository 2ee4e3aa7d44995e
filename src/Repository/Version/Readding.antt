-- ===== src/Repository/Version/Readding.antt =====
-- The map by which `_squash` gives the removals of a version the end of what is added again.
use pulpcore.Prelude.{
  ℕ, ◌≡◌, refl, ap, ◌∙◌, Bool, true, false, ◌&&◌, ◌||◌, Option, none, some, List, [], ◌∷◌, map,
  arith, ◌⊎◌, inl, inr, if◌then◌else◌, ◌==◌, eq_nat, opt_beq, any, contains, update_where,
  Bool-cases, ==-refl, eq_of_opt_beq,
}
use pulpcore.Repository.Version.{Membership}
use pulpcore.Repository.Version.Members.{contains-append}
use pulpcore.Repository.Version.Delete.{Groups, add_to, group_rows, set_removed}

-- A group of the map has the content under the key.
abbrev pub has_pair : Groups → ℕ → Option ℕ → Bool
has_pair groups c key = any (λ g. opt_beq g.0 key && contains g.1 c) groups

has_pair-add_to :
    (k : Option ℕ) (x : ℕ) (groups : Groups) (c : ℕ) (key : Option ℕ)
    → has_pair (add_to k x groups) c key ≡ ((opt_beq k key && c == x) || has_pair groups c key)
unfolding add_to
has_pair-add_to k x [] c key = ground arith
has_pair-add_to k x ((k', xs) ∷ groups) c key = elim (Bool-cases (opt_beq k' k)) [
  | inl same ↦
      let e : k' ≡ k = eq_of_opt_beq k' k same in
      let s : opt_beq k' key ≡ opt_beq k key = ap (λ o. opt_beq o key) e in
      rw (same, contains-append xs (x ∷ []) c, s) (ground arith)
  | inr other ↦ rw (other, has_pair-add_to k x groups c key) (ground arith)
]

pub has_pair-group_rows :
    (groups : Groups) (rows : List Membership) (c : ℕ) (key : Option ℕ)
    → has_pair (group_rows groups rows) c key
      ≡ (has_pair groups c key || any (λ r. opt_beq r.version_removed key && c == r.content) rows)
unfolding group_rows
has_pair-group_rows groups [] c key = ground arith
has_pair-group_rows groups (r ∷ rows) c key =
    has_pair-group_rows (add_to r.version_removed r.content groups) rows c key
    ∙ rw (has_pair-add_to r.version_removed r.content groups c key) (ground arith)

-- The updates act on each row by itself.
abbrev pub assign : ℕ → Groups → Membership → Membership
assign number [] r = r
assign number ((key, ids) ∷ groups) r = assign number groups (
    if opt_beq r.version_removed (some number) && contains ids r.content
    then record r { version_removed = key }
    else r)

pub any-map :
    {A B : Type 0} (q : B → Bool) (f : A → B) (xs : List A)
    → any q (map f xs) ≡ any (λ x. q (f x)) xs
any-map q f [] = refl
any-map q f (x ∷ xs) = rw (any-map q f xs) refl

pub any-set_removed :
    (q : Membership → Bool) (number : ℕ) (groups : Groups) (rows : List Membership)
    → any q (set_removed number groups rows) ≡ any (λ r. q (assign number groups r)) rows
unfolding set_removed
any-set_removed q number [] rows = refl
any-set_removed q number ((key, ids) ∷ groups) rows =
    any-set_removed q number groups (
      update_where (λ r. opt_beq r.version_removed (some number) && contains ids r.content)
        (λ r. record r { version_removed = key }) rows)
    ∙ any-map (λ r. q (assign number groups r))
        (λ r.
          if opt_beq r.version_removed (some number) && contains ids r.content
          then record r { version_removed = key }
          else r)
        rows

pub assign-other :
    (number : ℕ) (groups : Groups) (r : Membership)
    → opt_beq r.version_removed (some number) ≡ false
    → assign number groups r ≡ r
assign-other number [] r h = refl
assign-other number ((key, ids) ∷ groups) r h = rw h (assign-other number groups r h)

pub opt_beq_refl : (o : Option ℕ) → opt_beq o o ≡ true
opt_beq_refl none = refl
opt_beq_refl (some n) = ==-refl n

-- A removed row gets the key of a group that has its content, where there is one.
abbrev pub Assigned : ℕ → Groups → Membership → Type 0
Assigned number groups r =
    (((key : Option ℕ) → has_pair groups r.content key ≡ false) × (assign number groups r ≡ r))
    ⊎ ((key : Option ℕ) × (has_pair groups r.content key ≡ true)
        × (assign number groups r ≡ record r { version_removed = key }))

pub assign-removed :
    (number : ℕ) (groups : Groups) (r : Membership)
    → has_pair groups r.content (some number) ≡ false
    → opt_beq r.version_removed (some number) ≡ true
    → Assigned number groups r
assign-removed number [] r h removed = inl (λ key. refl, refl)
assign-removed number ((key, ids) ∷ groups) r h removed =
    elim (Bool-cases (contains ids r.content)) [
      | inl hit ↦
          let differs : opt_beq key (some number) ≡ false = ground arith in
          inr (
            key,
            rw (hit, opt_beq_refl key) refl,
            rw (removed, hit)
                (assign-other number groups (record r { version_removed = key }) differs),
          )
      | inr miss ↦
          let tail : has_pair groups r.content (some number) ≡ false = ground arith in
          elim (assign-removed number groups r tail removed) [
            | inl (no_key, e) ↦ inl (λ k. rw miss (ground (arith, no_key k)), rw (removed, miss) e)
            | inr (k, has, e) ↦ inr (k, rw miss (ground (arith, has)), rw (removed, miss) e)
          ]
    ]
