-- ===== src/Certguard/Huffman/Build.antt =====
-- The tree of `build_tree` holds the items, each as often as it is given.
use pulpcore.Prelude.{
  ℕ, zero, suc, ◌+◌, ◌≡◌, refl, sym, ap, ◌∙◌, Bool, List, [], ◌∷◌, ◌++◌, arith, count_where,
  Bool-cases, inl, inr, length,
}
use pulpcore.Certguard.Failure.{Result, ok, raised, index_error, assertion_error}
use pulpcore.Certguard.Huffman.{
  Tree, leaf, node, Heap, comes_first, heappush, push_values, merge, build_tree,
}

module _ {A : Type 0} where
  abbrev pub leaves : Tree A → List A
  leaves (leaf value) = value ∷ []
  leaves (node l r) = leaves l ++ leaves r

  -- What a list of items becomes: an error for less than two, otherwise a node with the items as its
  -- leaves, as often as the list has them.
  abbrev pub Built : List A → Result (Tree A) → Type 0
  Built [] result = result ≡ raised index_error
  Built (a ∷ []) result = result ≡ raised assertion_error
  Built (a ∷ b ∷ items) result =
      (l : Tree A) × (r : Tree A) × (result ≡ ok (node l r))
      × ((p : A → Bool) → count_where p (leaves (node l r)) ≡ count_where p (a ∷ b ∷ items))

  pub count-append :
      (p : A → Bool) (xs ys : List A)
      → count_where p (xs ++ ys) ≡ count_where p xs + count_where p ys
  count-append p [] ys = omega arith
  count-append p (x ∷ xs) ys = ground (arith, count-append p xs ys)

  abbrev count_heap : (A → Bool) → Heap A → ℕ
  count_heap p [] = 0
  count_heap p ((_, (_, t)) ∷ heap) = count_where p (leaves t) + count_heap p heap

  count-heappush :
      (p : A → Bool) (e : ℕ × (ℕ × Tree A)) (heap : Heap A)
      → count_heap p (heappush e heap) ≡ count_heap p (e ∷ heap)
  count-heappush p e [] = refl
  count-heappush p e (x ∷ heap) = elim (Bool-cases (comes_first e x)) [
    | inl first ↦ rw first refl
    | inr later ↦ rw later (omega (arith, count-heappush p e heap))
  ]

  length-heappush :
      (e : ℕ × (ℕ × Tree A)) (heap : Heap A) → length (heappush e heap) ≡ suc (length heap)
  length-heappush e [] = refl
  length-heappush e (x ∷ heap) = ground (arith, length-heappush e heap)

  count-push_values :
      (p : A → Bool) (serial : ℕ) (heap : Heap A) (items : List A)
      → count_heap p (push_values serial heap items).1 ≡ count_heap p heap + count_where p items
  count-push_values p serial heap [] = omega arith
  count-push_values p serial heap (a ∷ items) = ground (
    arith,
    count-push_values p (suc serial) (heappush (serial, (serial, leaf a)) heap) items,
    count-heappush p (serial, (serial, leaf a)) heap,
  )

  length-push_values :
      (serial : ℕ) (heap : Heap A) (items : List A)
      → length (push_values serial heap items).1 ≡ length heap + length items
  length-push_values serial heap [] = omega arith
  length-push_values serial heap (a ∷ items) = omega (
    arith,
    length-push_values (suc serial) (heappush (serial, (serial, leaf a)) heap) items,
    length-heappush (serial, (serial, leaf a)) heap,
  )

  abbrev Merged : Heap A → Result (Tree A) → Type 0
  Merged heap result =
      (l : Tree A) × (r : Tree A) × (result ≡ ok (node l r))
      × ((p : A → Bool) → count_where p (leaves (node l r)) ≡ count_heap p heap)

  merge-Merged :
      (m serial : ℕ) (heap : Heap A)
      → length heap ≡ suc (suc m)
      → Merged heap (merge (suc (suc m)) serial heap)
  merge-Merged m serial [] h = let bad : ⊥ = omega arith in absurd bad
  merge-Merged m serial (x ∷ []) h = let bad : ⊥ = omega arith in absurd bad
  merge-Merged zero serial ((lw, (ls, left)) ∷ (rw', (rs, right)) ∷ []) h =
      (left, right, refl, λ p. count-append p (leaves left) (leaves right) ∙ omega arith)
  merge-Merged zero serial (x ∷ y ∷ z ∷ heap) h = let bad : ⊥ = omega arith in absurd bad
  merge-Merged (suc m) serial ((lw, (ls, left)) ∷ (rw', (rs, right)) ∷ heap) h =
      let e : ℕ × (ℕ × Tree A) = (lw + rw', (serial, node left right)) in
      let (l, r, done, same) =
        merge-Merged m (suc serial) (heappush e heap) (length-heappush e heap ∙ omega arith) in
      (
        l,
        r,
        done,
        λ p.
            same p
            ∙ count-heappush p e heap
            ∙ omega (arith, count-append p (leaves left) (leaves right)),
      )

  -- No items end in an `IndexError` and one item in an `AssertionError`; two or more items give a node
  -- whose leaves are the items, each as often as it was given.
  pub build_tree-Built : (items : List A) → Built items (build_tree items)
  unfolding build_tree
  build_tree-Built [] = refl
  build_tree-Built (a ∷ []) = refl
  build_tree-Built (a ∷ b ∷ items) =
      let heap = (push_values 1 [] (a ∷ b ∷ items)).1 in
      let (l, r, done, same) =
        merge-Merged (length items) _ heap
          (length-push_values 1 [] (a ∷ b ∷ items) ∙ omega arith) in
      (l, r, done, λ p. same p ∙ count-push_values p 1 [] (a ∷ b ∷ items) ∙ omega arith)

  -- The counts of a tree that is built, however many items there are.
  pub build_tree-count :
      (items : List A) (t : Tree A)
      → build_tree items ≡ ok t
      → (p : A → Bool) → count_where p (leaves t) ≡ count_where p items
  build_tree-count items t h p = go items (build_tree-Built items)
    where
      go : (xs : List A) → Built xs (build_tree items) → count_where p (leaves t) ≡ count_where p xs
      go [] b = let bad = sym b ∙ h in cc bad
      go (a ∷ []) b = let bad = sym b ∙ h in cc bad
      go (a ∷ b ∷ xs) (l, r, done, same) =
          let e : node l r ≡ t = cc (sym done ∙ h) in
          ap (λ x. count_where p (leaves x)) (sym e) ∙ same p
