-- ===== src/Certguard/PathTree/Build.antt =====
-- What `_build_path_tree` returns, and the trees that it cannot build.
use pulpcore.Prelude.{
  ℕ, zero, suc, ◌+◌, ◌-◌, ◌≤◌, ◌<◌, String, ◌≡◌, ◌≢◌, refl, sym, ◌∙◌, ◌↔◌, Bool, true, false, not,
  ◌&&◌, some, List, [], ◌∷◌, ◌++◌, leb, ltb, ◌==◌, eq_nat, if◌then◌else◌, length, All, arith,
  count_where, Bool-cases, inl, inr,
}
use pulpcore.Certguard.Failure.{ok, raised, assertion_error, index_error}
use pulpcore.Certguard.Der.{bitstream}
use pulpcore.Certguard.Huffman.{Tree, leaf, node, build_tree}
use pulpcore.Certguard.Huffman.Build.{leaves, build_tree-count, count-append}
use pulpcore.Certguard.Huffman.Decode.{value_of}
use pulpcore.Certguard.PathTree.{Node, from, build_path_tree, read_nodes}
use pulpcore.Certguard.PathTree.Read.{
  bind-ok, Written, AllWritten, read_nodes-AllWritten, AllWritten-read_nodes,
}

-- The nodes that are returned are those whose items the bits of the data write, one node after the
-- other, with the codes of the words and of a tree of the addresses.
pub build_path_tree_iff :
    (left right : Tree String) (node_count : ℕ) (path_data : List ℕ) (nodes : List Node)
    → (build_path_tree (node left right) node_count path_data ≡ ok nodes) ↔ (
        (addresses : Tree ℕ) × (build_tree (from 1 (node_count - 1)) ≡ ok addresses)
        × (length nodes ≡ node_count)
        × AllWritten left right addresses nodes (bitstream path_data))
unfolding build_path_tree
build_path_tree_iff left right node_count path_data nodes = (to, back)
  where
    to :
        build_path_tree (node left right) node_count path_data ≡ ok nodes
        → (addresses : Tree ℕ) × (build_tree (from 1 (node_count - 1)) ≡ ok addresses)
          × (length nodes ≡ node_count)
          × AllWritten left right addresses nodes (bitstream path_data)
    to h =
        let (addresses, built, h') = bind-ok (build_tree (from 1 (node_count - 1))) _ nodes h in
        let ((found, rest), was_read, h'') =
          bind-ok (read_nodes (node left right) addresses node_count (bitstream path_data)) _ nodes
            h' in
        let same : found ≡ nodes = cc h'' in
        let (size, w) =
          AllWritten-read_nodes left right addresses node_count (bitstream path_data) found rest
            was_read in
        rw (← same) (addresses, built, size, w)

    back :
        ((addresses : Tree ℕ) × (build_tree (from 1 (node_count - 1)) ≡ ok addresses)
          × (length nodes ≡ node_count)
          × AllWritten left right addresses nodes (bitstream path_data))
        → build_path_tree (node left right) node_count path_data ≡ ok nodes
    back (addresses, built, size, w) =
        let (rest, done) =
          read_nodes-AllWritten left right addresses nodes (bitstream path_data) w in
        rw (built, ← size, done) refl

-- With less than three nodes there are not two addresses, and no data is read.
pub build_path_tree-few :
    (words : Tree String) (node_count : ℕ) (path_data : List ℕ)
    → node_count ≤ 2
    → build_path_tree words node_count path_data
      ≡ raised (if node_count == 2 then assertion_error else index_error)
unfolding build_path_tree
build_path_tree-few words zero path_data h = refl
build_path_tree-few words (suc zero) path_data h = refl
build_path_tree-few words (suc (suc zero)) path_data h = refl
build_path_tree-few words (suc (suc (suc n))) path_data h = let bad : ⊥ = omega arith in absurd bad

-- Not the place of a node other than the root.
abbrev outside : ℕ → ℕ → Bool
outside node_count a = not (leb 1 a && ltb a node_count)

none_outside :
    (node_count k m : ℕ)
    → 1 ≤ k
    → (1 ≤ m → k + m ≤ node_count)
    → count_where (outside node_count) (from k m) ≡ 0
none_outside node_count k zero h g = refl
none_outside node_count k (suc m) h g =
    let top = g (omega arith) in
    let inside : outside node_count k ≡ false = ground arith in
    rw inside (none_outside node_count (suc k) m (omega arith) (λ more. omega arith))

value_of-count :
    (p : ℕ → Bool) (t : Tree ℕ) (code : List Bool) (a : ℕ)
    → value_of t code ≡ some a
    → p a ≡ true
    → 1 ≤ count_where p (leaves t)
value_of-count p (leaf v) [] a h t = ground arith
value_of-count p (leaf v) (b ∷ code) a h t = cc
value_of-count p (node l r) [] a h t = cc
value_of-count p (node l r) (true ∷ code) a h t =
    omega (arith, count-append p (leaves l) (leaves r), value_of-count p r code a h t)
value_of-count p (node l r) (false ∷ code) a h t =
    omega (arith, count-append p (leaves l) (leaves r), value_of-count p l code a h t)

-- The items of a node: no key is empty, and each address is the place of a node after the root.
abbrev pub IsWellFormed : ℕ → Node → Type 0
IsWellFormed node_count items =
    All (λ entry. (entry.0 ≢ "") × ((1 ≤ entry.1) × (entry.1 < node_count))) items

module _ (left right : Tree String) (addresses : Tree ℕ) (node_count : ℕ) where
  bounds :
      (way : List Bool) (address : ℕ)
      → value_of addresses way ≡ some address
      → build_tree (from 1 (node_count - 1)) ≡ ok addresses
      → (1 ≤ address) × (address < node_count)
  bounds way address is_address built = elim (Bool-cases (outside node_count address)) [
    | inl out ↦
        let some_ = value_of-count (outside node_count) addresses way address is_address out in
        let same =
          build_tree-count (from 1 (node_count - 1)) addresses built (outside node_count) in
        let nothing =
          none_outside node_count 1 (node_count - 1) (omega arith) (λ more. omega arith) in
        let bad : ⊥ = omega arith in absurd bad
    | inr within ↦ (ground arith, ground arith)
  ]

  Written-IsWellFormed :
      build_tree (from 1 (node_count - 1)) ≡ ok addresses
      → (before items : Node) (bits : List Bool) → Written left right addresses before items bits
      → IsWellFormed node_count items
  Written-IsWellFormed built before [] bits w = tt
  Written-IsWellFormed built before ((word, address) ∷ items) bits
        (code, way, rest, split, at, is_address, filled, fresh, w) =
      (
        (filled, bounds way address is_address built),
        Written-IsWellFormed built (before ++ (word, address) ∷ []) items rest w,
      )

  all :
      build_tree (from 1 (node_count - 1)) ≡ ok addresses
      → (nodes : List Node) (bits : List Bool) → AllWritten left right addresses nodes bits
      → All (IsWellFormed node_count) nodes
  all built [] bits w = tt
  all built (items ∷ nodes) bits (own, rest, split, w, ws) =
      (Written-IsWellFormed built [] items own w, all built nodes rest ws)

-- In a tree that is built no key is empty and each address is the place of a node after the root.
pub build_path_tree-IsWellFormed :
    (left right : Tree String) (node_count : ℕ) (path_data : List ℕ) (nodes : List Node)
    → build_path_tree (node left right) node_count path_data ≡ ok nodes
    → (length nodes ≡ node_count) × All (IsWellFormed node_count) nodes
build_path_tree-IsWellFormed left right node_count path_data nodes h =
    let (addresses, built, size, w) =
      (build_path_tree_iff left right node_count path_data nodes).0 h in
    (size, all left right addresses node_count built nodes (bitstream path_data) w)

pub build_path_tree-more :
    (words : Tree String) (node_count : ℕ) (path_data : List ℕ) (nodes : List Node)
    → build_path_tree words node_count path_data ≡ ok nodes
    → 2 < node_count
build_path_tree-more words node_count path_data nodes h = elim (Bool-cases (ltb 2 node_count)) [
  | inl more ↦ ground arith
  | inr few ↦
      let failed = build_path_tree-few words node_count path_data (ground arith) in
      let bad = sym failed ∙ h in cc bad
]
