-- ===== src/Certguard/PathTree/Check.antt =====
-- The check of a path against a tree: some path of the tree fits the first segments.
use pulpcore.Prelude.{
  ℕ, String, ◌≡◌, refl, ◌↔◌, Bool, true, List, [], ◌∷◌, Bool-cases, inl, inr, In, In-any, any-In,
  ◌&&◌, true_and, and_true,
}
use pulpcore.Certguard.PathTree.{Node, node_at, fits, check_path_tree, is_empty_node}

-- The keys on a way from a node to one without items.
abbrev pub Declared : List Node → ℕ → List String → Type 0
Declared nodes address [] = node_at nodes address ≡ []
Declared nodes address (key ∷ path) =
    (child : ℕ) × In (key, child) (node_at nodes address) × Declared nodes child path

-- Each key of the path fits the segment at its place, and there may be more segments.
abbrev pub FitsStart : List String → List String → Type 0
FitsStart [] segments = Unit
FitsStart (key ∷ path) [] = ⊥
FitsStart (key ∷ path) (segment ∷ segments) = (fits key segment ≡ true) × FitsStart path segments

empty_node : (node : Node) → is_empty_node node ≡ true → node ≡ []
empty_node [] h = refl
empty_node (_ ∷ _) h = cc

-- The test of one item.
abbrev below : List Node → String → List String → String × ℕ → Bool
below nodes segment segments entry = fits entry.0 segment && check_path_tree nodes entry.1 segments

sound :
    (nodes : List Node) (segments : List String) (address : ℕ)
    → check_path_tree nodes address segments ≡ true
    → (path : List String) × Declared nodes address path × FitsStart path segments
unfolding check_path_tree
sound nodes [] address h = ([], empty_node (node_at nodes address) h, tt)
sound nodes (segment ∷ segments) address h =
    elim (Bool-cases (is_empty_node (node_at nodes address))) [
      | inl e ↦ ([], empty_node (node_at nodes address) e, tt)
      | inr o ↦
          let (entry, m, t) =
            any-In (below nodes segment segments) (node_at nodes address) (rw o at h) in
          let (f, c) = true_and (fits entry.0 segment) (check_path_tree nodes entry.1 segments) t in
          let (path, d, fs) = sound nodes segments entry.1 c in
          (entry.0 ∷ path, (entry.1, m, d), (f, fs))
    ]

complete :
    (nodes : List Node) (segments path : List String) (address : ℕ)
    → Declared nodes address path
    → FitsStart path segments
    → check_path_tree nodes address segments ≡ true
unfolding check_path_tree
complete nodes [] [] address d f = rw d refl
complete nodes [] (key ∷ path) address d f = absurd f
complete nodes (segment ∷ segments) [] address d f = rw d refl
complete nodes (segment ∷ segments) (key ∷ path) address (child, m, d) (f, fs) =
    elim (Bool-cases (is_empty_node (node_at nodes address))) [
      | inl e ↦ rw e refl
      | inr o ↦
          let c = complete nodes segments path child d fs in
          let t =
            In-any (below nodes segment segments) (key, child) (node_at nodes address) m
              (and_true (fits key segment) (check_path_tree nodes child segments) f c) in
          rw (o, t) refl
    ]

-- The check succeeds exactly where the keys on some way from the node to one without items fit the
-- first segments, one by one.
pub check_path_tree_iff :
    (nodes : List Node) (address : ℕ) (segments : List String)
    → (check_path_tree nodes address segments ≡ true)
      ↔ ((path : List String) × Declared nodes address path × FitsStart path segments)
check_path_tree_iff nodes address segments =
    (sound nodes segments address, λ (path, d, f). complete nodes segments path address d f)
