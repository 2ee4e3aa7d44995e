-- ===== src/Certguard/Huffman.antt =====
-- `HuffmannNode` of pulp_certguard/rhsm/rhsm_check_path.py. A heap is the list of its entries in
-- their order, an entry its weight, its serial number and its value.
pub mod Build
pub mod Decode
use pulpcore.Prelude.{
  ℕ, zero, suc, ◌+◌, Bool, true, false, ◌&&◌, ◌||◌, List, [], ◌∷◌, ◌==◌, eq_nat, if◌then◌else◌, ltb,
  length, Option, none, some,
}
use pulpcore.Certguard.Failure.{Result, ok, raised, index_error, assertion_error, stop_iteration}

pub data Tree (A : Type 0) : Type 0 where
  leaf : A → Tree A
  node : Tree A → Tree A → Tree A

abbrev pub Heap : Type 0 → Type 0
Heap A = List (ℕ × (ℕ × Tree A))

module _ {A : Type 0} where
  -- The order of the entries; the values are never compared.
  abbrev pub comes_first : ℕ × (ℕ × Tree A) → ℕ × (ℕ × Tree A) → Bool
  comes_first (w, (s, _)) (w', (s', _)) = ltb w w' || (w == w' && ltb s s')

  abbrev pub heappush : ℕ × (ℕ × Tree A) → Heap A → Heap A
  heappush e [] = e ∷ []
  heappush e (x ∷ heap) =
      let rest = heappush e heap in if comes_first e x then e ∷ x ∷ heap else x ∷ rest

  -- The first loop: each value with the next serial number, as its weight as well.
  abbrev pub push_values : ℕ → Heap A → List A → ℕ × Heap A
  push_values serial heap [] = (serial, heap)
  push_values serial heap (value ∷ values) =
      push_values (suc serial) (heappush (serial, (serial, leaf value)) heap) values

  -- The `while` loop, on the number of the entries of the heap.
  abbrev pub merge : ℕ → ℕ → Heap A → Result (Tree A)
  merge zero serial heap = raised index_error
  merge (suc n) serial [] = raised index_error
  merge (suc n) serial ((_, (_, leaf _)) ∷ []) = raised assertion_error
  merge (suc n) serial ((_, (_, node l r)) ∷ []) = ok (node l r)
  merge (suc n) serial ((lw, (_, left)) ∷ (rw', (_, right)) ∷ heap) =
      merge n (suc serial) (heappush (lw + rw', (serial, node left right)) heap)

  unfoldable pub build_tree : List A → Result (Tree A)
  build_tree items = let (serial, heap) = push_values 1 [] items in merge (length items) serial heap

  -- The value at the end of the way that the bits choose, and the bits that are left.
  abbrev pub decode : Tree A → List Bool → Result (A × List Bool)
  decode (leaf value) bits = ok (value, bits)
  decode (node left right) [] = raised stop_iteration
  decode (node left right) (true ∷ bits) = decode right bits
  decode (node left right) (false ∷ bits) = decode left bits
