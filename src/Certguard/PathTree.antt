-- ===== src/Certguard/PathTree.antt =====
-- The path tree of an entitlement, `_build_path_tree` and `_check_path_tree` of
-- pulp_certguard/rhsm/rhsm_check_path.py. The dictionaries `path_nodes` are told apart by their place
-- in the list, and a dictionary is the list of its items in the order of insertion.
pub mod Read
pub mod Build
pub mod Check
use text.Mathlib.Text.{starts_with}
use pulpcore.Prelude.{
  ℕ, zero, suc, ◌-◌, String, Bool, true, false, ◌&&◌, ◌||◌, List, [], ◌∷◌, ◌++◌, ◌==◌, eq_string,
  contains, any, map, if◌then◌else◌, length,
}
use pulpcore.Certguard.Failure.{Result, ok, raised, assertion_error, stop_iteration, ◌>>=◌}
use pulpcore.Certguard.Der.{bitstream}
use pulpcore.Certguard.Huffman.{Tree, decode, build_tree}

abbrev pub Node : Type 0
Node = List (String × ℕ)

abbrev pub keys : Node → List String
keys node = map (λ entry. entry.0) node

-- The `while` loop of one node. The fuel counts bits: each round takes at least one.
abbrev pub read_node : ℕ → Tree String → Tree ℕ → Node → List Bool → Result (Node × List Bool)
read_node zero words addresses node bits = raised stop_iteration
read_node (suc n) words addresses node bits = decode words bits >>= λ (word, bits').
    let again = decode addresses bits' >>= λ (address, bits'').
    read_node n words addresses (node ++ (word, address) ∷ []) bits'' in
    if word == ""
    then ok (node, bits')
    else (if contains (keys node) word then raised assertion_error else again)

-- The `for` loop over the nodes, each empty before its turn.
abbrev pub read_nodes : Tree String → Tree ℕ → ℕ → List Bool → Result (List Node × List Bool)
read_nodes words addresses zero bits = ok ([], bits)
read_nodes words addresses (suc n) bits =
    read_node (length bits) words addresses [] bits >>= λ (node, bits').
    read_nodes words addresses n bits' >>= λ (nodes, bits''). ok (node ∷ nodes, bits'')

-- The places of `path_nodes[1:]`.
abbrev pub from : ℕ → ℕ → List ℕ
from k zero = []
from k (suc n) = k ∷ from (suc k) n

-- The nodes, of which the first is the root.
unfoldable pub build_path_tree : Tree String → ℕ → List ℕ → Result (List Node)
unfolding bitstream build_tree
build_path_tree words node_count path_data = build_tree (from 1 (node_count - 1)) >>= λ addresses.
    read_nodes words addresses node_count (bitstream path_data) >>= λ (nodes, _). ok nodes

-- The node at a place, and an empty one past the end of the list; the program's addresses are the
-- elements of `path_nodes` themselves.
abbrev pub node_at : List Node → ℕ → Node
node_at [] k = []
node_at (node ∷ nodes) zero = node
node_at (node ∷ nodes) (suc k) = node_at nodes k

-- `segment == key or key[0] == "$"`; the loop above ends at an empty word and makes no key of it.
unfoldable pub fits : String → String → Bool
fits key segment = (segment == key) || starts_with key "$"

abbrev pub is_empty_node : Node → Bool
is_empty_node [] = true
is_empty_node (_ ∷ _) = false

unfoldable pub check_path_tree : List Node → ℕ → List String → Bool
unfolding fits
check_path_tree nodes address [] = is_empty_node (node_at nodes address)
check_path_tree nodes address (segment ∷ segments) =
    let below =
      λ (entry : String × ℕ). fits entry.0 segment && check_path_tree nodes entry.1 segments in
    if is_empty_node (node_at nodes address) then true else any below (node_at nodes address)
