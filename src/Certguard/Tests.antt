-- ===== src/Certguard/Tests.antt =====
-- A small entitlement: the paths below `a/$b`, and the theorems at it.
use Prim.Native.String.{len}
use pulpcore.Prelude.{
  ℕ, ◌+◌, ◌-◌, ◌<◌, String, ◌≡◌, refl, ◌↔◌, Bool, true, false, Option, some, List, [], ◌∷◌, ◌++◌,
  length, All, arith, eq_nat,
}
use pulpcore.Certguard.Failure.{ok, raised, assertion_error}
use pulpcore.Certguard.Der.{asn1_bytes, bitstream, Decoder}
use pulpcore.Certguard.Der.Length.{digits, asn1_bytes-digits}
use pulpcore.Certguard.Der.Bits.{pack, pack-bitstream}
use pulpcore.Certguard.Huffman.{Tree, leaf, node, build_tree, decode}
use pulpcore.Certguard.Huffman.Build.{Built, build_tree-Built}
use pulpcore.Certguard.Huffman.Decode.{value_of, decode_iff}
use pulpcore.Certguard.PathTree.{Node, from, build_path_tree, check_path_tree}
use pulpcore.Certguard.PathTree.Read.{AllWritten}
use pulpcore.Certguard.PathTree.Build.{
  IsWellFormed, build_path_tree_iff, build_path_tree-IsWellFormed,
}
use pulpcore.Certguard.PathTree.Check.{Declared, FitsStart, check_path_tree_iff}
use pulpcore.Certguard.Entitlement.{Extension, entitlement, entitlement-IsWellFormed}

abbrev some_bytes : List ℕ
some_bytes = 7 ∷ 8 ∷ 9 ∷ []

asn1_bytes-digits_example :
    asn1_bytes (4 ∷ (128 + 2) ∷ (digits 2 (length some_bytes) ++ some_bytes)) ≡ ok some_bytes
asn1_bytes-digits_example = asn1_bytes-digits 2 some_bytes (omega arith) (omega arith)

-- The length says four bytes, and three follow.
too_short : asn1_bytes (4 ∷ 4 ∷ 7 ∷ 8 ∷ 9 ∷ []) ≡ raised assertion_error
unfolding asn1_bytes
too_short = refl

abbrev data_ : List ℕ
data_ = 211 ∷ 64 ∷ []

pack-bitstream_example : pack (bitstream data_) ≡ data_
pack-bitstream_example = pack-bitstream data_ (omega arith, (omega arith, tt))

abbrev words : List String
words = "" ∷ "a" ∷ "$b" ∷ []

abbrev two_words : Tree String
two_words = node (leaf "") (leaf "a")

abbrev word_tree : Tree String
word_tree = node (leaf "$b") two_words

tree_of_words : build_tree words ≡ ok word_tree
unfolding build_tree
tree_of_words = refl

build_tree-Built_example : Built words (build_tree words)
build_tree-Built_example = build_tree-Built words

decode_iff_example : (decode word_tree (true ∷ true ∷ false ∷ []) ≡ ok ("a", false ∷ [])) ↔ (
    (code : List Bool) × (true ∷ true ∷ false ∷ [] ≡ code ++ false ∷ [])
    × (value_of word_tree code ≡ some "a"))
decode_iff_example = decode_iff word_tree (true ∷ true ∷ false ∷ []) (false ∷ []) "a"

abbrev nodes : List Node
nodes = (("a", 1) ∷ []) ∷ (("$b", 2) ∷ []) ∷ [] ∷ []

built : build_path_tree word_tree 3 data_ ≡ ok nodes
unfolding build_path_tree
built = refl

build_path_tree_iff_example : (build_path_tree word_tree 3 data_ ≡ ok nodes) ↔ (
    (addresses : Tree ℕ) × (build_tree (from 1 (3 - 1)) ≡ ok addresses)
    × (length nodes ≡ 3)
    × AllWritten (leaf "$b") two_words addresses nodes (bitstream data_))
build_path_tree_iff_example = build_path_tree_iff (leaf "$b") two_words 3 data_ nodes

build_path_tree-IsWellFormed_example : (length nodes ≡ 3) × All (IsWellFormed 3) nodes
build_path_tree-IsWellFormed_example =
    build_path_tree-IsWellFormed (leaf "$b") two_words 3 data_ nodes built

check_path_tree_iff_example :
    (check_path_tree nodes 0 ("a" ∷ "8" ∷ "x" ∷ []) ≡ true)
    ↔ ((path : List String) × Declared nodes 0 path × FitsStart path ("a" ∷ "8" ∷ "x" ∷ []))
check_path_tree_iff_example = check_path_tree_iff nodes 0 ("a" ∷ "8" ∷ "x" ∷ [])

-- A path is allowed with more segments than are declared, and refused with less.
allowed :
    (check_path_tree nodes 0 ("a" ∷ "8" ∷ "x" ∷ []) ≡ true)
    × (check_path_tree nodes 0 ("a" ∷ []) ≡ false)
    × (check_path_tree nodes 0 ("b" ∷ "8" ∷ []) ≡ false)
unfolding check_path_tree
allowed = (refl, refl, refl)

abbrev decoder : Decoder
decoder = record {
  decode = λ v. elim v [ [] ↦ some "" | _ ∷ w ↦ elim w [ [] ↦ some "a" | _ ∷ _ ↦ some "$b" ] ];
  characters = len;
}

abbrev decompress : List ℕ → Option (List ℕ × List ℕ)
decompress _ = some (0 ∷ 97 ∷ 0 ∷ 36 ∷ 98 ∷ [], 3 ∷ data_)

abbrev cert : List Extension
cert = record { oid = "1.3.6.1.4.1.2312.9.7"; value = 4 ∷ 1 ∷ 9 ∷ [] } ∷ []

accepted : entitlement decoder decompress cert ≡ ok nodes
unfolding entitlement
accepted = refl

entitlement-IsWellFormed_example : (2 < length nodes) × All (IsWellFormed (length nodes)) nodes
entitlement-IsWellFormed_example = entitlement-IsWellFormed decoder decompress cert nodes accepted
