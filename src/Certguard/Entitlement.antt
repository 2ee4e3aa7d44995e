-- ===== src/Certguard/Entitlement.antt =====
-- `Entitlement` of pulp_certguard/rhsm/rhsm_check_path.py: from a certificate to its path tree. A
-- certificate is the list of its extensions; `decompress` is the call of zlib, with the output and
-- the data after the end of the stream.
use pulpcore.Prelude.{
  ℕ, String, ◌≡◌, sym, ap, ◌∙◌, true, Option, none, some, List, [], ◌∷◌, ◌==◌, eq_nat, eq_string,
  if◌then◌else◌, ltb, length, first_where, All, ◌<◌, arith,
}
use pulpcore.Certguard.Failure.{
  Result, ok, raised, assertion_error, stop_iteration, zlib_error, ◌>>=◌,
}
use pulpcore.Certguard.Der.{split_count, asn1_bytes, Decoder, decoded}
use pulpcore.Certguard.Huffman.{Tree, node, build_tree}
use pulpcore.Certguard.Huffman.Build.{build_tree-Built}
use pulpcore.Certguard.PathTree.{Node, build_path_tree}
use pulpcore.Certguard.PathTree.Read.{bind-ok}
use pulpcore.Certguard.PathTree.Build.{
  IsWellFormed, build_path_tree-IsWellFormed, build_path_tree-more,
}

pub record Extension : Type 0 where
  pub oid : String
  pub value : List ℕ

-- `lex_data.split(b"\x00")`
abbrev pub split_zero : List ℕ → List (List ℕ)
split_zero [] = [] ∷ []
split_zero (b ∷ v) =
    let rest = split_zero v in
    if b == 0
    then [] ∷ rest
    else elim rest [ [] ↦ (b ∷ []) ∷ [] | item ∷ items ↦ (b ∷ item) ∷ items ]

-- `[item.decode() for item in items]`
abbrev pub decode_all : Decoder → List (List ℕ) → Result (List String)
decode_all U [] = ok []
decode_all U (item ∷ items) =
    decoded (U.decode item) >>= λ word. decode_all U items >>= λ words. ok (word ∷ words)

unfoldable pub build_word_tree : Decoder → List ℕ → Result (Tree String)
unfolding build_tree
build_word_tree U lex_data = decode_all U (split_zero lex_data) >>= λ words.
    if ltb 1 (length words) then build_tree words else raised assertion_error

abbrev pub value_or_stop : Option Extension → Result (List ℕ)
value_or_stop none = raised stop_iteration
value_or_stop (some ext) = ok ext.value

-- `RH_ENTITLEMENT_OID`
abbrev pub rh_entitlement_oid : String
rh_entitlement_oid = "1.3.6.1.4.1.2312.9.7"

unfoldable pub read_payload : List Extension → Result (List ℕ)
unfolding asn1_bytes
read_payload cert =
    value_or_stop (first_where (λ ext. ext.oid == rh_entitlement_oid) cert) >>= λ v. asn1_bytes v

abbrev pub or_zlib_error : Option (List ℕ × List ℕ) → Result (List ℕ × List ℕ)
or_zlib_error none = raised zlib_error
or_zlib_error (some parts) = ok parts

unfoldable pub split_payload :
    (List ℕ → Option (List ℕ × List ℕ)) → List ℕ → Result (List ℕ × (ℕ × List ℕ))
unfolding split_count
split_payload decompress payload = or_zlib_error (decompress payload) >>= λ (lex_data, unused_data).
    split_count unused_data >>= λ (node_count, path_data). ok (lex_data, (node_count, path_data))

-- The path tree that the constructor keeps.
unfoldable pub entitlement :
    Decoder → (List ℕ → Option (List ℕ × List ℕ)) → List Extension → Result (List Node)
unfolding read_payload split_payload build_word_tree build_path_tree
entitlement U decompress cert = read_payload cert >>= λ payload.
    split_payload decompress payload >>= λ (lex_data, (node_count, path_data)).
    build_word_tree U lex_data >>= λ word_tree. build_path_tree word_tree node_count path_data

-- A tree of words is a node, whose two sides are trees.
build_word_tree-node :
    (U : Decoder) (lex_data : List ℕ) (t : Tree String)
    → build_word_tree U lex_data ≡ ok t
    → (l : Tree String) × (r : Tree String) × (t ≡ node l r)
unfolding build_word_tree
build_word_tree-node U lex_data t h =
    let (words, _, h') = bind-ok (decode_all U (split_zero lex_data)) _ t h in go words h'
  where
    go :
        (words : List String)
        → (if ltb 1 (length words) then build_tree words else raised assertion_error) ≡ ok t
        → (l : Tree String) × (r : Tree String) × (t ≡ node l r)
    go [] h' = cc h'
    go (word ∷ []) h' = cc h'
    go (a ∷ b ∷ words) h' =
        let (l, r, done, _) = build_tree-Built (a ∷ b ∷ words) in
        let more : ltb 1 (length (a ∷ b ∷ words)) ≡ true = ground arith in
        let same = rw more at h' in (l, r, cc (sym done ∙ same))

-- A certificate that is accepted gives a tree of three nodes at least, where no key is empty and each
-- address is the place of a node after the root.
pub entitlement-IsWellFormed :
    (U : Decoder) (decompress : List ℕ → Option (List ℕ × List ℕ)) (cert : List Extension)
    (nodes : List Node)
    → entitlement U decompress cert ≡ ok nodes
    → (2 < length nodes) × All (IsWellFormed (length nodes)) nodes
unfolding entitlement
entitlement-IsWellFormed U decompress cert nodes h =
    let (payload, _, h1) = bind-ok (read_payload cert) _ nodes h in
    let ((lex_data, (node_count, path_data)), _, h2) =
      bind-ok (split_payload decompress payload) _ nodes h1 in
    let (t, built, h3) = bind-ok (build_word_tree U lex_data) _ nodes h2 in
    let (l, r, e) = build_word_tree-node U lex_data t built in
    let h4 : build_path_tree (node l r) node_count path_data ≡ ok nodes =
      ap (λ x. build_path_tree x node_count path_data) (sym e) ∙ h3 in
    let (size, shape) = build_path_tree-IsWellFormed l r node_count path_data nodes h4 in
    let more = build_path_tree-more (node l r) node_count path_data nodes h4 in
    (omega arith, rw size shape)
