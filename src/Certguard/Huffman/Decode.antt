-- ===== src/Certguard/Huffman/Decode.antt =====
-- The codes of a tree are read back, and nothing else is.
use pulpcore.Prelude.{◌≡◌, ap, ◌∙◌, ◌↔◌, Bool, true, false, Option, none, some, List, [], ◌∷◌, ◌++◌}
use pulpcore.Certguard.Failure.{ok}
use pulpcore.Certguard.Huffman.{Tree, leaf, node, decode}

module _ {A : Type 0} where
  -- The value whose code is the whole list.
  abbrev pub value_of : Tree A → List Bool → Option A
  value_of (leaf value) [] = some value
  value_of (leaf value) (_ ∷ _) = none
  value_of (node left right) [] = none
  value_of (node left right) (true ∷ code) = value_of right code
  value_of (node left right) (false ∷ code) = value_of left code

  pub decode-value_of :
      (t : Tree A) (code rest : List Bool) (value : A)
      → value_of t code ≡ some value
      → decode t (code ++ rest) ≡ ok (value, rest)
  decode-value_of (leaf v) [] rest value h = cc
  decode-value_of (leaf v) (b ∷ code) rest value h = cc
  decode-value_of (node l r) [] rest value h = cc
  decode-value_of (node l r) (true ∷ code) rest value h = decode-value_of r code rest value h
  decode-value_of (node l r) (false ∷ code) rest value h = decode-value_of l code rest value h

  pub decode-code :
      (t : Tree A) (bits rest : List Bool) (value : A)
      → decode t bits ≡ ok (value, rest)
      → (code : List Bool) × (bits ≡ code ++ rest) × (value_of t code ≡ some value)
  decode-code (leaf v) bits rest value h = ([], cc, cc)
  decode-code (node l r) [] rest value h = cc
  decode-code (node l r) (true ∷ bits) rest value h =
      let (code, split, at) = decode-code r bits rest value h in
      (true ∷ code, ap (λ w. true ∷ w) split, at)
  decode-code (node l r) (false ∷ bits) rest value h =
      let (code, split, at) = decode-code l bits rest value h in
      (false ∷ code, ap (λ w. false ∷ w) split, at)

  -- Decoding gives a value and the rest of the bits exactly where the bits are the code of that value
  -- in the tree, followed by that rest.
  pub decode_iff :
      (t : Tree A) (bits rest : List Bool) (value : A)
      → (decode t bits ≡ ok (value, rest))
        ↔ ((code : List Bool) × (bits ≡ code ++ rest) × (value_of t code ≡ some value))
  decode_iff t bits rest value = (
    decode-code t bits rest value,
    λ (code, split, at). ap (decode t) split ∙ decode-value_of t code rest value at,
  )
