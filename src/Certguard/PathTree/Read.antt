-- ===== src/Certguard/PathTree/Read.antt =====
-- Nodes that are written with the codes of the two trees are read back, and nothing else is read.
use pulpcore.Prelude.{
  ℕ, zero, suc, ◌≤◌, String, ◌≡◌, ◌≢◌, refl, sym, ap, ◌∙◌, Bool, false, some, List, [], ◌∷◌, ◌++◌,
  ◌==◌, eq_string, contains, Bool-cases, inl, inr, arith, length, length-append, if◌then◌else◌,
  subst, eq_of_==,
}
use mathlib.Core.List.{append-nil, append_assoc}
use pulpcore.Certguard.Failure.{Result, ok, raised, assertion_error, ◌>>=◌}
use pulpcore.Certguard.Huffman.{Tree, node, decode}
use pulpcore.Certguard.Huffman.Decode.{value_of, decode-value_of, decode-code}
use pulpcore.Certguard.PathTree.{Node, keys, read_node, read_nodes}

not_equal : (a b : String) → a ≢ b → (a == b) ≡ false
not_equal a b h = elim (Bool-cases (a == b)) [ inl e ↦ absurd (h (eq_of_== a b e)) | inr e ↦ e ]

pub bind-ok :
    {A B : Type 0} (m : Result A) (f : A → Result B) (b : B)
    → (m >>= f) ≡ ok b
    → (a : A) × (m ≡ ok a) × (f a ≡ ok b)
bind-ok (ok a) f b h = (a, refl, h)
bind-ok (raised e) f b h = cc

ok-inj :
    {A B : Type 0} (a a' : A) (b b' : B)
    → ◌≡◌ {A = Result (A × B)} (ok (a, b)) (ok (a', b'))
    → (a ≡ a') × (b ≡ b')
ok-inj a a' b b' h = (cc, cc)

different : (a b : String) → (a == b) ≡ false → a ≢ b
different a b h e = let t = (eq_string.same_iff a b).1 e in cc

module _ (left right : Tree String) (addresses : Tree ℕ) where
  abbrev words : Tree String
  words = node left right

  -- The bits of the items of a node after those of `before`, whose keys are not written again, with
  -- the code of the empty word at the end.
  abbrev pub Written : Node → Node → List Bool → Type 0
  Written before [] bits = value_of (node left right) bits ≡ some ""
  Written before ((word, address) ∷ entries) bits =
      (code : List Bool) × (way : List Bool) × (rest : List Bool) × (bits ≡ code ++ (way ++ rest))
      × (value_of (node left right) code ≡ some word)
      × (value_of addresses way ≡ some address)
      × (word ≢ "")
      × (contains (keys before) word ≡ false)
      × Written (before ++ (word, address) ∷ []) entries rest

  code-length :
      (code : List Bool) (word : String)
      → value_of (node left right) code ≡ some word
      → 1 ≤ length code
  code-length [] word h = cc
  code-length (b ∷ code) word h = omega arith

  Written-length :
      (before entries : Node) (bits : List Bool) → Written before entries bits → 1 ≤ length bits
  Written-length before [] bits w = code-length bits "" w
  Written-length before ((word, address) ∷ entries) bits (code, way, rest, split, at, _, _, _, _) =
      omega (arith, ap length split, length-append code (way ++ rest), code-length code word at)

  read_node-Written :
      (n : ℕ) (before entries : Node) (bits rest : List Bool)
      → length bits ≤ n
      → Written before entries bits
      → read_node n (node left right) addresses before (bits ++ rest) ≡ ok (before ++ entries, rest)
  read_node-Written zero before entries bits rest h w =
      let size = Written-length before entries bits w in let bad : ⊥ = omega arith in absurd bad
  read_node-Written (suc n) before [] bits rest h w =
      rw (decode-value_of (node left right) bits rest "" w, append-nil before) refl
  read_node-Written (suc n) before ((word, address) ∷ entries) bits rest h
        (code, way, more, split, is_word, is_address, filled, fresh, w) =
      let size = code-length code word is_word in
      let whole = ap length split ∙ length-append code (way ++ more) in
      let tail = length-append way more in
      let next =
        read_node-Written n (before ++ (word, address) ∷ []) entries more rest (omega arith) w in
      let read_word : decode (node left right) (bits ++ rest) ≡ ok (word, way ++ (more ++ rest)) =
        ap (λ x. decode (node left right) (x ++ rest)) split
        ∙ ap (decode (node left right)) (
            append_assoc code (way ++ more) rest ∙ ap (λ x. code ++ x) (append_assoc way more rest))
        ∙ decode-value_of (node left right) code (way ++ (more ++ rest)) word is_word in
      let read_address = decode-value_of addresses way (more ++ rest) address is_address in
      let not_empty : (word == "") ≡ false = not_equal word "" filled in
      rw (read_word, not_empty, fresh, read_address)
        (next ∙ ap (λ x. ok (x, rest)) (append_assoc before ((word, address) ∷ []) entries))

  -- What was read: the items of a node after those of `before`, and its own bits.
  abbrev Only : Node → List Bool → Node → List Bool → Type 0
  Only before bits found rest =
      (entries : Node) × (own : List Bool) × (found ≡ before ++ entries)
      × (bits ≡ own ++ rest)
      × Written before entries own

  -- What follows the code of a word.
  abbrev after_word : ℕ → Node → String → List Bool → Result (Node × List Bool)
  after_word n before word bits =
      let again = decode addresses bits >>= λ (address, bits').
      read_node n (node left right) addresses (before ++ (word, address) ∷ []) bits' in
      if word == ""
      then ok (before, bits)
      else (if contains (keys before) word then raised assertion_error else again)

  -- One round, given what the rounds after it read.
  round :
      (n : ℕ) (before : Node) (bits : List Bool) (found : Node) (rest : List Bool) (word : String)
      (bits' code : List Bool)
      → bits ≡ code ++ bits'
      → value_of (node left right) code ≡ some word
      → ((before' : Node) (more : List Bool)
          → read_node n (node left right) addresses before' more ≡ ok (found, rest)
          → Only before' more found rest)
      → after_word n before word bits' ≡ ok (found, rest)
      → Only before bits found rest
  round n before bits found rest word bits' code split is_word later h =
      elim (Bool-cases (word == "")) [
        | inl e ↦
            let (a, b) = ok-inj before found bits' rest (rw e at h) in
            (
              [],
              code,
              sym a ∙ sym (append-nil before),
              split ∙ ap (λ x. code ++ x) b,
              is_word ∙ ap some (eq_of_== word "" e),
            )
        | inr o ↦ elim (Bool-cases (contains (keys before) word)) [
          | inl again ↦ let h' = rw (o, again) at h in cc h'
          | inr fresh ↦
              let ((address, bits''), is_address, h') =
                bind-ok (decode addresses bits') _ (found, rest) (rw (o, fresh) at h) in
              let (way, split', at) = decode-code addresses bits' bits'' address is_address in
              let (entries, own, all, mine, w) = later (before ++ (word, address) ∷ []) bits'' h' in
              (
                (word, address) ∷ entries,
                code ++ (way ++ own),
                all ∙ append_assoc before ((word, address) ∷ []) entries,
                split
                    ∙ ap (λ x. code ++ x) (split' ∙ ap (λ x. way ++ x) mine)
                    ∙ sym (
                        append_assoc code (way ++ own) rest
                        ∙ ap (λ x. code ++ x) (append_assoc way own rest)),
                (code, way, own, refl, is_word, at, different word "" o, fresh, w),
              )
        ]
      ]

  read_node-Only :
      (n : ℕ) (before : Node) (bits : List Bool) (found : Node) (rest : List Bool)
      → read_node n (node left right) addresses before bits ≡ ok (found, rest)
      → Only before bits found rest
  read_node-Only zero before bits found rest h = cc
  read_node-Only (suc n) before bits found rest h =
      let ((word, bits'), read_word, h') =
        bind-ok (decode (node left right) bits) _ (found, rest) h in
      let (code, split, is_word) = decode-code (node left right) bits bits' word read_word in
      round n before bits found rest word bits' code split is_word
        (λ before' more. read_node-Only n before' more found rest) h'

  -- The bits of some nodes, one after the other, with any bits at the end.
  abbrev pub AllWritten : List Node → List Bool → Type 0
  AllWritten [] bits = Unit
  AllWritten (items ∷ nodes) bits =
      (own : List Bool) × (rest : List Bool) × (bits ≡ own ++ rest)
      × Written [] items own
      × AllWritten nodes rest

  pub read_nodes-AllWritten :
      (nodes : List Node) (bits : List Bool)
      → AllWritten nodes bits
      → (rest : List Bool) × (read_nodes (node left right) addresses (length nodes) bits
          ≡ ok (nodes, rest))
  read_nodes-AllWritten [] bits w = (bits, refl)
  read_nodes-AllWritten (items ∷ nodes) bits (own, more, split, w, ws) =
      let (rest, tail) = read_nodes-AllWritten nodes more ws in
      let bound : length own ≤ length bits =
        omega (arith, ap length split, length-append own more) in
      let head : read_node (length bits) (node left right) addresses [] bits ≡ ok (items, more) =
        ap (read_node (length bits) (node left right) addresses []) split
        ∙ read_node-Written (length bits) [] items own more bound w in
      (rest, rw (head, tail) refl)

  pub AllWritten-read_nodes :
      (n : ℕ) (bits : List Bool) (nodes : List Node) (rest : List Bool)
      → read_nodes (node left right) addresses n bits ≡ ok (nodes, rest)
      → (length nodes ≡ n) × AllWritten nodes bits
  AllWritten-read_nodes zero bits nodes rest h =
      let (a, b) = ok-inj [] nodes bits rest h in rw (← a) (refl, tt)
  AllWritten-read_nodes (suc n) bits nodes rest h =
      let ((items, more), first, h') =
        bind-ok (read_node (length bits) (node left right) addresses [] bits) _ (nodes, rest) h in
      let ((others, rest'), later, h'') =
        bind-ok (read_nodes (node left right) addresses n more) _ (nodes, rest) h' in
      let (entries, own, all, split, w) = read_node-Only (length bits) [] bits items more first in
      let (size, ws) = AllWritten-read_nodes n more others rest' later in
      let (a, b) = ok-inj (items ∷ others) nodes rest' rest h'' in
      rw (← a) (ap suc size, (own, more, split, subst (λ x. Written [] x own) (sym all) w, ws))
