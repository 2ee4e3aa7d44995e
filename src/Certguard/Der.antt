-- ===== src/Certguard/Der.antt =====
-- Lengths and values in DER, and the bits of a byte string: `split_count`, `asn1_bytes`,
-- `asn1_string` and `bitstream` of pulp_certguard/rhsm/rhsm_check_path.py. A byte string is the list
-- of its bytes, each below 256.
pub mod Length
pub mod Bits
use pulpcore.Prelude.{
  ℕ, zero, suc, ◌+◌, ◌-◌, ◌*◌, ◌/◌, ◌%◌, String, Bool, true, false, Option, none, some, List, [],
  ◌∷◌, ◌++◌, ◌==◌, eq_nat, if◌then◌else◌, leb, length, map,
}
use Prim.Native.String.{len}
use pulpcore.Certguard.Failure.{
  Result, ok, raised, index_error, assertion_error, unicode_error, ◌>>=◌,
}

-- `v & 128`, the highest bit of a byte.
abbrev pub high_bit : ℕ → Bool
high_bit v = v / 128 % 2 == 1

-- `v[n:]`
abbrev pub drop : ℕ → List ℕ → List ℕ
drop zero v = v
drop (suc n) [] = []
drop (suc n) (b ∷ v) = drop n v

-- The loop over the bytes of a length, `v[i + 1]` the next one.
abbrev pub read_length : ℕ → ℕ → List ℕ → Result ℕ
read_length zero so_far v = ok so_far
read_length (suc n) so_far [] = raised index_error
read_length (suc n) so_far (b ∷ v) = read_length n (so_far * 256 + b) v

unfoldable pub split_count : List ℕ → Result (ℕ × List ℕ)
split_count [] = raised index_error
split_count (b ∷ v) =
    if high_bit b
    then (read_length (b - 128) 0 v >>= λ count. ok (count, drop (b - 128) v))
    else ok (b, v)

-- `assert c; return a`
abbrev pub assert_then : {A : Type 0} → Bool → A → Result A
assert_then c a = if c then ok a else raised assertion_error

unfoldable pub asn1_bytes : List ℕ → Result (List ℕ)
unfolding split_count
asn1_bytes [] = raised index_error
asn1_bytes (tag ∷ v) =
    if tag == 4
    then (split_count v >>= λ (count, result). assert_then (length result == count) result)
    else raised assertion_error

-- The text of some bytes, `none` where they are not UTF-8, and its number of characters.
pub record Decoder : Type 0 where
  pub decode : List ℕ → Option String
  pub characters : String → ℕ

abbrev pub decoded : Option String → Result String
decoded none = raised unicode_error
decoded (some text) = ok text

unfoldable pub asn1_string : Decoder → List ℕ → Result String
unfolding split_count
asn1_string U [] = raised index_error
asn1_string U (tag ∷ v) =
    if tag == 12
    then (split_count v >>= λ (count, rest).
        decoded (U.decode rest) >>= λ text. assert_then (U.characters text == count) text)
    else raised assertion_error

-- `b << i`
abbrev pub shift : ℕ → ℕ → ℕ
shift b zero = b
shift b (suc i) = shift (b * 2) i

-- `range(8)`
abbrev places : List ℕ
places = 0 ∷ 1 ∷ 2 ∷ 3 ∷ 4 ∷ 5 ∷ 6 ∷ 7 ∷ []

abbrev pub bits_of : ℕ → List Bool
bits_of b = map (λ i. high_bit (shift b i)) places

unfoldable pub bitstream : List ℕ → List Bool
bitstream [] = []
bitstream (b ∷ v) = bits_of b ++ bitstream v
