-- ===== src/Certguard/Der/Length.antt =====
-- A length that is written by the rules of DER is read back.
use pulpcore.Prelude.{
  ℕ, zero, suc, ◌+◌, ◌-◌, ◌*◌, ◌/◌, ◌%◌, ◌<◌, ◌≡◌, refl, sym, ap, ◌∙◌, true, false, List, [], ◌∷◌,
  ◌++◌, length, arith, ==-refl, eq_nat, length-append,
}
use pulpcore.Certguard.Failure.{ok}
use pulpcore.Certguard.Der.{drop, read_length, split_count, asn1_bytes, high_bit}

-- The last `k` digits of `n` to the base 256, the highest first.
abbrev pub digits : ℕ → ℕ → List ℕ
digits zero n = []
digits (suc k) n = digits k (n / 256) ++ (n % 256) ∷ []

-- `256 ** k`
abbrev pub power : ℕ → ℕ
power zero = 1
power (suc k) = 256 * power k

length-digits : (k n : ℕ) → length (digits k n) ≡ k
length-digits zero n = refl
length-digits (suc k) n =
    length-append (digits k (n / 256)) (n % 256 ∷ []) ∙ rw (length-digits k (n / 256)) (omega arith)

drop-append : (xs ys : List ℕ) → drop (length xs) (xs ++ ys) ≡ ys
drop-append [] ys = refl
drop-append (x ∷ xs) ys = drop-append xs ys

-- What the loop makes of some bytes.
abbrev fold_bytes : ℕ → List ℕ → ℕ
fold_bytes so_far [] = so_far
fold_bytes so_far (b ∷ v) = fold_bytes (so_far * 256 + b) v

read_length-append :
    (v rest : List ℕ) (so_far : ℕ)
    → read_length (length v) so_far (v ++ rest) ≡ ok (fold_bytes so_far v)
read_length-append [] rest so_far = refl
read_length-append (b ∷ v) rest so_far = read_length-append v rest (so_far * 256 + b)

fold_bytes-append :
    (so_far : ℕ) (v : List ℕ) (b : ℕ)
    → fold_bytes so_far (v ++ b ∷ []) ≡ fold_bytes so_far v * 256 + b
fold_bytes-append so_far [] b = refl
fold_bytes-append so_far (c ∷ v) b = fold_bytes-append (so_far * 256 + c) v b

fold_bytes-digits : (k n : ℕ) → n < power k → fold_bytes 0 (digits k n) ≡ n
fold_bytes-digits zero n h = omega arith
fold_bytes-digits (suc k) n h =
    fold_bytes-append 0 (digits k (n / 256)) (n % 256)
    ∙ rw (fold_bytes-digits k (n / 256) (omega arith)) (omega arith)

-- The definite form: one byte for a length below 128, otherwise the number of the bytes that follow.
pub split_count-long :
    (k n : ℕ) (rest : List ℕ)
    → k < 128
    → n < power k
    → split_count ((128 + k) ∷ (digits k n ++ rest)) ≡ ok (n, rest)
unfolding split_count
split_count-long k n rest h b =
    let high : high_bit (128 + k) ≡ true = ground arith in
    let less : (128 + k) - 128 ≡ k = omega arith in
    let size = length-digits k n in
    let count : read_length k 0 (digits k n ++ rest) ≡ ok n =
      ap (λ m. read_length m 0 (digits k n ++ rest)) (sym size)
      ∙ read_length-append (digits k n) rest 0
      ∙ ap ok (fold_bytes-digits k n b) in
    let dropped : drop k (digits k n ++ rest) ≡ rest =
      ap (λ m. drop m (digits k n ++ rest)) (sym size) ∙ drop-append (digits k n) rest in
    rw (high, less, count, dropped) refl

pub split_count-short : (n : ℕ) (rest : List ℕ) → n < 128 → split_count (n ∷ rest) ≡ ok (n, rest)
unfolding split_count
split_count-short n rest h = let low : high_bit n ≡ false = ground arith in rw low refl

-- A payload of less than 256 ** k bytes, with the tag of an octet string and its length in the long
-- form with k bytes, is read back whole.
pub asn1_bytes-digits :
    (k : ℕ) (payload : List ℕ)
    → k < 128
    → length payload < power k
    → asn1_bytes (4 ∷ (128 + k) ∷ (digits k (length payload) ++ payload)) ≡ ok payload
unfolding asn1_bytes
asn1_bytes-digits k payload h b =
    rw (split_count-long k (length payload) payload h b, ==-refl (length payload)) refl
