-- ===== src/Certguard/Der/Bits.antt =====
-- The bits of a byte string determine it.
use pulpcore.Prelude.{
  ℕ, ◌+◌, ◌*◌, ◌<◌, ◌/◌, ◌%◌, ap, ◌∙◌, ◌≡◌, refl, Bool, List, [], ◌∷◌, ◌++◌, All, arith,
  if◌then◌else◌,
}
use pulpcore.Certguard.Der.{bits_of, bitstream, shift, high_bit}

abbrev place : Bool → ℕ
place b = if b then 1 else 0

-- The bytes whose bits are given, eight at a time, the highest first.
abbrev pub pack : List Bool → List ℕ
pack (a ∷ b ∷ c ∷ d ∷ e ∷ f ∷ g ∷ h ∷ bits) =
    (place a * 128
      + place b * 64
      + place c * 32
      + place d * 16
      + place e * 8
      + place f * 4
      + place g * 2
      + place h)
    ∷ pack bits
pack _ = []

place-high : (v : ℕ) → place (high_bit v) ≡ v / 128 % 2
place-high v = ground arith

-- The eight digits, each brought to the highest place, sum to the byte.
sum :
    (b : ℕ)
    → b < 256
    → b / 128 % 2 * 128
        + b * 2 / 128 % 2 * 64
        + b * 2 * 2 / 128 % 2 * 32
        + b * 2 * 2 * 2 / 128 % 2 * 16
        + b * 2 * 2 * 2 * 2 / 128 % 2 * 8
        + b * 2 * 2 * 2 * 2 * 2 / 128 % 2 * 4
        + b * 2 * 2 * 2 * 2 * 2 * 2 / 128 % 2 * 2
        + b * 2 * 2 * 2 * 2 * 2 * 2 * 2 / 128 % 2
      ≡ b
sum b h = omega arith

pack-byte : (b : ℕ) (rest : List Bool) → b < 256 → pack (bits_of b ++ rest) ≡ b ∷ pack rest
pack-byte b rest h =
    ap (λ n. n ∷ pack rest)
      (rw
        (
          place-high (shift b 0),
          place-high (shift b 1),
          place-high (shift b 2),
          place-high (shift b 3),
          place-high (shift b 4),
          place-high (shift b 5),
          place-high (shift b 6),
          place-high (shift b 7),
        )
        (sum b h))

-- The bits of a list of bytes, packed again eight at a time, are those bytes.
pub pack-bitstream : (data_ : List ℕ) → All (λ b. b < 256) data_ → pack (bitstream data_) ≡ data_
unfolding bitstream
pack-bitstream [] h = refl
pack-bitstream (b ∷ v) (h, hs) = pack-byte b (bitstream v) h ∙ ap (λ w. b ∷ w) (pack-bitstream v hs)
