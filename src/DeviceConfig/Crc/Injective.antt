-- ===== src/DeviceConfig/Crc/Injective.antt =====
-- The CRC of a fixed number of bytes tells any two of them apart that differ in one byte.
use esp_glow.Prelude.{
  ℕ, zero, suc, ◌/◌, ◌%◌, ◌^◌, ◌<◌, ◌≡◌, refl, sym, ap, ◌∙◌, arith, ◌⊎◌, inl, inr, List, [], ◌∷◌,
  length, get_or, set, bit_and, bit_xor,
}
use esp_glow.Prelude.Bits.{bit_and_one}
use esp_glow.Prelude.Bits.Xor.{xor_bound, xor_comm, xor_cancel, xor_injective}
use esp_glow.Prelude.Bytes.{Bytes}
use esp_glow.DeviceConfig.{crc_bit, crc_bits, crc_byte}
use esp_glow.DeviceConfig.Crc.{crc_of}

abbrev poly : ℕ
poly = 0xEDB88320

crc_bit-even : (c : ℕ) → c % 2 ≡ 0 → crc_bit c ≡ bit_xor (c / 2) 0
crc_bit-even c even = let last : bit_and c 1 ≡ 0 = omega (arith, bit_and_one c) in rw last refl

crc_bit-odd : (c : ℕ) → c % 2 ≡ 1 → crc_bit c ≡ bit_xor (c / 2) poly
crc_bit-odd c odd = let last : bit_and c 1 ≡ 1 = omega (arith, bit_and_one c) in rw last refl

parity : (c : ℕ) → (c % 2 ≡ 0) ⊎ (c % 2 ≡ 1)
parity c = ground arith

crc_bit_bound : (c : ℕ) → c < 2 ^ 32 → crc_bit c < 2 ^ 32
crc_bit_bound c h = elim (parity c) [
  | inl even ↦
      omega (arith, crc_bit-even c even, xor_bound 32 (c / 2) 0 (omega arith) (omega arith))
  | inr odd ↦
      omega (arith, crc_bit-odd c odd, xor_bound 32 (c / 2) poly (omega arith) (omega arith))
]

-- The highest bit of the result is the bit shifted out, as the polynomial has it.
parity_kept :
    (c d : ℕ) → c < 2 ^ 32 → d < 2 ^ 32 → c % 2 ≡ 0 → d % 2 ≡ 1 → crc_bit c ≡ crc_bit d → ⊥
parity_kept c d h k even odd e =
    let half = xor_bound 31 (c / 2) 0 (omega arith) (omega arith) in
    let cd : bit_xor (d / 2) poly ≡ bit_xor (c / 2) 0 =
      sym (sym (crc_bit-even c even) ∙ e ∙ crc_bit-odd d odd) in
    let back : bit_xor (bit_xor (c / 2) 0) (d / 2) ≡ poly =
      ap (λ t. bit_xor t (d / 2)) (sym cd ∙ xor_comm (d / 2) poly) ∙ xor_cancel poly (d / 2) in
    omega (arith, back, xor_bound 31 (bit_xor (c / 2) 0) (d / 2) half (omega arith))

crc_bit_injective : (c d : ℕ) → c < 2 ^ 32 → d < 2 ^ 32 → crc_bit c ≡ crc_bit d → c ≡ d
crc_bit_injective c d h k e = elim (parity c) [
  | inl c_even ↦ elim (parity d) [
    | inl d_even ↦
        let halves =
          xor_injective (c / 2) (d / 2) 0
            (sym (crc_bit-even c c_even) ∙ e ∙ crc_bit-even d d_even) in
        omega (arith, halves)
    | inr d_odd ↦ absurd (parity_kept c d h k c_even d_odd e)
  ]
  | inr c_odd ↦ elim (parity d) [
    | inl d_even ↦ absurd (parity_kept d c k h d_even c_odd (sym e))
    | inr d_odd ↦
        let halves =
          xor_injective (c / 2) (d / 2) poly
            (sym (crc_bit-odd c c_odd) ∙ e ∙ crc_bit-odd d d_odd) in
        omega (arith, halves)
  ]
]

crc_bits_bound : (n c : ℕ) → c < 2 ^ 32 → crc_bits n c < 2 ^ 32
crc_bits_bound zero c h = h
crc_bits_bound (suc n) c h = crc_bits_bound n (crc_bit c) (crc_bit_bound c h)

crc_bits_injective : (n c d : ℕ) → c < 2 ^ 32 → d < 2 ^ 32 → crc_bits n c ≡ crc_bits n d → c ≡ d
crc_bits_injective zero c d h k e = e
crc_bits_injective (suc n) c d h k e =
    crc_bit_injective c d h k
      (crc_bits_injective n (crc_bit c) (crc_bit d) (crc_bit_bound c h) (crc_bit_bound d k) e)

crc_byte_bound : (c b : ℕ) → c < 2 ^ 32 → b < 2 ^ 8 → crc_byte c b < 2 ^ 32
unfolding crc_byte
crc_byte_bound c b h k = crc_bits_bound 8 (bit_xor c b) (xor_bound 32 c b h (omega arith))

crc_byte_injective :
    (c d a b : ℕ)
    → c < 2 ^ 32
    → d < 2 ^ 32
    → a < 2 ^ 8
    → b < 2 ^ 8
    → crc_byte c a ≡ crc_byte d b
    → bit_xor c a ≡ bit_xor d b
unfolding crc_byte
crc_byte_injective c d a b h k f g e =
    crc_bits_injective 8 (bit_xor c a) (bit_xor d b) (xor_bound 32 c a h (omega arith))
      (xor_bound 32 d b k (omega arith)) e

pub crc_of_bound : (c : ℕ) (xs : List ℕ) → c < 2 ^ 32 → Bytes xs → crc_of c xs < 2 ^ 32
crc_of_bound c [] h bytes = h
crc_of_bound c (x ∷ xs) h bytes =
    crc_of_bound (crc_byte c x) xs (crc_byte_bound c x h bytes.0) bytes.1

crc_of_injective :
    (c d : ℕ) (xs : List ℕ) → c < 2 ^ 32 → d < 2 ^ 32 → Bytes xs → crc_of c xs ≡ crc_of d xs → c ≡ d
crc_of_injective c d [] h k bytes e = e
crc_of_injective c d (x ∷ xs) h k bytes e =
    let next =
      crc_of_injective (crc_byte c x) (crc_byte d x) xs (crc_byte_bound c x h bytes.0)
        (crc_byte_bound d x k bytes.0) bytes.1 e in
    xor_injective c d x (crc_byte_injective c d x x h k bytes.0 bytes.0 next)

pub crc_of-set :
    (c : ℕ) (xs : List ℕ) (i v : ℕ)
    → c < 2 ^ 32
    → Bytes xs
    → v < 2 ^ 8
    → i < length xs
    → crc_of c (set xs i v) ≡ crc_of c xs
    → v ≡ get_or xs i 0
crc_of-set c [] i v h bytes k inside e = absurd (omega arith)
crc_of-set c (x ∷ xs) zero v h bytes k inside e =
    let next =
      crc_of_injective (crc_byte c v) (crc_byte c x) xs (crc_byte_bound c v h k)
        (crc_byte_bound c x h bytes.0) bytes.1 e in
    xor_injective v x c
      (xor_comm v c ∙ crc_byte_injective c c v x h h k bytes.0 next ∙ xor_comm c x)
crc_of-set c (x ∷ xs) (suc i) v h bytes k inside e =
    crc_of-set (crc_byte c x) xs i v (crc_byte_bound c x h bytes.0) bytes.1 k (omega arith) e
