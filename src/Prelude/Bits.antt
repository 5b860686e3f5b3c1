-- ===== src/Prelude/Bits.antt =====
-- Bit operations at variables: a field packed above `k` low bits, and masks of low bits.
pub mod Xor
use Prim.Native.Nat.{
  ℕ, zero, suc, ◌+◌, ◌*◌, ◌/◌, ◌%◌, ◌^◌, ◌≤◌, ◌<◌, min, max, bit_and, bit_or, digits, bitwise,
  bit_and-bitwise, bit_or-bitwise,
}
use mathlib.Core.Path.{◌≡◌, refl, sym, ◌∙◌, ap}
use native.Mathlib.Omega.{arith}
use native.Mathlib.Nat.{pow-suc, mul_assoc}

-- A bitwise operation is one on the lowest bits, and itself on the halves.
module _ (ended : ℕ → ℕ) (bits : ℕ → ℕ → ℕ) where
  rounds_agree : (x y r s : ℕ) → x ≤ r → x ≤ s → digits ended bits r x y ≡ digits ended bits s x y
  rounds_agree zero y zero zero h k = refl
  rounds_agree zero y zero (suc s) h k = refl
  rounds_agree zero y (suc r) zero h k = refl
  rounds_agree zero y (suc r) (suc s) h k = refl
  rounds_agree (suc x) y zero s h k = absurd (omega arith)
  rounds_agree (suc x) y (suc r) zero h k = absurd (omega arith)
  rounds_agree (suc x) y (suc r) (suc s) h k =
      ap (λ t. t * 2 + bits (suc x % 2) (y % 2))
        (rounds_agree (suc x / 2) (y / 2) r s (omega arith) (omega arith))

  pub halved :
      (x y : ℕ)
      → ended y ≡ ended (y / 2) * 2 + bits 0 (y % 2)
      → bitwise ended bits x y ≡ bitwise ended bits (x / 2) (y / 2) * 2 + bits (x % 2) (y % 2)
  halved zero y none_left = none_left
  halved (suc x) y none_left =
      ap (λ t. t * 2 + bits (suc x % 2) (y % 2))
        (rounds_agree (suc x / 2) (y / 2) x (suc x / 2) (omega arith) (omega arith))

or_halved : (x y : ℕ) → bit_or x y ≡ bit_or (x / 2) (y / 2) * 2 + max (x % 2) (y % 2)
or_halved x y =
    bit_or-bitwise x y
    ∙ halved (λ c. c) max x y (omega arith)
    ∙ sym (ap (λ t. t * 2 + max (x % 2) (y % 2)) (bit_or-bitwise (x / 2) (y / 2)))

and_halved : (x y : ℕ) → bit_and x y ≡ bit_and (x / 2) (y / 2) * 2 + min (x % 2) (y % 2)
and_halved x y =
    bit_and-bitwise x y
    ∙ halved (λ c. zero) min x y (omega arith)
    ∙ sym (ap (λ t. t * 2 + min (x % 2) (y % 2)) (bit_and-bitwise (x / 2) (y / 2)))

or_nothing : (y : ℕ) → bit_or 0 y ≡ y
or_nothing y = bit_or-bitwise 0 y

double : (x : ℕ) → (x * 2 / 2 ≡ x) × (x * 2 % 2 ≡ 0)
double x = (omega arith, omega arith)

-- `low | (high << k)` is `low + high * 2^k`, for `low` of `k` bits.
pub bit_or-shifted : (k low high : ℕ) → low < 2 ^ k → bit_or low (high * 2 ^ k) ≡ low + high * 2 ^ k
bit_or-shifted zero low high h =
    let none_low : low ≡ 0 = omega arith in rw none_low (omega (arith, or_nothing (high * 2 ^ 0)))
bit_or-shifted (suc k) low high h =
    let twice : 2 ^ suc k ≡ 2 ^ k * 2 = pow-suc 2 k in
    let field : high * 2 ^ suc k ≡ high * 2 ^ k * 2 =
      ap (λ t. high * t) twice ∙ sym (mul_assoc high (2 ^ k) 2) in
    let (half, even) = double (high * 2 ^ k) in
    rw field (
      omega (
        arith,
        twice,
        or_halved low (high * 2 ^ k * 2)
            ∙ ap (λ t. bit_or (low / 2) t * 2 + max (low % 2) (high * 2 ^ k * 2 % 2)) half,
        even,
        bit_or-shifted k (low / 2) high (omega (arith, twice)),
      ))

and_nothing : (r x : ℕ) → x ≤ r → bit_and x 0 ≡ 0
and_nothing r zero h = bit_and-bitwise 0 0
and_nothing zero (suc x) h = absurd (omega arith)
and_nothing (suc r) (suc x) h =
    omega (arith, and_halved (suc x) 0, and_nothing r (suc x / 2) (omega arith))

-- `x & (2^k - 1)` for the masks that the program uses
pub bit_and_one : (x : ℕ) → bit_and x 1 ≡ x % 2
bit_and_one x = omega (arith, and_halved x 1, and_nothing (x / 2) (x / 2) (omega arith))

mask_15 : (x : ℕ) → bit_and x 15 ≡ x % 16
mask_15 x = omega (
  arith,
  and_halved x 15,
  and_halved (x / 2) 7,
  and_halved (x / 2 / 2) 3,
  bit_and_one (x / 2 / 2 / 2),
)

pub bit_and_127 : (x : ℕ) → bit_and x 127 ≡ x % 128
bit_and_127 x = omega (
  arith,
  and_halved x 127,
  and_halved (x / 2) 63,
  and_halved (x / 2 / 2) 31,
  mask_15 (x / 2 / 2 / 2),
)

pub bit_and_255 : (x : ℕ) → bit_and x 255 ≡ x % 256
bit_and_255 x = omega (arith, and_halved x 255, bit_and_127 (x / 2))

pub or_bound : (k x y : ℕ) → x < 2 ^ k → y < 2 ^ k → bit_or x y < 2 ^ k
or_bound zero x y h g =
    let none_x : x ≡ 0 = omega arith in
    let none_y : y ≡ 0 = omega arith in rw (none_x, none_y) (omega arith)
or_bound (suc k) x y h g =
    let twice = pow-suc 2 k in
    let high = or_bound k (x / 2) (y / 2) (omega (arith, twice)) (omega (arith, twice)) in
    omega (arith, twice, high, or_halved x y)
