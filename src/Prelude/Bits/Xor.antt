-- ===== src/Prelude/Bits/Xor.antt =====
-- Exclusive or at variables.
use Prim.Native.Nat.{
  ℕ, zero, suc, ◌+◌, ◌*◌, ◌/◌, ◌%◌, ◌^◌, ◌≤◌, ◌<◌, bit_xor, differ, bit_xor-bitwise,
}
use mathlib.Core.Path.{◌≡◌, refl, sym, ◌∙◌, ap}
use native.Mathlib.Omega.{arith}
use native.Mathlib.Nat.{pow-suc}
use esp_glow.Prelude.Bits.{halved}

xor_halved : (x y : ℕ) → bit_xor x y ≡ bit_xor (x / 2) (y / 2) * 2 + differ (x % 2) (y % 2)
xor_halved x y =
    bit_xor-bitwise x y
    ∙ halved (λ b. b) differ x y (omega arith)
    ∙ sym (ap (λ t. t * 2 + differ (x % 2) (y % 2)) (bit_xor-bitwise (x / 2) (y / 2)))

differ_lem :
    (a b : ℕ)
    → a < 2
    → b < 2
    → (differ a b < 2) × (differ a b ≡ differ b a) × (differ (differ a b) b ≡ a)
differ_lem zero zero h k = (omega arith, refl, refl)
differ_lem zero (suc zero) h k = (omega arith, refl, refl)
differ_lem (suc zero) zero h k = (omega arith, refl, refl)
differ_lem (suc zero) (suc zero) h k = (omega arith, refl, refl)
differ_lem zero (suc (suc b)) h k = absurd (omega arith)
differ_lem (suc zero) (suc (suc b)) h k = absurd (omega arith)
differ_lem (suc (suc a)) b h k = absurd (omega arith)

-- An exclusive or of `k`-bit numbers has `k` bits.
pub xor_bound : (k x y : ℕ) → x < 2 ^ k → y < 2 ^ k → bit_xor x y < 2 ^ k
xor_bound zero x y h g =
    let none_x : x ≡ 0 = omega arith in
    let none_y : y ≡ 0 = omega arith in rw (none_x, none_y) (omega arith)
xor_bound (suc k) x y h g =
    let twice = pow-suc 2 k in
    let low = differ_lem (x % 2) (y % 2) (omega arith) (omega arith) in
    let high = xor_bound k (x / 2) (y / 2) (omega (arith, twice)) (omega (arith, twice)) in
    omega (arith, twice, low.0, high, xor_halved x y)

module _ (P : ℕ → ℕ → Type 0) (start : P 0 0) (step : (x y : ℕ) → P (x / 2) (y / 2) → P x y) where
  by_halves_from : (r x y : ℕ) → x ≤ r → y ≤ r → P x y
  by_halves_from zero zero zero h k = start
  by_halves_from zero (suc x) y h k = absurd (omega arith)
  by_halves_from zero zero (suc y) h k = absurd (omega arith)
  by_halves_from (suc r) x y h k =
      step x y (by_halves_from r (x / 2) (y / 2) (omega arith) (omega arith))

  by_halves : (x y : ℕ) → P x y
  by_halves x y = by_halves_from (x + y) x y (omega arith) (omega arith)

pub xor_comm : (x y : ℕ) → bit_xor x y ≡ bit_xor y x
xor_comm =
    by_halves (λ x y. bit_xor x y ≡ bit_xor y x) refl
      (λ x y rest.
        let (small, same, undone) = differ_lem (x % 2) (y % 2) (omega arith) (omega arith) in
        omega (arith, xor_halved x y, xor_halved y x, rest, same))

pub xor_cancel : (x y : ℕ) → bit_xor (bit_xor x y) y ≡ x
xor_cancel =
    by_halves (λ x y. bit_xor (bit_xor x y) y ≡ x) refl
      (λ x y rest.
        let (small, same, undone) = differ_lem (x % 2) (y % 2) (omega arith) (omega arith) in
        let s = xor_halved x y in
        let high : bit_xor x y / 2 ≡ bit_xor (x / 2) (y / 2) = omega arith in
        let low : bit_xor x y % 2 ≡ differ (x % 2) (y % 2) = omega arith in
        omega (
          arith,
          xor_halved (bit_xor x y) y,
          ap (λ t. bit_xor t (y / 2)) high ∙ rest,
          ap (λ t. differ t (y % 2)) low ∙ undone,
        ))

pub xor_injective : (x z y : ℕ) → bit_xor x y ≡ bit_xor z y → x ≡ z
xor_injective x z y e = sym (xor_cancel x y) ∙ ap (λ t. bit_xor t y) e ∙ xor_cancel z y
