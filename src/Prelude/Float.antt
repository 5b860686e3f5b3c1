-- ===== src/Prelude/Float.antt =====
-- The program's `float`, as a type with the operations that the code uses. The development
-- assumes nothing of them but what a theorem names. `of_nat n` is the literal or conversion of `n`.
use mathlib.Core.Bool.{Bool, true}
use mathlib.Core.Path.{◌≡◌}
use mathlib.Core.Logic.{◌⊎◌}
use Prim.Native.Nat.{ℕ, ◌+◌, ◌-◌, ◌*◌, ◌/◌}
use esp_glow.Prelude.Tests.{ltb, leb, ◌==◌, if◌then◌else◌}

pub record FloatOps (F : Type 0) : Type 0 where
  pub of_nat : ℕ → F
  pub add : F → F → F
  pub sub : F → F → F
  pub mul : F → F → F
  pub div : F → F → F
  pub less : F → F → Bool
  pub less_eq : F → F → Bool
  pub equal : F → F → Bool

module _ {F : Type 0} ⦃fl : FloatOps F⦄ where
  -- `if (v < 0.0f) v = 0.0f; if (v > 1.0f) v = 1.0f;`
  abbrev pub clamp_01 : F → F
  clamp_01 v =
      let raised = if fl.less v (fl.of_nat 0) then fl.of_nat 0 else v in
      if fl.less (fl.of_nat 1) raised then fl.of_nat 1 else raised

-- What IEEE comparison gives where no operand is a NaN.
pub record IsOrdered {F : Type 0} (fl : FloatOps F) : Type 0 where
  pub refl_le : (a : F) → fl.less_eq a a ≡ true
  pub trans_le : (a b c : F) → fl.less_eq a b ≡ true → fl.less_eq b c ≡ true → fl.less_eq a c ≡ true
  pub total_le : (a b : F) → (fl.less_eq a b ≡ true) ⊎ (fl.less_eq b a ≡ true)

-- A concrete reading, in thousandths and with no negative values, for runs at concrete inputs.
abbrev pub milli : FloatOps ℕ
milli = record {
  of_nat = λ n. n * 1000;
  add = λ a b. a + b;
  sub = λ a b. a - b;
  mul = λ a b. a * b / 1000;
  div = λ a b. a * 1000 / b;
  less = ltb;
  less_eq = leb;
  equal = ◌==◌;
}
