-- ===== src/Show/Intent.antt =====
-- show.h: what effects emit. `IEffect` is an interface that scripts and native effects implement, so
-- an effect is a parameter: a function from the time to the intents that `evaluate` appends.
use esp_glow.Prelude.{ℕ, Bool, Option, List}
use esp_glow.Prelude.Int.{ℤ}
use esp_glow.Fixture.Capability.{Capability}

pub record Vec3 (F : Type 0) : Type 0 where
  pub x : F
  pub y : F
  pub z : F

-- `range_name` is the C string, none for nullptr.
pub record CapIntent (F : Type 0) : Type 0 where
  pub fixture_id : ℕ
  pub cap : Capability
  pub norm01 : F
  pub range_name : Option (List ℕ)
  pub range_index : ℤ

pub record AimIntent (F : Type 0) : Type 0 where
  pub fixture_id : ℕ
  pub target : Vec3 F
  pub is_point : Bool

abbrev pub Effect : Type 0 → Type 0
Effect F = F → List (CapIntent F) × List (AimIntent F)
