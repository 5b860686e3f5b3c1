-- ===== src/Fixture/Profile.antt =====
-- The types and limits of fixture_profile.h.
use esp_glow.Prelude.{ℕ, Bool, List}
use esp_glow.Fixture.Capability.{Capability}

abbrev pub max_caps : ℕ
max_caps = 24

abbrev pub max_ranges : ℕ
max_ranges = 192

abbrev pub max_range_name_blob : ℕ
max_range_name_blob = 2048

-- `fine` is 0xFF for a channel of 8 bits; bit 0 of `flags` inverts it.
pub record ChannelMap : Type 0 where
  pub cap : Capability
  pub coarse : ℕ
  pub fine : ℕ
  pub default_value : ℕ
  pub flags : ℕ

-- `dmx_to` is inside the range. `name_off` is 0xFFFF for a range without a name.
pub record FunctionRange : Type 0 where
  pub cap_index : ℕ
  pub dmx_from : ℕ
  pub dmx_to : ℕ
  pub continuous : Bool
  pub name_off : ℕ
  pub semantic : ℕ

-- Each array with its count is a list.
pub record FixtureProfile : Type 0 where
  pub footprint : ℕ
  pub channels : List ChannelMap
  pub ranges : List FunctionRange
  pub range_name_blob : List ℕ
