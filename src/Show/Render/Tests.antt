-- ===== src/Show/Render/Tests.antt =====
-- Runs of the rendering.
use esp_glow.Prelude.{
  ℕ, zero, suc, ◌≡◌, refl, ap, ◌∙◌, arith, false, inl, none, [], ◌∷◌, replicate, length,
}
use esp_glow.Prelude.Int.{negsuc}
use esp_glow.Prelude.Float.{milli}
use esp_glow.Prelude.Outcome.{Succeeds}
use esp_glow.Fixture.Capability.{dimmer}
use esp_glow.Fixture.Profile.{FixtureProfile}
use esp_glow.Fixture.Parse.WellFormed.{IsFixture}
use esp_glow.Fixture.Apply.{Conversions}
use esp_glow.Show.Intent.{AimIntent}
use esp_glow.Show.Patch.{no_universe, new_show, Show}
use esp_glow.Show.Render.{render_compute}
use esp_glow.Show.Render.Kept.{at}
use esp_glow.Show.Render.Kept.Frame.{IsShow, IsFrame, length-dark_slots, render_compute-IsFrame}

abbrev thousandths : Conversions ℕ
thousandths = record { round = λ x. x; to_nat = λ x. x }

abbrev par : FixtureProfile
par = record {
  footprint = 2;
  channels = record { cap = dimmer; coarse = 1; fine = 0xff; default_value = 3; flags = 0 } ∷ [];
  ranges = [];
  range_name_blob = [];
}

par-IsFixture : IsFixture par
par-IsFixture = record {
  few_channels = omega arith;
  few_ranges = omega arith;
  short_names = omega arith;
  channels_are = (record { coarse_in = omega arith; fine_in = inl refl }, tt);
  ranges_are = tt;
}

-- a par at slot 4 of universe 0, and an effect that sets its dimmer; there is no head
abbrev stage : Show ℕ ℕ
stage = record new_show {
  universe_count = 1;
  fixtures =
      record { id = 0; profile = par; universe = 0; base = 4; is_head = false; head = 0 } ∷ [];
  next_fixture_id = 1;
  effects =
      (λ t. (
        record {
          fixture_id = 0;
          cap = dimmer;
          norm01 = 500;
          range_name = none;
          range_index = negsuc 0;
        }
            ∷ [],
        [],
      ))
      ∷ [];
}

at-replicate : (n u : ℕ) → at (replicate n no_universe) u ≡ no_universe
at-replicate zero u = refl
at-replicate (suc n) zero = refl
at-replicate (suc n) (suc u) = at-replicate n u

stage-IsShow : IsShow stage
stage-IsShow = record {
  sized = record {
    eight = refl;
    full = λ u. ap (λ x. length x.slots) (at-replicate 8 u) ∙ length-dark_slots;
  };
  few = omega arith;
  patched = (record { profile_is = par-IsFixture; inside = omega arith }, tt);
}

abbrev nowhere : ℕ → AimIntent ℕ → ℕ × ℕ
nowhere head ai = (0, 0)

render_compute-IsFrame_example :
    Succeeds (IsFrame stage) (render_compute ⦃fl = milli⦄ thousandths nowhere stage 0)
render_compute-IsFrame_example =
    render_compute-IsFrame ⦃fl = milli⦄ thousandths nowhere stage 0 stage-IsShow
