-- ===== src/Fixture/Tests.antt =====
-- Runs of the fixture profiles.
use esp_glow.Prelude.{
  ℕ, ◌+◌, ◌*◌, ◌/◌, ◌≡◌, refl, arith, true, false, not, ◌&&◌, some, [], ◌∷◌, replicate, inl, inr,
  ltb,
}
use esp_glow.Prelude.Float.{milli}
use esp_glow.Prelude.Outcome.{ok, Succeeds, Returns-ok}
use esp_glow.Fixture.Capability.{dimmer, pan, gobo}
use esp_glow.Fixture.Profile.{FixtureProfile}
use esp_glow.Fixture.Parse.{parse_profile}
use esp_glow.Fixture.Parse.WellFormed.{IsFixture, parse_profile-Returns}
use esp_glow.Fixture.Apply.{
  Conversions, is_some, apply_capability, apply_defaults, apply_range_by_name, apply_range_by_index,
  range_at_local_index,
}
use esp_glow.Fixture.Apply.Within.{Within, apply-Within}
use esp_glow.Fixture.Ranges.{
  range_count, range_name, range_is_continuous, range_at_local_index-range_count,
}
use esp_glow.Fixture.Encode.{ProfileBuilder, add, add_range, encode}
use esp_glow.Fixture.Encode.Built.{IsBuilder, profile_of, DescribesAll}
use esp_glow.Fixture.Encode.RoundTrip.{encode-profile_of, parse_profile-encode}

abbrev thousandths : Conversions ℕ
thousandths = record { round = λ x. (x + 500) / 1000 * 1000; to_nat = λ x. x / 1000 }

-- a moving head: 16-bit pan, dimmer, and a gobo wheel with two named ranges and one without a name
abbrev head : ProfileBuilder
head =
    let b0 : ProfileBuilder = record {
      footprint = 4;
      name = 104 ∷ 100 ∷ [];
      caps = [];
      ranges = [];
    } in
    let b1 = add (add (add b0 pan 0 1 128 false) dimmer 2 0xff 0 true) gobo 3 0xff 0 false in
    let b2 = add_range b1 2 0 15 false (111 ∷ []) in
    add_range (add_range b2 2 16 31 true []) 2 32 63 false (115 ∷ 116 ∷ [])

head-IsBuilder : IsBuilder head
head-IsBuilder = record {
  few_caps = omega arith;
  short_name = omega arith;
  few_ranges = omega arith;
  short_names = omega arith;
  caps_are = (
    record { coarse_in = omega arith; fine_in = inr (omega arith) },
    (
      record { coarse_in = omega arith; fine_in = inl refl },
      (record { coarse_in = omega arith; fine_in = inl refl }, tt),
    ),
  );
  ranges_are =
      ((omega arith, omega arith), ((omega arith, omega arith), ((omega arith, omega arith), tt)));
}

parse_profile-encode_example :
    (p : FixtureProfile) × (parse_profile (encode head) ≡ ok p)
    × (p.footprint ≡ 4)
    × (p.channels ≡ head.caps)
    × DescribesAll p.range_name_blob head.ranges p.ranges
parse_profile-encode_example = parse_profile-encode head head-IsBuilder

abbrev profile : FixtureProfile
profile = profile_of head

profile-IsFixture : IsFixture profile
profile-IsFixture =
    Returns-ok (parse_profile-Returns (encode head)) (encode-profile_of head head-IsBuilder)

parse_profile-Returns_example : IsFixture profile
parse_profile-Returns_example =
    Returns-ok (parse_profile-Returns (encode head)) (encode-profile_of head head-IsBuilder)

by_name_run :
    apply_range_by_name ⦃fl = milli⦄ thousandths profile gobo
      (some (115 ∷ 116 ∷ []))
      500
      (replicate 6 9)
      1
    ≡ ok (true, 9 ∷ 9 ∷ 9 ∷ 9 ∷ 47 ∷ 9 ∷ [])
unfolding apply_range_by_name
by_name_run = refl

apply-Within_example :
    Succeeds
      (Within 1 4 (replicate 6 9))
      (apply_capability ⦃fl = milli⦄ thousandths profile pan 500 (replicate 6 9) 1)
    × Succeeds (Within 1 4 (replicate 6 9)) (apply_defaults profile (replicate 6 9) 1)
    × Succeeds
        (λ out. Within 1 4 (replicate 6 9) out.1)
        (apply_range_by_name ⦃fl = milli⦄ thousandths profile pan
          (some (115 ∷ []))
          500
          (replicate 6 9)
          1)
    × Succeeds
        (λ out. Within 1 4 (replicate 6 9) out.1)
        (apply_range_by_index ⦃fl = milli⦄ thousandths profile pan 1 500 (replicate 6 9) 1)
apply-Within_example =
    apply-Within ⦃fl = milli⦄ thousandths profile (replicate 6 9) 1 pan (some (115 ∷ [])) 1 500
      profile-IsFixture (omega arith)

range_at_local_index-range_count_example :
    (is_some (range_at_local_index profile gobo 3) ≡ ltb 3 (range_count profile gobo))
    × ((not (ltb 3 (range_count profile gobo)) && range_is_continuous profile gobo 3) ≡ false)
    × ((not (ltb 3 (range_count profile gobo)) && is_some (range_name profile gobo 3)) ≡ false)
range_at_local_index-range_count_example =
    range_at_local_index-range_count profile gobo 3 profile-IsFixture
