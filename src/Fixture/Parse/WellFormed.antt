-- ===== src/Fixture/Parse/WellFormed.antt =====
-- What `parseProfile` guarantees of a profile that it returns, whatever the blob.
use esp_glow.Prelude.{
  ℕ, ◌+◌, ◌-◌, ◌*◌, ◌≤◌, ◌<◌, ◌≡◌, sym, arith, true, not, ◌&&◌, ◌⊎◌, List, ltb, leb, ◌==◌, length,
  drop, All, length-drop, Bool-cases, inl, inr, subst,
}
use esp_glow.Prelude.Outcome.{Returns, ok_returns, Returns-bind, Returns-require, Returns-read}
use esp_glow.Mdef.Parse.{le_16}
use esp_glow.Mdef.Parse.Safe.{IsName, not-ltb, byte, each_record-Returns}
use esp_glow.Mdef.Parse.Profile.{IsName-Returns}
use esp_glow.Fixture.Profile.{ChannelMap, FunctionRange, FixtureProfile}
use esp_glow.Fixture.Parse.{
  parse_capability, parse_capability_records, parse_range, parse_v1, parse_v2, parse_profile,
}

pub record IsChannel (footprint : ℕ) (c : ChannelMap) : Type 0 where
  pub coarse_in : c.coarse < footprint
  pub fine_in : (c.fine ≡ 0xff) ⊎ (c.fine < footprint)

pub record IsRange (channels : ℕ) (names : List ℕ) (r : FunctionRange) : Type 0 where
  pub cap_in : r.cap_index < channels
  pub ordered : r.dmx_from ≤ r.dmx_to
  pub name : (r.name_off ≡ 0xffff) ⊎ IsName names r.name_off

-- A profile that fits the arrays of `FixtureProfile`: its channels inside the footprint, each range of one of
-- them and in order, each name ended inside the name blob.
pub record IsFixture (p : FixtureProfile) : Type 0 where
  pub few_channels : length p.channels ≤ 24
  pub few_ranges : length p.ranges ≤ 192
  pub short_names : length p.range_name_blob ≤ 2048
  pub channels_are : All (IsChannel p.footprint) p.channels
  pub ranges_are : All (IsRange (length p.channels) p.range_name_blob) p.ranges

not-leb : (a b : ℕ) → not (leb a b) ≡ true → b < a
not-leb a b h = ground arith

fine_fits :
    (footprint fine : ℕ)
    → not (not (fine == 0xff) && leb footprint fine) ≡ true
    → (fine ≡ 0xff) ⊎ (fine < footprint)
fine_fits footprint fine h = ground arith

module _ (bytes : List ℕ) where
  parse_capability-Returns :
      (footprint o : ℕ)
      → o + 5 ≤ length bytes
      → Returns (IsChannel footprint) (parse_capability bytes footprint o)
  unfolding parse_capability
  parse_capability-Returns footprint o h = Returns-read bytes o _ (omega arith) (
      Returns-read bytes (o + 1) _ (omega arith) (
        Returns-read bytes (o + 2) _ (omega arith) (
          Returns-read bytes (o + 3) _ (omega arith) (
            Returns-read bytes (o + 4) _ (omega arith) (
              Returns-require (not (leb footprint (byte bytes (o + 1)))) (λ coarse.
                Returns-require
                  (not (not (byte bytes (o + 2) == 0xff) && leb footprint (byte bytes (o + 2))))
                  (λ fine.
                    ok_returns (record {
                      coarse_in = not-leb _ _ coarse;
                      fine_in = fine_fits _ _ fine;
                    }))))))))

  parse_range-Returns :
      (channels start o : ℕ) (inside : start ≤ length bytes)
      → o + 7 ≤ length bytes
      → Returns
          (IsRange channels (drop start bytes))
          (parse_range bytes channels start (length bytes - start) o)
  unfolding parse_range
  parse_range-Returns channels start o inside h =
      let b : ℕ → ℕ = byte bytes in
      Returns-read bytes o _ (omega arith) (
        Returns-read bytes (o + 1) _ (omega arith) (
          Returns-read bytes (o + 2) _ (omega arith) (
            Returns-read bytes (o + 3) _ (omega arith) (
              Returns-read bytes (o + 4) _ (omega arith) (
                Returns-read bytes (o + 5) _ (omega arith) (
                  Returns-read bytes (o + 6) _ (omega arith) (
                    Returns-require (not (leb channels (b o))) (λ cap.
                      Returns-require (not (ltb (b (o + 2)) (b (o + 1)))) (λ ordered.
                        Returns-bind _
                          (IsName-Returns bytes start inside (le_16 (b (o + 4)) (b (o + 5))))
                          (λ u name. ok_returns (record {
                            cap_in = not-leb _ _ cap;
                            ordered = not-ltb _ _ ordered;
                            name = name;
                          })))))))))))

  parse_v1-Returns :
      (footprint caps name_len : ℕ)
      → caps ≤ 24
      → Returns IsFixture (parse_v1 bytes footprint caps name_len)
  unfolding parse_v1 parse_capability_records
  parse_v1-Returns footprint caps name_len few =
      Returns-require (not (ltb (length bytes) (9 + name_len + 5 * caps))) (λ whole.
        Returns-bind _
          (each_record-Returns (parse_capability bytes footprint) (IsChannel footprint) 5
            (length bytes) (parse_capability-Returns footprint) (9 + name_len) caps
            (not-ltb _ _ whole))
          (λ channels are. ok_returns (record {
            few_channels = omega (arith, are.1);
            few_ranges = omega arith;
            short_names = omega arith;
            channels_are = are.0;
            ranges_are = tt;
          })))

  parse_v2-Returns :
      (footprint caps name_len : ℕ)
      → caps ≤ 24
      → Returns IsFixture (parse_v2 bytes footprint caps name_len)
  unfolding parse_v2 parse_capability_records
  parse_v2-Returns footprint caps name_len few =
      Returns-require (not (ltb (length bytes) 11)) (λ headed.
        let eleven = not-ltb _ _ headed in
        Returns-read bytes 9 _ (omega arith) (
          Returns-read bytes 10 _ (omega arith) (
            let count = le_16 (byte bytes 9) (byte bytes 10) in
            let ranges_at = 11 + name_len + 5 * caps in
            let start = ranges_at + 7 * count in
            Returns-require (not (ltb 192 count)) (λ counted.
              Returns-require (not (ltb (length bytes) start)) (λ whole.
                let inside = not-ltb _ _ whole in
                Returns-require (not (ltb 2048 (length bytes - start))) (λ short.
                  Returns-bind _
                    (each_record-Returns (parse_capability bytes footprint) (IsChannel footprint) 5
                      (length bytes) (parse_capability-Returns footprint) (11 + name_len) caps
                      (omega arith))
                    (λ channels are.
                      Returns-bind _
                        (each_record-Returns (parse_range bytes caps start (length bytes - start))
                          (IsRange caps (drop start bytes)) 7 (length bytes)
                          (λ o h. parse_range-Returns caps start o inside h) ranges_at count inside)
                        (λ ranges all. ok_returns (record {
                          few_channels = omega (arith, are.1);
                          few_ranges = omega (arith, all.1, not-ltb _ _ counted);
                          short_names = omega (arith, length-drop start bytes, not-ltb _ _ short);
                          channels_are = are.0;
                          ranges_are =
                              subst (λ n. All (IsRange n (drop start bytes)) ranges) (sym are.1)
                                all.0;
                        })))))))))

-- For every blob: the parser reads inside it only, and a profile that it returns fits the arrays, has every
-- channel inside the footprint, every range in order and of a channel that is there, and every name of a
-- range ended inside the name blob.
pub parse_profile-Returns : (bytes : List ℕ) → Returns IsFixture (parse_profile bytes)
unfolding parse_profile
parse_profile-Returns bytes = Returns-require (not (ltb (length bytes) 9)) (λ nine.
    let whole = not-ltb _ _ nine in
    let b : ℕ → ℕ = byte bytes in
    Returns-read bytes 0 _ (omega arith) (
      Returns-read bytes 1 _ (omega arith) (
        Returns-read bytes 2 _ (omega arith) (
          Returns-read bytes 3 _ (omega arith) (
            Returns-require (b 0 == 80 && b 1 == 70 && b 2 == 88 && b 3 == 49) (λ magic.
              Returns-read bytes 4 _ (omega arith) (
                Returns-require (not (not (b 4 == 1) && not (b 4 == 2))) (λ version.
                  Returns-read bytes 5 _ (omega arith) (
                    Returns-require (not (not (b 5 == 0))) (λ flags.
                      Returns-read bytes 6 _ (omega arith) (
                        Returns-read bytes 7 _ (omega arith) (
                          Returns-read bytes 8 _ (omega arith) (
                            Returns-require (not (ltb 24 (b 7))) (λ few.
                              elim (Bool-cases (b 4 == 1)) [
                                | inl one ↦
                                    rw one
                                      (parse_v1-Returns bytes (b 6) (b 7) (b 8) (not-ltb _ _ few))
                                | inr two ↦
                                    rw two
                                      (parse_v2-Returns bytes (b 6) (b 7) (b 8) (not-ltb _ _ few))
                              ]))))))))))))))
