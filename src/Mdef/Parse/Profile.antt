-- ===== src/Mdef/Parse/Profile.antt =====
-- Every blob, whatever its bytes: `parseMidiController` stays inside it, and what it returns is well formed.
use esp_glow.Prelude.{
  ℕ, ◌+◌, ◌-◌, ◌*◌, ◌≤◌, ◌<◌, ◌≡◌, refl, sym, ap, ◌∙◌, arith, Bool, true, false, not, ◌&&◌, ◌||◌,
  ◌⊎◌, List, if◌then◌else◌, ltb, leb, ◌==◌, ltb→lt, length, drop, All, length-drop, drop-drop,
  Bool-cases, inl, inr, ==_iff, subst,
}
use esp_glow.Prelude.Outcome.{
  ok, require, Returns, ok_returns, reject_returns, Returns-bind, Returns-require, Returns-read,
  Returns-impl,
}
use esp_glow.Prelude.Strings.{has_nul}
use esp_glow.Mdef.{MidiControllerProfile}
use esp_glow.Mdef.Parse.{
  check_name, ordered_7_bit, le_16, parse_fader, parse_color, parse_pad, parse_encoder, parse_led,
  parse_init_count, parse_tables, parse_midi_controller,
}
use esp_glow.Mdef.Parse.Safe.{
  IsName, Ordered, IsPad, IsFader, IsLed, IsColor, not-ltb, Ordered-ordered_7_bit,
  has_nul_within-has_nul, each_record-Returns, byte, read_channels-Returns, parse_pad-Returns,
  parse_encoder-Returns, parse_led-Returns, parse_init_blobs-Returns,
}

-- A profile that fits the arrays of `MidiControllerProfile`, with every range in order, every colour index in
-- the colour table and every name ended inside the name blob.
pub record IsProfile (p : MidiControllerProfile) : Type 0 where
  pub channel_in : p.midi_channel ≤ 16
  pub few_pads : length p.pads ≤ 32
  pub few_faders : length p.faders ≤ 16
  pub few_encoders : length p.encoders ≤ 16
  pub few_leds : length p.leds ≤ 8
  pub few_colors : length p.colors ≤ 96
  pub few_inits : length p.init_blobs ≤ 8
  pub short_names : length p.name_blob ≤ 1024
  pub pads_are : All IsPad p.pads
  pub faders_are : All (IsFader p.name_blob) p.faders
  pub encoders_are : All (λ r. Ordered r.cc_from r.cc_to) p.encoders
  pub leds_are : All (IsLed (length p.colors)) p.leds
  pub colors_are : All (IsColor p.name_blob) p.colors
  pub inits_are : All (λ blob. length blob ≤ 64) p.init_blobs

-- a record with its channel bytes, where it has them
fits :
    (wide : Bool) (narrow o n : ℕ)
    → o + (if wide then narrow + 2 else narrow) ≤ n
    → o + narrow + (if wide then 2 else 0) ≤ n
fits false narrow o n h = omega arith
fits true narrow o n h = omega arith

Returns-required :
    (P : Type 0) (b : Bool) → (b ≡ true → P) → Returns (λ (u : Unit {0}). P) (require b)
Returns-required P true k = ok_returns (k refl)
Returns-required P false k = reject_returns

module _ (bytes : List ℕ) where
  module _ (start : ℕ) (inside : start ≤ length bytes) where
    abbrev pub names : List ℕ
    names = drop start bytes

    check_name-Returns :
        (off : ℕ)
        → Returns (λ u. IsName names off) (check_name bytes start (length bytes - start) off)
    unfolding check_name
    check_name-Returns off = Returns-require (ltb off (length bytes - start)) (λ less.
        let off_in : off < length bytes - start = ltb→lt _ _ less in
        Returns-bind _
          (has_nul_within-has_nul bytes (start + off) (length bytes - start - off) (omega arith))
          (λ ended same. Returns-required _ ended (λ e. record {
            inside = omega (arith, length-drop start bytes);
            ended = ap has_nul (drop-drop start off bytes) ∙ sym same ∙ e;
          })))

    pub IsName-Returns :
        (off : ℕ)
        → Returns
            (λ (u : Unit {0}). (off ≡ 0xffff) ⊎ IsName names off)
            (if not (off == 0xffff)
              then check_name bytes start (length bytes - start) off
              else ok tt)
    IsName-Returns off = elim (Bool-cases (off == 0xffff)) [
      | inl unnamed ↦ rw unnamed (ok_returns (inl ((==_iff off 0xffff).0 unnamed)))
      | inr named ↦ rw named (Returns-impl _ _ (check_name-Returns off) (λ u name. inr name))
    ]

    parse_fader-Returns :
        (wide : Bool) (o : ℕ)
        → o + 4 + (if wide then 2 else 0) ≤ length bytes
        → Returns (IsFader names) (parse_fader bytes wide start (length bytes - start) o)
    unfolding parse_fader
    parse_fader-Returns wide o h =
        let off = le_16 (byte bytes (o + 2)) (byte bytes (o + 3)) in
        Returns-read bytes o _ (omega arith) (
          Returns-read bytes (o + 1) _ (omega arith) (
            Returns-read bytes (o + 2) _ (omega arith) (
              Returns-read bytes (o + 3) _ (omega arith) (
                Returns-require (ordered_7_bit (byte bytes o) (byte bytes (o + 1))) (λ ordered.
                  Returns-bind _ (IsName-Returns off) (λ u name.
                    Returns-bind _ (read_channels-Returns bytes wide (o + 4) h) (λ c valid.
                      ok_returns (record {
                        ccs = Ordered-ordered_7_bit _ _ ordered;
                        channels = valid;
                        name = name;
                      }))))))))

    parse_color-Returns :
        (o : ℕ)
        → o + 3 ≤ length bytes
        → Returns (IsColor names) (parse_color bytes start (length bytes - start) o)
    unfolding parse_color
    parse_color-Returns o h = Returns-read bytes o _ (omega arith) (
        Returns-read bytes (o + 1) _ (omega arith) (
          Returns-read bytes (o + 2) _ (omega arith) (
            Returns-require (not (ltb 127 (byte bytes (o + 2)))) (λ small.
              Returns-bind _ (check_name-Returns (le_16 (byte bytes o) (byte bytes (o + 1))))
                (λ u name. ok_returns (record { value_in = not-ltb _ _ small; name = name }))))))

  parse_init_count-Returns :
      (v3 : Bool)
      → 13 ≤ length bytes
      → Returns (λ r. (r.0 ≤ 8) × (13 ≤ r.1)) (parse_init_count bytes v3)
  unfolding parse_init_count
  parse_init_count-Returns false h = ok_returns (omega arith, omega arith)
  parse_init_count-Returns true h = Returns-require (not (ltb (length bytes) 14)) (λ room.
      Returns-read bytes 13 _ (omega (arith, not-ltb _ _ room)) (
        Returns-require (not (ltb 8 (byte bytes 13)))
          (λ few. ok_returns (not-ltb _ _ few, omega arith))))

  -- the counts that the header has checked
  module _ (wide : Bool) (channel pads_at pads faders encoders leds colors inits : ℕ)
      (channel_in : channel ≤ 16) (few_pads : pads ≤ 32) (few_faders : faders ≤ 16)
      (few_encoders : encoders ≤ 16) (few_leds : leds ≤ 8) (few_colors : colors ≤ 96)
      (few_inits : inits ≤ 8) where
    parse_tables-Returns :
        Returns IsProfile
          (parse_tables bytes wide channel pads_at pads faders encoders leds colors inits)
    unfolding parse_tables
    parse_tables-Returns =
        let pad_size : ℕ = (if wide then 4 else 2) in
        let fader_size : ℕ = (if wide then 6 else 4) in
        let led_size : ℕ = (if wide then 9 else 7) in
        let faders_at = pads_at + pad_size * pads in
        let encoders_at = faders_at + fader_size * faders in
        let leds_at = encoders_at + 3 * encoders in
        let colors_at = leds_at + led_size * leds in
        let n = length bytes in
        Returns-bind _ (parse_init_blobs-Returns bytes (colors_at + 3 * colors) inits)
          (λ blobs (behind, count, short). Returns-require (not (ltb n blobs.1)) (λ within.
            let inside : blobs.1 ≤ n = not-ltb _ _ within in
            Returns-require (not (ltb 1024 (n - blobs.1))) (λ small.
              Returns-bind _
                (each_record-Returns (parse_pad bytes wide) IsPad pad_size n
                  (λ o h. parse_pad-Returns bytes wide o (fits wide 2 o n h)) pads_at pads
                  (omega arith))
                (λ ps p.
                  Returns-bind _
                    (each_record-Returns (parse_fader bytes wide blobs.1 (n - blobs.1))
                      (IsFader (drop blobs.1 bytes)) fader_size n
                      (λ o h. parse_fader-Returns blobs.1 inside wide o (fits wide 4 o n h))
                      faders_at faders (omega arith))
                    (λ fs f.
                      Returns-bind _
                        (each_record-Returns (parse_encoder bytes) (λ r. Ordered r.cc_from r.cc_to)
                          3 n (λ o h. parse_encoder-Returns bytes o h) encoders_at encoders
                          (omega arith))
                        (λ es e.
                          Returns-bind _
                            (each_record-Returns (parse_led bytes wide colors) (IsLed colors)
                              led_size n
                              (λ o h. parse_led-Returns bytes wide colors o (fits wide 7 o n h))
                              leds_at leds (omega arith))
                            (λ ls l.
                              Returns-bind _
                                (each_record-Returns (parse_color bytes blobs.1 (n - blobs.1))
                                  (IsColor (drop blobs.1 bytes)) 3 n
                                  (λ o h. parse_color-Returns blobs.1 inside o h) colors_at colors
                                  (omega arith))
                                (λ cs c. ok_returns (record {
                                  channel_in = channel_in;
                                  few_pads = omega (arith, p.1);
                                  few_faders = omega (arith, f.1);
                                  few_encoders = omega (arith, e.1);
                                  few_leds = omega (arith, l.1);
                                  few_colors = omega (arith, c.1);
                                  few_inits = omega (arith, count);
                                  short_names =
                                      omega (arith, length-drop blobs.1 bytes, not-ltb _ _ small);
                                  pads_are = p.0;
                                  faders_are = f.0;
                                  encoders_are = e.0;
                                  leds_are = subst (λ k. All (IsLed k) ls) (sym c.1) l.0;
                                  colors_are = c.0;
                                  inits_are = short;
                                })))))))))

-- Whatever the bytes, `parseMidiController` reads nothing outside them. A profile that it returns fits the
-- arrays it is copied to, its ranges are in order and of 7 bits with a valid channel range, its LED colours
-- lie in the colour table, and its names end inside the name blob.
pub parse_midi_controller-Returns :
    (bytes : List ℕ) → Returns IsProfile (parse_midi_controller bytes)
unfolding parse_midi_controller
parse_midi_controller-Returns bytes =
    let b = byte bytes in
    let n = length bytes in
    Returns-require (not (ltb n 13)) (λ long.
      let enough : 13 ≤ n = not-ltb _ _ long in
      Returns-read bytes 0 _ (omega arith) (
        Returns-read bytes 1 _ (omega arith) (
          Returns-read bytes 2 _ (omega arith) (
            Returns-read bytes 3 _ (omega arith) (
              Returns-require (b 0 == 77 && b 1 == 68 && b 2 == 70 && b 3 == 49) (λ magic.
                Returns-read bytes 4 _ (omega arith) (
                  Returns-require (b 4 == 1 || b 4 == 2 || b 4 == 3) (λ version.
                    Returns-read bytes 5 _ (omega arith) (
                      Returns-require (b 5 == 0) (λ flags. Returns-read bytes 6 _ (omega arith) (
                        Returns-require (not (ltb 16 (b 6))) (λ channel.
                          Returns-read bytes 7 _ (omega arith) (
                            Returns-read bytes 8 _ (omega arith) (
                              Returns-read bytes 9 _ (omega arith) (
                                Returns-read bytes 10 _ (omega arith) (
                                  Returns-read bytes 11 _ (omega arith) (
                                    Returns-read bytes 12 _ (omega arith) (
                                      Returns-require (not (ltb 32 (b 8))) (λ pads.
                                        Returns-require (not (ltb 16 (b 9))) (λ faders.
                                          Returns-require (not (ltb 16 (b 10))) (λ encoders.
                                            Returns-require (not (ltb 8 (b 11))) (λ leds.
                                              Returns-require (not (ltb 96 (b 12))) (λ colors.
                                                Returns-bind _
                                                  (parse_init_count-Returns bytes (b 4 == 3) enough)
                                                  (λ init counted.
                                                    Returns-require (not (ltb n (init.1 + b 7)))
                                                      (λ named.
                                                        parse_tables-Returns bytes (leb 2 (b 4))
                                                          (b 6) (init.1 + b 7) (b 8) (b 9) (b 10)
                                                          (b 11) (b 12) init.0 (not-ltb _ _ channel)
                                                          (not-ltb _ _ pads) (not-ltb _ _ faders)
                                                          (not-ltb _ _ encoders) (not-ltb _ _ leds)
                                                          (not-ltb _ _ colors)
                                                          counted.0)))))))))))))))))))))))))
