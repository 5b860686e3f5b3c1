-- ===== src/Mdef/Parse/Safe.antt =====
-- What `parseMidiController` guarantees of a profile that it returns, whatever the blob.
use native.Mathlib.Nat.{mul-suc}
use esp_glow.Prelude.{
  ℕ, zero, suc, ◌+◌, ◌*◌, ◌≤◌, ◌<◌, ◌≡◌, refl, sym, ap, arith, Bool, true, false, not, ◌⊎◌, List,
  if◌then◌else◌, ltb, ◌==◌, length, get_or, drop, All, drop_all, drop-eq-cons, Bool-cases, inl, inr,
}
use esp_glow.Prelude.Outcome.{
  Outcome, read, read_ok, Returns-impl, Returns, ok_returns, Returns-bind, Returns-require,
  Returns-read,
}
use esp_glow.Prelude.Strings.{has_nul}
use esp_glow.Mdef.{PadRange, FaderRange, ColorEntry, LedRange}
use esp_glow.Mdef.Parse.{
  valid_channel_range, has_nul_within, each_record, read_channels, ordered_7_bit, le_16, parse_pad,
  parse_encoder, parse_led, parse_init_blobs, copy,
}

pub record IsName (blob : List ℕ) (off : ℕ) : Type 0 where
  pub inside : off < length blob
  pub ended : has_nul (drop off blob) ≡ true

abbrev pub Ordered : ℕ → ℕ → Type 0
Ordered from to = (from ≤ to) × (to ≤ 127)

pub record IsPad (r : PadRange) : Type 0 where
  pub notes : Ordered r.note_from r.note_to
  pub channels : valid_channel_range r.channel_from r.channel_to ≡ true

pub record IsFader (blob : List ℕ) (r : FaderRange) : Type 0 where
  pub ccs : Ordered r.cc_from r.cc_to
  pub channels : valid_channel_range r.channel_from r.channel_to ≡ true
  pub name : (r.name_off ≡ 0xffff) ⊎ IsName blob r.name_off

pub record IsLed (colors : ℕ) (r : LedRange) : Type 0 where
  pub addrs : Ordered r.addr_from r.addr_to
  pub channels : valid_channel_range r.channel_from r.channel_to ≡ true
  pub colors_in : r.color_offset + r.color_count ≤ colors

pub record IsColor (blob : List ℕ) (c : ColorEntry) : Type 0 where
  pub value_in : c.value ≤ 127
  pub name : IsName blob c.name_off

pub not-ltb : (a b : ℕ) → not (ltb a b) ≡ true → b ≤ a
not-ltb a b h = ground arith

pub Ordered-ordered_7_bit : (a b : ℕ) → ordered_7_bit a b ≡ true → Ordered a b
Ordered-ordered_7_bit a b h = ground arith

pub has_nul_within-has_nul :
    (bytes : List ℕ) (start len : ℕ)
    → start + len ≡ length bytes
    → Returns (λ b. b ≡ has_nul (drop start bytes)) (has_nul_within bytes start len)
unfolding has_nul_within
has_nul_within-has_nul bytes start zero h =
    ok_returns (sym (ap has_nul (drop_all start bytes (omega arith))))
has_nul_within-has_nul bytes start (suc len) h =
    let b = get_or bytes start 0 in
    let split = drop-eq-cons start bytes 0 (omega arith) in
    Returns-read bytes start _ (omega arith) (elim (Bool-cases (b == 0)) [
      | inl nul ↦ rw (nul, split, nul) (ok_returns refl)
      | inr other ↦
          rw (other, split, other)
            (Returns-bind _ (has_nul_within-has_nul bytes (start + 1) len (omega arith))
              (λ rest e. ok_returns e))
    ])

module _ {ℓ} {A : Type ℓ} (parse : ℕ → Outcome A) (P : A → Type 0) (size limit : ℕ)
    (each : (o : ℕ) → o + size ≤ limit → Returns P (parse o)) where
  pub each_record-Returns :
      (offset count : ℕ)
      → offset + size * count ≤ limit
      → Returns (λ xs. All P xs × (length xs ≡ count)) (each_record parse offset size count)
  unfolding each_record
  each_record-Returns offset zero h = ok_returns (tt, refl)
  each_record-Returns offset (suc count) h =
      let grown : size * suc count ≡ size + size * count = omega (arith, mul-suc size count) in
      Returns-bind _ (each offset (omega arith)) (λ x p.
        Returns-bind _ (each_record-Returns (offset + size) count (omega arith))
          (λ xs ps. ok_returns ((p, ps.0), ap suc ps.1)))

module _ (bytes : List ℕ) where
  abbrev pub byte : ℕ → ℕ
  byte i = get_or bytes i 0

  pub read_channels-Returns :
      (wide : Bool) (at : ℕ)
      → at + (if wide then 2 else 0) ≤ length bytes
      → Returns (λ c. valid_channel_range c.0 c.1 ≡ true) (read_channels bytes wide at)
  unfolding read_channels valid_channel_range
  read_channels-Returns false at h = ok_returns refl
  read_channels-Returns true at h = Returns-read bytes at _ (omega arith) (
      Returns-read bytes (at + 1) _ (omega arith) (
        Returns-require (valid_channel_range (byte at) (byte (at + 1)))
          (λ valid. ok_returns valid)))

  pub parse_pad-Returns :
      (wide : Bool) (o : ℕ)
      → o + 2 + (if wide then 2 else 0) ≤ length bytes
      → Returns IsPad (parse_pad bytes wide o)
  unfolding parse_pad
  parse_pad-Returns wide o h = Returns-read bytes o _ (omega arith) (
      Returns-read bytes (o + 1) _ (omega arith) (
        Returns-require (ordered_7_bit (byte o) (byte (o + 1))) (λ ordered.
          Returns-bind _ (read_channels-Returns wide (o + 2) h) (λ c valid.
            ok_returns (record { notes = Ordered-ordered_7_bit _ _ ordered; channels = valid })))))

  pub parse_encoder-Returns :
      (o : ℕ)
      → o + 3 ≤ length bytes
      → Returns (λ r. Ordered r.cc_from r.cc_to) (parse_encoder bytes o)
  unfolding parse_encoder
  parse_encoder-Returns o h = Returns-read bytes o _ (omega arith) (
      Returns-read bytes (o + 1) _ (omega arith) (
        Returns-read bytes (o + 2) _ (omega arith) (
          Returns-require (ordered_7_bit (byte o) (byte (o + 1))) (λ ordered.
            Returns-require (not (ltb 2 (byte (o + 2))))
              (λ mode. ok_returns (Ordered-ordered_7_bit _ _ ordered))))))

  pub parse_led-Returns :
      (wide : Bool) (colors o : ℕ)
      → o + 7 + (if wide then 2 else 0) ≤ length bytes
      → Returns (IsLed colors) (parse_led bytes wide colors o)
  unfolding parse_led
  parse_led-Returns wide colors o h = Returns-read bytes o _ (omega arith) (
      Returns-read bytes (o + 1) _ (omega arith) (
        Returns-read bytes (o + 2) _ (omega arith) (
          Returns-read bytes (o + 3) _ (omega arith) (
            Returns-read bytes (o + 4) _ (omega arith) (
              Returns-read bytes (o + 5) _ (omega arith) (
                Returns-read bytes (o + 6) _ (omega arith) (
                  Returns-require (not (ltb 1 (byte o))) (λ type.
                    Returns-require (ordered_7_bit (byte (o + 1)) (byte (o + 2))) (λ ordered.
                      Returns-require (not (ltb 1 (byte (o + 3)))) (λ semantic.
                        Returns-require (not (ltb colors (le_16 (byte (o + 4)) (byte (o + 5)))))
                          (λ offset_in.
                            Returns-require
                              (not
                                (ltb colors (le_16 (byte (o + 4)) (byte (o + 5)) + byte (o + 6))))
                              (λ end_in.
                                Returns-bind _ (read_channels-Returns wide (o + 7) h) (λ c valid.
                                  ok_returns (record {
                                    addrs = Ordered-ordered_7_bit _ _ ordered;
                                    channels = valid;
                                    colors_in = not-ltb _ _ end_in;
                                  }))))))))))))))

  copy-Returns :
      (at count : ℕ)
      → at + count ≤ length bytes
      → Returns (λ blob. length blob ≡ count) (copy bytes at count)
  copy-Returns at count h =
      Returns-impl _ _
        (each_record-Returns (read bytes) (λ x. Unit {0}) 1 (length bytes)
          (λ o inside. rw (read_ok bytes o (omega arith)) (ok_returns tt)) at count (omega arith))
        (λ blob p. p.1)

  pub parse_init_blobs-Returns :
      (at count : ℕ)
      → Returns
          (λ r. (at ≤ r.1) × (length r.0 ≡ count) × All (λ blob. length blob ≤ 64) r.0)
          (parse_init_blobs bytes at count)
  unfolding parse_init_blobs
  parse_init_blobs-Returns at zero = ok_returns (omega arith, refl, tt)
  parse_init_blobs-Returns at (suc count) =
      Returns-require (not (ltb (length bytes) (at + 1))) (λ room.
        Returns-read bytes at _ (omega (arith, not-ltb _ _ room)) (
          Returns-require (not (ltb 64 (byte at))) (λ short.
            Returns-require (not (ltb (length bytes) (at + 1 + byte at))) (λ whole.
              Returns-bind _ (copy-Returns (at + 1) (byte at) (not-ltb _ _ whole)) (λ blob copied.
                Returns-bind _ (parse_init_blobs-Returns (at + 1 + get_or bytes at 0) count)
                  (λ rest p. ok_returns (
                    omega (arith, p.0),
                    ap suc p.1,
                    (omega (arith, copied, not-ltb _ _ short), p.2),
                  )))))))
