-- ===== src/Fixture/Encode/Entries.antt =====
-- One entry of a table, as the parser reads what the encoder wrote.
use esp_glow.Prelude.{
  ℕ, zero, suc, ◌+◌, ◌-◌, ◌/◌, ◌%◌, ◌^◌, ◌≤◌, ◌<◌, ◌≡◌, refl, sym, ap, ◌∙◌, arith, Bool, true,
  false, not, ◌&&◌, ◌⊎◌, inl, inr, List, [], ◌∷◌, ◌++◌, if◌then◌else◌, ltb, leb, ◌==◌, length,
  length-drop, drop, drop-drop, drop_all, drop-eq-cons, get_or, Bool-cases, bit_and, lt→ltb,
}
use esp_glow.Prelude.Bits.{bit_and_255, bit_or-shifted}
use esp_glow.Prelude.Outcome.{ok, read, read_ok}
use esp_glow.Prelude.Strings.{has_nul}
use esp_glow.Mdef.Parse.{has_nul_within, le_16, check_name}
use esp_glow.Mdef.Parse.Safe.{IsName}
use esp_glow.Fixture.Profile.{ChannelMap, FunctionRange}
use esp_glow.Fixture.Parse.{parse_capability, parse_range}
use esp_glow.Fixture.Parse.WellFormed.{IsChannel, IsRange}
use esp_glow.Fixture.Encode.{capability_record}
use esp_glow.Fixture.Encode.Records.{read-append}

has_nul_within_ok :
    (bytes : List ℕ) (start len : ℕ)
    → start + len ≡ length bytes
    → has_nul_within bytes start len ≡ ok (has_nul (drop start bytes))
unfolding has_nul_within
has_nul_within_ok bytes start zero e =
    ap (λ bs. ok (has_nul bs)) (sym (drop_all start bytes (omega arith)))
has_nul_within_ok bytes start (suc len) e =
    let b = get_or bytes start 0 in
    let here = read_ok bytes start (omega arith) in
    let split = drop-eq-cons start bytes 0 (omega arith) in
    elim (Bool-cases (b == 0)) [
      | inl nul ↦ rw (here, split, nul) refl
      | inr other ↦
          rw (here, split, other, has_nul_within_ok bytes (start + 1) len (omega arith)) refl
    ]

pub le_16_lem : (v : ℕ) → v < 2 ^ 16 → le_16 (bit_and v 0xff) (bit_and (v / 2 ^ 8) 0xff) ≡ v
le_16_lem v h =
    rw (bit_and_255 v, bit_and_255 (v / 2 ^ 8))
      (bit_or-shifted 8 (v % 256) (v / 2 ^ 8 % 256) (omega arith) ∙ omega arith)

coarse_passes : (footprint coarse : ℕ) → coarse < footprint → leb footprint coarse ≡ false
coarse_passes footprint coarse h = ground arith

fine_passes :
    (footprint fine : ℕ)
    → (fine ≡ 0xff) ⊎ (fine < footprint)
    → not (not (fine == 0xff) && leb footprint fine) ≡ true
fine_passes footprint fine h = elim h [ inl e ↦ ground arith | inr l ↦ ground arith ]

order_passes : (from to : ℕ) → from ≤ to → ltb to from ≡ false
order_passes from to h = ground arith

abbrev pub range_bytes : FunctionRange → List ℕ
range_bytes r =
    r.cap_index
    ∷ r.dmx_from
    ∷ r.dmx_to
    ∷ (if r.continuous then 1 else 0)
    ∷ bit_and r.name_off 0xff
    ∷ bit_and (r.name_off / 2 ^ 8) 0xff
    ∷ 0
    ∷ []

continuous_flag : (b : Bool) → not (bit_and (if b then 1 else 0) 1 == 0) ≡ b
continuous_flag true = refl
continuous_flag false = refl

module _ (bytes : List ℕ) where
  check_name_ok :
      (start off : ℕ)
      → start ≤ length bytes
      → IsName (drop start bytes) off
      → check_name bytes start (length bytes - start) off ≡ ok tt
  unfolding check_name
  check_name_ok start off inside is =
      let blob_len = length-drop start bytes in
      let less : ltb off (length bytes - start) ≡ true = lt→ltb _ _ (omega (arith, is.inside)) in
      let found =
        has_nul_within_ok bytes (start + off) (length bytes - start - off)
          (omega (arith, is.inside))
        ∙ ap (λ bs. ok (has_nul bs)) (sym (drop-drop start off bytes))
        ∙ ap ok is.ended in
      rw (less, found) refl

  named_ok :
      (start off : ℕ)
      → start ≤ length bytes
      → (off ≡ 0xffff) ⊎ IsName (drop start bytes) off
      → (if not (off == 0xffff) then check_name bytes start (length bytes - start) off else ok tt)
        ≡ ok tt
  named_ok start off inside is = elim (Bool-cases (off == 0xffff)) [
    | inl unnamed ↦ rw unnamed refl
    | inr other ↦ elim is [
      | inl e ↦ absurd (ground arith)
      | inr name ↦ rw other (check_name_ok start off inside name)
    ]
  ]

  module _ (pre : List ℕ) where
    pub parse_capability-record :
        (footprint : ℕ) (c : ChannelMap) (post : List ℕ)
        → bytes ≡ pre ++ (capability_record c ++ post)
        → IsChannel footprint c
        → parse_capability bytes footprint (length pre) ≡ ok c
    unfolding parse_capability read
    parse_capability-record footprint c post whole is =
        let o = length pre in
        let at : (j k : ℕ) → j ≡ o + k → read bytes j ≡ read (capability_record c ++ post) k =
          λ j k e.
            ap (λ bs. read bs j) whole ∙ read-append pre (capability_record c ++ post) j k e in
        rw
          (
            at o 0 (omega arith),
            at (o + 1) 1 refl,
            at (o + 2) 2 refl,
            at (o + 3) 3 refl,
            at (o + 4) 4 refl,
            coarse_passes footprint c.coarse is.coarse_in,
            fine_passes footprint c.fine is.fine_in,
          )
          refl

    pub parse_range-record :
        (caps start : ℕ) (r : FunctionRange) (post : List ℕ)
        → bytes ≡ pre ++ (range_bytes r ++ post)
        → start ≤ length bytes
        → IsRange caps (drop start bytes) r
        → r.name_off < 2 ^ 16
        → r.semantic ≡ 0
        → parse_range bytes caps start (length bytes - start) (length pre) ≡ ok r
    unfolding parse_range read
    parse_range-record caps start r post whole inside is small reserved =
        let o = length pre in
        let at : (j k : ℕ) → j ≡ o + k → read bytes j ≡ read (range_bytes r ++ post) k =
          λ j k e. ap (λ bs. read bs j) whole ∙ read-append pre (range_bytes r ++ post) j k e in
        rw
          (
            at o 0 (omega arith),
            at (o + 1) 1 refl,
            at (o + 2) 2 refl,
            at (o + 3) 3 refl,
            at (o + 4) 4 refl,
            at (o + 5) 5 refl,
            at (o + 6) 6 refl,
            coarse_passes caps r.cap_index is.cap_in,
            order_passes r.dmx_from r.dmx_to is.ordered,
            le_16_lem r.name_off small,
            named_ok start r.name_off inside is.name,
          )
          (ap
              (λ n. ok (record r {
                semantic = n;
                continuous = not (bit_and (if r.continuous then 1 else 0) 1 == 0);
              }))
              (sym reserved)
            ∙ ap (λ b. ok (record r { continuous = b })) (continuous_flag r.continuous))
