-- ===== src/Mdef/Lookup.antt =====
-- The questions asked of a controller profile: its LED and channel ranges, its grid, its encoders.
use esp_glow.Prelude.{
  ℕ, zero, suc, ◌+◌, ◌-◌, ◌%◌, ◌^◌, ◌<◌, ◌≡◌, refl, arith, Bool, true, false, not, ◌&&◌, Option,
  none, some, List, [], ◌∷◌, if◌then◌else◌, ltb, leb, ◌==◌, bit_and, get_elem?, drop, all_below,
  test-all_below, ==_iff, ◌+◌,
}
use esp_glow.Prelude.Outcome.{Outcome, ok, ◌>>=◌, or_fault}
use esp_glow.Prelude.Strings.{str_equal}
use esp_glow.Prelude.Bits.{bit_and_127}
use esp_glow.Prelude.Int.{ℤ, pos, negsuc}
use esp_glow.Mdef.{
  channel_agnostic, EncoderMode, absolute, relative_2c, relative_sign_mag, LedMsgType, note, cc,
  PadRange, FaderRange, LedRange, MidiControllerProfile,
}

abbrev is_note : LedMsgType → Bool
is_note note = true
is_note cc = false

unfoldable pub first_that {ℓ} : {A : Type ℓ} → (A → Bool) → List A → Option A
first_that test [] = none
first_that test (x ∷ xs) = let rest = first_that test xs in if test x then some x else rest

-- the loop of `ledColorValueByName` over the `n` colours from `at` on
unfoldable pub color_named : MidiControllerProfile → List ℕ → ℕ → ℕ → Outcome (Option ℕ)
color_named p name at zero = ok none
color_named p name at (suc n) = do
  c ← or_fault (get_elem? p.colors at)
  same ← str_equal (drop c.name_off p.name_blob) name
  rest ← if same then ok (some c.value) else color_named p name (at + 1) n
  ok rest

-- The name is `none` for a null pointer; the result is the value, if the colour is there.
unfoldable pub led_color_value_by_name :
    MidiControllerProfile → LedRange → Option (List ℕ) → Outcome (Option ℕ)
unfolding color_named
led_color_value_by_name p range name = elim name [
  | none ↦ ok none
  | some n ↦ color_named p n range.color_offset range.color_count
]

unfoldable pub find_led_range_for_note : MidiControllerProfile → ℕ → Option LedRange
unfolding first_that
find_led_range_for_note p n =
    first_that (λ r. is_note r.msg_type && leb r.addr_from n && leb n r.addr_to) p.leds

unfoldable pub find_led_range_for_cc : MidiControllerProfile → ℕ → Option LedRange
unfolding first_that
find_led_range_for_cc p n =
    first_that (λ r. not (is_note r.msg_type) && leb r.addr_from n && leb n r.addr_to) p.leds

unfoldable pub find_pad_channel_range : MidiControllerProfile → ℕ → Option PadRange
unfolding first_that
find_pad_channel_range p n =
    first_that
      (λ r. leb r.note_from n && leb n r.note_to && not (r.channel_from == channel_agnostic)) p.pads

unfoldable pub find_fader_channel_range : MidiControllerProfile → ℕ → Option FaderRange
unfolding first_that
find_fader_channel_range p n =
    first_that (λ r. leb r.cc_from n && leb n r.cc_to && not (r.channel_from == channel_agnostic))
      p.faders

-- the loop of `resolvePadXY`, with `rowIndex`; `int` does not overflow below 32 rows
unfoldable pub resolve_row : List PadRange → ℕ → ℕ → ℕ → Option (ℕ × ℕ)
resolve_row [] row_index col row = none
resolve_row (r ∷ rs) row_index col row =
    let skipped = resolve_row rs row_index col row in
    let next = resolve_row rs (row_index + 1) col row in
    if r.channel_from == channel_agnostic
    then skipped
    else if not (r.note_from == r.note_to)
    then skipped
    else if row_index == row
    then (if ltb r.channel_to (r.channel_from + col)
        then none
        else some (r.note_from, (r.channel_from + col) % 2 ^ 8))
    else next

unfoldable pub resolve_pad_xy : MidiControllerProfile → ℤ → ℤ → Option (ℕ × ℕ)
unfolding resolve_row
resolve_pad_xy p (pos col) (pos row) = resolve_row p.pads 0 col row
resolve_pad_xy p (pos col) (negsuc n) = none
resolve_pad_xy p (negsuc n) row = none

unfoldable pub decode_encoder_delta : EncoderMode → ℕ → ℤ
decode_encoder_delta relative_2c byte =
    let data2 = bit_and byte 0x7f in
    if not (bit_and data2 0x40 == 0) then negsuc (127 - data2) else pos data2
decode_encoder_delta relative_sign_mag byte =
    let data2 = bit_and byte 0x7f in
    let magnitude = bit_and data2 0x3f in
    if not (bit_and data2 0x40 == 0)
    then (if magnitude == 0 then pos 0 else negsuc (magnitude - 1))
    else pos magnitude
decode_encoder_delta absolute byte = pos 0

-- the ranges that are rows of the grid: one note, with a channel range
abbrev pub is_row : PadRange → Bool
is_row r = not (r.channel_from == channel_agnostic) && r.note_from == r.note_to

unfoldable pub rows : List PadRange → List PadRange
rows [] = []
rows (r ∷ rs) = let rest = rows rs in if is_row r then r ∷ rest else rest

-- the key in a column of a row
unfoldable pub key_in : ℕ → Option PadRange → Option (ℕ × ℕ)
key_in col none = none
key_in col (some r) =
    if leb (r.channel_from + col) r.channel_to
    then some (r.note_from, (r.channel_from + col) % 2 ^ 8)
    else none

-- What a relative encoder sends for a delta.
abbrev pub send_2c : ℤ → ℕ
send_2c (pos n) = n
send_2c (negsuc n) = 127 - n

abbrev pub send_sign_mag : ℤ → ℕ
send_sign_mag (pos n) = n
send_sign_mag (negsuc n) = 64 + (n + 1)

-- the deltas that the two codes can express
abbrev pub Fits : EncoderMode → ℤ → Type 0
Fits relative_2c (pos n) = n < 64
Fits relative_2c (negsuc n) = n < 64
Fits relative_sign_mag (pos n) = n < 64
Fits relative_sign_mag (negsuc n) = n + 1 < 64
Fits absolute d = ⊥

abbrev pub send_delta : EncoderMode → ℤ → ℕ
send_delta relative_2c d = send_2c d
send_delta relative_sign_mag d = send_sign_mag d
send_delta absolute d = 0

bits_6 :
    (x : ℕ) → x < 128 → (bit_and x 0x40 ≡ (if ltb x 64 then 0 else 64)) × (bit_and x 0x3f ≡ x % 64)
unfolding all_below
bits_6 x h = (
  (==_iff _ _).0
      (test-all_below (λ x. bit_and x 0x40 == (if ltb x 64 then 0 else 64)) 128 x h refl),
  (==_iff _ _).0 (test-all_below (λ x. bit_and x 0x3f == x % 64) 128 x h refl),
)

-- A relative encoder's delta is decoded to what was turned, in both codes, for every delta that the code can express.
pub decode_encoder_delta-send_delta :
    (mode : EncoderMode) (d : ℤ) → Fits mode d → decode_encoder_delta mode (send_delta mode d) ≡ d
unfolding decode_encoder_delta
decode_encoder_delta-send_delta relative_2c (pos n) h =
    let low : bit_and n 0x7f ≡ n = omega (arith, bit_and_127 n) in
    rw low (ground (arith, bits_6 n (omega arith)))
decode_encoder_delta-send_delta relative_2c (negsuc n) h =
    let low : bit_and (127 - n) 0x7f ≡ 127 - n = omega (arith, bit_and_127 (127 - n)) in
    let back : 127 - (127 - n) ≡ n = omega arith in
    rw low (ground (arith, back, bits_6 (127 - n) (omega arith)))
decode_encoder_delta-send_delta relative_sign_mag (pos n) h =
    let low : bit_and n 0x7f ≡ n = omega (arith, bit_and_127 n) in
    rw low (ground (arith, bits_6 n (omega arith)))
decode_encoder_delta-send_delta relative_sign_mag (negsuc n) h =
    let low : bit_and (64 + (n + 1)) 0x7f ≡ 64 + (n + 1) =
      omega (arith, bit_and_127 (64 + (n + 1))) in
    rw low (ground (arith, bits_6 (64 + (n + 1)) (omega arith)))
decode_encoder_delta-send_delta absolute d h = absurd h
