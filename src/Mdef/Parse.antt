-- ===== src/Mdef/Parse.antt =====
-- `parseMidiController`: the list holds the `len` bytes of the blob. Reading behind them is a fault, and so
-- is a table entry behind the end of an array of the profile, which the limits on the counts rule out.
pub mod Safe
pub mod Profile
use esp_glow.Prelude.{
  ℕ, zero, suc, ◌+◌, ◌-◌, ◌*◌, ◌^◌, Bool, true, false, not, ◌&&◌, ◌||◌, List, [], ◌∷◌,
  if◌then◌else◌, ltb, leb, ◌==◌, length, drop, take, bit_or,
}
use esp_glow.Prelude.Outcome.{Outcome, ok, reject, ◌>>=◌, ◌>>◌, require, read}
use esp_glow.Mdef.{
  channel_agnostic, EncoderMode, absolute, relative_2c, relative_sign_mag, LedMsgType, note, cc,
  LedSemantic, velocity, value, PadRange, FaderRange, EncoderRange, ColorEntry, LedRange,
  MidiControllerProfile,
}

unfoldable pub valid_channel_range : ℕ → ℕ → Bool
valid_channel_range from to =
    if from == channel_agnostic && to == channel_agnostic
    then true
    else if from == channel_agnostic || to == channel_agnostic
    then false
    else leb from to && leb to 15

-- `hasNulWithin`, from `start` for `len` bytes, which the list has to hold
unfoldable pub has_nul_within : List ℕ → ℕ → ℕ → Outcome Bool
has_nul_within bytes start zero = ok false
has_nul_within bytes start (suc len) = do
  b ← read bytes start
  rest ← if b == 0 then ok true else has_nul_within bytes (start + 1) len
  ok rest

-- `for (i = 0; i < count; ++i)` over a table of records of `size` bytes
unfoldable pub each_record {ℓ} : {A : Type ℓ} → (ℕ → Outcome A) → ℕ → ℕ → ℕ → Outcome (List A)
each_record parse offset size zero = ok []
each_record parse offset size (suc count) = do
  first ← parse offset
  rest ← each_record parse (offset + size) size count
  ok (first ∷ rest)

-- `if (wideRecords) { … }`: the two channel bytes
unfoldable pub read_channels : List ℕ → Bool → ℕ → Outcome (ℕ × ℕ)
unfolding valid_channel_range
read_channels bytes false at = ok (channel_agnostic, channel_agnostic)
read_channels bytes true at = do
  from ← read bytes at
  to ← read bytes (at + 1)
  require (valid_channel_range from to)
  ok (from, to)

abbrev pub ordered_7_bit : ℕ → ℕ → Bool
ordered_7_bit from to = not (ltb 127 from || ltb 127 to || ltb to from)

-- a little-endian uint16_t
abbrev pub le_16 : ℕ → ℕ → ℕ
le_16 low high = bit_or low (high * 2 ^ 8)

unfoldable pub parse_pad : List ℕ → Bool → ℕ → Outcome PadRange
unfolding read_channels
parse_pad bytes wide o = do
  from ← read bytes o
  to ← read bytes (o + 1)
  require (ordered_7_bit from to)
  channels ← read_channels bytes wide (o + 2)
  ok (record { note_from = from; note_to = to; channel_from = channels.0; channel_to = channels.1 })

-- a name's offset into the blob of `blob_len` bytes at `blob`
unfoldable pub check_name : List ℕ → ℕ → ℕ → ℕ → Outcome (Unit {0})
unfolding has_nul_within
check_name bytes blob blob_len name_off = do
  require (ltb name_off blob_len)
  ended ← has_nul_within bytes (blob + name_off) (blob_len - name_off)
  require ended

unfoldable pub parse_fader : List ℕ → Bool → ℕ → ℕ → ℕ → Outcome FaderRange
unfolding read_channels check_name
parse_fader bytes wide blob blob_len o = do
  from ← read bytes o
  to ← read bytes (o + 1)
  low ← read bytes (o + 2)
  high ← read bytes (o + 3)
  let name_off = le_16 low high
  require (ordered_7_bit from to)
  if not (name_off == 0xffff) then check_name bytes blob blob_len name_off else ok tt
  channels ← read_channels bytes wide (o + 4)
  ok (record {
    cc_from = from;
    cc_to = to;
    name_off = name_off;
    channel_from = channels.0;
    channel_to = channels.1;
  })

-- the enum constants, for a byte that is not too large
abbrev pub encoder_mode : ℕ → EncoderMode
encoder_mode zero = absolute
encoder_mode (suc zero) = relative_2c
encoder_mode (suc (suc n)) = relative_sign_mag

unfoldable pub parse_encoder : List ℕ → ℕ → Outcome EncoderRange
parse_encoder bytes o = do
  from ← read bytes o
  to ← read bytes (o + 1)
  mode ← read bytes (o + 2)
  require (ordered_7_bit from to)
  require (not (ltb 2 mode))
  ok (record { cc_from = from; cc_to = to; mode = encoder_mode mode })

unfoldable pub parse_led : List ℕ → Bool → ℕ → ℕ → Outcome LedRange
unfolding read_channels
parse_led bytes wide color_total o = do
  msg_type ← read bytes o
  from ← read bytes (o + 1)
  to ← read bytes (o + 2)
  semantic ← read bytes (o + 3)
  low ← read bytes (o + 4)
  high ← read bytes (o + 5)
  count ← read bytes (o + 6)
  let offset = le_16 low high
  require (not (ltb 1 msg_type))
  require (ordered_7_bit from to)
  require (not (ltb 1 semantic))
  require (not (ltb color_total offset))
  require (not (ltb color_total (offset + count)))
  channels ← read_channels bytes wide (o + 7)
  ok (record {
    msg_type = if msg_type == 0 then note else cc;
    addr_from = from;
    addr_to = to;
    semantic = if semantic == 0 then velocity else value;
    color_offset = offset;
    color_count = count;
    channel_from = channels.0;
    channel_to = channels.1;
  })

unfoldable pub parse_color : List ℕ → ℕ → ℕ → ℕ → Outcome ColorEntry
unfolding check_name
parse_color bytes blob blob_len o = do
  low ← read bytes o
  high ← read bytes (o + 1)
  v ← read bytes (o + 2)
  let name_off = le_16 low high
  require (not (ltb 127 v))
  check_name bytes blob blob_len name_off
  ok (record { name_off = name_off; value = v })

-- `memcpy` of `count` bytes from `at` on
abbrev pub copy : List ℕ → ℕ → ℕ → Outcome (List ℕ)
copy bytes at count = each_record (read bytes) at 1 count

-- The init-blob table of version 3, from `at` on; the result is the blobs and where they end.
unfoldable pub parse_init_blobs : List ℕ → ℕ → ℕ → Outcome (List (List ℕ) × ℕ)
unfolding each_record
parse_init_blobs bytes at zero = ok ([], at)
parse_init_blobs bytes at (suc count) = do
  require (not (ltb (length bytes) (at + 1)))
  blob_len ← read bytes at
  require (not (ltb 64 blob_len))
  require (not (ltb (length bytes) (at + 1 + blob_len)))
  blob ← copy bytes (at + 1) blob_len
  rest ← parse_init_blobs bytes (at + 1 + blob_len) count
  ok (blob ∷ rest.0, rest.1)

-- the init count, in the header of version 3 only, and where the header ends
unfoldable pub parse_init_count : List ℕ → Bool → Outcome (ℕ × ℕ)
parse_init_count bytes false = ok (0, 13)
parse_init_count bytes true = do
  require (not (ltb (length bytes) 14))
  count ← read bytes 13
  require (not (ltb 8 count))
  ok (count, 14)

-- From the table offsets on: the init blobs, the name blob and the five tables.
unfoldable pub parse_tables :
    List ℕ → Bool → ℕ → ℕ → ℕ → ℕ → ℕ → ℕ → ℕ → ℕ → Outcome MidiControllerProfile
unfolding each_record parse_pad parse_fader parse_encoder parse_led parse_color parse_init_blobs
parse_tables bytes wide midi_channel pads_at pad_count fader_count encoder_count led_count
      color_total init_count =
    do
      let pad_size = if wide then 4 else 2
      let fader_size = if wide then 6 else 4
      let led_size = if wide then 9 else 7
      let faders_at = pads_at + pad_size * pad_count
      let encoders_at = faders_at + fader_size * fader_count
      let leds_at = encoders_at + 3 * encoder_count
      let colors_at = leds_at + led_size * led_count
      let inits_at = colors_at + 3 * color_total
      blobs ← parse_init_blobs bytes inits_at init_count
      require (not (ltb (length bytes) blobs.1))
      let blob_len = length bytes - blobs.1
      require (not (ltb 1024 blob_len))
      pads ← each_record (parse_pad bytes wide) pads_at pad_size pad_count
      faders ←
          each_record (parse_fader bytes wide blobs.1 blob_len) faders_at fader_size fader_count
      encoders ← each_record (parse_encoder bytes) encoders_at 3 encoder_count
      leds ← each_record (parse_led bytes wide color_total) leds_at led_size led_count
      colors ← each_record (parse_color bytes blobs.1 blob_len) colors_at 3 color_total
      ok (record {
        midi_channel = midi_channel;
        pads = pads;
        faders = faders;
        encoders = encoders;
        leds = leds;
        colors = colors;
        init_blobs = blobs.0;
        name_blob = drop blobs.1 bytes;
      })

unfoldable pub parse_midi_controller : List ℕ → Outcome MidiControllerProfile
unfolding parse_tables parse_init_count
parse_midi_controller bytes = do
  require (not (ltb (length bytes) 13))
  m0 ← read bytes 0
  m1 ← read bytes 1
  m2 ← read bytes 2
  m3 ← read bytes 3
  require (m0 == 77 && m1 == 68 && m2 == 70 && m3 == 49)
  version ← read bytes 4
  require (version == 1 || version == 2 || version == 3)
  flags ← read bytes 5
  require (flags == 0)
  midi_channel ← read bytes 6
  require (not (ltb 16 midi_channel))
  name_len ← read bytes 7
  pad_count ← read bytes 8
  fader_count ← read bytes 9
  encoder_count ← read bytes 10
  led_count ← read bytes 11
  color_total ← read bytes 12
  require (not (ltb 32 pad_count))
  require (not (ltb 16 fader_count))
  require (not (ltb 16 encoder_count))
  require (not (ltb 8 led_count))
  require (not (ltb 96 color_total))
  init ← parse_init_count bytes (version == 3)
  require (not (ltb (length bytes) (init.1 + name_len)))
  parse_tables bytes (leb 2 version) midi_channel (init.1 + name_len) pad_count fader_count
      encoder_count led_count color_total init.0
