-- ===== src/Midi/Parse/Messages.antt =====
-- The channel voice messages of the MIDI standard, and what `parseMidi` makes of each.
use esp_glow.Prelude.{
  ℕ, ◌+◌, ◌-◌, ◌/◌, ◌%◌, ◌<◌, ◌≡◌, refl, arith, false, ltb, ◌==◌, List, [], ◌∷◌, bit_and, all_below,
  test-all_below, ==_iff,
}
use esp_glow.Prelude.Bits.{bit_or-shifted}
use esp_glow.Prelude.Float.{FloatOps}
use esp_glow.Prelude.Outcome.{ok, read}
use esp_glow.Midi.Event.{ControlEvent, button, fader, aftertouch, pitch_bend, program}
use esp_glow.Midi.Parse.{parse_midi, event_of}

-- A message with its channel.
pub data Message : Type 0 where
  note_off : ℕ → ℕ → ℕ → Message
  note_on : ℕ → ℕ → ℕ → Message
  key_pressure : ℕ → ℕ → ℕ → Message
  control_change : ℕ → ℕ → ℕ → Message
  program_change : ℕ → ℕ → Message
  channel_pressure : ℕ → ℕ → Message
  bend : ℕ → ℕ → Message

abbrev pub encode : Message → List ℕ
encode (note_off ch note vel) = (0x80 + ch) ∷ note ∷ vel ∷ []
encode (note_on ch note vel) = (0x90 + ch) ∷ note ∷ vel ∷ []
encode (key_pressure ch note p) = (0xa0 + ch) ∷ note ∷ p ∷ []
encode (control_change ch cc v) = (0xb0 + ch) ∷ cc ∷ v ∷ []
encode (program_change ch p) = (0xc0 + ch) ∷ p ∷ []
encode (channel_pressure ch p) = (0xd0 + ch) ∷ p ∷ []
encode (bend ch v) = (0xe0 + ch) ∷ (v % 128) ∷ (v / 128) ∷ []

abbrev pub IsMessage : Message → Type 0
IsMessage (note_off ch note vel) = (ch < 16) × (note < 128) × (vel < 128)
IsMessage (note_on ch note vel) = (ch < 16) × (note < 128) × (vel < 128)
IsMessage (key_pressure ch note p) = (ch < 16) × (note < 128) × (p < 128)
IsMessage (control_change ch cc v) = (ch < 16) × (cc < 128) × (v < 128)
IsMessage (program_change ch p) = (ch < 16) × (p < 128)
IsMessage (channel_pressure ch p) = (ch < 16) × (p < 128)
IsMessage (bend ch v) = (ch < 16) × (v < 16384)

nibbles : (x : ℕ) → x < 256 → (bit_and x 0xf0 ≡ x - x % 16) × (bit_and x 0x0f ≡ x % 16)
unfolding all_below
nibbles x h = (
  (==_iff _ _).0 (test-all_below (λ x. bit_and x 0xf0 == x - x % 16) 256 x h refl),
  (==_iff _ _).0 (test-all_below (λ x. bit_and x 0x0f == x % 16) 256 x h refl),
)

module _ {F : Type 0} ⦃fl : FloatOps F⦄ where
  abbrev level : ℕ → ℕ → F
  level v top = fl.div (fl.of_nat v) (fl.of_nat top)

  -- A note on of velocity 0 is a release. Controllers stand above the notes, at 128 and up.
  abbrev pub meaning : Message → ControlEvent F
  meaning (note_off ch note vel) = record {
    type = button;
    id = note;
    channel = ch;
    pressed = false;
    value = fl.of_nat 0;
  }
  meaning (note_on ch note vel) = record {
    type = button;
    id = note;
    channel = ch;
    pressed = ltb 0 vel;
    value = fl.of_nat 0;
  }
  meaning (key_pressure ch note p) = record {
    type = aftertouch;
    id = note;
    channel = ch;
    pressed = false;
    value = level p 127;
  }
  meaning (control_change ch cc v) = record {
    type = fader;
    id = 128 + cc;
    channel = ch;
    pressed = false;
    value = level v 127;
  }
  meaning (program_change ch p) = record {
    type = program;
    id = p;
    channel = ch;
    pressed = false;
    value = fl.of_nat 0;
  }
  meaning (channel_pressure ch p) = record {
    type = aftertouch;
    id = 0;
    channel = ch;
    pressed = false;
    value = level p 127;
  }
  meaning (bend ch v) = record {
    type = pitch_bend;
    id = 0;
    channel = ch;
    pressed = false;
    value = level v 16383;
  }

  -- Each well-formed channel voice message parses to its meaning: its kind, channel and control,
  -- and its value out of 127, or out of 16383 for the 14-bit pitch bend.
  pub parse_midi-encode : (m : Message) → IsMessage m → parse_midi (encode m) ≡ ok (meaning m)
  unfolding parse_midi event_of read
  parse_midi-encode (note_off ch note vel) h = ground (arith, nibbles (0x80 + ch) (omega arith))
  parse_midi-encode (note_on ch note vel) h = ground (arith, nibbles (0x90 + ch) (omega arith))
  parse_midi-encode (key_pressure ch note p) h = ground (arith, nibbles (0xa0 + ch) (omega arith))
  parse_midi-encode (control_change ch cc v) h = ground (arith, nibbles (0xb0 + ch) (omega arith))
  parse_midi-encode (program_change ch p) h = ground (arith, nibbles (0xc0 + ch) (omega arith))
  parse_midi-encode (channel_pressure ch p) h = ground (arith, nibbles (0xd0 + ch) (omega arith))
  parse_midi-encode (bend ch v) h =
      ground (
        arith,
        nibbles (0xe0 + ch) (omega arith),
        bit_or-shifted 7 (v % 128) (v / 128) (omega arith),
      )
