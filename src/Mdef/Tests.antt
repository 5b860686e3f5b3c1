-- ===== src/Mdef/Tests.antt =====
-- Runs of the controller profile at concrete inputs.
use esp_glow.Prelude.{ℕ, ◌≡◌, refl, arith, List, [], ◌∷◌}
use esp_glow.Prelude.Int.{negsuc}
use esp_glow.Prelude.Outcome.{ok, Returns, read}
use esp_glow.Mdef.{MidiControllerProfile, relative_2c}
use esp_glow.Mdef.Parse.{
  parse_midi_controller, parse_tables, parse_init_count, parse_init_blobs, each_record, parse_pad,
  read_channels,
}
use esp_glow.Mdef.Parse.Profile.{IsProfile, parse_midi_controller-Returns}
use esp_glow.Mdef.Lookup.{decode_encoder_delta, decode_encoder_delta-send_delta}

-- version 1, one pad range of the notes 36 to 51
abbrev small : List ℕ
small = 77 ∷ 68 ∷ 70 ∷ 49 ∷ 1 ∷ 0 ∷ 0 ∷ 0 ∷ 1 ∷ 0 ∷ 0 ∷ 0 ∷ 0 ∷ 36 ∷ 51 ∷ []

abbrev profile : MidiControllerProfile
profile = record {
  midi_channel = 0;
  pads = record { note_from = 36; note_to = 51; channel_from = 0xff; channel_to = 0xff } ∷ [];
  faders = [];
  encoders = [];
  leds = [];
  colors = [];
  init_blobs = [];
  name_blob = [];
}

parse-small : parse_midi_controller small ≡ ok profile
unfolding parse_midi_controller parse_tables parse_init_count parse_init_blobs each_record parse_pad
    read_channels read
parse-small = refl

parse_midi_controller_example : Returns IsProfile (parse_midi_controller small)
parse_midi_controller_example = parse_midi_controller-Returns small

-- two rows of a clip grid
abbrev grid : MidiControllerProfile
grid = record profile {
  pads =
      record { note_from = 53; note_to = 53; channel_from = 0; channel_to = 7 }
      ∷ record { note_from = 54; note_to = 54; channel_from = 0; channel_to = 7 }
      ∷ [];
}

decode_encoder_delta_example : decode_encoder_delta relative_2c 127 ≡ negsuc 0
decode_encoder_delta_example = decode_encoder_delta-send_delta relative_2c (negsuc 0) (omega arith)
