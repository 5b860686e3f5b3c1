-- ===== src/Midi/Tests.antt =====
-- Runs of the MIDI modules at concrete inputs.
use esp_glow.Prelude.{ℕ, ◌+◌, ◌*◌, ◌<◌, ◌≡◌, refl, arith, List, [], ◌∷◌, ◌++◌, some, length}
use esp_glow.Prelude.Float.{milli}
use esp_glow.Prelude.Outcome.{ok}
use esp_glow.Midi.Parse.{parse_midi}
use esp_glow.Midi.Parse.Messages
use esp_glow.Midi.Parse.Messages.{encode, meaning, parse_midi-encode}
use esp_glow.Midi.Reader.{initial, feed, feed_all}
use esp_glow.Midi.Reader.Framing.{IsValid, feed-IsValid, messages, without_realtime}
use esp_glow.Midi.Reader.Stream
use esp_glow.Midi.Reader.Stream.{wire, results, feed_all-wire, two_byte_lost}
use esp_glow.Midi.Reader.Clock.{beats, clocks, beats-clocks}
use esp_glow.Midi.Packets.{pack}
use esp_glow.Midi.Packets.RoundTrip.{pack_lem, unpack}

abbrev note : Messages.Message
note = Messages.note_on 2 60 127

parse_midi-encode_example : parse_midi ⦃fl = milli⦄ (encode note) ≡ ok (meaning ⦃fl = milli⦄ note)
parse_midi-encode_example =
    parse_midi-encode ⦃fl = milli⦄ note (omega arith, omega arith, omega arith)

initial-IsValid : IsValid initial
initial-IsValid = record { three = refl; idx_in = omega arith; pulses_in = omega arith }

feed-IsValid_example : IsValid (feed 0x90 initial).1
feed-IsValid_example = feed-IsValid 0x90 initial-IsValid

abbrev on : Stream.Message
on = record { status = 0x90; data1 = 60; data2 = 100 }

on-IsMessage : Stream.IsMessage on
on-IsMessage = record {
  status_low = omega arith;
  status_high = omega arith;
  data1_in = omega arith;
  data2_in = omega arith;
}

-- a clock byte inside the message
feed_all-wire_example :
    messages (feed_all (0x90 ∷ 0xf8 ∷ 60 ∷ 100 ∷ []) initial).0 ≡ results (on ∷ [])
feed_all-wire_example =
    feed_all-wire (on ∷ []) (0x90 ∷ 0xf8 ∷ 60 ∷ 100 ∷ []) initial (on-IsMessage, tt)
      (unfold without_realtime in refl) initial-IsValid

two_byte_lost_example :
    messages (feed_all (0xc0 ∷ 5 ∷ wire (on ∷ [])) initial).0 ≡ results (on ∷ [])
two_byte_lost_example =
    two_byte_lost 0xc0 5 on initial (omega arith) (omega arith) (omega arith) on-IsMessage
      initial-IsValid

beats-clocks_example :
    (beats (feed_all (0xf8 ∷ 0x90 ∷ 0xf8 ∷ []) initial).0 * 24
        + (feed_all (0xf8 ∷ 0x90 ∷ 0xf8 ∷ []) initial).1.pulse_count
      ≡ 0 + clocks (0xf8 ∷ 0x90 ∷ 0xf8 ∷ []))
    × ((feed_all (0xf8 ∷ 0x90 ∷ 0xf8 ∷ []) initial).1.pulse_count < 24)
beats-clocks_example =
    beats-clocks (0xf8 ∷ 0x90 ∷ 0xf8 ∷ []) initial (refl, (refl, (refl, tt))) (omega arith)

pack_example :
    (sent : List ℕ) × (pack (1 ∷ 2 ∷ 3 ∷ 4 ∷ []) (9 ∷ []) ≡ 9 ∷ sent)
    × (unpack (sent ++ (5 ∷ 9 ∷ 0 ∷ 0 ∷ [])) ≡ some (1 ∷ 2 ∷ 3 ∷ 4 ∷ [], 5 ∷ 9 ∷ 0 ∷ 0 ∷ []))
    × (length sent ≡ 8)
pack_example = pack_lem (1 ∷ 2 ∷ 3 ∷ 4 ∷ []) (9 ∷ []) (5 ∷ 9 ∷ 0 ∷ 0 ∷ [])
