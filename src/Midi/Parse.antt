-- ===== src/Midi/Parse.antt =====
-- `parseMidi` of live_control.cpp. The list holds the `len` bytes of `msg`.
pub mod Messages
use esp_glow.Prelude.{
  ℕ, ◌+◌, ◌*◌, Bool, true, false, not, ◌||◌, List, ltb, leb, ◌==◌, if◌then◌else◌, length, bit_and,
  bit_or,
}
use esp_glow.Prelude.Float.{FloatOps}
use esp_glow.Prelude.Outcome.{Outcome, ok, reject, ◌>>=◌, ◌>>◌, require, read}
use esp_glow.Midi.Event.{ControlEvent, button, fader, aftertouch, pitch_bend, program}

module _ {F : Type 0} ⦃fl : FloatOps F⦄ where
  -- the switch on the status nibble
  unfoldable pub event_of : ℕ → ℕ → ℕ → ℕ → Outcome (ControlEvent F)
  event_of status channel data1 data2 =
      if status == 0x80
      then ok (record {
        type = button;
        id = data1;
        channel = channel;
        pressed = false;
        value = fl.of_nat 0;
      })
      else if status == 0x90
      then ok (record {
        type = button;
        id = data1;
        channel = channel;
        pressed = ltb 0 data2;
        value = fl.of_nat 0;
      })
      else if status == 0xa0
      then ok (record {
        type = aftertouch;
        id = data1;
        channel = channel;
        pressed = false;
        value = fl.div (fl.of_nat data2) (fl.of_nat 127);
      })
      else if status == 0xb0
      then ok (record {
        type = fader;
        id = 128 + data1;
        channel = channel;
        pressed = false;
        value = fl.div (fl.of_nat data2) (fl.of_nat 127);
      })
      else if status == 0xc0
      then ok (record {
        type = program;
        id = data1;
        channel = channel;
        pressed = false;
        value = fl.of_nat 0;
      })
      else if status == 0xd0
      then ok (record {
        type = aftertouch;
        id = 0;
        channel = channel;
        pressed = false;
        value = fl.div (fl.of_nat data1) (fl.of_nat 127);
      })
      else if status == 0xe0
      then ok (record {
        type = pitch_bend;
        id = 0;
        channel = channel;
        pressed = false;
        value = fl.div (fl.of_nat (bit_or data1 (data2 * 128))) (fl.of_nat 16383);
      })
      else reject

  unfoldable pub parse_midi : List ℕ → Outcome (ControlEvent F)
  parse_midi msg = do
    require (leb 1 (length msg))
    byte0 ← read msg 0
    let status = bit_and byte0 0xf0
    require (not (status == 0xf0))
    let channel = bit_and byte0 0x0f
    let two_byte = status == 0xc0 || status == 0xd0
    require (leb (if two_byte then 2 else 3) (length msg))
    data1 ← read msg 1
    data2 ← if two_byte then ok 0 else read msg 2
    event_of status channel data1 data2
