-- ===== src/Midi/Reader.antt =====
-- `MidiByteReader` of midi_realtime.cpp: the framing of a byte stream into channel messages, with
-- System Realtime bytes allowed anywhere.
pub mod Framing
pub mod Stream
pub mod Clock
use esp_glow.Prelude.{
  ℕ, ◌+◌, List, [], ◌∷◌, ltb, leb, ◌==◌, if◌then◌else◌, length, get_or, set, bit_and,
}

pub record Reader : Type 0 where
  pub buffer : List ℕ
  pub buffer_idx : ℕ
  pub pulse_count : ℕ

-- `Result`, with what `outMsg` receives
pub data Result : Type 0 where
  none : Result
  channel_message : ℕ → ℕ → ℕ → Result
  beat_pulse : Result
  transport_start : Result
  transport_stop : Result
  transport_continue : Result

abbrev pub initial : Reader
initial = record { buffer = 0 ∷ 0 ∷ 0 ∷ []; buffer_idx = 0; pulse_count = 0 }

abbrev pub pulses_per_quarter_note : ℕ
pulses_per_quarter_note = 24

-- the switch on a realtime byte
unfoldable pub feed_realtime : ℕ → Reader → Result × Reader
feed_realtime byte r =
    if byte == 0xf8
    then (if leb pulses_per_quarter_note (r.pulse_count + 1)
        then (beat_pulse, record r { pulse_count = 0 })
        else (none, record r { pulse_count = r.pulse_count + 1 }))
    else if byte == 0xfa
    then (transport_start, record r { pulse_count = 0 })
    else if byte == 0xfc
    then (transport_stop, record r { pulse_count = 0 })
    else if byte == 0xfb
    then (transport_continue, record r { pulse_count = 0 })
    else (none, r)

-- `buffer_[i] = byte`. A write outside the array is undefined behaviour: the model has no buffer left then.
unfoldable pub store : List ℕ → ℕ → ℕ → List ℕ
store buffer i byte = if ltb i (length buffer) then set buffer i byte else []

-- the framing of any other byte
unfoldable pub feed_framed : ℕ → Reader → Result × Reader
unfolding store
feed_framed byte r =
    let at = if bit_and byte 0x80 == 0 then r.buffer_idx else 0 in
    let stored = store r.buffer at byte in
    if leb 3 (at + 1)
    then (
      channel_message (get_or stored 0 0) (get_or stored 1 0) (get_or stored 2 0),
      record r { buffer = stored; buffer_idx = 0 },
    )
    else (none, record r { buffer = stored; buffer_idx = at + 1 })

unfoldable pub feed : ℕ → Reader → Result × Reader
unfolding feed_realtime feed_framed
feed byte r = if leb 0xf8 byte then feed_realtime byte r else feed_framed byte r

-- A stream of bytes, as the UART task feeds them.
unfoldable pub feed_all : List ℕ → Reader → List Result × Reader
feed_all [] r = ([], r)
feed_all (byte ∷ bytes) r =
    let (out, r') = feed byte r in let (outs, r'') = feed_all bytes r' in (out ∷ outs, r'')
