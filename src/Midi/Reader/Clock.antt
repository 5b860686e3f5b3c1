-- ===== src/Midi/Reader/Clock.antt =====
-- MIDI Clock pulses against beats.
use esp_glow.Prelude.{
  ℕ, ◌+◌, ◌*◌, ◌≡◌, arith, List, [], ◌∷◌, ◌==◌, if◌then◌else◌, Bool, ◌||◌, false, All, ◌<◌,
}
use esp_glow.Midi.Reader.{Reader, Result, beat_pulse, feed, feed_all}

-- the clock bytes of a stream
unfoldable pub clocks : List ℕ → ℕ
clocks [] = 0
clocks (byte ∷ bytes) = (if byte == 0xf8 then 1 else 0) + clocks bytes

abbrev is_beat : Result → ℕ
is_beat beat_pulse = 1
is_beat _ = 0

-- the beats reported
unfoldable pub beats : List Result → ℕ
beats [] = 0
beats (out ∷ outs) = is_beat out + beats outs

-- Start, Continue and Stop reset the count.
abbrev pub is_transport : ℕ → Bool
is_transport byte = byte == 0xfa || byte == 0xfb || byte == 0xfc

feed-counts :
    (byte : ℕ) (r : Reader)
    → is_transport byte ≡ false
    → r.pulse_count < 24
    → (is_beat (feed byte r).0 * 24 + (feed byte r).1.pulse_count
        ≡ r.pulse_count + (if byte == 0xf8 then 1 else 0))
      × ((feed byte r).1.pulse_count < 24)
unfolding feed
feed-counts byte r h v = ground arith

-- Between two transport messages a beat is reported for every 24 clock bytes, whatever else is in
-- the stream: the pulses left over are the remainder.
pub beats-clocks :
    (bytes : List ℕ) (r : Reader)
    → All (λ byte. is_transport byte ≡ false) bytes
    → r.pulse_count < 24
    → (beats (feed_all bytes r).0 * 24 + (feed_all bytes r).1.pulse_count
        ≡ r.pulse_count + clocks bytes)
      × ((feed_all bytes r).1.pulse_count < 24)
unfolding feed_all beats clocks
beats-clocks [] r h v = omega arith
beats-clocks (byte ∷ bytes) r h v =
    let (step, below) = feed-counts byte r h.0 v in
    let (ih, below') = beats-clocks bytes (feed byte r).1 h.1 below in
    omega (arith, step, ih, below')
