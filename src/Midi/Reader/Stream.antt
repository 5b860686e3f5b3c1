-- ===== src/Midi/Reader/Stream.antt =====
-- What a whole stream of messages is framed into.
use esp_glow.Prelude.{ℕ, ◌≤◌, ◌<◌, ◌≡◌, refl, ap, ◌∙◌, List, [], ◌∷◌, All, arith}
use esp_glow.Midi.Reader.{Reader, Result, channel_message, feed_all}
use esp_glow.Midi.Reader.Framing.{
  IsValid, messages, without_realtime, messages-without_realtime, feed_message,
}

-- A channel message as it stands in the stream.
pub record Message : Type 0 where
  pub status : ℕ
  pub data1 : ℕ
  pub data2 : ℕ

pub record IsMessage (m : Message) : Type 0 where
  pub status_low : 128 ≤ m.status
  pub status_high : m.status < 0xf8
  pub data1_in : m.data1 < 128
  pub data2_in : m.data2 < 128

abbrev pub wire : List Message → List ℕ
wire [] = []
wire (m ∷ ms) = m.status ∷ m.data1 ∷ m.data2 ∷ wire ms

abbrev pub results : List Message → List Result
results [] = []
results (m ∷ ms) = channel_message m.status m.data1 m.data2 ∷ results ms

messages-wire :
    (ms : List Message) (r : Reader)
    → All IsMessage ms
    → IsValid r
    → messages (feed_all (wire ms) r).0 ≡ results ms
unfolding messages feed_all
messages-wire [] r h v = refl
messages-wire (m ∷ ms) r h v =
    let f = h.0 in
    let reads =
      feed_message m.status m.data1 m.data2 r v f.status_low f.status_high f.data1_in f.data2_in in
    rw (reads.takes_status, reads.takes_data1, reads.takes_data2)
      (ap (◌∷◌ (channel_message m.status m.data1 m.data2))
        (messages-wire ms reads.last h.1 reads.last_valid))

-- A stream of three-byte channel messages, with System Realtime bytes inserted anywhere, also
-- inside a message, is framed into exactly those messages, in order, from any valid state.
pub feed_all-wire :
    (ms : List Message) (bytes : List ℕ) (r : Reader)
    → All IsMessage ms
    → without_realtime bytes ≡ wire ms
    → IsValid r
    → messages (feed_all bytes r).0 ≡ results ms
feed_all-wire ms bytes r h e v =
    messages-without_realtime bytes r r refl refl
    ∙ ap (λ bs. messages (feed_all bs r).0) e
    ∙ messages-wire ms r h v

-- A two-byte message, such as Program Change or Channel Pressure, that another message follows is
-- not reported: its two bytes never reach the parser.
pub two_byte_lost :
    (status data1 : ℕ) (m : Message) (r : Reader)
    → 128 ≤ status
    → status < 0xf8
    → data1 < 128
    → IsMessage m
    → IsValid r
    → messages (feed_all (status ∷ data1 ∷ wire (m ∷ [])) r).0 ≡ results (m ∷ [])
unfolding messages feed_all
two_byte_lost status data1 m r low high h f v =
    let reads = feed_message status data1 0 r v low high h (omega arith) in
    rw (reads.takes_status, reads.takes_data1)
      (messages-wire (m ∷ []) reads.second (f, tt) reads.second_valid)
