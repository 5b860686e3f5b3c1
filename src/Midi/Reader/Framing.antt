-- ===== src/Midi/Reader/Framing.antt =====
-- The channel messages that a byte stream is framed into.
use esp_glow.Prelude.{
  ℕ, ◌≤◌, ◌<◌, ◌≡◌, refl, ap, ◌∙◌, inl, inr, arith, List, [], ◌∷◌, ◌++◌, ltb, leb, lt→ltb, ◌==◌,
  if◌then◌else◌, true, false, Bool-cases, length, length-set, bit_and, all_below, test-all_below,
  ==_iff,
}
use esp_glow.Midi.Reader.{
  Reader, Result, none, channel_message, beat_pulse, transport_start, transport_stop,
  transport_continue, store, feed, feed_realtime, feed_framed, feed_all,
}

pub record IsValid (r : Reader) : Type 0 where
  -- the three bytes are there, which a write outside them would end
  pub three : length r.buffer ≡ 3
  pub idx_in : r.buffer_idx < 3
  pub pulses_in : r.pulse_count < 24

length-store :
    (buffer : List ℕ) (i byte : ℕ)
    → i < length buffer
    → length (store buffer i byte) ≡ length buffer
unfolding store
length-store buffer i byte h =
    let inside : ltb i (length buffer) ≡ true = lt→ltb _ _ h in rw inside (length-set buffer i byte)

place_in :
    (byte : ℕ) {r : Reader}
    → IsValid r
    → (if bit_and byte 0x80 == 0 then r.buffer_idx else 0) < length r.buffer
place_in byte v = ground arith

feed_realtime-IsValid : (byte : ℕ) {r : Reader} → IsValid r → IsValid (feed_realtime byte r).1
unfolding feed_realtime
feed_realtime-IsValid byte v = ground arith

feed_framed-IsValid : (byte : ℕ) {r : Reader} → IsValid r → IsValid (feed_framed byte r).1
unfolding feed_framed
feed_framed-IsValid byte {r} v =
    let at = if bit_and byte 0x80 == 0 then r.buffer_idx else 0 in
    ground (arith, length-store r.buffer at byte (place_in byte v))

-- Whatever byte is fed to a valid reader, the write stays inside the three-byte buffer (one outside it would
-- leave no buffer, and the reader not valid); the next place is in the buffer again and the pulse count stays
-- below 24.
pub feed-IsValid : (byte : ℕ) {r : Reader} → IsValid r → IsValid (feed byte r).1
unfolding feed
feed-IsValid byte {r} v = elim (Bool-cases (leb 0xf8 byte)) [
  | inl realtime ↦ rw realtime (feed_realtime-IsValid byte v)
  | inr framed ↦ rw framed (feed_framed-IsValid byte v)
]

-- the channel messages among the results
abbrev pub message_in : Result → List Result
message_in (channel_message a b c) = channel_message a b c ∷ []
message_in none = []
message_in beat_pulse = []
message_in transport_start = []
message_in transport_stop = []
message_in transport_continue = []

unfoldable pub messages : List Result → List Result
messages [] = []
messages (out ∷ outs) = message_in out ++ messages outs

-- the stream without its System Realtime bytes
unfoldable pub without_realtime : List ℕ → List ℕ
without_realtime [] = []
without_realtime (byte ∷ bytes) =
    let rest = without_realtime bytes in if leb 0xf8 byte then rest else byte ∷ rest

feed_realtime-quiet :
    (byte : ℕ) (r : Reader)
    → ((feed_realtime byte r).1.buffer ≡ r.buffer)
      × ((feed_realtime byte r).1.buffer_idx ≡ r.buffer_idx)
      × (message_in (feed_realtime byte r).0 ≡ [])
unfolding feed_realtime
feed_realtime-quiet byte r = ground arith

-- The framing does not look at the pulse counter.
feed_framed-same :
    (byte : ℕ) (r s : Reader)
    → r.buffer ≡ s.buffer
    → r.buffer_idx ≡ s.buffer_idx
    → ((feed_framed byte r).0 ≡ (feed_framed byte s).0)
      × ((feed_framed byte r).1.buffer ≡ (feed_framed byte s).1.buffer)
      × ((feed_framed byte r).1.buffer_idx ≡ (feed_framed byte s).1.buffer_idx)
unfolding feed_framed
feed_framed-same byte r s e f = ground arith

feed-realtime : (byte : ℕ) (r : Reader) → leb 0xf8 byte ≡ true → feed byte r ≡ feed_realtime byte r
unfolding feed
feed-realtime byte r h = rw h

feed-framed : (byte : ℕ) (r : Reader) → leb 0xf8 byte ≡ false → feed byte r ≡ feed_framed byte r
unfolding feed
feed-framed byte r h = rw h

-- Realtime bytes, wherever they stand, change no channel message.
pub messages-without_realtime :
    (bytes : List ℕ) (r s : Reader)
    → r.buffer ≡ s.buffer
    → r.buffer_idx ≡ s.buffer_idx
    → messages (feed_all bytes r).0 ≡ messages (feed_all (without_realtime bytes) s).0
unfolding feed_all without_realtime messages
messages-without_realtime [] r s e f = refl
messages-without_realtime (byte ∷ bytes) r s e f = elim (Bool-cases (leb 0xf8 byte)) [
  | inl realtime ↦
      let (b, i, quiet) = feed_realtime-quiet byte r in
      rw (realtime, feed-realtime byte r realtime, quiet)
        (messages-without_realtime bytes (feed_realtime byte r).1 s (b ∙ e) (i ∙ f))
  | inr framed ↦
      let (o, b, i) = feed_framed-same byte r s e f in
      rw (framed, feed-framed byte r framed, feed-framed byte s framed, o)
        (ap (◌++◌ (message_in (feed_framed byte s).0))
          (messages-without_realtime bytes (feed_framed byte r).1 (feed_framed byte s).1 b i))
]

data_byte : (x : ℕ) → x < 128 → bit_and x 0x80 ≡ 0
unfolding all_below
data_byte x h = (==_iff _ _).0 (test-all_below (λ x. bit_and x 0x80 == 0) 128 x h refl)

status_byte : (x : ℕ) → 128 ≤ x → x < 256 → (bit_and x 0x80 == 0) ≡ false
unfolding all_below
status_byte x low high =
    ground (
      arith,
      test-all_below (λ x. if leb 128 x then bit_and x 0x80 == 128 else true) 256 x high refl,
    )

three_long : (xs : List ℕ) → length xs ≡ 3 → (a : ℕ) × (b : ℕ) × (c : ℕ) × (xs ≡ a ∷ b ∷ c ∷ [])
three_long [] h = absurd (omega arith)
three_long (a ∷ []) h = absurd (omega arith)
three_long (a ∷ b ∷ []) h = absurd (omega arith)
three_long (a ∷ b ∷ c ∷ []) h = (a, b, c, refl)
three_long (a ∷ b ∷ c ∷ d ∷ xs) h = absurd (omega arith)

abbrev reader : ℕ → ℕ → ℕ → ℕ → ℕ → Reader
reader a b c idx pulses = record { buffer = a ∷ b ∷ c ∷ []; buffer_idx = idx; pulse_count = pulses }

-- A status byte restarts the framing; a data byte goes on with it.
feed_status :
    (status a b c idx pulses : ℕ)
    → 128 ≤ status
    → status < 0xf8
    → feed status (reader a b c idx pulses) ≡ (none, reader status b c 1 pulses)
unfolding feed feed_framed store
feed_status status a b c idx pulses low high =
    let tall : leb 0xf8 status ≡ false = ground arith in
    rw (tall, status_byte status low (omega arith))

feed_first :
    (x a b c pulses : ℕ) → x < 128 → feed x (reader a b c 1 pulses) ≡ (none, reader a x c 2 pulses)
unfolding feed feed_framed store
feed_first x a b c pulses h =
    let small : leb 0xf8 x ≡ false = ground arith in rw (small, data_byte x h)

feed_second :
    (x a b c pulses : ℕ)
    → x < 128
    → feed x (reader a b c 2 pulses) ≡ (channel_message a b x, reader a b x 0 pulses)
unfolding feed feed_framed store
feed_second x a b c pulses h =
    let small : leb 0xf8 x ≡ false = ground arith in rw (small, data_byte x h)

-- The states that a valid reader goes through on a status byte and two data bytes.
pub record ReadsMessage (status data1 data2 : ℕ) (r : Reader) : Type 0 where
  pub first : Reader
  pub second : Reader
  pub last : Reader
  pub takes_status : feed status r ≡ (none, first)
  pub takes_data1 : feed data1 first ≡ (none, second)
  pub takes_data2 : feed data2 second ≡ (channel_message status data1 data2, last)
  pub second_valid : IsValid second
  pub last_valid : IsValid last

-- From any state, a status byte and two data bytes give exactly that message.
pub feed_message :
    (status data1 data2 : ℕ) (r : Reader)
    → IsValid r
    → 128 ≤ status
    → status < 0xf8
    → data1 < 128
    → data2 < 128
    → ReadsMessage status data1 data2 r
feed_message status data1 data2 r v low high h1 h2 =
    let (a, b, c, e) = three_long r.buffer v.three in
    let p = r.pulse_count in
    let same : r ≡ reader a b c r.buffer_idx p =
      λ i. record { buffer = e i; buffer_idx = r.buffer_idx; pulse_count = p } in
    record {
      first = reader status b c 1 p;
      second = reader status data1 c 2 p;
      last = reader status data1 data2 0 p;
      takes_status = ap (feed status) same ∙ feed_status status a b c r.buffer_idx p low high;
      takes_data1 = feed_first data1 status b c p h1;
      takes_data2 = feed_second data2 status data1 c p h2;
      second_valid = omega (arith, v.pulses_in);
      last_valid = omega (arith, v.pulses_in);
    }
