-- ===== src/ArtNet/Packet.antt =====
-- `buildArtDmxPacket` and `buildArtSyncPacket`: the bytes that they write to `out`.
use esp_glow.Prelude.{
  ℕ, ◌+◌, ◌*◌, ◌/◌, ◌%◌, ◌^◌, ◌≤◌, ◌≡◌, refl, sym, ap, ◌∙◌, arith, List, [], ◌∷◌, ◌++◌, ltb, ◌==◌,
  if◌then◌else◌, length, take, bit_and, length-append, get_or, Bool-cases, true, false, ge→ltb,
  lt→ltb, inl, inr, drop, take-all, take-append, length-replicate, replicate, subst,
}
use esp_glow.Prelude.Bits.{bit_and_255, bit_and_127, bit_and_one}
use esp_glow.Dmx.{dmx_universe_size}

abbrev pub artnet_op_dmx : ℕ
artnet_op_dmx = 0x5000

abbrev pub artnet_op_sync : ℕ
artnet_op_sync = 0x5200

abbrev pub artnet_protocol_version : ℕ
artnet_protocol_version = 14

-- "Art-Net" and a NUL
abbrev pub id : List ℕ
id = 65 ∷ 114 ∷ 116 ∷ 45 ∷ 78 ∷ 101 ∷ 116 ∷ 0 ∷ []

-- the twelve bytes that both packets start with
abbrev pub start : ℕ → List ℕ
start op =
    id
    ++ (bit_and op 0xff
        ∷ bit_and (op / 2 ^ 8) 0xff
        ∷ bit_and (artnet_protocol_version / 2 ^ 8) 0xff
        ∷ bit_and artnet_protocol_version 0xff
        ∷ [])

-- The packet is a list of its 18 + payload bytes, which is what the source returns the number of.
unfoldable pub build_art_dmx_packet : ℕ → ℕ → List ℕ → ℕ → List ℕ
build_art_dmx_packet wire_universe sequence bytes len0 =
    let len = (if ltb dmx_universe_size len0 then dmx_universe_size else len0) in
    let payload = (if bit_and len 1 == 0 then len else len + 1) in
    start artnet_op_dmx
    ++ (sequence
          ∷ 0
          ∷ bit_and wire_universe 0xff
          ∷ bit_and (wire_universe / 2 ^ 8) 0x7f
          ∷ bit_and (payload / 2 ^ 8) 0xff
          ∷ bit_and payload 0xff
          ∷ take len bytes
        ++ (if ltb len payload then 0 ∷ [] else []))

unfoldable pub build_art_sync_packet : List ℕ
build_art_sync_packet = start artnet_op_sync ++ (0 ∷ 0 ∷ [])

-- An Art-Net node's reading of a packet.
pub record ArtDmx : Type 0 where
  pub op : ℕ
  pub version : ℕ
  pub sequence : ℕ
  pub universe : ℕ
  pub declared : ℕ
  pub payload : List ℕ

abbrev pub byte_at : List ℕ → ℕ → ℕ
byte_at packet i = get_or packet i 0

abbrev pub read_art_dmx : List ℕ → ArtDmx
read_art_dmx packet = record {
  op = byte_at packet 8 + byte_at packet 9 * 256;
  version = byte_at packet 10 * 256 + byte_at packet 11;
  sequence = byte_at packet 12;
  universe = byte_at packet 14 + byte_at packet 15 * 256;
  declared = byte_at packet 16 * 256 + byte_at packet 17;
  payload = drop 18 packet;
}

-- the next even number
abbrev pub even_up : ℕ → ℕ
even_up n = n + n % 2

-- What is sent for `bytes` of at most 512 bytes.
pub record Carries (wire_universe sequence : ℕ) (bytes : List ℕ) (packet : List ℕ) : Type 0 where
  pub identifier : take 8 packet ≡ id
  pub op_is : (read_art_dmx packet).op ≡ 0x5000
  pub version_is : (read_art_dmx packet).version ≡ 14
  pub sequence_is : (read_art_dmx packet).sequence ≡ sequence
  pub universe_is : (read_art_dmx packet).universe ≡ wire_universe % 2 ^ 15
  pub declared_is : (read_art_dmx packet).declared ≡ even_up (length bytes)
  pub payload_size : length (read_art_dmx packet).payload ≡ even_up (length bytes)
  pub payload_is : take (length bytes) (read_art_dmx packet).payload ≡ bytes
  pub size : length packet ≡ 18 + even_up (length bytes)
  pub fits : length packet ≤ 530

module _ (wire_universe sequence : ℕ) (bytes : List ℕ) where
  -- the packet, once the lengths are worked out
  abbrev laid_out : List ℕ
  laid_out =
      start artnet_op_dmx
      ++ (sequence
            ∷ 0
            ∷ bit_and wire_universe 0xff
            ∷ bit_and (wire_universe / 2 ^ 8) 0x7f
            ∷ bit_and (even_up (length bytes) / 2 ^ 8) 0xff
            ∷ bit_and (even_up (length bytes)) 0xff
            ∷ bytes
          ++ replicate (length bytes % 2) 0)

  build_art_dmx_packet-laid_out :
      length bytes ≤ dmx_universe_size
      → build_art_dmx_packet wire_universe sequence bytes (length bytes) ≡ laid_out
  unfolding build_art_dmx_packet
  build_art_dmx_packet-laid_out h =
      let n = length bytes in
      let uncut : ltb dmx_universe_size n ≡ false = ge→ltb dmx_universe_size n h in
      elim (Bool-cases (bit_and n 1 == 0)) [
        | inl even ↦
            let rest : n % 2 ≡ 0 = ground (arith, even, bit_and_one n) in
            let same : n + n % 2 ≡ n = omega arith in
            let no_pad : ltb n n ≡ false = ge→ltb n n (omega arith) in
            rw (uncut, even, no_pad, same, rest, take-all bytes) refl
        | inr odd ↦
            let rest : n % 2 ≡ 1 = ground (arith, odd, bit_and_one n) in
            let up : n + n % 2 ≡ n + 1 = omega arith in
            let padded : ltb n (n + 1) ≡ true = lt→ltb n (n + 1) (omega arith) in
            rw (uncut, odd, padded, up, rest, take-all bytes) refl
      ]

  laid_out-Carries :
      length bytes ≤ dmx_universe_size → Carries wire_universe sequence bytes laid_out
  laid_out-Carries h =
      let payload_length : length (bytes ++ replicate (length bytes % 2) 0)
          ≡ even_up (length bytes) =
        length-append bytes (replicate (length bytes % 2) 0)
        ∙ ap (λ k. length bytes + k) (length-replicate (length bytes % 2) 0) in
      record {
        identifier = refl;
        op_is = refl;
        version_is = refl;
        sequence_is = refl;
        universe_is = omega (arith, bit_and_255 wire_universe, bit_and_127 (wire_universe / 2 ^ 8));
        declared_is = omega (
          arith,
          h,
          bit_and_255 (even_up (length bytes)),
          bit_and_255 (even_up (length bytes) / 2 ^ 8),
        );
        payload_size = payload_length;
        payload_is = take-append bytes (replicate (length bytes % 2) 0);
        size = omega (arith, payload_length);
        fits = omega (arith, payload_length);
      }

-- A node reads from the packet for at most 512 bytes of data the 15-bit universe, the sequence number and
-- the data, padded to an even number of bytes, which is the length it declares. The packet fits the 530
-- bytes that the router has for it.
pub build_art_dmx_packet_lem :
    (wire_universe sequence : ℕ) (bytes : List ℕ)
    → length bytes ≤ dmx_universe_size
    → Carries wire_universe sequence bytes
        (build_art_dmx_packet wire_universe sequence bytes (length bytes))
build_art_dmx_packet_lem wire_universe sequence bytes h =
    subst (Carries wire_universe sequence bytes)
      (sym (build_art_dmx_packet-laid_out wire_universe sequence bytes h))
      (laid_out-Carries wire_universe sequence bytes h)
