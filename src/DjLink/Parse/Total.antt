-- ===== src/DjLink/Parse/Total.antt =====
-- The parsers of DJ Link packets, on every packet: what they accept, and what they make of it.
use esp_glow.Prelude.{
  ℕ, ◌+◌, ◌≤◌, ◌<◌, ◌≡◌, refl, arith, Bool, true, false, not, ◌&&◌, ◌||◌, ◌⊎◌, List, [], ◌∷◌,
  if◌then◌else◌, ltb, leb, ◌==◌, length, get_or, bit_and, ltb→ge, Bool-cases, inl, inr,
}
use esp_glow.Prelude.Float.{FloatOps}
use esp_glow.Prelude.Outcome.{ok, reject, read_ok}
use esp_glow.DjLink.Parse.{
  DjLinkBeatPacket, be_16, be_24, djlink_magic, kind_beat, kind_cdj_status, matches_at,
  has_magic_and_kind, parse_beat_packet, parse_master_flag,
}

-- Does the packet hold `bs` from byte `i` on?
abbrev pub holds_at : List ℕ → ℕ → List ℕ → Bool
holds_at pkt i [] = true
holds_at pkt i (b ∷ bs) =
    let rest = holds_at pkt (i + 1) bs in if get_or pkt i 0 == b then rest else false

-- A DJ Link packet of a kind: at least 11 bytes, the magic ones first, then the kind.
abbrev pub is_djlink : List ℕ → ℕ → Bool
is_djlink pkt kind = leb 11 (length pkt) && holds_at pkt 0 djlink_magic && get_or pkt 0x0a 0 == kind

-- A beat of a bar is 1 to 4; 0 stands for any other byte.
abbrev pub IsBeatInBar : ℕ → ℕ → Type 0
IsBeatInBar byte beat =
    ((1 ≤ byte) × (byte ≤ 4) × (beat ≡ byte)) ⊎ (((byte ≡ 0) ⊎ (4 < byte)) × (beat ≡ 0))

in_bar-IsBeatInBar : (byte : ℕ) → IsBeatInBar byte (if ltb byte 1 || ltb 4 byte then 0 else byte)
in_bar-IsBeatInBar byte = ground arith

module _ {F : Type 0} ⦃fl : FloatOps F⦄ where
  abbrev pub tempo : List ℕ → F
  tempo pkt =
      fl.mul (fl.div (fl.of_nat (be_16 (get_or pkt 0x5a 0) (get_or pkt 0x5b 0))) (fl.of_nat 100)) (
        fl.div (fl.of_nat (be_24 (get_or pkt 0x55 0) (get_or pkt 0x56 0) (get_or pkt 0x57 0)))
          (fl.of_nat 1048576))

  -- What a beat packet says.
  pub record IsBeat (pkt : List ℕ) (t_us : ℕ) (p : DjLinkBeatPacket F) : Type 0 where
    pub device_is : p.device_number ≡ get_or pkt 0x21 0
    pub arrival : p.event.t_us ≡ t_us
    pub tempo_is : p.event.bpm ≡ tempo pkt
    pub bar_is : IsBeatInBar (get_or pkt 0x5c 0) p.event.beat_in_bar
    pub downbeat_is : p.event.is_downbeat ≡ get_or pkt 0x5c 0 == 1

matches_at-holds_at :
    (pkt : List ℕ) (i : ℕ) (bs : List ℕ)
    → i + length bs ≤ length pkt
    → matches_at pkt i bs ≡ ok (holds_at pkt i bs)
unfolding matches_at
matches_at-holds_at pkt i [] h = refl
matches_at-holds_at pkt i (b ∷ bs) h =
    rw (read_ok pkt i (omega arith), matches_at-holds_at pkt (i + 1) bs (omega arith)) refl

has_magic_and_kind-is_djlink :
    (pkt : List ℕ) (kind : ℕ) → has_magic_and_kind pkt kind ≡ ok (is_djlink pkt kind)
unfolding has_magic_and_kind
has_magic_and_kind-is_djlink pkt kind = elim (Bool-cases (ltb (length pkt) 11)) [
  | inl short ↦ let less : leb 11 (length pkt) ≡ false = ground arith in rw (short, less) refl
  | inr long ↦
      let enough : 11 ≤ length pkt = ltb→ge (length pkt) 11 long in
      let more : leb 11 (length pkt) ≡ true = ground arith in
      let magic = matches_at-holds_at pkt 0 djlink_magic (omega arith) in
      let at_kind = read_ok pkt 0x0a (omega arith) in rw (long, more, magic, at_kind) (ground arith)
]

-- `parseDjLinkMasterFlag` reads nothing behind the packet. It accepts exactly the CDJ status packets of at
-- least 138 bytes, and gives the sender's number and bit 5 of byte 0x89.
pub parse_master_flag_lem :
    (pkt : List ℕ)
    → parse_master_flag pkt ≡ (
        if is_djlink pkt kind_cdj_status && leb 138 (length pkt)
        then ok (get_or pkt 0x21 0, not (bit_and (get_or pkt 0x89 0) 0x20 == 0))
        else reject)
unfolding parse_master_flag
parse_master_flag_lem pkt = elim (Bool-cases (is_djlink pkt kind_cdj_status)) [
  | inr other ↦ rw (has_magic_and_kind-is_djlink pkt kind_cdj_status, other) refl
  | inl mine ↦ elim (Bool-cases (ltb (length pkt) 0x8a)) [
    | inl short ↦
        let less : leb 138 (length pkt) ≡ false = ground arith in
        rw (has_magic_and_kind-is_djlink pkt kind_cdj_status, mine, short, less) refl
    | inr long ↦
        let enough : 138 ≤ length pkt = ltb→ge (length pkt) 0x8a long in
        let more : leb 138 (length pkt) ≡ true = ground arith in
        let at_device = read_ok pkt 0x21 (omega arith) in
        let at_flags = read_ok pkt 0x89 (omega arith) in
        rw (has_magic_and_kind-is_djlink pkt kind_cdj_status, mine, long, more, at_device, at_flags)
          refl
  ]
]

module _ {F : Type 0} ⦃fl : FloatOps F⦄ where
  -- `parseDjLinkBeatPacket` reads nothing behind the packet. It accepts exactly the beat packets of at least
  -- 96 bytes, and gives the sender, the arrival time, the tempo and the beat in the bar, which is the packet's
  -- byte where that is 1 to 4 and 0, for unknown, where it is not; a downbeat is beat 1.
  pub parse_beat_packet_lem :
      (pkt : List ℕ) (t_us : ℕ)
      → (p : DjLinkBeatPacket F) × (parse_beat_packet pkt t_us
          ≡ (if is_djlink pkt kind_beat && leb 96 (length pkt) then ok p else reject))
        × IsBeat pkt t_us p
  unfolding parse_beat_packet
  parse_beat_packet_lem pkt t_us =
      let beat = get_or pkt 0x5c 0 in
      let in_bar = (if ltb beat 1 || ltb 4 beat then 0 else beat) in
      let p : DjLinkBeatPacket F = record {
        event = record {
          t_us = t_us;
          bpm = tempo pkt;
          beat_in_bar = in_bar;
          is_downbeat = in_bar == 1;
        };
        device_number = get_or pkt 0x21 0;
      } in
      (
        p,
        elim (Bool-cases (is_djlink pkt kind_beat)) [
          | inr other ↦ rw (has_magic_and_kind-is_djlink pkt kind_beat, other) refl
          | inl mine ↦ elim (Bool-cases (ltb (length pkt) 0x60)) [
            | inl short ↦
                let less : leb 96 (length pkt) ≡ false = ground arith in
                rw (has_magic_and_kind-is_djlink pkt kind_beat, mine, short, less) refl
            | inr long ↦
                let enough : 96 ≤ length pkt = ltb→ge (length pkt) 0x60 long in
                let more : leb 96 (length pkt) ≡ true = ground arith in
                rw
                  (
                    has_magic_and_kind-is_djlink pkt kind_beat,
                    mine,
                    long,
                    more,
                    read_ok pkt 0x21 (omega arith),
                    read_ok pkt 0x5a (omega arith),
                    read_ok pkt 0x5b (omega arith),
                    read_ok pkt 0x55 (omega arith),
                    read_ok pkt 0x56 (omega arith),
                    read_ok pkt 0x57 (omega arith),
                    read_ok pkt 0x5c (omega arith),
                  )
                  refl
          ]
        ],
        record {
          device_is = refl;
          arrival = refl;
          tempo_is = refl;
          bar_is = in_bar-IsBeatInBar beat;
          downbeat_is = ground arith;
        },
      )
