-- ===== src/DjLink/Parse.antt =====
-- djlink_parser.cpp. A packet of `len` bytes is a list of that length; reading behind it is a fault.
pub mod Total
use esp_glow.Prelude.{
  ℕ, ◌+◌, ◌*◌, ◌≤◌, ◌<◌, ◌≡◌, refl, ap, ◌∙◌, arith, Bool, true, false, not, ◌&&◌, ◌||◌, List, [],
  ◌∷◌, if◌then◌else◌, ltb, leb, ◌==◌, length, get_or, bit_or, bit_and, ltb→ge, Bool-cases, inl, inr,
  ◌^◌,
}
use esp_glow.Prelude.Float.{FloatOps}
use esp_glow.Prelude.Outcome.{
  Outcome, ok, reject, ◌>>=◌, ◌>>◌, require, read, Returns, ok_returns, reject_returns,
  Returns-bind, Returns-require, Returns-read,
}
use esp_glow.Queue.Beat.{BeatEvent}

-- "Qspt1WmJOL"
abbrev pub djlink_magic : List ℕ
djlink_magic = 0x51 ∷ 0x73 ∷ 0x70 ∷ 0x74 ∷ 0x31 ∷ 0x57 ∷ 0x6d ∷ 0x4a ∷ 0x4f ∷ 0x4c ∷ []

abbrev pub kind_beat : ℕ
kind_beat = 0x28

abbrev pub kind_cdj_status : ℕ
kind_cdj_status = 0x0a

-- `memcmp(pkt + i, expected, …) == 0`
unfoldable pub matches_at : List ℕ → ℕ → List ℕ → Outcome Bool
matches_at pkt i [] = ok true
matches_at pkt i (b ∷ bs) =
    read pkt i >>= λ a. matches_at pkt (i + 1) bs >>= λ rest. ok (if a == b then rest else false)

unfoldable pub has_magic_and_kind : List ℕ → ℕ → Outcome Bool
unfolding matches_at
has_magic_and_kind pkt kind =
    if ltb (length pkt) 11
    then ok false
    else matches_at pkt 0 djlink_magic >>= λ magic.
        if not magic then ok false else (read pkt 0x0a >>= λ k. ok (k == kind))

pub record DjLinkBeatPacket (F : Type 0) : Type 0 where
  pub event : BeatEvent F
  pub device_number : ℕ

-- a big-endian number of two bytes and of three
abbrev pub be_16 : ℕ → ℕ → ℕ
be_16 high low = bit_or (high * 2 ^ 8) low

abbrev pub be_24 : ℕ → ℕ → ℕ → ℕ
be_24 high mid low = bit_or (bit_or (high * 2 ^ 16) (mid * 2 ^ 8)) low

module _ {F : Type 0} ⦃fl : FloatOps F⦄ where
  unfoldable pub parse_beat_packet : List ℕ → ℕ → Outcome (DjLinkBeatPacket F)
  unfolding has_magic_and_kind
  parse_beat_packet pkt t_us = has_magic_and_kind pkt kind_beat >>= λ mine.
      require mine
      >> (require (not (ltb (length pkt) 0x60))
          >> (read pkt 0x21 >>= λ device. read pkt 0x5a >>= λ bpm_high. read pkt 0x5b >>= λ bpm_low.
              read pkt 0x55 >>= λ pitch_high. read pkt 0x56 >>= λ pitch_mid.
              read pkt 0x57 >>= λ pitch_low. read pkt 0x5c >>= λ beat.
              let beat_in_bar = (if ltb beat 1 || ltb 4 beat then 0 else beat) in
              ok (record {
                event = record {
                  t_us = t_us;
                  bpm = fl.mul (fl.div (fl.of_nat (be_16 bpm_high bpm_low)) (fl.of_nat 100)) (
                      fl.div (fl.of_nat (be_24 pitch_high pitch_mid pitch_low))
                        (fl.of_nat 1048576));
                  beat_in_bar = beat_in_bar;
                  is_downbeat = beat_in_bar == 1;
                };
                device_number = device;
              })))

-- the device's number, and whether it is the tempo master
unfoldable pub parse_master_flag : List ℕ → Outcome (ℕ × Bool)
unfolding has_magic_and_kind
parse_master_flag pkt = has_magic_and_kind pkt kind_cdj_status >>= λ mine.
    require mine
    >> (require (not (ltb (length pkt) 0x8a))
        >> (read pkt 0x21 >>= λ device.
            read pkt 0x89 >>= λ flags. ok (device, not (bit_and flags 0x20 == 0))))
