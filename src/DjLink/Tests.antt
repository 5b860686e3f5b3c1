-- ===== src/DjLink/Tests.antt =====
-- Runs of the DJ Link modules at concrete inputs.
use esp_glow.Prelude.{
  ℕ, ◌≡◌, refl, arith, true, false, List, [], ◌∷◌, ◌++◌, replicate, if◌then◌else◌, ◌==◌, length,
  get_or, not, ◌&&◌, leb, bit_and,
}
use esp_glow.Prelude.Float.{milli}
use esp_glow.Prelude.Outcome.{ok, reject, read}
use esp_glow.DjLink.Parse.{
  DjLinkBeatPacket, djlink_magic, kind_beat, kind_cdj_status, parse_beat_packet, parse_master_flag,
}
use esp_glow.DjLink.Parse.Total.{IsBeat, is_djlink, parse_beat_packet_lem, parse_master_flag_lem}
use esp_glow.DjLink.Master.{
  Tracker, find, first_free, update, is_known_master, should_accept, is_known_master-update,
  should_accept-update,
}

-- a status packet of player 3, which is master
abbrev status : List ℕ
status = djlink_magic ++ (0x0a ∷ replicate 22 0) ++ (3 ∷ replicate 103 0) ++ (0x20 ∷ replicate 60 0)

parse_master_flag_example : parse_master_flag status ≡ (
    if is_djlink status kind_cdj_status && leb 138 (length status)
    then ok (get_or status 0x21 0, not (bit_and (get_or status 0x89 0) 0x20 == 0))
    else reject)
parse_master_flag_example = parse_master_flag_lem status

-- a beat packet of player 2: 120 bpm at normal speed, the third beat of a bar
abbrev beat_3 : List ℕ
beat_3 =
    djlink_magic
    ++ (0x28 ∷ replicate 22 0)
    ++ (2 ∷ replicate 51 0)
    ++ (0x10 ∷ 0 ∷ 0 ∷ 0 ∷ 0 ∷ 0x2e ∷ 0xe0 ∷ 3 ∷ 0 ∷ 0 ∷ 2 ∷ [])

beat_3_run :
    parse_beat_packet ⦃fl = milli⦄ beat_3 5
    ≡ ok (record {
      event = record { t_us = 5; bpm = 120000; beat_in_bar = 3; is_downbeat = false };
      device_number = 2;
    })
unfolding parse_beat_packet read
beat_3_run = refl

parse_beat_packet_example :
    (p : DjLinkBeatPacket ℕ) × (parse_beat_packet ⦃fl = milli⦄ beat_3 5
      ≡ (if is_djlink beat_3 kind_beat && leb 96 (length beat_3) then ok p else reject))
    × IsBeat ⦃fl = milli⦄ beat_3 5 p
parse_beat_packet_example = parse_beat_packet_lem ⦃fl = milli⦄ beat_3 5

-- player 2 is known, and the other slots are empty
abbrev one_known : Tracker
one_known =
    record { device_number = 2; is_master = true; valid = true }
    ∷ replicate 7 (record { device_number = 0; is_master = false; valid = false })

is_known_master-update_example :
    is_known_master 2 (update 3 true one_known)
    ≡ (if 2 == 3 then true else is_known_master 2 one_known)
unfolding find first_free
is_known_master-update_example = is_known_master-update 3 2 true one_known (1, refl)

should_accept-update_example :
    (should_accept 3 (update 3 true one_known) ≡ true)
    × (should_accept 4 (update 3 true one_known) ≡ is_known_master 4 one_known)
unfolding find first_free
should_accept-update_example = should_accept-update 3 4 one_known (1, refl) (omega arith)
