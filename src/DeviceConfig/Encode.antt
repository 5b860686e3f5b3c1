-- ===== src/DeviceConfig/Encode.antt =====
-- device_config_encoder.cpp. The vector is the list of its 150 bytes, and every offset below is inside it.
pub mod Layout
use esp_glow.Prelude.{
  ℕ, zero, suc, ◌+◌, ◌-◌, ◌*◌, ◌/◌, ◌^◌, Bool, List, [], ◌∷◌, ◌++◌, if◌then◌else◌, ◌==◌, length,
  take, drop, set, replicate, min, bit_and, bit_or,
}
use esp_glow.Prelude.Outcome.{Outcome, ok, fault, ◌>>=◌}
use esp_glow.DeviceConfig.{
  devcfg_blob_size, devcfg_crc_offset, devcfg_version_current, devcfg_flag_usb_midi_host,
  devcfg_flag_skip_wifi, devcfg_flag_artnet_sync_broadcast, devcfg_ssid_max, devcfg_pass_max,
  DeviceConfig, devcfg_crc32,
}

abbrev pub write_u16_le : List ℕ → ℕ → ℕ → List ℕ
write_u16_le b off v = set (set b off (bit_and v 0xff)) (off + 1) (bit_and (v / 2 ^ 8) 0xff)

abbrev pub write_u32_le : List ℕ → ℕ → ℕ → List ℕ
write_u32_le b off v =
    let b1 = set b off (bit_and v 0xff) in
    let b2 = set b1 (off + 1) (bit_and (v / 2 ^ 8) 0xff) in
    let b3 = set b2 (off + 2) (bit_and (v / 2 ^ 16) 0xff) in
    set b3 (off + 3) (bit_and (v / 2 ^ 24) 0xff)

-- `strlen` of an array: without a NUL it reads behind the end.
unfoldable pub strlen : List ℕ → Outcome ℕ
strlen [] = fault
strlen (c ∷ s) = let rest = strlen s in if c == 0 then ok 0 else do n ← rest; ok (suc n)

-- `memcpy` to `b.data() + off`
abbrev pub overwrite : List ℕ → ℕ → List ℕ → List ℕ
overwrite b off xs = take off b ++ (xs ++ drop (off + length xs) b)

unfoldable pub write_padded_string : List ℕ → ℕ → ℕ → List ℕ → Outcome (List ℕ)
unfolding strlen
write_padded_string b off field_len s = do
  n ← strlen s
  ok (overwrite b off (take (min n field_len) s))

abbrev pub flag_bits : Bool → Bool → Bool → ℕ
flag_bits usb_midi_host skip_wifi artnet_sync_broadcast =
    let f1 = (if usb_midi_host then bit_or 0 devcfg_flag_usb_midi_host else 0) in
    let f2 = (if skip_wifi then bit_or f1 devcfg_flag_skip_wifi else f1) in
    if artnet_sync_broadcast then bit_or f2 devcfg_flag_artnet_sync_broadcast else f2

unfoldable pub encode_device_config : DeviceConfig → Outcome (List ℕ)
unfolding write_padded_string
encode_device_config cfg = do
  let b0 = replicate devcfg_blob_size 0
  let b1 = set (set (set (set b0 0 67) 1 70) 2 71) 3 49
  let flags = flag_bits cfg.usb_midi_host cfg.skip_wifi cfg.artnet_sync_broadcast
  let b2 = write_u16_le (set (set b1 4 devcfg_version_current) 5 flags) 6 0
  b3 ← write_padded_string b2 8 devcfg_ssid_max cfg.wifi_ssid
  b4 ← write_padded_string b3 40 devcfg_pass_max cfg.wifi_pass
  let b5 = write_u16_le (write_u32_le b4 104 cfg.artnet_fallback_ip) 108 cfg.artnet_port
  let b6 = set (set b5 110 cfg.dmx_tx_gpio) 111 cfg.dmx_rx_gpio
  let b7 = set (set b6 112 cfg.dmx_rts_gpio) 113 cfg.led_gpio
  crc ← devcfg_crc32 b7 devcfg_crc_offset
  ok (write_u32_le b7 devcfg_crc_offset crc)
