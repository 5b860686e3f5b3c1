-- ===== src/DeviceConfig.antt =====
-- device_config.h and device_config.cpp: the board's settings in flash. The list holds the `len` bytes at
-- `data`, which is not null. Reading behind them is a fault. `out` is written by the last line only.
pub mod Encode
pub mod Crc
pub mod RoundTrip
pub mod Detect
mod Tests
use esp_glow.Prelude.{
  ℕ, zero, suc, ◌+◌, ◌-◌, ◌*◌, ◌/◌, ◌%◌, ◌^◌, Bool, not, ◌&&◌, ◌||◌, List, [], ◌∷◌, ◌++◌,
  if◌then◌else◌, ltb, leb, ◌==◌, length, take, drop, bit_and, bit_or, bit_xor,
}
use esp_glow.Prelude.Outcome.{Outcome, ok, fault, ◌>>=◌, ◌>>◌, require, read}

abbrev pub devcfg_blob_size : ℕ
devcfg_blob_size = 150

abbrev pub devcfg_crc_offset : ℕ
devcfg_crc_offset = 146

abbrev pub devcfg_version_current : ℕ
devcfg_version_current = 2

abbrev pub devcfg_version_min : ℕ
devcfg_version_min = 1

abbrev pub devcfg_flag_usb_midi_host : ℕ
devcfg_flag_usb_midi_host = 1

abbrev pub devcfg_flag_skip_wifi : ℕ
devcfg_flag_skip_wifi = 2

abbrev pub devcfg_flag_artnet_sync_broadcast : ℕ
devcfg_flag_artnet_sync_broadcast = 4

abbrev pub devcfg_ssid_max : ℕ
devcfg_ssid_max = 32

abbrev pub devcfg_pass_max : ℕ
devcfg_pass_max = 64

-- The two strings are the whole arrays, of 33 and 65 bytes.
pub record DeviceConfig : Type 0 where
  pub usb_midi_host : Bool
  pub skip_wifi : Bool
  pub wifi_ssid : List ℕ
  pub wifi_pass : List ℕ
  pub artnet_fallback_ip : ℕ
  pub artnet_port : ℕ
  pub artnet_sync_broadcast : Bool
  pub dmx_tx_gpio : ℕ
  pub dmx_rx_gpio : ℕ
  pub dmx_rts_gpio : ℕ
  pub led_gpio : ℕ

abbrev pub u16_le : ℕ → ℕ → ℕ
u16_le p0 p1 = bit_or p0 (p1 * 2 ^ 8)

unfoldable pub read_u16_le : List ℕ → ℕ → Outcome ℕ
read_u16_le blob at = do p0 ← read blob at; p1 ← read blob (at + 1); ok (u16_le p0 p1)

abbrev pub u32_le : ℕ → ℕ → ℕ → ℕ → ℕ
u32_le p0 p1 p2 p3 = bit_or (bit_or (bit_or p0 (p1 * 2 ^ 8)) (p2 * 2 ^ 16)) (p3 * 2 ^ 24)

unfoldable pub read_u32_le : List ℕ → ℕ → Outcome ℕ
read_u32_le blob at = do
  p0 ← read blob at
  p1 ← read blob (at + 1)
  p2 ← read blob (at + 2)
  p3 ← read blob (at + 3)
  ok (u32_le p0 p1 p2 p3)

-- `memcpy` of the field, and the terminator behind it
unfoldable pub read_padded_string : List ℕ → ℕ → ℕ → Outcome (List ℕ)
read_padded_string blob at field_len =
    if leb (at + field_len) (length blob)
    then ok (take field_len (drop at blob) ++ (0 ∷ []))
    else fault

-- the polynomial, or nothing: `0xEDB88320u & mask`, for the mask of the lowest bit
abbrev pub crc_bit : ℕ → ℕ
crc_bit crc =
    let mask = (2 ^ 32 - bit_and crc 1) % 2 ^ 32 in bit_xor (crc / 2) (bit_and 0xEDB88320 mask)

abbrev pub crc_bits : ℕ → ℕ → ℕ
crc_bits zero crc = crc
crc_bits (suc bits) crc = crc_bits bits (crc_bit crc)

-- one round of the outer loop
unfoldable pub crc_byte : ℕ → ℕ → ℕ
crc_byte crc byte = crc_bits 8 (bit_xor crc byte)

-- the rest of the loop, from `i` on, for `len` bytes
unfoldable pub crc_from : List ℕ → ℕ → ℕ → ℕ → Outcome ℕ
crc_from blob i zero crc = ok crc
crc_from blob i (suc len) crc = do byte ← read blob i; crc_from blob (i + 1) len (crc_byte crc byte)

-- `~crc` on 32 bits
abbrev pub complement : ℕ → ℕ
complement crc = 0xFFFFFFFF - crc

unfoldable pub devcfg_crc32 : List ℕ → ℕ → Outcome ℕ
unfolding crc_from
devcfg_crc32 blob len = do crc ← crc_from blob 0 len 0xFFFFFFFF; ok (complement crc)

-- everything behind the checks
unfoldable pub read_fields : List ℕ → ℕ → ℕ → Outcome DeviceConfig
unfolding read_u16_le read_u32_le read_padded_string
read_fields blob flags version = do
  ssid ← read_padded_string blob 8 devcfg_ssid_max
  pass ← read_padded_string blob 40 devcfg_pass_max
  ip ← read_u32_le blob 104
  port ← read_u16_le blob 108
  tx ← read blob 110
  rx ← read blob 111
  rts ← read blob 112
  led ← read blob 113
  ok (record {
    usb_midi_host = not (bit_and flags devcfg_flag_usb_midi_host == 0);
    skip_wifi = not (bit_and flags devcfg_flag_skip_wifi == 0);
    wifi_ssid = ssid;
    wifi_pass = pass;
    artnet_fallback_ip = ip;
    artnet_port = port;
    artnet_sync_broadcast =
        leb 2 version && not (bit_and flags devcfg_flag_artnet_sync_broadcast == 0);
    dmx_tx_gpio = tx;
    dmx_rx_gpio = rx;
    dmx_rts_gpio = rts;
    led_gpio = led;
  })

unfoldable pub parse_device_config : List ℕ → Outcome DeviceConfig
unfolding read_u32_le read_fields
parse_device_config blob = do
  require (not (ltb (length blob) devcfg_blob_size))
  m0 ← read blob 0
  m1 ← read blob 1
  m2 ← read blob 2
  m3 ← read blob 3
  require (m0 == 67 && m1 == 70 && m2 == 71 && m3 == 49)
  version ← read blob 4
  require (not (ltb version devcfg_version_min || ltb devcfg_version_current version))
  flags ← read blob 5
  stored_crc ← read_u32_le blob devcfg_crc_offset
  computed_crc ← devcfg_crc32 blob devcfg_crc_offset
  require (stored_crc == computed_crc)
  read_fields blob flags version
