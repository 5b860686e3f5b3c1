-- ===== src/DeviceConfig/Tests.antt =====
-- Runs of the device configuration.
use esp_glow.Prelude.{ℕ, ◌≡◌, refl, true, false, List, [], ◌∷◌, ◌++◌, replicate, set, arith}
use esp_glow.Prelude.Bytes.{bytes_test_lem}
use esp_glow.Prelude.Outcome.{ok, reject, ◌>>=◌, read}
use esp_glow.DeviceConfig.{DeviceConfig, devcfg_crc32, parse_device_config, crc_byte}
use esp_glow.DeviceConfig.Encode.{encode_device_config}
use esp_glow.DeviceConfig.Encode.Layout.{IsConfig}
use esp_glow.DeviceConfig.RoundTrip.{normal, parse_device_config-encode_device_config}
use esp_glow.DeviceConfig.Detect.{parse_device_config-set}

-- the check value of CRC-32: "123456789" gives 0xCBF43926
check_value : devcfg_crc32 (49 ∷ 50 ∷ 51 ∷ 52 ∷ 53 ∷ 54 ∷ 55 ∷ 56 ∷ 57 ∷ []) 9 ≡ ok 0xCBF43926
unfolding devcfg_crc32 read crc_byte
check_value = refl

abbrev studio : DeviceConfig
studio = record {
  usb_midi_host = true;
  skip_wifi = false;
  wifi_ssid = 115 ∷ 116 ∷ 97 ∷ 103 ∷ 101 ∷ replicate 28 0;
  wifi_pass = 98 ∷ 97 ∷ 115 ∷ 115 ∷ replicate 61 0;
  artnet_fallback_ip = 0xC0A80132;
  artnet_port = 6454;
  artnet_sync_broadcast = true;
  dmx_tx_gpio = 17;
  dmx_rx_gpio = 18;
  dmx_rts_gpio = 21;
  led_gpio = 48;
}

studio-IsConfig : IsConfig studio
studio-IsConfig = record {
  ssid_size = refl;
  ssid_ends = refl;
  pass_size = refl;
  pass_ends = refl;
  ip_fits = omega arith;
  port_fits = omega arith;
}

parse_device_config-encode_device_config_example :
    (encode_device_config studio >>= parse_device_config) ≡ ok (normal studio)
parse_device_config-encode_device_config_example =
    parse_device_config-encode_device_config studio studio-IsConfig

normal-studio : normal studio ≡ studio
normal-studio = refl

-- the blob of a configuration without anything set: its CRC is written out
abbrev blank : DeviceConfig
blank = record {
  usb_midi_host = false;
  skip_wifi = true;
  wifi_ssid = replicate 33 0;
  wifi_pass = replicate 65 0;
  artnet_fallback_ip = 0;
  artnet_port = 6454;
  artnet_sync_broadcast = false;
  dmx_tx_gpio = 1;
  dmx_rx_gpio = 2;
  dmx_rts_gpio = 3;
  led_gpio = 4;
}

abbrev blank_blob : List ℕ
blank_blob =
    (67 ∷ 70 ∷ 71 ∷ 49 ∷ 2 ∷ 2 ∷ 0 ∷ 0 ∷ replicate 100 0)
    ++ (54 ∷ 25 ∷ 1 ∷ 2 ∷ 3 ∷ 4 ∷ replicate 32 0)
    ++ (124 ∷ 164 ∷ 8 ∷ 106 ∷ [])

blank_parsed : parse_device_config blank_blob ≡ ok blank
unfolding parse_device_config devcfg_crc32 read crc_byte
blank_parsed = refl

-- a bit of the SSID flipped
parse_device_config-set_example : parse_device_config (set blank_blob 9 4) ≡ reject
parse_device_config-set_example =
    parse_device_config-set blank_blob blank 9 4 (bytes_test_lem blank_blob refl) blank_parsed
      (omega arith) (omega arith) (omega arith)
