-- ===== src/DeviceConfig/RoundTrip.antt =====
-- What the encoder writes, the parser reads back.
use esp_glow.Prelude.{
  ℕ, ◌+◌, ◌-◌, ◌^◌, ◌≤◌, ◌<◌, ◌≡◌, refl, sym, ap, ◌∙◌, arith, Bool, true, false, not, List, [], ◌∷◌,
  ◌++◌, ltb, ◌==◌, length, bit_and, length-append, ==_iff, ge→ltb, replicate, leb,
}
use esp_glow.Prelude.Append.{
  append_assoc, take-append_at, drop-append_at, get_elem?-append_at, replicate_add,
}
use esp_glow.Prelude.Outcome.{ok, ◌>>=◌, read, or_fault}
use esp_glow.DeviceConfig.{
  DeviceConfig, read_fields, read_u16_le, read_u32_le, read_padded_string, devcfg_crc32,
  parse_device_config,
}
use esp_glow.DeviceConfig.Encode.{flag_bits, encode_device_config}
use esp_glow.DeviceConfig.Encode.Layout.{
  text, strlen_lem, padded, IsConfig, header, numbers, flags_of, u16_le_lem, u32_le_lem,
  ssid_padded, pass_padded, fields, length-fields, covered, checksum, encode_lem, u32_bytes,
}

-- what the parser has to find in a blob to return `cfg`
record Holds (blob : List ℕ) (cfg : DeviceConfig) : Type 0 where
  size : length blob ≡ 150
  m0 : read blob 0 ≡ ok 67
  m1 : read blob 1 ≡ ok 70
  m2 : read blob 2 ≡ ok 71
  m3 : read blob 3 ≡ ok 49
  version : read blob 4 ≡ ok 2
  flags : read blob 5 ≡ ok (flags_of cfg)
  crc : ℕ
  stored : read_u32_le blob 146 ≡ ok crc
  computed : devcfg_crc32 blob 146 ≡ ok crc
  ssid : read_padded_string blob 8 32 ≡ ok cfg.wifi_ssid
  pass : read_padded_string blob 40 64 ≡ ok cfg.wifi_pass
  ip : read_u32_le blob 104 ≡ ok cfg.artnet_fallback_ip
  port : read_u16_le blob 108 ≡ ok cfg.artnet_port
  tx : read blob 110 ≡ ok cfg.dmx_tx_gpio
  rx : read blob 111 ≡ ok cfg.dmx_rx_gpio
  rts : read blob 112 ≡ ok cfg.dmx_rts_gpio
  led : read blob 113 ≡ ok cfg.led_gpio

usb_flag : (u s a : Bool) → not (bit_and (flag_bits u s a) 1 == 0) ≡ u
usb_flag false false false = refl
usb_flag false false true = refl
usb_flag false true false = refl
usb_flag false true true = refl
usb_flag true false false = refl
usb_flag true false true = refl
usb_flag true true false = refl
usb_flag true true true = refl

wifi_flag : (u s a : Bool) → not (bit_and (flag_bits u s a) 2 == 0) ≡ s
wifi_flag false false false = refl
wifi_flag false false true = refl
wifi_flag false true false = refl
wifi_flag false true true = refl
wifi_flag true false false = refl
wifi_flag true false true = refl
wifi_flag true true false = refl
wifi_flag true true true = refl

sync_flag : (u s a : Bool) → not (bit_and (flag_bits u s a) 4 == 0) ≡ a
sync_flag false false false = refl
sync_flag false false true = refl
sync_flag false true false = refl
sync_flag false true true = refl
sync_flag true false false = refl
sync_flag true false true = refl
sync_flag true true false = refl
sync_flag true true true = refl

Holds-parsed :
    (blob : List ℕ) (cfg : DeviceConfig) → Holds blob cfg → parse_device_config blob ≡ ok cfg
unfolding parse_device_config read_fields
Holds-parsed blob cfg h =
    let whole : ltb (length blob) 150 ≡ false = ge→ltb (length blob) 150 (omega (arith, h.size)) in
    let same : (h.crc == h.crc) ≡ true = (==_iff h.crc h.crc).1 refl in
    let u = cfg.usb_midi_host in
    let s = cfg.skip_wifi in
    let a = cfg.artnet_sync_broadcast in
    rw
      (
        whole, h.m0, h.m1, h.m2, h.m3, h.version, h.flags, h.stored, h.computed, same, h.ssid,
        h.pass, h.ip, h.port, h.tx, h.rx, h.rts, h.led,
      )
      (ap
          (λ u. ok (record cfg {
            usb_midi_host = u;
            skip_wifi = not (bit_and (flags_of cfg) 2 == 0);
            artnet_sync_broadcast = not (bit_and (flags_of cfg) 4 == 0);
          }))
          (usb_flag u s a)
        ∙ ap
            (λ s. ok (record cfg {
              skip_wifi = s;
              artnet_sync_broadcast = not (bit_and (flags_of cfg) 4 == 0);
            }))
            (wifi_flag u s a)
        ∙ ap (λ a. ok (record cfg { artnet_sync_broadcast = a })) (sync_flag u s a))

-- the configuration that a round trip gives: each string with nothing behind its NUL
abbrev pub normal : DeviceConfig → DeviceConfig
normal cfg = record cfg { wifi_ssid = padded 33 cfg.wifi_ssid; wifi_pass = padded 65 cfg.wifi_pass }

padded-suc :
    (size : ℕ) (s : List ℕ)
    → length (text s) ≤ size
    → padded size s ++ (0 ∷ []) ≡ padded (size + 1) s
padded-suc size s h =
    append_assoc (text s) (replicate (size - length (text s)) 0) (0 ∷ [])
    ∙ ap (λ zeros. text s ++ zeros)
        (sym
          (replicate_add (size + 1 - length (text s)) (size - length (text s)) 1 0 (omega arith)))

read_padded_string-field :
    (pre field rest : List ℕ) (at size : ℕ)
    → length pre ≡ at
    → length field ≡ size
    → read_padded_string (pre ++ (field ++ rest)) at size ≡ ok (field ++ (0 ∷ []))
unfolding read_padded_string
read_padded_string-field pre field rest at size here sized =
    let inside : leb (at + size) (length (pre ++ (field ++ rest))) ≡ true =
      ground (arith, length-append pre (field ++ rest), length-append field rest) in
    let found = drop-append_at pre (field ++ rest) at 0 (omega arith) in
    let whole = take-append_at field rest size 0 (omega arith) in
    rw (inside, found)
      (ap (λ xs. ok (xs ++ (0 ∷ []))) whole ∙ ap ok (append_assoc field [] (0 ∷ [])))

module _ (pre : List ℕ) (here : length pre ≡ 104) (cfg : DeviceConfig) (rest : List ℕ) where
  number : (j k : ℕ) → j ≡ 104 + k → read (pre ++ numbers cfg rest) j ≡ read (numbers cfg rest) k
  unfolding read
  number j k e = ap or_fault (get_elem?-append_at pre (numbers cfg rest) j k (omega arith))

module _ (cfg : DeviceConfig) (is : IsConfig cfg) where
  abbrev pre : List ℕ
  pre = fields cfg is

  abbrev crc : ℕ
  crc = checksum cfg is

  abbrev encoded : List ℕ
  encoded = pre ++ numbers cfg (u32_bytes crc)

  at_104 : (j k : ℕ) → j ≡ 104 + k → read encoded j ≡ read (numbers cfg (u32_bytes crc)) k
  at_104 j k e = number pre (length-fields cfg is) cfg (u32_bytes crc) j k e

  crc_fits : crc < 2 ^ 32
  unfolding checksum
  crc_fits = omega arith

  computed_lem : devcfg_crc32 encoded 146 ≡ ok crc
  unfolding checksum
  computed_lem = covered pre (length-fields cfg is) cfg (u32_bytes crc)

  stored_lem : read_u32_le encoded 146 ≡ ok crc
  unfolding read_u32_le read
  stored_lem =
      rw (at_104 146 42 refl, at_104 147 43 refl, at_104 148 44 refl, at_104 149 45 refl)
        (ap ok (u32_le_lem crc (crc_fits)))

  ip_lem : read_u32_le encoded 104 ≡ ok cfg.artnet_fallback_ip
  unfolding read_u32_le read
  ip_lem =
      rw (at_104 104 0 refl, at_104 105 1 refl, at_104 106 2 refl, at_104 107 3 refl)
        (ap ok (u32_le_lem cfg.artnet_fallback_ip is.ip_fits))

  port_lem : read_u16_le encoded 108 ≡ ok cfg.artnet_port
  unfolding read_u16_le read
  port_lem =
      rw (at_104 108 4 refl, at_104 109 5 refl) (ap ok (u16_le_lem cfg.artnet_port is.port_fits))

  ssid_lem : read_padded_string encoded 8 32 ≡ ok (padded 33 cfg.wifi_ssid)
  unfolding fields
  ssid_lem =
      let ssid = padded 32 cfg.wifi_ssid in
      let pass = padded 64 cfg.wifi_pass in
      let (measured, inside, taken) = strlen_lem cfg.wifi_ssid is.ssid_ends in
      ap (λ xs. read_padded_string (header (flags_of cfg) ++ xs) 8 32)
        (append_assoc ssid pass (numbers cfg (u32_bytes crc)))
      ∙ read_padded_string-field (header (flags_of cfg)) ssid _ 8 32 refl (ssid_padded cfg is)
      ∙ ap ok (padded-suc 32 cfg.wifi_ssid (omega (arith, is.ssid_size)))

  pass_lem : read_padded_string encoded 40 64 ≡ ok (padded 65 cfg.wifi_pass)
  unfolding fields
  pass_lem =
      let before = header (flags_of cfg) ++ padded 32 cfg.wifi_ssid in
      let pass = padded 64 cfg.wifi_pass in
      let (measured, inside, taken) = strlen_lem cfg.wifi_pass is.pass_ends in
      ap (λ xs. read_padded_string xs 40 64)
        (append_assoc before pass (numbers cfg (u32_bytes crc)))
      ∙ read_padded_string-field before pass _ 40 64 (omega (arith, ssid_padded cfg is))
          (pass_padded cfg is)
      ∙ ap ok (padded-suc 64 cfg.wifi_pass (omega (arith, is.pass_size)))

  Holds-encoded : Holds encoded (normal cfg)
  unfolding fields read
  Holds-encoded = record {
    size = omega (arith, length-fields cfg is, length-append pre (numbers cfg (u32_bytes crc)));
    m0 = refl;
    m1 = refl;
    m2 = refl;
    m3 = refl;
    version = refl;
    flags = refl;
    crc = crc;
    stored = stored_lem;
    computed = computed_lem;
    ssid = ssid_lem;
    pass = pass_lem;
    ip = ip_lem;
    port = port_lem;
    tx = at_104 110 6 refl;
    rx = at_104 111 7 refl;
    rts = at_104 112 8 refl;
    led = at_104 113 9 refl;
  }

-- For a configuration whose two strings end inside their arrays, and whose address and port fit 32 and 16
-- bits: encoding gives a blob, and parsing that blob gives back the same configuration, each string with
-- NULs from its end to the end of its array.
pub parse_device_config-encode_device_config :
    (cfg : DeviceConfig)
    → IsConfig cfg
    → (encode_device_config cfg >>= parse_device_config) ≡ ok (normal cfg)
parse_device_config-encode_device_config cfg is =
    rw (encode_lem cfg is) (Holds-parsed (encoded cfg is) (normal cfg) (Holds-encoded cfg is))
