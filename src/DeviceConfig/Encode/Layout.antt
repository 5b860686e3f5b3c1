-- ===== src/DeviceConfig/Encode/Layout.antt =====
-- The bytes that the encoder writes: the header, the two strings with NULs behind them, the numbers, the CRC.
use esp_glow.Prelude.{
  ℕ, suc, ◌+◌, ◌-◌, ◌*◌, ◌/◌, ◌%◌, ◌^◌, ◌≤◌, ◌<◌, ◌≡◌, refl, sym, ap, ap₂, ◌∙◌, arith, true, List,
  [], ◌∷◌, ◌++◌, if◌then◌else◌, ◌==◌, length, take, set, replicate, min, bit_and, length-append,
  length-replicate, Bool-cases, inl, inr,
}
use esp_glow.Prelude.Bits.{bit_and_255, bit_or-shifted}
use esp_glow.Prelude.Outcome.{ok}
use esp_glow.Prelude.Append.{
  append_assoc, take-append_at, drop-append_at, set-append_at, replicate_add, drop-replicate,
}
use esp_glow.Prelude.Strings.{has_nul}
use esp_glow.DeviceConfig.{DeviceConfig, u16_le, u32_le, devcfg_crc32, complement}
use esp_glow.DeviceConfig.Encode.{
  strlen, overwrite, write_padded_string, flag_bits, encode_device_config, write_u16_le,
  write_u32_le,
}
use esp_glow.DeviceConfig.Crc.{crc_of, devcfg_crc32_ok}

-- the string that a `char` array holds
abbrev pub text : List ℕ → List ℕ
text [] = []
text (c ∷ s) = let rest = text s in if c == 0 then [] else c ∷ rest

-- the same string in an array of `size` bytes, with NULs behind it
abbrev pub padded : ℕ → List ℕ → List ℕ
padded size s = text s ++ replicate (size - length (text s)) 0

-- A configuration as the program holds it: each string ends in its array, each number fits its type.
pub record IsConfig (cfg : DeviceConfig) : Type 0 where
  pub ssid_size : length cfg.wifi_ssid ≡ 33
  pub ssid_ends : has_nul cfg.wifi_ssid ≡ true
  pub pass_size : length cfg.wifi_pass ≡ 65
  pub pass_ends : has_nul cfg.wifi_pass ≡ true
  pub ip_fits : cfg.artnet_fallback_ip < 2 ^ 32
  pub port_fits : cfg.artnet_port < 2 ^ 16

pub strlen_lem :
    (s : List ℕ)
    → has_nul s ≡ true
    → (strlen s ≡ ok (length (text s)))
      × (length (text s) < length s)
      × (take (length (text s)) s ≡ text s)
unfolding strlen
strlen_lem [] h = absurd cc
strlen_lem (c ∷ s) h = elim (Bool-cases (c == 0)) [
  | inl nul ↦ rw (nul) (refl, omega arith, refl)
  | inr other ↦
      let rest : has_nul s ≡ true = ground (arith, h, other) in
      let (measured, inside, taken) = strlen_lem s rest in
      rw (other, measured) (refl, omega arith, ap (◌∷◌ c) taken)
]

pub u16_le_lem : (v : ℕ) → v < 2 ^ 16 → u16_le (bit_and v 0xff) (bit_and (v / 2 ^ 8) 0xff) ≡ v
u16_le_lem v h =
    rw (bit_and_255 v, bit_and_255 (v / 2 ^ 8))
      (bit_or-shifted 8 (v % 256) (v / 2 ^ 8 % 256) (omega arith) ∙ omega arith)

pub u32_le_lem :
    (v : ℕ)
    → v < 2 ^ 32
    → u32_le
        (bit_and v 0xff)
        (bit_and (v / 2 ^ 8) 0xff)
        (bit_and (v / 2 ^ 16) 0xff)
        (bit_and (v / 2 ^ 24) 0xff)
      ≡ v
u32_le_lem v h =
    let two = bit_or-shifted 8 (v % 256) (v / 2 ^ 8 % 256) (omega arith) in
    let three =
      bit_or-shifted 16 (v % 256 + v / 2 ^ 8 % 256 * 2 ^ 8) (v / 2 ^ 16 % 256) (omega arith) in
    let four =
      bit_or-shifted 24 (v % 256 + v / 2 ^ 8 % 256 * 2 ^ 8 + v / 2 ^ 16 % 256 * 2 ^ 16)
        (v / 2 ^ 24 % 256) (omega arith) in
    rw
      (
        bit_and_255 v,
        bit_and_255 (v / 2 ^ 8),
        bit_and_255 (v / 2 ^ 16),
        bit_and_255 (v / 2 ^ 24),
        two,
        three,
        four,
      )
      (omega arith)

overwrite-zeros :
    (pre xs : List ℕ) (at n size rest : ℕ)
    → length pre ≡ at
    → length xs ≤ size
    → n ≡ size + rest
    → overwrite (pre ++ replicate n 0) at xs
      ≡ (pre ++ (xs ++ replicate (size - length xs) 0)) ++ replicate rest 0
overwrite-zeros pre xs at n size rest here short whole =
    let m = length xs in
    let before = take-append_at pre (replicate n 0) at 0 (omega arith) in
    let behind =
      drop-append_at pre (replicate n 0) (at + m) m (omega arith)
      ∙ drop-replicate n m (size - m + rest) 0 (omega arith)
      ∙ replicate_add (size - m + rest) (size - m) rest 0 refl in
    ap₂ (λ s t. s ++ (xs ++ t)) before behind
    ∙ append_assoc pre [] _
    ∙ ap (λ t. pre ++ t) (sym (append_assoc xs _ _))
    ∙ sym (append_assoc pre _ _)

abbrev pub flags_of : DeviceConfig → ℕ
flags_of cfg = flag_bits cfg.usb_midi_host cfg.skip_wifi cfg.artnet_sync_broadcast

abbrev pub header : ℕ → List ℕ
header flags = 67 ∷ 70 ∷ 71 ∷ 49 ∷ 2 ∷ flags ∷ 0 ∷ 0 ∷ []

length-padded : (size : ℕ) (s : List ℕ) → length (text s) ≤ size → length (padded size s) ≡ size
length-padded size s h = omega (
  arith,
  length-append (text s) (replicate (size - length (text s)) 0),
  length-replicate {A = ℕ} (size - length (text s)) 0,
)

-- the numbers, the zeros behind them, and room for the checksum
abbrev pub numbers : DeviceConfig → List ℕ → List ℕ
numbers cfg checksum =
    let ip = cfg.artnet_fallback_ip in
    bit_and ip 0xff
      ∷ bit_and (ip / 2 ^ 8) 0xff
      ∷ bit_and (ip / 2 ^ 16) 0xff
      ∷ bit_and (ip / 2 ^ 24) 0xff
      ∷ bit_and cfg.artnet_port 0xff
      ∷ bit_and (cfg.artnet_port / 2 ^ 8) 0xff
      ∷ cfg.dmx_tx_gpio
      ∷ cfg.dmx_rx_gpio
      ∷ cfg.dmx_rts_gpio
      ∷ cfg.led_gpio
      ∷ replicate 32 0
    ++ checksum

write_padded_string-zeros :
    (pre s : List ℕ) (at n size rest : ℕ)
    → length pre ≡ at
    → length s ≡ suc size
    → has_nul s ≡ true
    → n ≡ size + rest
    → write_padded_string (pre ++ replicate n 0) at size s
      ≡ ok ((pre ++ padded size s) ++ replicate rest 0)
unfolding write_padded_string
write_padded_string-zeros pre s at n size rest here sized ends whole =
    let (measured, inside, taken) = strlen_lem s ends in
    let cut : min (length (text s)) size ≡ length (text s) = omega arith in
    rw (measured, cut, taken)
      (ap ok (overwrite-zeros pre (text s) at n size rest here (omega arith) whole))

-- The numbers, written behind `pre`.
module _ (pre : List ℕ) (here : length pre ≡ 104) where
  set_number :
      {b : List ℕ} (xs : List ℕ) (j k v : ℕ)
      → j ≡ 104 + k
      → b ≡ pre ++ xs
      → set b j v ≡ pre ++ set xs k v
  set_number {b} xs j k v e shape =
      ap (λ b. set b j v) shape ∙ set-append_at pre xs j k v (omega arith)

  abbrev with_numbers : DeviceConfig → List ℕ
  with_numbers cfg =
      let b0 = pre ++ replicate 46 0 in
      let b1 = write_u16_le (write_u32_le b0 104 cfg.artnet_fallback_ip) 108 cfg.artnet_port in
      let b2 = set (set b1 110 cfg.dmx_tx_gpio) 111 cfg.dmx_rx_gpio in
      set (set b2 112 cfg.dmx_rts_gpio) 113 cfg.led_gpio

  with_numbers_lem :
      (cfg : DeviceConfig) → with_numbers cfg ≡ pre ++ numbers cfg (0 ∷ 0 ∷ 0 ∷ 0 ∷ [])
  with_numbers_lem cfg =
      let ip =
        set_number _ 107 3 _ refl (
          set_number _ 106 2 _ refl (set_number _ 105 1 _ refl (set_number _ 104 0 _ refl refl))) in
      let port = set_number _ 109 5 _ refl (set_number _ 108 4 _ refl ip) in
      set_number _ 113 9 _ refl
        (set_number _ 112 8 _ refl (set_number _ 111 7 _ refl (set_number _ 110 6 _ refl port)))

  with_checksum_lem :
      (cfg : DeviceConfig) (crc : ℕ)
      → write_u32_le (pre ++ numbers cfg (0 ∷ 0 ∷ 0 ∷ 0 ∷ [])) 146 crc
        ≡ pre
          ++ numbers cfg (
              bit_and crc 0xff
              ∷ bit_and (crc / 2 ^ 8) 0xff
              ∷ bit_and (crc / 2 ^ 16) 0xff
              ∷ bit_and (crc / 2 ^ 24) 0xff
              ∷ [])
  with_checksum_lem cfg crc =
      set_number _ 149 45 _ refl
        (set_number _ 148 44 _ refl (set_number _ 147 43 _ refl (set_number _ 146 42 _ refl refl)))

  pub covered :
      (cfg : DeviceConfig) (rest : List ℕ)
      → devcfg_crc32 (pre ++ numbers cfg rest) 146
        ≡ ok (complement (crc_of 0xFFFFFFFF (pre ++ numbers cfg [])))
  covered cfg rest =
      devcfg_crc32_ok (pre ++ numbers cfg rest) 146
        (omega (arith, length-append pre (numbers cfg rest)))
      ∙ ap (λ bytes. ok (complement (crc_of 0xFFFFFFFF bytes)))
          (take-append_at pre (numbers cfg rest) 146 42 (omega arith))

abbrev pub u32_bytes : ℕ → List ℕ
u32_bytes v =
    bit_and v 0xff
    ∷ bit_and (v / 2 ^ 8) 0xff
    ∷ bit_and (v / 2 ^ 16) 0xff
    ∷ bit_and (v / 2 ^ 24) 0xff
    ∷ []

module _ (cfg : DeviceConfig) (is : IsConfig cfg) where
  pub ssid_padded : length (padded 32 cfg.wifi_ssid) ≡ 32
  ssid_padded =
      let (measured, inside, taken) = strlen_lem cfg.wifi_ssid is.ssid_ends in
      length-padded 32 cfg.wifi_ssid (omega (arith, is.ssid_size))

  pub pass_padded : length (padded 64 cfg.wifi_pass) ≡ 64
  pass_padded =
      let (measured, inside, taken) = strlen_lem cfg.wifi_pass is.pass_ends in
      length-padded 64 cfg.wifi_pass (omega (arith, is.pass_size))

  unfoldable pub fields : List ℕ
  fields = (header (flags_of cfg) ++ padded 32 cfg.wifi_ssid) ++ padded 64 cfg.wifi_pass

  pub length-fields : length fields ≡ 104
  unfolding fields
  length-fields = omega (
    arith,
    ssid_padded,
    pass_padded,
    length-append (padded 32 cfg.wifi_ssid) (padded 64 cfg.wifi_pass),
  )

  unfoldable pub checksum : ℕ
  checksum = complement (crc_of 0xFFFFFFFF (fields ++ numbers cfg []))

  pub encode_lem : encode_device_config cfg ≡ ok (fields ++ numbers cfg (u32_bytes checksum))
  unfolding encode_device_config fields checksum
  encode_lem =
      let first =
        write_padded_string-zeros (header (flags_of cfg)) cfg.wifi_ssid 8 142 32 110 refl
          is.ssid_size is.ssid_ends refl in
      let second =
        write_padded_string-zeros (header (flags_of cfg) ++ padded 32 cfg.wifi_ssid) cfg.wifi_pass
          40 110 64 46 (omega (arith, ssid_padded)) is.pass_size is.pass_ends refl in
      let written = with_numbers_lem fields length-fields cfg in
      rw (first, second, written, covered fields length-fields cfg (0 ∷ 0 ∷ 0 ∷ 0 ∷ []))
        (ap (λ b. ok (write_u32_le b 146 checksum)) written
          ∙ ap ok (with_checksum_lem fields length-fields cfg checksum))
