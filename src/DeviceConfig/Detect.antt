-- ===== src/DeviceConfig/Detect.antt =====
-- Any blob: the parser stays inside it, and a blob that it accepts with one byte changed is refused.
use esp_glow.Prelude.{
  ℕ, zero, suc, ◌+◌, ◌*◌, ◌^◌, ◌≤◌, ◌<◌, ◌≡◌, ◌≢◌, refl, sym, ap, ◌∙◌, arith, true, false, not,
  ◌&&◌, ◌||◌, List, [], ◌∷◌, ◌++◌, ltb, leb, ◌==◌, length, take, drop, get_or, set, ==_iff,
  length-take, get_or-set_ne, get_or-set_self, ltb→lt, Bool-cases, ◌⊎◌, inl, inr,
}
use esp_glow.Prelude.Bits.{bit_or-shifted}
use esp_glow.Prelude.Bytes.{Bytes, get_or-Bytes, take-Bytes, set-Bytes}
use esp_glow.Prelude.Outcome.{
  Outcome, ok, reject, ◌>>=◌, Returns, ok_returns, Returns-require, Returns-read, read_ok,
  Returns-ok, Returns-reject,
}
use esp_glow.DeviceConfig.{
  DeviceConfig, u16_le, u32_le, read_u16_le, read_u32_le, read_padded_string, complement,
  read_fields, parse_device_config,
}
use esp_glow.Mdef.Parse.Safe.{not-ltb}
use esp_glow.DeviceConfig.Crc.{crc_of, devcfg_crc32_ok}
use esp_glow.DeviceConfig.Crc.Injective.{crc_of_bound, crc_of-set}

module _ (blob : List ℕ) where
  abbrev byte : ℕ → ℕ
  byte i = get_or blob i 0

  -- what the parser checks
  pub record Checked : Type 0 where
    pub size : 150 ≤ length blob
    pub crc :
        u32_le (byte 146) (byte 147) (byte 148) (byte 149)
        ≡ complement (crc_of 0xFFFFFFFF (take 146 blob))

  module _ {ℓ ν} {B : Type ℓ} {Q : B → Type ν} where
    Returns-u32 :
        (at : ℕ) (f : ℕ → Outcome B)
        → at + 4 ≤ length blob
        → Returns Q (f (u32_le (byte at) (byte (at + 1)) (byte (at + 2)) (byte (at + 3))))
        → Returns Q (read_u32_le blob at >>= f)
    unfolding read_u32_le
    Returns-u32 at f h k =
        rw
          (
            read_ok blob at (omega arith),
            read_ok blob (at + 1) (omega arith),
            read_ok blob (at + 2) (omega arith),
            read_ok blob (at + 3) (omega arith),
          )
          k

    Returns-u16 :
        (at : ℕ) (f : ℕ → Outcome B)
        → at + 2 ≤ length blob
        → Returns Q (f (u16_le (byte at) (byte (at + 1))))
        → Returns Q (read_u16_le blob at >>= f)
    unfolding read_u16_le
    Returns-u16 at f h k = rw (read_ok blob at (omega arith), read_ok blob (at + 1) (omega arith)) k

    Returns-padded :
        (at size : ℕ) (f : List ℕ → Outcome B)
        → at + size ≤ length blob
        → Returns Q (f (take size (drop at blob) ++ (0 ∷ [])))
        → Returns Q (read_padded_string blob at size >>= f)
    unfolding read_padded_string
    Returns-padded at size f h k =
        let inside : leb (at + size) (length blob) ≡ true = ground (arith, h) in rw inside k

  abbrev stored : ℕ
  stored = u32_le (byte 146) (byte 147) (byte 148) (byte 149)

  -- the part of the parser behind the checksum
  fields-Returns :
      (flags version : ℕ)
      → 150 ≤ length blob
      → Checked
      → Returns (λ (cfg : DeviceConfig). Checked) (read_fields blob flags version)
  unfolding read_fields
  fields-Returns flags version whole checked = Returns-padded 8 32 _ (omega arith) (
      Returns-padded 40 64 _ (omega arith) (
        Returns-u32 104 _ (omega arith) (
          Returns-u16 108 _ (omega arith) (
            Returns-read blob 110 _ (omega arith) (
              Returns-read blob 111 _ (omega arith) (
                Returns-read blob 112 _ (omega arith)
                  (Returns-read blob 113 _ (omega arith) (ok_returns checked))))))))

  -- For every blob: parsing reads and copies inside it only, and gives a configuration only if the blob has
  -- 150 bytes and holds the CRC of the first 146 of them.
  pub parse_device_config-Returns :
      Returns (λ (cfg : DeviceConfig). Checked) (parse_device_config blob)
  unfolding parse_device_config
  parse_device_config-Returns = Returns-require (not (ltb (length blob) 150)) (λ size.
      let whole = not-ltb _ _ size in
      Returns-read blob 0 _ (omega arith) (
        Returns-read blob 1 _ (omega arith) (
          Returns-read blob 2 _ (omega arith) (
            Returns-read blob 3 _ (omega arith) (
              Returns-require (byte 0 == 67 && byte 1 == 70 && byte 2 == 71 && byte 3 == 49)
                (λ magic. Returns-read blob 4 _ (omega arith) (
                  Returns-require (not (ltb (byte 4) 1 || ltb 2 (byte 4))) (λ version.
                    Returns-read blob 5 _ (omega arith) (
                      Returns-u32 146 _ (omega arith) (
                        rw (devcfg_crc32_ok blob 146 (omega arith)) (
                          Returns-require (stored == complement (crc_of 0xFFFFFFFF (take 146 blob)))
                            (λ same.
                              fields-Returns (byte 5) (byte 4) whole
                                (record { size = whole; crc = (==_iff _ _).0 same })))))))))))))

take-set : (n : ℕ) (xs : List ℕ) (i v : ℕ) → i < n → take n (set xs i v) ≡ set (take n xs) i v
take-set zero xs i v h = absurd (omega arith)
take-set (suc n) [] i v h = refl
take-set (suc n) (x ∷ xs) zero v h = refl
take-set (suc n) (x ∷ xs) (suc i) v h = ap (◌∷◌ x) (take-set n xs i v (omega arith))

take-set_behind : (n : ℕ) (xs : List ℕ) (i v : ℕ) → n ≤ i → take n (set xs i v) ≡ take n xs
take-set_behind zero xs i v h = refl
take-set_behind (suc n) [] i v h = refl
take-set_behind (suc n) (x ∷ xs) zero v h = absurd (omega arith)
take-set_behind (suc n) (x ∷ xs) (suc i) v h = ap (◌∷◌ x) (take-set_behind n xs i v (omega arith))

get_or-take : (n : ℕ) (xs : List ℕ) (i : ℕ) → i < n → get_or (take n xs) i 0 ≡ get_or xs i 0
get_or-take zero xs i h = absurd (omega arith)
get_or-take (suc n) [] i h = refl
get_or-take (suc n) (x ∷ xs) zero h = refl
get_or-take (suc n) (x ∷ xs) (suc i) h = get_or-take n xs i (omega arith)

u32_le-sum :
    (a b c d : ℕ)
    → a < 2 ^ 8
    → b < 2 ^ 8
    → c < 2 ^ 8
    → u32_le a b c d ≡ a + b * 2 ^ 8 + c * 2 ^ 16 + d * 2 ^ 24
u32_le-sum a b c d h k f =
    let two = bit_or-shifted 8 a b h in
    let three = bit_or-shifted 16 (a + b * 2 ^ 8) c (omega arith) in
    let four = bit_or-shifted 24 (a + b * 2 ^ 8 + c * 2 ^ 16) d (omega arith) in
    rw (two, three, four) refl

last_four : (i : ℕ) → 146 ≤ i → i < 150 → (i ≡ 146) ⊎ ((i ≡ 147) ⊎ ((i ≡ 148) ⊎ (i ≡ 149)))
last_four i h k = ground arith

behind_front : (i : ℕ) → ltb i 146 ≡ false → 146 ≤ i
behind_front i h = ground arith

-- A little-endian number determines its bytes.
stored-sum :
    (blob : List ℕ)
    → Bytes blob
    → stored blob
      ≡ byte blob 146 + byte blob 147 * 2 ^ 8 + byte blob 148 * 2 ^ 16 + byte blob 149 * 2 ^ 24
stored-sum blob bytes =
    u32_le-sum (byte blob 146) (byte blob 147) (byte blob 148) (byte blob 149)
      (get_or-Bytes blob 146 bytes) (get_or-Bytes blob 147 bytes) (get_or-Bytes blob 148 bytes)

module _ (blob : List ℕ) (bytes : Bytes blob) (i v : ℕ) (small : v < 2 ^ 8)
    (other : v ≢ get_or blob i 0) (good : Checked blob) (bad : Checked (set blob i v)) where
  abbrev cut : List ℕ
  cut = take 146 blob

  unchanged : (k : ℕ) → i ≢ k → byte (set blob i v) k ≡ byte blob k
  unchanged k ne = get_or-set_ne blob i k v 0 ne

  in_front : i < 146 → ⊥
  in_front inside =
      let cut_bytes = take-Bytes 146 blob bytes in
      let stored_same : stored (set blob i v) ≡ stored blob =
        rw
          (
            unchanged 146 (omega arith),
            unchanged 147 (omega arith),
            unchanged 148 (omega arith),
            unchanged 149 (omega arith),
          )
          refl in
      let crc_same : crc_of 0xFFFFFFFF (set cut i v) ≡ crc_of 0xFFFFFFFF cut = omega (
        arith,
        ap (λ xs. crc_of 0xFFFFFFFF xs) (take-set 146 blob i v inside),
        bad.crc,
        good.crc,
        stored_same,
        crc_of_bound 0xFFFFFFFF cut (omega arith) cut_bytes,
        crc_of_bound 0xFFFFFFFF (set cut i v) (omega arith) (set-Bytes cut i v cut_bytes small),
      ) in
      other (
        crc_of-set 0xFFFFFFFF cut i v (omega arith) cut_bytes small
          (omega (arith, good.size, length-take 146 blob)) crc_same
        ∙ get_or-take 146 blob i inside)

  in_checksum : 146 ≤ i → i < 150 → ⊥
  in_checksum behind inside =
      let changed = set blob i v in
      let changed_bytes = set-Bytes blob i v bytes small in
      let stored_same : stored changed ≡ stored blob =
        bad.crc
        ∙ ap (λ xs. complement (crc_of 0xFFFFFFFF xs)) (take-set_behind 146 blob i v behind)
        ∙ sym good.crc in
      let now = stored-sum changed changed_bytes in
      let before = stored-sum blob bytes in
      let n6 = get_or-Bytes changed 146 changed_bytes in
      let n7 = get_or-Bytes changed 147 changed_bytes in
      let n8 = get_or-Bytes changed 148 changed_bytes in
      let n9 = get_or-Bytes changed 149 changed_bytes in
      let b6 = get_or-Bytes blob 146 bytes in
      let b7 = get_or-Bytes blob 147 bytes in
      let b8 = get_or-Bytes blob 148 bytes in
      let b9 = get_or-Bytes blob 149 bytes in
      let written : byte changed i ≡ v = get_or-set_self blob i v 0 (omega (arith, good.size)) in
      let kept : (k : ℕ) → i ≡ k → byte changed k ≡ byte blob k → ⊥ =
        λ k e same. other (sym written ∙ ap (byte changed) e ∙ same ∙ ap (byte blob) (sym e)) in
      elim (last_four i behind inside) [
        | inl e ↦ kept 146 e (omega arith)
        | inr (inl e) ↦ kept 147 e (omega arith)
        | inr (inr (inl e)) ↦ kept 148 e (omega arith)
        | inr (inr (inr e)) ↦ kept 149 e (omega arith)
      ]

-- For a blob of bytes that the parser accepts, and one of its 150 bytes replaced by another byte: the parser
-- refuses the changed blob.
pub parse_device_config-set :
    (blob : List ℕ) (cfg : DeviceConfig) (i v : ℕ)
    → Bytes blob
    → parse_device_config blob ≡ ok cfg
    → i < 150
    → v < 2 ^ 8
    → v ≢ get_or blob i 0
    → parse_device_config (set blob i v) ≡ reject
parse_device_config-set blob cfg i v bytes accepted inside small other =
    let good = Returns-ok (parse_device_config-Returns blob) accepted in
    Returns-reject (parse_device_config-Returns (set blob i v)) (λ bad.
      elim (Bool-cases (ltb i 146)) [
        | inl front ↦ in_front blob bytes i v small other good bad (ltb→lt _ _ front)
        | inr behind ↦
            in_checksum blob bytes i v small other good bad (behind_front i behind) inside
      ])
