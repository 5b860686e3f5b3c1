-- ===== src/DeviceConfig/Crc.antt =====
-- The CRC as a fold over the bytes that it covers.
pub mod Injective
use esp_glow.Prelude.{
  ℕ, zero, suc, ◌+◌, ◌-◌, ◌≤◌, ◌<◌, ◌≡◌, refl, ap, arith, List, [], ◌∷◌, length, get_or, take, drop,
  drop-eq-cons, ◌∙◌, sym,
}
use esp_glow.Prelude.Outcome.{Outcome, ok, ◌>>=◌, read_ok}
use esp_glow.DeviceConfig.{crc_byte, crc_from, complement, devcfg_crc32}

abbrev pub crc_of : ℕ → List ℕ → ℕ
crc_of crc [] = crc
crc_of crc (byte ∷ bytes) = crc_of (crc_byte crc byte) bytes

pub crc_from-crc_of :
    (blob : List ℕ) (i len crc : ℕ)
    → i + len ≤ length blob
    → crc_from blob i len crc ≡ ok (crc_of crc (take len (drop i blob)))
unfolding crc_from
crc_from-crc_of blob i zero crc h = refl
crc_from-crc_of blob i (suc len) crc h =
    rw (read_ok blob i (omega arith), drop-eq-cons i blob 0 (omega arith))
      (crc_from-crc_of blob (i + 1) len (crc_byte crc (get_or blob i 0)) (omega arith))

-- The CRC of bytes that are there is a number of 32 bits, and depends on those bytes only.
pub devcfg_crc32_ok :
    (blob : List ℕ) (len : ℕ)
    → len ≤ length blob
    → devcfg_crc32 blob len ≡ ok (complement (crc_of 0xFFFFFFFF (take len blob)))
unfolding devcfg_crc32
devcfg_crc32_ok blob len h = rw (crc_from-crc_of blob 0 len 0xFFFFFFFF (omega arith)) refl
