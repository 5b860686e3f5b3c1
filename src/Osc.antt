-- ===== src/Osc.antt =====
-- osc_parser.cpp: an Open Sound Control packet, as events of the mapped addresses. The list holds the bytes
-- from `pkt` on, and `len` is the length that the caller gives: reading behind the list is a fault, and so is a
-- loop that runs out of rounds. `size_t` has `bits` bits (32 on the board): the sums that the code makes of a
-- length read from the packet wrap around; its other sums are of offsets inside the packet.
pub mod Safe
mod Tests
use esp_glow.Prelude.{
  ℕ, zero, suc, ◌+◌, ◌-◌, ◌*◌, ◌/◌, ◌%◌, ◌^◌, Bool, true, false, not, ◌&&◌, ◌||◌, List, [], ◌∷◌,
  ◌++◌, if◌then◌else◌, ltb, leb, ◌==◌, length, drop, bit_or,
}
use esp_glow.Prelude.Int.{ℤ, pos, negsuc}
use esp_glow.Prelude.Float.{FloatOps}
use esp_glow.Prelude.Outcome.{Outcome, ok, reject, fault, ◌>>=◌, ◌>>◌, require, read}
use esp_glow.Prelude.Strings.{str_equal}
use esp_glow.Midi.Event.{ControlType, button, ControlEvent, same_type}

pub record OscBinding : Type 0 where
  pub address : List ℕ
  pub type : ControlType
  pub id : ℕ

-- `memcpy` of 32 bits into a float, and the conversion of an `int32_t`
pub record OscFloat (F : Type 0) : Type 0 where
  pub of_bits : ℕ → F
  pub of_int : ℤ → F

-- `while (i < len && pkt[i] != 0) ++i;`, for the `n` bytes from `i` to `len`
unfoldable pub scan_nul : List ℕ → ℕ → ℕ → Outcome ℕ
scan_nul bytes i zero = ok i
scan_nul bytes i (suc n) = do
  b ← read bytes i
  rest ← if b == 0 then ok i else scan_nul bytes (i + 1) n
  ok rest

-- the padding loop, for the `n` bytes from `p` on
unfoldable pub check_padding : List ℕ → ℕ → ℕ → Outcome (Unit {0})
check_padding bytes p zero = ok tt
check_padding bytes p (suc n) = do b ← read bytes p; require (b == 0); check_padding bytes (p + 1) n

-- the content's length and the offset behind the padding
unfoldable pub read_osc_string : List ℕ → ℕ → ℕ → Outcome (ℕ × ℕ)
unfolding scan_nul check_padding
read_osc_string bytes len start = do
  require (ltb start len)
  i ← scan_nul bytes start (len - start)
  require (ltb i len)
  let after_nul = i + 1
  let aligned = (after_nul + 3) / 4 * 4
  require (not (ltb len aligned))
  check_padding bytes after_nul (aligned - after_nul)
  ok (i - start, aligned)

-- four bytes, the highest first
abbrev pub u32_be : ℕ → ℕ → ℕ → ℕ → ℕ
u32_be b0 b1 b2 b3 = bit_or (bit_or (bit_or (b0 * 2 ^ 24) (b1 * 2 ^ 16)) (b2 * 2 ^ 8)) b3

unfoldable pub read_u32_be : List ℕ → ℕ → Outcome ℕ
read_u32_be bytes at = do
  b0 ← read bytes at
  b1 ← read bytes (at + 1)
  b2 ← read bytes (at + 2)
  b3 ← read bytes (at + 3)
  ok (u32_be b0 b1 b2 b3)

-- an `int32_t` from its 32 bits
abbrev pub int_32 : ℕ → ℤ
int_32 raw = if ltb raw (2 ^ 31) then pos raw else negsuc (2 ^ 32 - raw - 1)

-- `isOscBundle`
unfoldable pub is_osc_bundle : List ℕ → ℕ → Outcome Bool
unfolding read_u32_be
is_osc_bundle bytes len = if ltb len 8 then ok false else do
  bund ← read_u32_be bytes 0
  le ← read_u32_be bytes 4
  ok (bund == 0x2362756e && le == 0x646c6500)

module _ {F : Type 0} ⦃fl : FloatOps F⦄ (conv : OscFloat F) where
  -- `b` is the binding of the address.
  abbrev pub event_for : OscBinding → F → ControlEvent F
  event_for b value =
      let is_button = same_type b.type button in
      record {
        type = b.type;
        id = b.id;
        channel = 0;
        pressed = if is_button then not (fl.equal value (fl.of_nat 0)) else false;
        value = if is_button then fl.of_nat 0 else value;
      }

  -- the loop over the map
  unfoldable pub find_address : List ℕ → F → List OscBinding → Outcome (ControlEvent F)
  unfolding str_equal
  find_address bytes value [] = reject
  find_address bytes value (b ∷ map) =
      let rest = find_address bytes value map in
      do same ← str_equal bytes b.address; if same then ok (event_for b value) else rest

  abbrev pub value_of : ℕ → ℕ → F
  value_of type_char raw =
      if type_char == 102
      then conv.of_bits raw
      else fl.div (conv.of_int (int_32 raw)) (fl.of_nat 127)

  unfoldable pub parse_osc : List ℕ → ℕ → List OscBinding → Outcome (ControlEvent F)
  unfolding read_osc_string read_u32_be find_address
  parse_osc bytes len map = do
    require (not (len == 0))
    address ← read_osc_string bytes len 0
    first ← read bytes 0
    require (not (address.0 == 0) && first == 47)
    tags ← read_osc_string bytes len address.1
    comma ← read bytes address.1
    require (tags.0 == 2 && comma == 44)
    type_char ← read bytes (address.1 + 1)
    require (type_char == 102 || type_char == 105)
    require (not (ltb len (tags.1 + 4)))
    raw ← read_u32_be bytes tags.1
    find_address bytes (value_of type_char raw) map

  -- a message: the event that is dispatched, or none
  abbrev pub dispatched : Outcome (ControlEvent F) → Outcome (List (ControlEvent F))
  dispatched (ok e) = ok (e ∷ [])
  dispatched reject = ok []
  dispatched fault = fault

  module _ (bits : ℕ) where
    -- the loop over a bundle's elements from `at` on, each parsed by `element`
    unfoldable pub bundle_from :
        (List ℕ → ℕ → Outcome (List (ControlEvent F)))
        → List ℕ
        → ℕ
        → ℕ
        → ℕ
        → Outcome (List (ControlEvent F))
    unfolding read_u32_be
    bundle_from element bytes len zero at = fault
    bundle_from element bytes len (suc fuel) at = if ltb len (at + 4) then ok [] else do
      elem_size ← read_u32_be bytes at
      let start = at + 4
      let next = (start + elem_size) % 2 ^ bits
      if elem_size == 0 || ltb len next then ok [] else do
        events ← element (drop start bytes) elem_size
        rest ← bundle_from element bytes len fuel next
        ok (events ++ rest)

    -- `left` is what `depth` leaves of `kMaxBundleDepth`.
    unfoldable pub parse_osc_packet_rec :
        ℕ → List OscBinding → List ℕ → ℕ → Outcome (List (ControlEvent F))
    unfolding parse_osc is_osc_bundle bundle_from
    parse_osc_packet_rec zero map bytes len = if len == 0 then ok [] else do
      bundle ← is_osc_bundle bytes len
      if not bundle then dispatched (parse_osc bytes len map) else ok []
    parse_osc_packet_rec (suc left) map bytes len = if len == 0 then ok [] else do
      bundle ← is_osc_bundle bytes len
      if not bundle
          then dispatched (parse_osc bytes len map)
          else if ltb len 16
          then ok []
          else bundle_from (parse_osc_packet_rec left map) bytes len len 16

    unfoldable pub parse_osc_packet : List OscBinding → List ℕ → ℕ → Outcome (List (ControlEvent F))
    unfolding parse_osc_packet_rec
    parse_osc_packet map bytes len = parse_osc_packet_rec 8 map bytes len
