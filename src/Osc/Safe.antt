-- ===== src/Osc/Safe.antt =====
-- Any packet: the parser stays inside it and ends.
mod Strings
use native.Mathlib.Nat.{mod-eq_of_lt}
use esp_glow.Prelude.{
  ℕ, zero, suc, ◌+◌, ◌-◌, ◌*◌, ◌/◌, ◌%◌, ◌^◌, ◌≤◌, ◌<◌, ◌≡◌, refl, ap, ◌∙◌, arith, Bool, true,
  false, not, ◌&&◌, ◌||◌, inl, inr, List, [], ◌∷◌, if◌then◌else◌, ltb, ◌==◌, ltb→lt, length, drop,
  get_or, Bool-cases, length-drop, length-append, ==_iff,
}
use esp_glow.Prelude.Bits.{or_bound}
use esp_glow.Prelude.Float.{FloatOps}
use esp_glow.Prelude.Bytes.{Bytes, get_or-Bytes, drop-Bytes}
use esp_glow.Prelude.Outcome.{
  Outcome, ok, ◌>>=◌, Returns, ok_returns, reject_returns, Returns-bind, Returns-require,
  Returns-read, Returns-impl, read_ok, Succeeds, ok_succeeds, Succeeds-bind, Succeeds-impl,
  Succeeds-Returns, Succeeds-read,
}
use esp_glow.Prelude.Strings.{has_nul, str_equal_lem, Succeeds-if}
use esp_glow.Mdef.Parse.Safe.{not-ltb}
use esp_glow.Midi.Event.{ControlEvent}
use esp_glow.Osc.{
  OscBinding, OscFloat, scan_nul, check_padding, read_osc_string, u32_be, read_u32_be, find_address,
  parse_osc, is_osc_bundle, dispatched, bundle_from, parse_osc_packet_rec, parse_osc_packet,
}
use esp_glow.Osc.Safe.Strings.{
  u32_be_bound, has_nul_at, IsString, read_osc_string_lem, Returns-u32, read_u32_be_ok,
}

element_fits : (size next len : ℕ) → (size == 0 || ltb len next) ≡ false → (0 < size) × (next ≤ len)
element_fits size next len h = ground arith

ge_of : (a b : ℕ) → ltb a b ≡ false → b ≤ a
ge_of a b h = ground arith

eight : (len : ℕ) → ltb len 8 ≡ false → 8 ≤ len
eight len h = ground arith

Returns-if :
    {A : Type 0} {P : A → Type 0} {m n : Outcome A} (b : Bool)
    → Returns P m
    → Returns P n
    → Returns P (if b then m else n)
Returns-if true p q = p
Returns-if false p q = q

module _ {F : Type 0} ⦃fl : FloatOps F⦄ (conv : OscFloat F) where
  abbrev Event : Type 0
  Event = ControlEvent F

  find_address_lem :
      (bytes : List ℕ) (value : F) (map : List OscBinding)
      → has_nul bytes ≡ true
      → Returns (λ (e : Event). Unit {0}) (find_address conv bytes value map)
  unfolding find_address
  find_address_lem bytes value [] h = reject_returns
  find_address_lem bytes value (b ∷ map) h =
      Returns-bind _ (Succeeds-Returns (str_equal_lem bytes b.address h))
        (λ same u. Returns-if same (ok_returns tt) (find_address_lem bytes value map h))

  dispatched-Succeeds :
      {len : ℕ} {m : Outcome Event}
      → Returns (λ e. 12 ≤ len) m
      → Succeeds (λ (es : List Event). 12 * length es ≤ len) (dispatched conv m)
  dispatched-Succeeds (ok_returns p) = ok_succeeds (omega (arith, p))
  dispatched-Succeeds reject_returns = ok_succeeds (omega arith)

  module _ (bytes : List ℕ) (len : ℕ) (inside : len ≤ length bytes) where
    abbrev b : ℕ → ℕ
    b i = get_or bytes i 0

    -- A message has at least four bytes each of address, type tag and argument.
    parse_osc_lem :
        (map : List OscBinding) → Returns (λ (e : Event). 12 ≤ len) (parse_osc conv bytes len map)
    unfolding parse_osc
    parse_osc_lem map = Returns-require (not (len == 0)) (λ some_bytes.
        Returns-bind _ (read_osc_string_lem bytes len 0 inside) (λ address a.
          Returns-read bytes 0 _ (omega (arith, a.ends_in)) (
            Returns-require (not (address.0 == 0) && b 0 == 47) (λ slash.
              Returns-bind _ (read_osc_string_lem bytes len address.1 inside) (λ tags t.
                Returns-read bytes address.1 _ (omega (arith, t.ends_in)) (
                  Returns-require (tags.0 == 2 && b address.1 == 44) (λ comma.
                    let two : tags.0 ≡ 2 = ground arith in
                    Returns-read bytes (address.1 + 1) _ (omega (arith, t.ends_in)) (
                      Returns-require (b (address.1 + 1) == 102 || b (address.1 + 1) == 105)
                        (λ type. Returns-require (not (ltb len (tags.1 + 4))) (λ room.
                          Returns-u32 bytes tags.1 _ (omega (arith, not-ltb _ _ room)) (
                            Returns-impl _ _
                              (find_address_lem bytes _ map (
                                has_nul_at bytes (0 + address.0) (omega (arith, a.ends_in)) a.ends))
                              (λ e u. omega (
                                arith,
                                not-ltb _ _ room,
                                a.behind,
                                a.aligned,
                                t.behind,
                                t.aligned,
                              )))))))))))))

    is_osc_bundle_lem : Succeeds (λ (bundle : Bool). Unit {0}) (is_osc_bundle bytes len)
    unfolding is_osc_bundle
    is_osc_bundle_lem = elim (Bool-cases (ltb len 8)) [
      | inl short ↦ rw short (ok_succeeds tt)
      | inr long ↦
          let enough = eight len long in
          rw (long, read_u32_be_ok bytes 0 (omega arith), read_u32_be_ok bytes 4 (omega arith))
            (ok_succeeds tt)
    ]

    -- one message
    dispatched_lem :
        (map : List OscBinding)
        → Succeeds
            (λ (es : List Event). 12 * length es ≤ len)
            (dispatched conv (parse_osc conv bytes len map))
    dispatched_lem map = dispatched-Succeeds (parse_osc_lem map)

  -- the parse of an element: what the loop over a bundle needs of it
  abbrev IsParse : ℕ → (List ℕ → ℕ → Outcome (List Event)) → Type 0
  IsParse bits parse =
      (bytes : List ℕ) (len : ℕ)
      → Bytes bytes
      → len ≤ length bytes
      → length bytes + 2 ^ 32 ≤ 2 ^ bits
      → Succeeds (λ (es : List Event). 12 * length es ≤ len) (parse bytes len)

  module _ (bits : ℕ) (element : List ℕ → ℕ → Outcome (List Event)) (is : IsParse bits element)
      (bytes : List ℕ) (all : Bytes bytes) (len : ℕ) (inside : len ≤ length bytes)
      (wide : length bytes + 2 ^ 32 ≤ 2 ^ bits) where
    bundle_from_lem :
        (fuel at : ℕ)
        → len < at + fuel
        → at ≤ len
        → Succeeds
            (λ (es : List Event). 12 * length es + at ≤ len)
            (bundle_from conv bits element bytes len fuel at)
    unfolding bundle_from
    bundle_from_lem zero at enough here = absurd (omega arith)
    bundle_from_lem (suc fuel) at enough here = elim (Bool-cases (ltb len (at + 4))) [
      | inl at_end ↦ rw at_end (ok_succeeds (omega arith))
      | inr more ↦
          let size =
            u32_be (get_or bytes at 0) (get_or bytes (at + 1) 0) (get_or bytes (at + 2) 0)
              (get_or bytes (at + 3) 0) in
          let four : at + 4 ≤ len = ge_of len (at + 4) more in
          let small : size < 2 ^ 32 =
            u32_be_bound _ _ _ _ (get_or-Bytes bytes at all) (get_or-Bytes bytes (at + 1) all)
              (get_or-Bytes bytes (at + 2) all) (get_or-Bytes bytes (at + 3) all) in
          let next : (at + 4 + size) % 2 ^ bits ≡ at + 4 + size = mod-eq_of_lt (omega arith) in
          rw (more, read_u32_be_ok bytes at (omega arith), next)
            (elim (Bool-cases (size == 0 || ltb len (at + 4 + size))) [
              | inl bad ↦ rw bad (ok_succeeds (omega arith))
              | inr good ↦ rw good (
                  let (some_bytes, fits) = element_fits size (at + 4 + size) len good in
                  Succeeds-bind _
                    (is (drop (at + 4) bytes) size (drop-Bytes (at + 4) bytes all)
                      (omega (arith, length-drop (at + 4) bytes))
                      (omega (arith, length-drop (at + 4) bytes)))
                    (λ es e.
                      Succeeds-bind _ (bundle_from_lem fuel (at + 4 + size) (omega arith) fits)
                        (λ rest r. ok_succeeds (omega (arith, length-append es rest, e, r)))))
            ])
    ]

  -- a packet that is no bundle, or a bundle read by `m`
  packet_lem :
      (map : List OscBinding) (bytes : List ℕ) (len : ℕ) (m : Outcome (List Event))
      → len ≤ length bytes
      → Succeeds (λ (es : List Event). 12 * length es ≤ len) m
      → Succeeds
          (λ (es : List Event). 12 * length es ≤ len)
          (if len == 0
            then ok []
            else (is_osc_bundle bytes len >>= λ bundle.
                if not bundle then dispatched conv (parse_osc conv bytes len map) else m))
  packet_lem map bytes len m inside bundled = Succeeds-if _ (len == 0) (ok_succeeds (omega arith)) (
      Succeeds-bind _ (is_osc_bundle_lem bytes len inside)
        (λ bundle u. Succeeds-if _ (not bundle) (dispatched_lem bytes len inside map) bundled))

  parse_osc_packet_rec_lem :
      (bits left : ℕ) (map : List OscBinding) (bytes : List ℕ) (len : ℕ)
      → Bytes bytes
      → len ≤ length bytes
      → length bytes + 2 ^ 32 ≤ 2 ^ bits
      → Succeeds
          (λ (es : List Event). 12 * length es ≤ len)
          (parse_osc_packet_rec conv bits left map bytes len)
  unfolding parse_osc_packet_rec
  parse_osc_packet_rec_lem bits zero map bytes len all inside wide =
      packet_lem map bytes len (ok []) inside (ok_succeeds (omega arith))
  parse_osc_packet_rec_lem bits (suc left) map bytes len all inside wide =
      packet_lem map bytes len _ inside (elim (Bool-cases (ltb len 16)) [
        | inl short ↦ rw short (ok_succeeds (omega arith))
        | inr long ↦ rw long (
            Succeeds-impl _ _
              (bundle_from_lem bits (parse_osc_packet_rec conv bits left map)
                (parse_osc_packet_rec_lem bits left map) bytes all len inside wide len 16
                (omega (arith, ge_of len 16 long)) (ge_of len 16 long))
              (λ es e. omega (arith, e)))
      ])

-- For a packet of bytes, where a `size_t` holds the length of the packet and any 32-bit number together:
-- parsing it ends, reads nothing outside it whatever sizes and nesting its bundles claim, and dispatches at
-- most one event for each twelve bytes.
pub parse_osc_packet_lem :
    {F : Type 0} ⦃fl : FloatOps F⦄ (conv : OscFloat F) (bits : ℕ) (map : List OscBinding)
    (packet : List ℕ)
    → Bytes packet
    → length packet + 2 ^ 32 ≤ 2 ^ bits
    → Succeeds
        (λ es. 12 * length es ≤ length packet)
        (parse_osc_packet conv bits map packet (length packet))
unfolding parse_osc_packet
parse_osc_packet_lem conv bits map packet all wide =
    parse_osc_packet_rec_lem conv bits 8 map packet (length packet) all (omega arith) wide
