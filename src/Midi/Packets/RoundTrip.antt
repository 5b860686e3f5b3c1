-- ===== src/Midi/Packets/RoundTrip.antt =====
-- A USB-MIDI host reads the packets back by their code index number, as the USB-MIDI 1.0 class
-- defines it: 4 starts or continues a SysEx with three bytes; 5, 6 and 7 end it with one, two, three.
use esp_glow.Prelude.{
  ℕ, zero, suc, ◌+◌, ◌-◌, ◌<◌, ◌≤◌, ◌*◌, ◌/◌, ◌≡◌, refl, sym, ap, ◌∙◌, arith, List, [], ◌∷◌, ◌++◌,
  ltb, ◌==◌, if◌then◌else◌, length, get_or, drop, drop-drop, drop_all, get_or-drop, length-drop,
  true, ◌%◌, Bool-cases, inl, inr, Option, none, some,
}
use mathlib.Core.List.{append_assoc, append-nil}
use esp_glow.Midi.Packets.{packet, group_length, pack_from, pack}

-- three more bytes in front of what follows them
abbrev pub continued : ℕ → ℕ → ℕ → Option (List ℕ × List ℕ) → Option (List ℕ × List ℕ)
continued a b c none = none
continued a b c (some (message, rest)) = some (a ∷ b ∷ c ∷ message, rest)

-- One whole SysEx message and what is received after it. A message that no packet ends, and any other packet
-- before the end, give none.
unfoldable pub unpack : List ℕ → Option (List ℕ × List ℕ)
unpack (cin ∷ a ∷ b ∷ c ∷ rest) =
    let message = unpack rest in
    if cin == 4
    then continued a b c message
    else if cin == 5
    then some (a ∷ [], rest)
    else if cin == 6
    then some (a ∷ b ∷ [], rest)
    else if cin == 7
    then some (a ∷ b ∷ c ∷ [], rest)
    else none
unpack _ = none

-- what the packets of these bytes are read back as, before `more`
abbrev pub whole : List ℕ → List ℕ → Option (List ℕ × List ℕ)
whole [] more = unpack more
whole (x ∷ xs) more = some (x ∷ xs, more)

-- Packets by the shape of what is left to send.
abbrev packets : List ℕ → List ℕ
packets [] = []
packets (a ∷ []) = 5 ∷ a ∷ 0 ∷ 0 ∷ []
packets (a ∷ b ∷ []) = 6 ∷ a ∷ b ∷ 0 ∷ []
packets (a ∷ b ∷ c ∷ []) = 7 ∷ a ∷ b ∷ c ∷ []
packets (a ∷ b ∷ c ∷ d ∷ rest) = 4 ∷ a ∷ b ∷ c ∷ packets (d ∷ rest)

unpack-packets : (xs more : List ℕ) → unpack (packets xs ++ more) ≡ whole xs more
unfolding unpack
unpack-packets [] more = refl
unpack-packets (a ∷ []) more = refl
unpack-packets (a ∷ b ∷ []) more = refl
unpack-packets (a ∷ b ∷ c ∷ []) more = refl
unpack-packets (a ∷ b ∷ c ∷ d ∷ rest) more = ap (continued a b c) (unpack-packets (d ∷ rest) more)

-- What the code reads at `pos`, by what is left there.
abbrev first_packet : List ℕ → List ℕ
first_packet [] = 4 ∷ 0 ∷ 0 ∷ 0 ∷ []
first_packet (a ∷ []) = 5 ∷ a ∷ 0 ∷ 0 ∷ []
first_packet (a ∷ b ∷ []) = 6 ∷ a ∷ b ∷ 0 ∷ []
first_packet (a ∷ b ∷ c ∷ []) = 7 ∷ a ∷ b ∷ c ∷ []
first_packet (a ∷ b ∷ c ∷ d ∷ rest) = 4 ∷ a ∷ b ∷ c ∷ []

packet-first_packet :
    (bytes : List ℕ) (pos : ℕ) (xs : List ℕ)
    → drop pos bytes ≡ xs
    → packet bytes pos ≡ first_packet xs
unfolding packet
packet-first_packet bytes pos xs e =
    let len : length bytes - pos ≡ length xs = sym (length-drop pos bytes) ∙ ap length e in
    let at : (i : ℕ) → get_or bytes (pos + i) 0 ≡ get_or xs i 0 =
      λ i. sym (get_or-drop pos i bytes 0) ∙ ap (λ ys. get_or ys i 0) e in
    rw (len, at 0, at 1, at 2) (by_shape xs)
  where
    by_shape :
        (ys : List ℕ)
        → (if ltb 3 (length ys) then 4 else (4 + length ys) % 256)
            ∷ (if ltb 0 (if ltb 3 (length ys) then 3 else length ys) then get_or ys 0 0 else 0)
            ∷ (if ltb 1 (if ltb 3 (length ys) then 3 else length ys) then get_or ys 1 0 else 0)
            ∷ (if ltb 2 (if ltb 3 (length ys) then 3 else length ys) then get_or ys 2 0 else 0)
            ∷ []
          ≡ first_packet ys
    by_shape [] = refl
    by_shape (a ∷ []) = refl
    by_shape (a ∷ b ∷ []) = refl
    by_shape (a ∷ b ∷ c ∷ []) = refl
    by_shape (a ∷ b ∷ c ∷ d ∷ rest) = ground arith

drop-group :
    (bytes : List ℕ) (pos : ℕ) (xs : List ℕ)
    → drop pos bytes ≡ xs
    → drop (pos + group_length bytes pos) bytes
      ≡ drop (if ltb 3 (length xs) then 3 else length xs) xs
drop-group bytes pos xs e =
    let len : length bytes - pos ≡ length xs = sym (length-drop pos bytes) ∙ ap length e in
    rw len (sym (drop-drop pos _ bytes) ∙ ap (drop (if ltb 3 (length xs) then 3 else length xs)) e)

packets-first_packet :
    (xs : List ℕ)
    → 0 < length xs
    → packets xs ≡ first_packet xs ++ packets (drop (if ltb 3 (length xs) then 3 else length xs) xs)
packets-first_packet [] h = elim h [ ]
packets-first_packet (a ∷ []) h = refl
packets-first_packet (a ∷ b ∷ []) h = refl
packets-first_packet (a ∷ b ∷ c ∷ []) h = refl
packets-first_packet (a ∷ b ∷ c ∷ d ∷ rest) h =
    let long : ltb 3 (length (a ∷ b ∷ c ∷ d ∷ rest)) ≡ true = ground arith in rw long

pack_from-packets :
    (fuel : ℕ) (bytes : List ℕ) (pos : ℕ) (out : List ℕ)
    → length bytes ≤ pos + fuel
    → pack_from fuel bytes pos out ≡ out ++ packets (drop pos bytes)
unfolding pack_from
pack_from-packets zero bytes pos out h = rw (drop_all pos bytes (omega arith), append-nil)
pack_from-packets (suc fuel) bytes pos out h = elim (Bool-cases (ltb pos (length bytes))) [
  | inl more ↦
      let some_left : 0 < length (drop pos bytes) = ground (arith, length-drop pos bytes) in
      let ih =
        pack_from-packets fuel bytes (pos + group_length bytes pos) (out ++ packet bytes pos)
          (ground arith) in
      rw (more, ih, packet-first_packet bytes pos _ refl, drop-group bytes pos _ refl, append_assoc)
        (ap (◌++◌ out) (sym (packets-first_packet (drop pos bytes) some_left)))
  | inr done ↦ rw (done, drop_all pos bytes (ground arith), append-nil)
]

length-packets : (xs : List ℕ) → length (packets xs) ≡ 4 * ((length xs + 2) / 3)
length-packets [] = omega arith
length-packets (a ∷ []) = omega arith
length-packets (a ∷ b ∷ []) = omega arith
length-packets (a ∷ b ∷ c ∷ []) = omega arith
length-packets (a ∷ b ∷ c ∷ d ∷ rest) = omega (arith, length-packets (d ∷ rest))

-- Packing appends to `out` whole four-byte packets, as few as three bytes a packet allow. A host that reads
-- them, followed by anything, gets the bytes given as one message, in order and ended by the last of the
-- packets, and what follows is left; of no bytes there is no packet.
pub pack_lem :
    (bytes out more : List ℕ)
    → (sent : List ℕ) × (pack bytes out ≡ out ++ sent)
      × (unpack (sent ++ more) ≡ whole bytes more)
      × (length sent ≡ 4 * ((length bytes + 2) / 3))
unfolding pack
pack_lem bytes out more = (
  packets bytes,
  pack_from-packets (length bytes) bytes 0 out (omega arith),
  unpack-packets bytes more,
  length-packets bytes,
)
