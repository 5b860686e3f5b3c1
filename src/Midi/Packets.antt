-- ===== src/Midi/Packets.antt =====
-- `packUsbMidiEventPackets` of usb_midi_packetizer.cpp: a SysEx blob as 4-byte USB-MIDI packets.
pub mod RoundTrip
use esp_glow.Prelude.{
  ℕ, zero, suc, ◌+◌, ◌-◌, ◌%◌, List, [], ◌∷◌, ◌++◌, ltb, if◌then◌else◌, length, get_or,
}

-- One round of the loop: the header byte and three data bytes, zero behind the group's end.
unfoldable pub packet : List ℕ → ℕ → List ℕ
packet bytes pos =
    let remaining = length bytes - pos in
    let more = ltb 3 remaining in
    let cin = if more then 4 else (4 + remaining) % 256 in
    let group_len = if more then 3 else remaining in
    cin
    ∷ (if ltb 0 group_len then get_or bytes (pos + 0) 0 else 0)
    ∷ (if ltb 1 group_len then get_or bytes (pos + 1) 0 else 0)
    ∷ (if ltb 2 group_len then get_or bytes (pos + 2) 0 else 0)
    ∷ []

abbrev pub group_length : List ℕ → ℕ → ℕ
group_length bytes pos = if ltb 3 (length bytes - pos) then 3 else length bytes - pos

-- `while (pos < len)`. Each round moves `pos` on, so `length bytes` rounds are enough.
unfoldable pub pack_from : ℕ → List ℕ → ℕ → List ℕ → List ℕ
pack_from zero bytes pos out = out
pack_from (suc fuel) bytes pos out =
    let rest = pack_from fuel bytes (pos + group_length bytes pos) (out ++ packet bytes pos) in
    if ltb pos (length bytes) then rest else out

unfoldable pub pack : List ℕ → List ℕ → List ℕ
unfolding pack_from packet
pack bytes out = pack_from (length bytes) bytes 0 out
