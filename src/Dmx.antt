-- ===== src/Dmx.antt =====
-- dmx_frame_buffer.cpp: the single-slot mailbox between the render task and the DMX task. The critical
-- sections make each call one step, so an interleaving of the two tasks is a sequence of calls.
pub mod Latest
mod Tests
use esp_glow.Prelude.{
  ℕ, ◌++◌, Bool, true, false, Option, none, some, List, [], ◌∷◌, if◌then◌else◌, ltb, length, take,
  drop, replicate,
}

abbrev pub dmx_universe_size : ℕ
dmx_universe_size = 512

-- `bytes` is the whole array, of 512 bytes.
pub record DmxFrameBuffer : Type 0 where
  pub bytes : List ℕ
  pub len : ℕ
  pub dirty : Bool

abbrev pub initial : DmxFrameBuffer
initial = record { bytes = replicate dmx_universe_size 0; len = 0; dirty = false }

-- `frame` is the memory at `data`, of which `len` bytes count.
unfoldable pub write : List ℕ → ℕ → DmxFrameBuffer → DmxFrameBuffer
write frame len b =
    let kept = (if ltb dmx_universe_size len then dmx_universe_size else len) in
    record { bytes = take kept frame ++ drop kept b.bytes; len = kept; dirty = true }

-- The bytes copied out, or none for `return false`.
unfoldable pub take_if_dirty : DmxFrameBuffer → Option (List ℕ) × DmxFrameBuffer
take_if_dirty b =
    if b.dirty then (some (take b.len b.bytes), record b { dirty = false }) else (none, b)
