-- ===== src/Dmx/Latest.antt =====
-- The mailbox gives the newest frame, once.
use esp_glow.Prelude.{
  ℕ, ◌≤◌, ◌≡◌, refl, sym, ap, ◌∙◌, arith, none, some, List, [], ◌∷◌, ◌++◌, ltb, min, if◌then◌else◌,
  length, take, drop, length-take, take-min, length-drop, length-append, take-append, Bool-cases,
  inl, inr,
}
use esp_glow.Dmx.{DmxFrameBuffer, dmx_universe_size, write, take_if_dirty}

-- `data_` is an array of 512 bytes, and `len_` never exceeds it.
pub record IsValid (b : DmxFrameBuffer) : Type 0 where
  pub full : length b.bytes ≡ dmx_universe_size
  pub len_in : b.len ≤ dmx_universe_size

-- what of a frame is transmitted
abbrev pub clamped : List ℕ → List ℕ
clamped frame = take dmx_universe_size frame

abbrev kept : ℕ → ℕ
kept len = if ltb dmx_universe_size len then dmx_universe_size else len

kept-min : (len : ℕ) → kept len ≡ min len dmx_universe_size
kept-min len = ground arith

pub write-IsValid :
    (frame : List ℕ) {b : DmxFrameBuffer} → IsValid b → IsValid (write frame (length frame) b)
unfolding write
write-IsValid frame {b} v =
    let n = kept (length frame) in
    let small : n ≤ dmx_universe_size = omega (arith, kept-min (length frame)) in
    let fits : n ≤ length frame = omega (arith, kept-min (length frame)) in
    record {
      full = omega (
        arith,
        v.full,
        fits,
        small,
        length-append (take n frame) (drop n b.bytes),
        length-take n frame,
        length-drop n b.bytes,
      );
      len_in = small;
    }

-- The writer's frames, in order.
unfoldable pub write_all : List (List ℕ) → DmxFrameBuffer → DmxFrameBuffer
write_all [] b = b
write_all (frame ∷ frames) b = write_all frames (write frame (length frame) b)

abbrev pub newest : List ℕ → List (List ℕ) → List ℕ
newest frame [] = frame
newest frame (next ∷ frames) = newest next frames

take_if_dirty-write :
    (frame : List ℕ) (b : DmxFrameBuffer)
    → (take_if_dirty (write frame (length frame) b)).0 ≡ some (clamped frame)
unfolding take_if_dirty write
take_if_dirty-write frame b =
    let n = kept (length frame) in
    let cut : take n frame ≡ clamped frame =
      ap (λ k. take k frame) (kept-min (length frame)) ∙ take-min dmx_universe_size frame in
    let size : length (take n frame) ≡ n =
      omega (arith, length-take n frame, kept-min (length frame)) in
    ap some (
      ap (λ k. take k (take n frame ++ drop n b.bytes)) (sym size)
      ∙ take-append (take n frame) (drop n b.bytes)
      ∙ cut)

take_if_dirty-write_all :
    (frame : List ℕ) (frames : List (List ℕ)) (b : DmxFrameBuffer)
    → (take_if_dirty (write_all (frame ∷ frames) b)).0 ≡ some (clamped (newest frame frames))
unfolding write_all
take_if_dirty-write_all frame [] b = take_if_dirty-write frame b
take_if_dirty-write_all frame (next ∷ frames) b =
    take_if_dirty-write_all next frames (write frame (length frame) b)

take_if_dirty-clean : (b : DmxFrameBuffer) → (take_if_dirty (take_if_dirty b).1).0 ≡ none
unfolding take_if_dirty
take_if_dirty-clean b = elim (Bool-cases b.dirty) [ inl h ↦ rw h refl | inr h ↦ rw h refl ]

-- However many frames are written before the DMX task looks, it gets the newest one, whole and cut to
-- at most 512 bytes, and it gets it once: it finds nothing at its next look.
pub take_if_dirty-newest :
    (frame : List ℕ) (frames : List (List ℕ)) (b : DmxFrameBuffer)
    → ((take_if_dirty (write_all (frame ∷ frames) b)).0 ≡ some (clamped (newest frame frames)))
      × ((take_if_dirty (take_if_dirty (write_all (frame ∷ frames) b)).1).0 ≡ none)
take_if_dirty-newest frame frames b =
    (take_if_dirty-write_all frame frames b, take_if_dirty-clean (write_all (frame ∷ frames) b))
