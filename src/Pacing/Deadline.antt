-- ===== src/Pacing/Deadline.antt =====
-- The deadlines that the render task works to.
use esp_glow.Prelude.{
  ℕ, ◌+◌, ◌-◌, ◌/◌, ◌%◌, ◌^◌, ◌≤◌, ◌<◌, ◌≡◌, refl, ◌⊎◌, inl, inr, arith, true, false, Bool-cases,
  if◌then◌else◌, ltb, leb, ne→==, ◌==◌,
}
use esp_glow.Prelude.Int.{pos, int32}
use esp_glow.Prelude.Float.{FloatOps}
use esp_glow.Pacing.{PaceResult, dropped, pace_next_frame}

-- the deadline that a frame is measured against
abbrev pub base_of : ℕ → ℕ → ℕ
base_of now prev = if prev == 0 then now else prev

module _ {F : Type 0} where
  -- On time: sleep exactly up to the deadline, one period after the last.
  abbrev pub OnTime : ℕ → ℕ → ℕ → PaceResult F → Type 0
  OnTime period now prev r =
      (r.behind ≡ false)
      × (r.sleep_us ≡ pos (r.next_deadline_us - now))
      × (r.next_deadline_us ≡ base_of now prev + period)
      × (r.dropped_frames ≡ 0)

  -- Late: no sleep, the deadline starts again from now, and whole periods beyond the first are counted.
  abbrev pub Late : ℕ → ℕ → ℕ → PaceResult F → Type 0
  Late period now prev r =
      (r.behind ≡ true)
      × (r.sleep_us ≡ pos 0)
      × (r.next_deadline_us ≡ now + period)
      × (r.dropped_frames ≡ (now - base_of now prev) / period - 1)

dropped-periods :
    (elapsed period : ℕ) → elapsed / period ≤ 2 ^ 32 → dropped elapsed period ≡ elapsed / period - 1
dropped-periods elapsed period h = counted (elapsed / period) h
  where
    counted : (n : ℕ) → n ≤ 2 ^ 32 → (if ltb 1 n then (n - 1) % 2 ^ 32 else 0) ≡ n - 1
    counted n h = ground arith

int32-pos : (n : ℕ) → n < 2 ^ 31 → int32 (n % 2 ^ 32) ≡ pos n
int32-pos n h =
    let small : n % 2 ^ 32 ≡ n = omega arith in
    let positive : leb (2 ^ 31) n ≡ false = ground arith in rw (small, positive) refl

module _ (F : Type 0) ⦃fl : FloatOps F⦄ where
  -- For a 32-bit period above 0, times below 2^63, a deadline less than 2^31 microseconds ahead and a last
  -- deadline at most 2^32 periods back, a frame is on time exactly while its deadline, one period after the
  -- last, lies ahead, and then the task sleeps until that deadline, for a time above 0; otherwise it is late,
  -- does not sleep, takes the next deadline from now, and counts the whole periods that it missed beyond the
  -- first. A first frame counts from now.
  pub pace_next_frame_lem :
      (period now prev : ℕ)
      → 0 < period
      → period < 2 ^ 32
      → now < 2 ^ 63
      → base_of now prev + period < now + 2 ^ 31
      → (now - base_of now prev) / period ≤ 2 ^ 32
      → (OnTime {F = F} period now prev (pace_next_frame period now prev)
          × (now < base_of now prev + period))
        ⊎ (Late {F = F} period now prev (pace_next_frame period now prev)
            × (base_of now prev + period ≤ now))
  unfolding pace_next_frame
  pace_next_frame_lem period now prev some_time small early bounded few =
      let b = base_of now prev in
      let whole : (b + period) % 2 ^ 64 ≡ b + period = omega arith in
      elim (Bool-cases (leb (b + period) now)) [
        | inr ahead ↦
            let later : now < b + period = ground arith in
            rw (whole, ahead, int32-pos (b + period - now) (omega arith))
              (inl ((refl, refl, refl, refl), later))
        | inl passed ↦
            let reached : b + period ≤ now = ground arith in
            let unwrapped : (now + 2 ^ 64 - b) % 2 ^ 64 ≡ now - b = omega arith in
            let next : (now + period) % 2 ^ 64 ≡ now + period = omega arith in
            let some_period : (period == 0) ≡ false = ne→== period 0 (omega arith) in
            rw (whole, passed, unwrapped, next, some_period)
              (inr ((refl, refl, refl, dropped-periods (now - b) period few), reached))
      ]
