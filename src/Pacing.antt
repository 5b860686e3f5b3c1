-- ===== src/Pacing.antt =====
-- render_pacing.cpp: how long the render task sleeps between two frames.
pub mod Deadline
mod Tests
use esp_glow.Prelude.{
  ℕ, ◌+◌, ◌-◌, ◌/◌, ◌%◌, ◌^◌, Bool, true, false, not, if◌then◌else◌, ltb, leb, ◌==◌,
}
use esp_glow.Prelude.Int.{ℤ, pos, int32}
use esp_glow.Prelude.Float.{FloatOps}

pub record PaceResult (F : Type 0) : Type 0 where
  pub now_sec : F
  pub sleep_us : ℤ
  pub next_deadline_us : ℕ
  pub behind : Bool
  pub dropped_frames : ℕ

-- `periods`, and the frames lost beyond the first
abbrev pub dropped : ℕ → ℕ → ℕ
dropped elapsed period =
    let periods = elapsed / period in if ltb 1 periods then (periods - 1) % 2 ^ 32 else 0

module _ {F : Type 0} ⦃fl : FloatOps F⦄ where
  -- the division in double precision, and the rounding to float
  unfoldable pub tick_to_seconds : ℕ → F
  tick_to_seconds tick_us = fl.div (fl.of_nat tick_us) (fl.of_nat 1000000)

  -- A period is a uint32_t, a time a uint64_t, and sums and differences wrap at 2^64; that of `nowUs - base`
  -- is written with 2^64 added first.
  unfoldable pub pace_next_frame : ℕ → ℕ → ℕ → PaceResult F
  unfolding tick_to_seconds
  pace_next_frame target_period_us now_us prev_deadline_us =
      let base = if prev_deadline_us == 0 then now_us else prev_deadline_us in
      let next = (base + target_period_us) % 2 ^ 64 in
      let elapsed = (now_us + 2 ^ 64 - base) % 2 ^ 64 in
      if leb next now_us
      then record {
        now_sec = tick_to_seconds now_us;
        sleep_us = pos 0;
        next_deadline_us = (now_us + target_period_us) % 2 ^ 64;
        behind = true;
        dropped_frames =
            if not (target_period_us == 0) then dropped elapsed target_period_us else 0;
      }
      else record {
        now_sec = tick_to_seconds now_us;
        sleep_us = int32 ((next - now_us) % 2 ^ 32);
        next_deadline_us = next;
        behind = false;
        dropped_frames = 0;
      }
