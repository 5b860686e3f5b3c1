-- ===== src/Pacing/Tests.antt =====
-- A run of the pacing at a concrete input.
use esp_glow.Prelude.{ℕ, ◌+◌, ◌<◌, ◌≤◌, ◌⊎◌, arith}
use esp_glow.Prelude.Float.{milli}
use esp_glow.Pacing.{pace_next_frame}
use esp_glow.Pacing.Deadline.{base_of, OnTime, Late, pace_next_frame_lem}

-- three periods late
pace_next_frame_example :
    (OnTime 22727 100000 10000 (pace_next_frame ⦃fl = milli⦄ 22727 100000 10000)
      × (100000 < base_of 100000 10000 + 22727))
    ⊎ (Late 22727 100000 10000 (pace_next_frame ⦃fl = milli⦄ 22727 100000 10000)
        × (base_of 100000 10000 + 22727 ≤ 100000))
pace_next_frame_example =
    pace_next_frame_lem ℕ ⦃fl = milli⦄ 22727 100000 10000 (omega arith) (omega arith) (omega arith)
      (omega arith) (omega arith)
