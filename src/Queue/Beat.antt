-- ===== src/Queue/Beat.antt =====
-- beat_queue.cpp: the queue of beats, from the clock sources to the render task.
use esp_glow.Prelude.{ℕ, Bool, false, Option}
use esp_glow.Prelude.Float.{FloatOps}
use esp_glow.Queue
use esp_glow.Queue.{Ring}
use esp_glow.Queue.Pump

pub record BeatEvent (F : Type 0) : Type 0 where
  pub t_us : ℕ
  pub bpm : F
  pub beat_in_bar : ℕ
  pub is_downbeat : Bool

-- `RingBeatEventQueue`, whose body is that of the control queue
module _ {F : Type 0} ⦃fl : FloatOps F⦄ where
  abbrev blank : BeatEvent F
  blank = record { t_us = 0; bpm = fl.of_nat 0; beat_in_bar = 0; is_downbeat = false }

  unfoldable pub init : ℕ → Ring (BeatEvent F)
  init capacity = Queue.init blank capacity

  unfoldable pub push : Ring (BeatEvent F) → BeatEvent F → Bool × Ring (BeatEvent F)
  push q ev = Queue.push q ev

  unfoldable pub pop : Ring (BeatEvent F) → Option (BeatEvent F) × Ring (BeatEvent F)
  pop q = Queue.pop blank q

  -- `on_beat` is the beat clock's handler.
  unfoldable pub pump_beat_events {κ} :
      {S : Type κ} → (BeatEvent F → S → S) → ℕ → Ring (BeatEvent F) → S → ℕ × Ring (BeatEvent F) × S
  pump_beat_events on_beat max_per_frame q clock = Pump.pump blank on_beat max_per_frame q clock
