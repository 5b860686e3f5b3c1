-- ===== src/Queue.antt =====
-- control_queue.cpp, beat_queue.cpp and eval_queue.cpp: the bounded queues between the input tasks
-- and the render task. The three classes have the same body over different element types; this
-- module holds that body for any element type. The mutex makes each call one step, so an
-- interleaving of the tasks is a sequence of calls.
pub mod Bounded
pub mod Inv
pub mod Refine
pub mod Pump
pub mod Beat
pub mod Eval
mod Tests
use esp_glow.Prelude.{
  ℕ, zero, suc, ◌+◌, ◌-◌, ◌%◌, ◌^◌, Bool, true, false, Option, none, some, List, ltb, leb, ◌==◌,
  if◌then◌else◌, length, get_or, set, replicate,
}

-- `RingControlEventQueue` and its two sisters
pub record Ring {ℓ} (A : Type ℓ) : Type ℓ where
  pub buffer : List A
  pub head : ℕ
  pub tail : ℕ
  pub count : ℕ
  pub dropped : ℕ

-- `size_t` addition on the ESP32
abbrev pub add_size : ℕ → ℕ → ℕ
add_size a b = (a + b) % 2 ^ 32

-- `blank` is the value-initialised element that the vector's constructor writes.
module _ {ℓ} {A : Type ℓ} (blank : A) where
  unfoldable pub init : ℕ → Ring A
  init capacity = record {
    buffer = replicate (if ltb 0 capacity then capacity else 1) blank;
    head = 0;
    tail = 0;
    count = 0;
    dropped = 0;
  }

  -- `none` is `return false`, which leaves `ev` alone.
  unfoldable pub pop : Ring A → Option A × Ring A
  pop q = if q.count == 0 then (none, q) else (
    some (get_or q.buffer q.head blank),
    record q { head = add_size q.head 1 % length q.buffer; count = q.count - 1 },
  )

module _ {ℓ} {A : Type ℓ} where
  unfoldable pub push : Ring A → A → Bool × Ring A
  push q ev =
      if leb (length q.buffer) q.count
      then (false, record q { dropped = add_size q.dropped 1 })
      else (
        true,
        record q {
          buffer = set q.buffer q.tail ev;
          tail = add_size q.tail 1 % length q.buffer;
          count = add_size q.count 1;
        },
      )

  unfoldable pub size : Ring A → ℕ
  size q = q.count

-- One call of a queue, by whichever task makes it.
pub data Op {ℓ} (A : Type ℓ) : Type ℓ where
  put : A → Op A
  get : Op A

-- What the caller sees: whether it was accepted, or what came out.
pub data Reply {ℓ} (A : Type ℓ) : Type ℓ where
  pushed : Bool → Reply A
  popped : Option A → Reply A

module _ {ℓ} {A : Type ℓ} (blank : A) where
  unfoldable pub step : Op A → Ring A → Reply A × Ring A
  step (put a) q = let (r, q') = push q a in (pushed r, q')
  step get q = let (r, q') = pop blank q in (popped r, q')

  unfoldable pub run : List (Op A) → Ring A → List (Reply A) × Ring A
  run List.[] q = (List.[], q)
  run (List.◌∷◌ op ops) q =
      let (r, q') = step op q in let (rs, q'') = run ops q' in (List.◌∷◌ r rs, q'')
