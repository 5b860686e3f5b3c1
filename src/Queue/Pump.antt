-- ===== src/Queue/Pump.antt =====
-- pumpControlEvents and pumpBeatEvents: the render task's drain of a queue, once a frame.
use esp_glow.Prelude.{
  ℕ, zero, suc, ◌≡◌, refl, ap, ◌∙◌, arith, none, some, List, [], ◌∷◌, length, take, drop, min,
}
use esp_glow.Queue.{Ring, pop}
use esp_glow.Queue.Bounded
use esp_glow.Queue.Inv.{IsValid, pop-IsValid}
use esp_glow.Queue.Refine.{contents, pop_lem}

-- the listener's state after a list of events
abbrev pub handle_all {ℓ κ} : {A : Type ℓ} {S : Type κ} → (A → S → S) → List A → S → S
handle_all handle [] s = s
handle_all handle (ev ∷ evs) s = handle_all handle evs (handle ev s)

module _ {ℓ κ} {A : Type ℓ} {S : Type κ} (blank : A) (handle : A → S → S) where
  -- The loop's rounds are `maxPerFrame - dispatched`; a negative `maxPerFrame` acts as 0. The
  -- result is the number dispatched, the queue and the listener.
  unfoldable pub pump : ℕ → Ring A → S → ℕ × Ring A × S
  pump zero q s = (0, q, s)
  pump (suc rounds) q s =
      let (got, q') = pop blank q in
      elim got [
        | none ↦ (0, q', s)
        | some ev ↦ let (n, q'', s') = pump rounds q' (handle ev s) in (suc n, q'', s')
      ]

  -- What one frame does: the oldest `rounds` events, or all if there are fewer, are handled oldest
  -- first and leave the queue, the number returned is theirs, and the rest stays in order.
  pub record Pumped (rounds : ℕ) (items : List A) (s : S) (r : ℕ × Ring A × S) : Type (ℓ ⊔ κ) where
    pub number : r.0 ≡ min rounds (length items)
    pub listener : r.2 ≡ handle_all handle (take rounds items) s
    pub left_over : contents blank r.1 ≡ drop rounds items
    pub valid : IsValid r.1

  -- One frame's pump on a valid queue handles the oldest `rounds` events, or all if there are fewer, oldest
  -- first, returns their number, and leaves the rest in the queue in order, the queue valid.
  pub pump_lem :
      (rounds : ℕ) (items : List A) {q : Ring A} (s : S)
      → IsValid q
      → contents blank q ≡ items
      → Pumped rounds items s (pump rounds q s)
  unfolding pump
  pump_lem zero items s v e = record {
    number = omega arith;
    listener = refl;
    left_over = e;
    valid = v;
  }
  pump_lem (suc rounds) [] {q} s v e =
      let (out, left, _) = pop_lem blank v in
      rw (out ∙ ap Bounded.first e, pump)
        (record {
          number = omega arith;
          listener = refl;
          left_over = left ∙ ap Bounded.behind e;
          valid = pop-IsValid blank v;
        })
  pump_lem (suc rounds) (ev ∷ evs) {q} s v e =
      let (out, left, _) = pop_lem blank v in
      let ih =
        pump_lem rounds evs (handle ev s) (pop-IsValid blank v) (left ∙ ap Bounded.behind e) in
      rw (out ∙ ap Bounded.first e, pump)
        (record {
          number = omega (arith, ih.number);
          listener = ih.listener;
          left_over = ih.left_over;
          valid = ih.valid;
        })
