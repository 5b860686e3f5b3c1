-- ===== src/Show/Control/Evaluate.antt =====
-- `ShowController::evaluate`: the live cues, in order of priority and then of activation, blend their
-- intents, highest takes precedence for intensities and latest takes precedence for the rest.
pub mod Merge
pub mod Sorting
pub mod Contributions
use esp_glow.Prelude.{
  ℕ, ◌+◌, Bool, true, false, not, ◌&&◌, ◌||◌, Option, none, some, List, [], ◌∷◌, ◌++◌,
  if◌then◌else◌, ltb, leb, ◌==◌, get_elem?, get_or, set, map,
}
use esp_glow.Prelude.Float.{FloatOps}
use esp_glow.Show.Intent.{Effect, CapIntent, AimIntent}
use esp_glow.Show.Control.{Cue, ShowController, weight_and_alive}
use Merge.{WorkingCap, WorkingAim, merge_caps, merge_aims, cap_out, aim_out}

-- `std::sort` on the positions, as an insertion sort. Where no two of the cues have both priority
-- and activation number in common, every sort gives this order.
unfoldable pub insert_by : (ℕ → ℕ → Bool) → ℕ → List ℕ → List ℕ
insert_by less i [] = i ∷ []
insert_by less i (j ∷ js) =
    let rest = insert_by less i js in if less j i then j ∷ rest else i ∷ j ∷ js

unfoldable pub sort_by : (ℕ → ℕ → Bool) → List ℕ → List ℕ
unfolding insert_by
sort_by less [] = []
sort_by less (i ∷ is) = insert_by less i (sort_by less is)

-- the lambda that `std::sort` is given, on the two fields that it reads
unfoldable pub key_less : ℕ → ℕ → ℕ → ℕ → Bool
key_less prio_a seq_a prio_b seq_b =
    if not (prio_a == prio_b) then ltb prio_a prio_b else ltb seq_a seq_b

module _ {F : Type 0} where
  -- `activeCues_` before sorting, as the positions of the cues that it points to
  unfoldable pub active_from : ℕ → List (Cue F) → List ℕ
  active_from i [] = []
  active_from i (cue ∷ cues) =
      let rest = active_from (i + 1) cues in if cue.active then i ∷ rest else rest

  -- The fields of the cue at a position; every position sorted is one of a cue.
  abbrev pub prio_of : Option (Cue F) → ℕ
  prio_of none = 0
  prio_of (some cue) = cue.priority

  abbrev pub seq_of : Option (Cue F) → ℕ
  seq_of none = 0
  seq_of (some cue) = cue.activation_seq

  abbrev pub prio_at : List (Cue F) → ℕ → ℕ
  prio_at cues i = prio_of (get_elem? cues i)

  abbrev pub seq_at : List (Cue F) → ℕ → ℕ
  seq_at cues i = seq_of (get_elem? cues i)

  unfoldable pub order_of : List (Cue F) → ℕ → ℕ → Bool
  unfolding key_less
  order_of cues i j = key_less (prio_at cues i) (seq_at cues i) (prio_at cues j) (seq_at cues j)

  -- `tempCaps_` and `tempAims_`: every effect of a cue appends its intents
  unfoldable pub run_effects : List (Effect F) → F → List (CapIntent F) × List (AimIntent F)
  run_effects [] t = ([], [])
  run_effects (fx ∷ fxs) t =
      let (caps, aims) = fx t in
      let (caps', aims') = run_effects fxs t in (caps ++ caps', aims ++ aims')

-- What the loop over the sorted cues carries.
pub record Working (F : Type 0) : Type 0 where
  pub cues : List (Cue F)
  pub caps : List (WorkingCap F)
  pub aims : List (WorkingAim F)

module _ {F : Type 0} ⦃fl : FloatOps F⦄ where
  -- One round: a cue that has run out is switched off, one of no weight is skipped.
  unfoldable pub blend_cue : F → ℕ → Working F → Working F
  unfolding weight_and_alive run_effects
  blend_cue t i w = elim (get_elem? w.cues i) [
    | none ↦ w
    | some cue ↦
        let (weight, alive) = weight_and_alive cue t in
        let (caps, aims) = run_effects cue.effects t in
        if not alive
        then record w { cues = set w.cues i (record cue { active = false }) }
        else if fl.less_eq weight (fl.of_nat 0)
        then w
        else record w {
          caps = merge_caps cue.priority cue.activation_seq weight caps w.caps;
          aims = merge_aims cue.priority cue.activation_seq aims w.aims;
        }
  ]

  unfoldable pub blend_all : F → List ℕ → Working F → Working F
  unfolding blend_cue
  blend_all t [] w = w
  blend_all t (i ∷ is) w = blend_all t is (blend_cue t i w)

  unfoldable pub evaluate :
      F → ShowController F → (List (CapIntent F) × List (AimIntent F)) × ShowController F
  unfolding active_from sort_by order_of blend_all
  evaluate t c =
      let sorted = sort_by (order_of c.cues) (active_from 0 c.cues) in
      let w = blend_all t sorted (record { cues = c.cues; caps = []; aims = [] }) in
      ((map cap_out w.caps, map aim_out w.aims), record c { cues = w.cues })
