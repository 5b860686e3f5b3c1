-- ===== src/Show/Control.antt =====
-- `ShowController` of show_control.cpp: the cues, their state, and the calls that change it.
pub mod Evaluate
pub mod Blend
pub mod State
pub mod Settle
pub mod Fade
use esp_glow.Prelude.{
  ℕ, ◌+◌, ◌-◌, ◌%◌, ◌^◌, Bool, true, false, not, ◌&&◌, ◌||◌, Option, none, some, List, [], ◌∷◌,
  ◌++◌, if◌then◌else◌, ltb, length, get_elem?, set, map,
}
use esp_glow.Prelude.Float.{FloatOps, clamp_01}
use esp_glow.Show.Intent.{Effect}

pub record Cue (F : Type 0) : Type 0 where
  pub effects : List (Effect F)
  pub fade_in_sec : F
  pub fade_out_sec : F
  pub priority : ℕ
  pub hold_sec : F
  pub active : Bool
  pub go_time : F
  pub activation_seq : ℕ
  pub released : Bool
  pub release_time : F
  pub release_weight : F
  pub manual_override : Bool
  pub manual_level : F

-- The scratch vectors of the class are cleared by each `evaluate`, and are no state.
pub record ShowController (F : Type 0) : Type 0 where
  pub cues : List (Cue F)
  pub scenes : List (List ℕ)
  pub next_activation_seq : ℕ

-- `nextActivationSeq_++`, on a uint32_t
abbrev pub next_seq : ℕ → ℕ
next_seq n = (n + 1) % 2 ^ 32

module _ {F : Type 0} where
  unfoldable pub find_cue : ShowController F → ℕ → Option (Cue F)
  find_cue c id = get_elem? c.cues id

  unfoldable pub is_active : ShowController F → ℕ → Bool
  unfolding find_cue
  is_active c id = elim (find_cue c id) [ none ↦ false | some cue ↦ cue.active ]

  unfoldable pub any_active_in : List (Cue F) → Bool
  any_active_in [] = false
  any_active_in (cue ∷ cues) = let rest = any_active_in cues in if cue.active then true else rest

  unfoldable pub any_active : ShowController F → Bool
  unfolding any_active_in
  any_active c = any_active_in c.cues

  -- `activeCueIds`, from cue number `i` on, with room for `room` ids
  unfoldable pub active_ids_from : ℕ → ℕ → List (Cue F) → List ℕ
  active_ids_from i room [] = []
  active_ids_from i room (cue ∷ cues) =
      let rest = active_ids_from (i + 1) (if cue.active then room - 1 else room) cues in
      if ltb 0 room then (if cue.active then (i % 2 ^ 16) ∷ rest else rest) else []

  unfoldable pub active_cue_ids : ShowController F → ℕ → List ℕ
  unfolding active_ids_from
  active_cue_ids c cap = active_ids_from 0 cap c.cues

  unfoldable pub stop_cue : Cue F → Cue F
  stop_cue cue = record cue { active = false; released = false; manual_override = false }

  unfoldable pub stop_all : ShowController F → ShowController F
  unfolding stop_cue
  stop_all c = record c { cues = map stop_cue c.cues }

  unfoldable pub add_scene : List ℕ → ShowController F → ℕ × ShowController F
  add_scene cue_ids c = (length c.scenes % 2 ^ 16, record c { scenes = c.scenes ++ (cue_ids ∷ []) })

module _ {F : Type 0} ⦃fl : FloatOps F⦄ where
  unfoldable pub add_cue : List (Effect F) → F → F → ℕ → F → ShowController F → ℕ × ShowController F
  add_cue effects fade_in fade_out priority hold c = (
    length c.cues % 2 ^ 16,
    record c {
      cues =
          c.cues
          ++ (record {
            effects = effects;
            fade_in_sec = fade_in;
            fade_out_sec = fade_out;
            priority = priority;
            hold_sec = hold;
            active = false;
            go_time = fl.of_nat 0;
            activation_seq = 0;
            released = false;
            release_time = fl.of_nat 0;
            release_weight = fl.of_nat 0;
            manual_override = false;
            manual_level = fl.of_nat 0;
          }
              ∷ []);
    },
  )

  -- The fade state machine: the weight, and whether the cue goes on.
  unfoldable pub faded_out : F → F → F → F × Bool
  faded_out from elapsed fade_out =
      if fl.less_eq fade_out (fl.of_nat 0)
      then (fl.of_nat 0, false)
      else (let fo = fl.div elapsed fade_out in
          if fl.less_eq (fl.of_nat 1) fo
          then (fl.of_nat 0, false)
          else (fl.mul from (fl.sub (fl.of_nat 1) fo), true))

  unfoldable pub weight_and_alive : Cue F → F → F × Bool
  unfolding faded_out
  weight_and_alive cue t =
      let zero_f = fl.of_nat 0 in
      let one_f = fl.of_nat 1 in
      let e = fl.sub t cue.go_time in
      let fading_in = fl.less zero_f cue.fade_in_sec in
      let held_end = fl.add (if fading_in then cue.fade_in_sec else zero_f) cue.hold_sec in
      if cue.manual_override
      then (cue.manual_level, true)
      else if not cue.active
      then (zero_f, false)
      else if cue.released
      then faded_out cue.release_weight (fl.sub t cue.release_time) cue.fade_out_sec
      else if fl.less e zero_f
      then (zero_f, true)
      else if fading_in && fl.less e cue.fade_in_sec
      then (fl.div e cue.fade_in_sec, true)
      else if fl.less_eq cue.hold_sec zero_f
      then (one_f, true)
      else if fl.less e held_end
      then (one_f, true)
      else (if fl.less_eq cue.fade_out_sec zero_f
          then (zero_f, false)
          else (let fo = fl.div (fl.sub e held_end) cue.fade_out_sec in
              if fl.less_eq one_f fo then (zero_f, false) else (fl.sub one_f fo, true)))

  unfoldable pub go : ℕ → F → ShowController F → ShowController F
  unfolding find_cue
  go id t c = elim (find_cue c id) [
    | none ↦ c
    | some cue ↦ record c {
      cues = set c.cues id (record cue {
        active = true;
        go_time = t;
        released = false;
        activation_seq = c.next_activation_seq;
      });
      next_activation_seq = next_seq c.next_activation_seq;
    }
  ]

  unfoldable pub release : ℕ → F → ShowController F → ShowController F
  unfolding find_cue weight_and_alive
  release id t c = elim (find_cue c id) [
    | none ↦ c
    | some cue ↦ if not cue.active || cue.released then c else record c {
      cues = set c.cues id (record cue {
        released = true;
        release_time = t;
        release_weight = (weight_and_alive cue t).0;
      });
    }
  ]

  -- the loop over a scene's cues
  unfoldable pub each_cue :
      (ℕ → F → ShowController F → ShowController F)
      → List ℕ
      → F
      → ShowController F
      → ShowController F
  each_cue call [] t c = c
  each_cue call (id ∷ ids) t c = each_cue call ids t (call id t c)

  unfoldable pub go_scene : ℕ → F → ShowController F → ShowController F
  unfolding each_cue
  go_scene id t c = elim (get_elem? c.scenes id) [
    | none ↦ c
    | some cue_ids ↦ each_cue go cue_ids t c
  ]

  unfoldable pub release_scene : ℕ → F → ShowController F → ShowController F
  unfolding each_cue
  release_scene id t c = elim (get_elem? c.scenes id) [
    | none ↦ c
    | some cue_ids ↦ each_cue release cue_ids t c
  ]

  unfoldable pub set_manual_level : ℕ → F → ShowController F → ShowController F
  unfolding find_cue
  set_manual_level id level c = elim (find_cue c id) [
    | none ↦ c
    | some cue ↦
        let clamped = clamp_01 level in
        if fl.less (fl.of_nat 0) clamped
        then record c {
          cues = set c.cues id (record cue {
            activation_seq = if cue.active then cue.activation_seq else c.next_activation_seq;
            active = true;
            released = false;
            manual_override = true;
            manual_level = clamped;
          });
          next_activation_seq =
              if cue.active then c.next_activation_seq else next_seq c.next_activation_seq;
        }
        else record c {
          cues =
              set c.cues id (record cue {
                manual_override = false;
                manual_level = fl.of_nat 0;
                active = false;
              });
        }
  ]
