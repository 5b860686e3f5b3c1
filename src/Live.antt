-- ===== src/Live.antt =====
-- live_control.cpp: what the performer's controls are bound to, and what an event does.
pub mod Params
pub mod Toggle
mod Tests
use esp_glow.Prelude.{
  ℕ, zero, suc, ◌+◌, ◌-◌, ◌*◌, ◌%◌, ◌^◌, Bool, true, false, not, ◌&&◌, ◌||◌, Option, none, some,
  List, [], ◌∷◌, ◌++◌, if◌then◌else◌, ltb, leb, ◌==◌, length, get_elem?, set, bit_or,
}
use esp_glow.Prelude.Float.{FloatOps, clamp_01}
use esp_glow.Midi.Event.{
  ControlType, button, fader, aftertouch, pitch_bend, program, ControlEvent, same_type,
}
use esp_glow.Mdef.{MidiControllerProfile}
use esp_glow.Mdef.Lookup.{find_pad_channel_range, find_fader_channel_range}
use esp_glow.Show.Control.{ShowController, go, release, go_scene, release_scene, set_manual_level}

pub data ActionKind : Type 0 where
  cue_flash cue_toggle scene_go scene_toggle master cue_level param_set : ActionKind

pub record Binding : Type 0 where
  pub type : ControlType
  pub control_id : ℕ
  pub action : ActionKind
  pub target_id : ℕ
  pub latched : Bool

-- A name is its bytes.
pub record ParamSlot (F : Type 0) : Type 0 where
  pub name : List ℕ
  pub value : F

-- `show` is the controller that `ctrl_` refers to; `profile` is none for nullptr.
pub record LiveControl (F : Type 0) : Type 0 where
  pub show : ShowController F
  pub bindings : List Binding
  pub params : List (ParamSlot F)
  pub master_level : F
  pub program_scene_enabled : Bool
  pub profile : Option MidiControllerProfile

-- the channel is a uint8_t, the id a uint16_t
unfoldable pub pack_channel_control_id : ℕ → ℕ → ℕ
pack_channel_control_id channel id = bit_or (channel * 2 ^ 8) id % 2 ^ 16

-- `findFaderChannelRange` for the profile, if there is one
unfoldable pub resolve_fader_binding_id : Option MidiControllerProfile → ℕ → ℕ
unfolding find_fader_channel_range pack_channel_control_id
resolve_fader_binding_id none cc = (128 + cc) % 2 ^ 16
resolve_fader_binding_id (some p) cc = elim (find_fader_channel_range p cc) [
  | none ↦ (128 + cc) % 2 ^ 16
  | some range ↦ pack_channel_control_id range.channel_from ((128 + cc) % 2 ^ 16)
]

unfoldable pub same_name : List ℕ → List ℕ → Bool
same_name [] [] = true
same_name [] (b ∷ bs) = false
same_name (a ∷ xs) [] = false
same_name (a ∷ xs) (b ∷ bs) = let rest = same_name xs bs in if a == b then rest else false

abbrev pub later : Option ℕ → Option ℕ
later none = none
later (some i) = some (suc i)

abbrev pub matches : ControlType → ℕ → Binding → Bool
matches type control_id b = same_type b.type type && b.control_id == control_id

-- the index of the first binding of a control
unfoldable pub find_binding : ControlType → ℕ → List Binding → Option ℕ
find_binding type control_id [] = none
find_binding type control_id (b ∷ bs) =
    let rest = find_binding type control_id bs in
    if matches type control_id b then some 0 else later rest

unfoldable pub effective_id : {F : Type 0} → Option MidiControllerProfile → ControlEvent F → ℕ
unfolding find_pad_channel_range find_fader_channel_range pack_channel_control_id
effective_id none ev = ev.id
effective_id (some p) ev =
    let packed = pack_channel_control_id ev.channel ev.id in
    if same_type ev.type button
    then elim (find_pad_channel_range p (ev.id % 2 ^ 8)) [ none ↦ ev.id | some r ↦ packed ]
    else if same_type ev.type fader && leb 128 ev.id
    then elim (find_fader_channel_range p ((ev.id - 128) % 2 ^ 8)) [
      | none ↦ ev.id
      | some r ↦ packed
    ]
    else ev.id

abbrev pub is_continuous_type : ControlType → Bool
is_continuous_type fader = true
is_continuous_type pitch_bend = true
is_continuous_type aftertouch = true
is_continuous_type button = false
is_continuous_type program = false

module _ {F : Type 0} where
  unfoldable pub bind_continuous : ControlType → ℕ → ActionKind → ℕ → LiveControl F → LiveControl F
  bind_continuous type control_id action target_id c = record c {
    bindings =
        c.bindings
        ++ (record {
          type = type;
          control_id = control_id;
          action = action;
          target_id = target_id;
          latched = false;
        }
            ∷ []);
  }

  unfoldable pub bind_button : ℕ → ActionKind → ℕ → LiveControl F → LiveControl F
  unfolding bind_continuous
  bind_button control_id action target_id c = bind_continuous button control_id action target_id c

  unfoldable pub bind_fader : ℕ → ActionKind → ℕ → LiveControl F → LiveControl F
  unfolding bind_continuous
  bind_fader control_id action target_id c = bind_continuous fader control_id action target_id c

  unfoldable pub bind_pitch_bend : ActionKind → ℕ → LiveControl F → LiveControl F
  unfolding bind_continuous
  bind_pitch_bend action target_id c = bind_continuous pitch_bend 0 action target_id c

  unfoldable pub bind_pressure : ActionKind → ℕ → LiveControl F → LiveControl F
  unfolding bind_continuous
  bind_pressure action target_id c = bind_continuous aftertouch 0 action target_id c

  unfoldable pub bind_program : LiveControl F → LiveControl F
  bind_program c = record c { program_scene_enabled = true }

  unfoldable pub clear : LiveControl F → LiveControl F
  clear c = record c { bindings = []; params = []; program_scene_enabled = false }

  -- the index of the first slot of a name
  unfoldable pub find_param : List ℕ → List (ParamSlot F) → Option ℕ
  unfolding same_name
  find_param name [] = none
  find_param name (p ∷ ps) =
      let rest = find_param name ps in if same_name p.name name then some 0 else later rest

module _ {F : Type 0} ⦃fl : FloatOps F⦄ where
  unfoldable pub intern_param : List ℕ → LiveControl F → ℕ × LiveControl F
  unfolding find_param
  intern_param name c = elim (find_param name c.params) [
    | some i ↦ (i % 2 ^ 16, c)
    | none ↦ (
      length c.params % 2 ^ 16,
      record c { params = c.params ++ (record { name = name; value = fl.of_nat 0 } ∷ []) },
    )
  ]

  unfoldable pub param_value : List ℕ → List (ParamSlot F) → F
  unfolding same_name
  param_value name [] = fl.of_nat 0
  param_value name (p ∷ ps) =
      let rest = param_value name ps in if same_name p.name name then p.value else rest

  abbrev pub set_value : F → ℕ → List (ParamSlot F) → List (ParamSlot F)
  set_value v i ps = elim (get_elem? ps i) [
    | none ↦ ps
    | some p ↦ set ps i (record p { value = v })
  ]

  unfoldable pub handle_continuous : Binding → F → LiveControl F → LiveControl F
  handle_continuous b val c =
      let v = clamp_01 val in
      elim b.action [
        | master ↦ record c { master_level = v }
        | cue_level ↦ record c { show = set_manual_level b.target_id v c.show }
        | param_set ↦ record c { params = set_value v b.target_id c.params }
        | cue_flash ↦ c
        | cue_toggle ↦ c
        | scene_go ↦ c
        | scene_toggle ↦ c
      ]

  -- a press of a latching control: the show's call, and the latch
  abbrev pub toggled :
      (ℕ → F → ShowController F → ShowController F)
      → (ℕ → F → ShowController F → ShowController F)
      → ℕ
      → Binding
      → F
      → LiveControl F
      → LiveControl F
  toggled start stop i b t c = record c {
    show = if b.latched then stop b.target_id t c.show else start b.target_id t c.show;
    bindings = set c.bindings i (record b { latched = not b.latched });
  }

  -- by the binding's action
  unfoldable pub handle_button : ActionKind → ℕ → Binding → Bool → F → LiveControl F → LiveControl F
  handle_button cue_flash i b pressed t c = record c {
    show = if pressed then go b.target_id t c.show else release b.target_id t c.show;
  }
  handle_button cue_toggle i b pressed t c = if pressed then toggled go release i b t c else c
  handle_button scene_go i b pressed t c = record c {
    show = if pressed then go_scene b.target_id t c.show else release_scene b.target_id t c.show;
  }
  handle_button scene_toggle i b pressed t c =
      if pressed then toggled go_scene release_scene i b t c else c
  handle_button master i b pressed t c = c
  handle_button cue_level i b pressed t c = c
  handle_button param_set i b pressed t c = c

  -- what a bound event does, with its binding at index `i`
  unfoldable pub handle_bound :
      ControlEvent F → F → ℕ → Option Binding → LiveControl F → LiveControl F
  unfolding handle_button handle_continuous
  handle_bound ev t i none c = c
  handle_bound ev t i (some b) c =
      if same_type ev.type button
      then handle_button b.action i b ev.pressed t c
      else if is_continuous_type ev.type
      then handle_continuous b ev.value c
      else c

  unfoldable pub handle : ControlEvent F → F → LiveControl F → LiveControl F
  unfolding find_binding effective_id handle_bound
  handle ev t c =
      if same_type ev.type program
      then (if c.program_scene_enabled then record c { show = go_scene ev.id t c.show } else c)
      else elim (find_binding ev.type (effective_id c.profile ev) c.bindings) [
        | none ↦ c
        | some i ↦ handle_bound ev t i (get_elem? c.bindings i) c
      ]
