-- ===== src/Live/Tests.antt =====
-- Runs of the live bindings at concrete inputs.
use esp_glow.Prelude.{ℕ, ◌≡◌, refl, arith, false, none, [], ◌∷◌}
use esp_glow.Prelude.Float.{milli, clamp_01}
use esp_glow.Midi.Event.{button, fader}
use esp_glow.Show.Control.{ShowController, go, release}
use esp_glow.Live.{
  Binding, cue_toggle, param_set, LiveControl, find_binding, effective_id, handle,
  handle_continuous, intern_param, param_value, find_param, same_name,
}
use esp_glow.Live.Toggle.{press, handle-toggle_twice}
use esp_glow.Live.Params.{intern_param-param_value}

abbrev no_cues : ShowController ℕ
no_cues = record { cues = []; scenes = []; next_activation_seq = 0 }

abbrev toggle : Binding
toggle = record {
  type = button;
  control_id = 60;
  action = cue_toggle;
  target_id = 2;
  latched = false;
}

abbrev live : LiveControl ℕ
live = record {
  show = no_cues;
  bindings = toggle ∷ [];
  params = record { name = 104 ∷ []; value = 500 } ∷ [];
  master_level = 1000;
  program_scene_enabled = false;
  profile = none;
}

toggle_twice_example :
    handle ⦃fl = milli⦄ (press 60 0 0) 7 (handle ⦃fl = milli⦄ (press 60 0 0) 5 live)
    ≡ record live { show = release ⦃fl = milli⦄ 2 7 (go ⦃fl = milli⦄ 2 5 no_cues) }
unfolding find_binding effective_id
toggle_twice_example = handle-toggle_twice ⦃fl = milli⦄ 60 0 0 0 5 7 live toggle refl refl refl refl

-- "x" is new, and gets slot 1
abbrev drives : Binding
drives = record {
  type = fader;
  control_id = 130;
  action = param_set;
  target_id = 1;
  latched = false;
}

intern_param_example :
    (intern_param ⦃fl = milli⦄ (120 ∷ []) (intern_param ⦃fl = milli⦄ (120 ∷ []) live).1
      ≡ intern_param ⦃fl = milli⦄ (120 ∷ []) live)
    × (param_value ⦃fl = milli⦄
          (120 ∷ [])
          (handle_continuous ⦃fl = milli⦄ drives 300
            (intern_param ⦃fl = milli⦄ (120 ∷ []) live).1).params
        ≡ clamp_01 ⦃fl = milli⦄ 300)
unfolding intern_param find_param same_name
intern_param_example =
    intern_param-param_value ⦃fl = milli⦄ (120 ∷ []) live drives 300 (omega arith) refl refl
