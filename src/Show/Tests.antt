-- ===== src/Show/Tests.antt =====
-- Runs of the show controller at concrete inputs.
use esp_glow.Prelude.{
  ℕ, ◌≡◌, refl, arith, true, false, ◌&&◌, if◌then◌else◌, none, some, [], ◌∷◌, get_elem?,
}
use esp_glow.Prelude.Int.{negsuc}
use esp_glow.Prelude.Float.{IsOrdered, milli}
use esp_glow.Fixture.Capability
use esp_glow.Show.Intent.{Effect}
use esp_glow.Show.Control.{
  Cue, ShowController, weight_and_alive, find_cue, release, set_manual_level, stop_all, is_active,
  any_active,
}
use esp_glow.Show.Control.Evaluate.{
  evaluate, run_effects, active_from, sort_by, insert_by, order_of, key_less,
}
use esp_glow.Show.Control.Evaluate.Merge.{WorkingCap, is_htp, is_intensity_class, cap_out}
use esp_glow.Show.Control.Evaluate.Contributions.{
  Contribution, contributions, contributions_at, contributed, cue_contributions, ranked,
}
use esp_glow.Show.Control.Blend.{for_channel}
use esp_glow.Show.Control.Blend.Ranked.{Ranked}
use esp_glow.Show.Control.Blend.Precedence.{output_for, IsHighest, evaluate_ltp, evaluate_htp}
use esp_glow.Show.Control.State.{stop_all-dark}
use esp_glow.Show.Control.Settle.{expired, evaluate-cues}
use esp_glow.Show.Control.Fade.{
  FadeLaws, release-weight_and_alive, set_manual_level-weight_and_alive,
}

-- an effect that sets a channel of fixture 1 to a level in thousandths
abbrev sets : ℕ → ℕ → Effect ℕ
sets cap level = λ t. (
  record { fixture_id = 1; cap = cap; norm01 = level; range_name = none; range_index = negsuc 0 }
      ∷ [],
  [],
)

-- a cue that is held since time 0
abbrev held : Effect ℕ → ℕ → ℕ → Cue ℕ
held fx prio seq = record {
  effects = fx ∷ [];
  fade_in_sec = 0;
  fade_out_sec = 2000;
  priority = prio;
  hold_sec = 0;
  active = true;
  go_time = 0;
  activation_seq = seq;
  released = false;
  release_time = 0;
  release_weight = 0;
  manual_override = false;
  manual_level = 0;
}

abbrev dimming : ShowController ℕ
dimming = record {
  cues = held (sets Capability.dimmer 800) 5 3 ∷ held (sets Capability.dimmer 300) 5 1 ∷ [];
  scenes = [];
  next_activation_seq = 4;
}

abbrev panning : ShowController ℕ
panning = record {
  cues = held (sets Capability.pan 800) 5 3 ∷ held (sets Capability.pan 300) 5 1 ∷ [];
  scenes = [];
  next_activation_seq = 4;
}

abbrev part : ℕ → ℕ → ℕ → Contribution ℕ
part cap seq level = record {
  prio = 5;
  seq = seq;
  weight = 1000;
  intent = record {
    fixture_id = 1;
    cap = cap;
    norm01 = level;
    range_name = none;
    range_index = negsuc 0;
  };
}

parts-dimming :
    for_channel 1 0 (contributions ⦃fl = milli⦄ 1000 dimming) ≡ part 0 1 300 ∷ part 0 3 800 ∷ []
unfolding for_channel contributions contributions_at contributed cue_contributions ranked
    weight_and_alive run_effects active_from sort_by order_of key_less insert_by
parts-dimming = refl

parts-panning :
    for_channel 1 10 (contributions ⦃fl = milli⦄ 1000 panning) ≡ part 10 1 300 ∷ part 10 3 800 ∷ []
unfolding for_channel contributions contributions_at contributed cue_contributions ranked
    weight_and_alive run_effects active_from sort_by order_of key_less insert_by
parts-panning = refl

milli-IsOrdered : IsOrdered milli
milli-IsOrdered = record {
  refl_le = λ a. ground arith;
  trans_le = λ a b c h g. ground arith;
  total_le = λ a b. ground arith;
}

milli-FadeLaws : FadeLaws milli 1500 2000 1000
milli-FadeLaws = record {
  sub_self = refl;
  zero_div = refl;
  sub_zero = refl;
  mul_one = refl;
  one_above = refl;
}

evaluate_htp_example :
    (e : WorkingCap ℕ) × (output_for 1 0 (evaluate ⦃fl = milli⦄ 1000 dimming).0.0
      ≡ some (cap_out e))
    × IsHighest ⦃fl = milli⦄ (part 0 1 300 ∷ part 0 3 800 ∷ []) e
unfolding is_htp is_intensity_class
evaluate_htp_example =
    evaluate_htp ⦃fl = milli⦄ milli-IsOrdered 1000 dimming 1 0 (part 0 1 300) (part 0 3 800 ∷ [])
      parts-dimming (refl, (refl, tt))

evaluate_ltp_example :
    (output_for 1 10 (evaluate ⦃fl = milli⦄ 1000 panning).0.0 ≡ some (part 10 3 800).intent)
    × Ranked (part 10 1 300 ∷ part 10 3 800 ∷ [])
unfolding is_htp is_intensity_class
evaluate_ltp_example =
    evaluate_ltp ⦃fl = milli⦄ 1000 panning 1 10 (part 10 1 300) (part 10 3 800 ∷ []) parts-panning
      (refl, (refl, tt))

stop_all_example :
    ((id : ℕ) → is_active (stop_all dimming) id ≡ false)
    × (any_active (stop_all dimming) ≡ false)
    × ((evaluate ⦃fl = milli⦄ 1000 (stop_all dimming)).0 ≡ ([], []))
stop_all_example = stop_all-dark ⦃fl = milli⦄ 1000 dimming

-- cue 0 of a show, released at 1 s with 2 s to fade
abbrev fading : Cue ℕ
fading = record (held (sets 0 800) 5 3) {
  released = true;
  release_time = 1000;
  release_weight = 1000;
}

abbrev fading_show : ShowController ℕ
fading_show = record dimming { cues = fading ∷ [] }

evaluate-cues_example :
    get_elem? (evaluate ⦃fl = milli⦄ 4000 fading_show).1.cues 0
    ≡ some (
        if fading.active && expired ⦃fl = milli⦄ 4000 fading
        then record fading { active = false }
        else fading)
evaluate-cues_example = evaluate-cues ⦃fl = milli⦄ 4000 fading_show 0 fading refl

release_example :
    (cue' : Cue ℕ) × (find_cue (release ⦃fl = milli⦄ 0 1500 dimming) 0 ≡ some cue')
    × (cue'.released ≡ true)
    × ((weight_and_alive ⦃fl = milli⦄ cue' 1500).0
        ≡ (weight_and_alive ⦃fl = milli⦄ (held (sets 0 800) 5 3) 1500).0)
unfolding find_cue weight_and_alive
release_example =
    release-weight_and_alive ⦃fl = milli⦄ 0 1500 dimming (held (sets 0 800) 5 3) milli-FadeLaws refl
      refl refl refl

set_manual_level_example :
    (cue' : Cue ℕ) × (find_cue (set_manual_level ⦃fl = milli⦄ 1 1700 dimming) 1 ≡ some cue')
    × (cue'.active ≡ true)
    × ((t : ℕ) → weight_and_alive ⦃fl = milli⦄ cue' t ≡ (1000, true))
unfolding find_cue
set_manual_level_example =
    set_manual_level-weight_and_alive ⦃fl = milli⦄ 1 1700 dimming (held (sets 0 300) 5 1) refl refl
