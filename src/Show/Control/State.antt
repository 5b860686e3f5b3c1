-- ===== src/Show/Control/State.antt =====
-- What the calls of `ShowController` do to the cues: who is active, and when that changes.
use esp_glow.Prelude.{
  ℕ, zero, suc, ◌+◌, ◌-◌, ◌%◌, ◌^◌, ◌≡◌, refl, ap, arith, true, false, inl, inr, Bool-cases, none,
  some, List, [], ◌∷◌, map, get_elem?, take, ltb, lt→ltb,
}
use esp_glow.Prelude.Float.{FloatOps}
use esp_glow.Show.Control.{
  Cue, ShowController, is_active, any_active, any_active_in, active_ids_from, active_cue_ids,
  stop_cue, stop_all,
}
use esp_glow.Show.Control.Evaluate.{evaluate, active_from, sort_by, blend_all}

module _ {F : Type 0} where
  stopped-get_elem? :
      (cues : List (Cue F)) (id : ℕ)
      → elim (get_elem? (map stop_cue cues) id) [ none ↦ false | some cue ↦ cue.active ] ≡ false
  unfolding stop_cue
  stopped-get_elem? [] id = refl
  stopped-get_elem? (cue ∷ cues) zero = refl
  stopped-get_elem? (cue ∷ cues) (suc id) = stopped-get_elem? cues id

  stopped-any_active_in : (cues : List (Cue F)) → any_active_in (map stop_cue cues) ≡ false
  unfolding any_active_in stop_cue
  stopped-any_active_in [] = refl
  stopped-any_active_in (cue ∷ cues) = stopped-any_active_in cues

  stopped-active_from : (i : ℕ) (cues : List (Cue F)) → active_from i (map stop_cue cues) ≡ []
  unfolding active_from stop_cue
  stopped-active_from i [] = refl
  stopped-active_from i (cue ∷ cues) = stopped-active_from (i + 1) cues

  active_ids_from_lem :
      (i room : ℕ) (cues : List (Cue F))
      → active_ids_from i room cues ≡ take room (map (λ j. j % 2 ^ 16) (active_from i cues))
  unfolding active_ids_from active_from
  active_ids_from_lem i zero [] = refl
  active_ids_from_lem i zero (cue ∷ cues) = refl
  active_ids_from_lem i (suc room) [] = refl
  active_ids_from_lem i (suc room) (cue ∷ cues) = elim (Bool-cases cue.active) [
    | inl on ↦
        let less_room : suc room - 1 ≡ room = omega arith in
        let some_room : ltb 0 (suc room) ≡ true = lt→ltb 0 (suc room) (omega arith) in
        rw (on, some_room, less_room)
          (ap (◌∷◌ (i % 2 ^ 16)) (active_ids_from_lem (i + 1) room cues))
    | inr off ↦
        let some_room : ltb 0 (suc room) ≡ true = lt→ltb 0 (suc room) (omega arith) in
        rw (off, some_room) (active_ids_from_lem (i + 1) (suc room) cues)
  ]

  -- `activeCueIds` gives the ids of the active cues, in order, as many as fit into `cap`.
  pub active_cue_ids_lem :
      (c : ShowController F) (cap : ℕ)
      → active_cue_ids c cap ≡ take cap (map (λ i. i % 2 ^ 16) (active_from 0 c.cues))
  unfolding active_cue_ids
  active_cue_ids_lem c cap = active_ids_from_lem 0 cap c.cues

module _ {F : Type 0} ⦃fl : FloatOps F⦄ where
  -- After `stopAll` no cue is active, and the next frame has no intents at all.
  pub stop_all-dark :
      (t : F) (c : ShowController F)
      → ((id : ℕ) → is_active (stop_all c) id ≡ false)
        × (any_active (stop_all c) ≡ false)
        × ((evaluate t (stop_all c)).0 ≡ ([], []))
  unfolding stop_all is_active any_active evaluate
  stop_all-dark t c = (
    λ id. stopped-get_elem? c.cues id,
    stopped-any_active_in c.cues,
    rw (stopped-active_from 0 c.cues) (unfold sort_by blend_all in refl),
  )
