-- ===== src/Show/Control/Fade.antt =====
-- The fade state machine of `ShowController::weightAndAlive` across `release` and `setManualLevel`.
use esp_glow.Prelude.{
  ℕ, ◌≡◌, refl, sym, not, ◌||◌, ap, ◌∙◌, true, false, some, if◌then◌else◌, set, get_elem?,
  get_elem?-lt, get_elem?-set_self, Bool-cases, inl, inr,
}
use esp_glow.Prelude.Float.{FloatOps, clamp_01}
use esp_glow.Show.Control.{
  Cue, ShowController, find_cue, weight_and_alive, release, set_manual_level, faded_out, next_seq,
}

-- The float arithmetic that the start of a fade at time `t` relies on, for a fade-out time and a
-- weight: true of IEEE floats where `t` is finite and `fade_out` is not a NaN.
pub record FadeLaws {F : Type 0} (fl : FloatOps F) (t fade_out weight : F) : Type 0 where
  pub sub_self : fl.sub t t ≡ fl.of_nat 0
  pub zero_div : fl.div (fl.of_nat 0) fade_out ≡ fl.of_nat 0
  pub sub_zero : fl.sub (fl.of_nat 1) (fl.of_nat 0) ≡ fl.of_nat 1
  pub mul_one : fl.mul weight (fl.of_nat 1) ≡ weight
  pub one_above : fl.less_eq (fl.of_nat 1) (fl.of_nat 0) ≡ false

module _ {F : Type 0} ⦃fl : FloatOps F⦄ where
  -- a fade starts at its start weight
  faded_out-start :
      (w t fade_out : F)
      → FadeLaws fl t fade_out w
      → fl.less_eq fade_out (fl.of_nat 0) ≡ false
      → faded_out w (fl.sub t t) fade_out ≡ (w, true)
  unfolding faded_out
  faded_out-start w t fade_out laws h =
      rw (laws.sub_self, h, laws.zero_div, laws.one_above, laws.sub_zero, laws.mul_one) refl

  abbrev released_at : F → Cue F → Cue F
  released_at t cue = record cue {
    released = true;
    release_time = t;
    release_weight = (weight_and_alive cue t).0;
  }

  weight-manual :
      (cue : Cue F) (t : F)
      → cue.manual_override ≡ true
      → weight_and_alive cue t ≡ (cue.manual_level, true)
  unfolding weight_and_alive
  weight-manual cue t h = rw h refl

  weight-released :
      (cue : Cue F) (t : F)
      → cue.manual_override ≡ false
      → cue.active ≡ true
      → cue.released ≡ true
      → weight_and_alive cue t
        ≡ faded_out cue.release_weight (fl.sub t cue.release_time) cue.fade_out_sec
  unfolding weight_and_alive
  weight-released cue t m a r = rw (m, a, r) refl

  released_weight :
      (cue : Cue F) (t : F)
      → FadeLaws fl t cue.fade_out_sec (weight_and_alive cue t).0
      → cue.active ≡ true
      → fl.less_eq cue.fade_out_sec (fl.of_nat 0) ≡ false
      → (weight_and_alive (released_at t cue) t).0 ≡ (weight_and_alive cue t).0
  released_weight cue t laws a h = elim (Bool-cases cue.manual_override) [
    | inl manual ↦
        ap (λ r. r.0)
          (weight-manual (released_at t cue) t manual ∙ sym (weight-manual cue t manual))
    | inr plain ↦
        ap (λ r. r.0)
          (weight-released (released_at t cue) t plain a refl
            ∙ faded_out-start (weight_and_alive cue t).0 t cue.fade_out_sec laws h)
  ]

  release_lem :
      (id : ℕ) (t : F) (c : ShowController F) (cue : Cue F)
      → get_elem? c.cues id ≡ some cue
      → cue.active ≡ true
      → cue.released ≡ false
      → release id t c ≡ record c { cues = set c.cues id (released_at t cue) }
  unfolding release weight_and_alive
  release_lem id t c cue found a r =
      let goes_on : (not cue.active || cue.released) ≡ false = rw (a, r) refl in
      rw (found, release)
        (ap (λ b. if b then c else record c { cues = set c.cues id (released_at t cue) }) goes_on)

  abbrev held_at : F → ShowController F → Cue F → Cue F
  held_at level c cue = record cue {
    activation_seq = if cue.active then cue.activation_seq else c.next_activation_seq;
    active = true;
    released = false;
    manual_override = true;
    manual_level = level;
  }

  set_manual_level_lem :
      (id : ℕ) (level : F) (c : ShowController F) (cue : Cue F)
      → get_elem? c.cues id ≡ some cue
      → fl.less (fl.of_nat 0) (clamp_01 level) ≡ true
      → (set_manual_level id level c).cues ≡ set c.cues id (held_at (clamp_01 level) c cue)
  unfolding set_manual_level
  set_manual_level_lem id level c cue found above =
      rw (found, set_manual_level)
        (ap
          (λ b.
            (if b
              then record c {
                cues = set c.cues id (held_at (clamp_01 level) c cue);
                next_activation_seq =
                    if cue.active then c.next_activation_seq else next_seq c.next_activation_seq;
              }
              else record c {
                cues = set c.cues id (record cue {
                  manual_override = false;
                  manual_level = fl.of_nat 0;
                  active = false;
                });
              }).cues)
          above)

  -- Releasing an active cue that is not yet released, and whose fade-out time is above 0, does not
  -- make its light jump: at the moment of the release its weight is what it was, whether it was
  -- fading in, holding or set by hand. The hypotheses on the float operations are t - t = 0,
  -- 0 / fade-out = 0, 1 - 0 = 1, weight * 1 = weight and not 1 <= 0, at these values only: floats
  -- meet them where the time is finite and the fade-out time is not a NaN.
  pub release-weight_and_alive :
      (id : ℕ) (t : F) (c : ShowController F) (cue : Cue F)
      → FadeLaws fl t cue.fade_out_sec (weight_and_alive cue t).0
      → find_cue c id ≡ some cue
      → cue.active ≡ true
      → cue.released ≡ false
      → fl.less_eq cue.fade_out_sec (fl.of_nat 0) ≡ false
      → (cue' : Cue F) × (find_cue (release id t c) id ≡ some cue')
        × (cue'.released ≡ true)
        × ((weight_and_alive cue' t).0 ≡ (weight_and_alive cue t).0)
  unfolding find_cue
  release-weight_and_alive id t c cue laws found a r h = (
    released_at t cue,
    rw (release_lem id t c cue found a r)
        (get_elem?-set_self c.cues id (released_at t cue) (get_elem?-lt c.cues id found)),
    refl,
    released_weight cue t laws a h,
  )

  -- A cue set by hand to a level above 0 keeps that level, cut to at most 1, at every later time.
  pub set_manual_level-weight_and_alive :
      (id : ℕ) (level : F) (c : ShowController F) (cue : Cue F)
      → find_cue c id ≡ some cue
      → fl.less (fl.of_nat 0) (clamp_01 level) ≡ true
      → (cue' : Cue F) × (find_cue (set_manual_level id level c) id ≡ some cue')
        × (cue'.active ≡ true)
        × ((t : F) → weight_and_alive cue' t ≡ (clamp_01 level, true))
  unfolding find_cue
  set_manual_level-weight_and_alive id level c cue found above =
      let held = held_at (clamp_01 level) c cue in
      (
        held,
        rw (set_manual_level_lem id level c cue found above)
            (get_elem?-set_self c.cues id held (get_elem?-lt c.cues id found)),
        refl,
        λ t. weight-manual held t refl,
      )
