-- ===== src/Show/Render.antt =====
-- A frame's rendering in show.cpp, and safe_blackout.cpp. The aiming of aim.cpp is a parameter: `aim` stands for
-- `aimAtPoint` and `aimDirection` with the pan and tilt of their result. What is sent is a list.
pub mod Kept
mod Tests
use esp_glow.Prelude.{
  ℕ, zero, suc, ◌+◌, ◌*◌, ◌%◌, ◌^◌, Bool, true, false, not, ◌&&◌, Option, none, some, List, [], ◌∷◌,
  ◌++◌, if◌then◌else◌, ltb, leb, ◌==◌, length, get_elem?, set, take, replicate, min,
}
use esp_glow.Prelude.Int.{ℤ, pos, negsuc}
use esp_glow.Prelude.Float.{FloatOps}
use esp_glow.Prelude.Outcome.{Outcome, ok, fault, ◌>>=◌, or_fault, read}
use esp_glow.Fixture.Capability.{Capability, pan, tilt}
use esp_glow.Fixture.Profile.{FixtureProfile}
use esp_glow.Fixture.Apply.{
  Conversions, apply_capability, apply_defaults, apply_range_by_name, apply_range_by_index,
}
use esp_glow.Show.Intent.{CapIntent, AimIntent, Effect}
use esp_glow.Show.Control.{ShowController, stop_all}
use esp_glow.Show.Patch.{
  dmx_universe_size, dark_slots, fixture, is_fixture, Universe, PatchedFixture, Show, find_fixture,
  write_raw_universe,
}

-- step 1, for the universe with its index
abbrev pub reset_universe : Universe → Universe
reset_universe u = if is_fixture u.mode then record u { slots = dark_slots } else u

-- the first `count` of the universes
abbrev pub reset_universes : ℕ → List Universe → List Universe
reset_universes zero us = us
reset_universes (suc count) [] = []
reset_universes (suc count) (u ∷ us) = reset_universe u ∷ reset_universes count us

-- `f` on the slots of universe `u`, where it is in use and of fixtures
unfoldable pub on_universe :
    ℕ → List Universe → ℕ → (List ℕ → Outcome (List ℕ)) → Outcome (List Universe)
on_universe count us u f = if leb count u then ok us else do
  univ ← or_fault (get_elem? us u)
  if not (is_fixture univ.mode)
      then ok us
      else do slots ← f univ.slots; ok (set us u (record univ { slots = slots }))

-- the buffer that a function leaves that also gives a result
abbrev pub second : Outcome (Bool × List ℕ) → Outcome (List ℕ)
second m = m >>= λ r. ok r.1

-- step 2
unfoldable pub defaults_all :
    {H : Type 0} → ℕ → List (PatchedFixture H) → List Universe → Outcome (List Universe)
unfolding on_universe
defaults_all count [] us = ok us
defaults_all count (f ∷ fs) us = do
  next ← on_universe count us f.universe (λ slots. apply_defaults f.profile slots f.base)
  defaults_all count fs next

-- step 3
abbrev pub gather : {F : Type 0} → F → List (Effect F) → List (CapIntent F) × List (AimIntent F)
gather t [] = ([], [])
gather t (fx ∷ effects) =
    let first = fx t in let rest = gather t effects in (first.0 ++ rest.0, first.1 ++ rest.1)

-- step 4: each loop over its intents
unfoldable pub each_intent :
    {I : Type 0}
    → (I → List Universe → Outcome (List Universe))
    → List I
    → List Universe
    → Outcome (List Universe)
each_intent resolve [] us = ok us
each_intent resolve (i ∷ is) us = do next ← resolve i us; each_intent resolve is next

-- step 5: the sink, the universe's index and its slots, for each of the first `count` universes
unfoldable pub flush_from : ℕ → ℕ → List Universe → List (ℕ × ℕ × List ℕ)
flush_from u zero us = []
flush_from u (suc count) [] = []
flush_from u (suc count) (univ ∷ us) =
    let rest = flush_from (u + 1) count us in
    if not univ.configured
    then rest
    else elim univ.sink [ none ↦ rest | some sink ↦ (sink, u, univ.slots) ∷ rest ]

module _ {H F : Type 0} where
  module _ ⦃fl : FloatOps F⦄ (conv : Conversions F) where
    -- a capability intent on the slots of its fixture
    unfoldable pub apply_intent : PatchedFixture H → CapIntent F → List ℕ → Outcome (List ℕ)
    apply_intent f ci slots = elim ci.range_name [
      | some name ↦
          second (apply_range_by_name conv f.profile ci.cap (some name) ci.norm01 slots f.base)
      | none ↦ elim ci.range_index [
        | pos n ↦
            second (apply_range_by_index conv f.profile ci.cap (n % 2 ^ 8) ci.norm01 slots f.base)
        | negsuc n ↦ apply_capability conv f.profile ci.cap ci.norm01 slots f.base
      ]
    ]

    unfoldable pub resolve_cap :
        ℕ → List (PatchedFixture H) → CapIntent F → List Universe → Outcome (List Universe)
    unfolding find_fixture on_universe apply_intent
    resolve_cap count fs ci us = elim (find_fixture fs ci.fixture_id) [
      | none ↦ ok us
      | some f ↦ on_universe count us f.universe (apply_intent f ci)
    ]

  module _ ⦃fl : FloatOps F⦄ (conv : Conversions F) (aim : H → AimIntent F → F × F) where
    unfoldable pub resolve_aim :
        ℕ → List (PatchedFixture H) → AimIntent F → List Universe → Outcome (List Universe)
    unfolding find_fixture on_universe
    resolve_aim count fs ai us = elim (find_fixture fs ai.fixture_id) [
      | none ↦ ok us
      | some f ↦
          if not f.is_head
          then ok us
          else on_universe count us f.universe (λ slots. do
            panned ← apply_capability conv f.profile pan (aim f.head ai).0 slots f.base
            apply_capability conv f.profile tilt (aim f.head ai).1 panned f.base)
    ]

    unfoldable pub render_compute : Show H F → F → Outcome (Show H F)
    unfolding defaults_all resolve_aim resolve_cap each_intent
    render_compute s t = do
      let intents = gather t s.effects
      reset ←
          defaults_all s.universe_count s.fixtures (reset_universes s.universe_count s.universes)
      aimed ← each_intent (resolve_aim s.universe_count s.fixtures) intents.1 reset
      resolved ← each_intent (resolve_cap conv s.universe_count s.fixtures) intents.0 aimed
      ok (record s { universes = resolved })

  unfoldable pub render_flush : Show H F → List (ℕ × ℕ × List ℕ)
  unfolding flush_from
  render_flush s = flush_from 0 s.universe_count s.universes

  -- the show after the frame, and what is sent
  unfoldable pub render_frame :
      ⦃fl : FloatOps F⦄
      → Conversions F
      → (H → AimIntent F → F × F)
      → Show H F
      → F
      → Outcome (Show H F × List (ℕ × ℕ × List ℕ))
  unfolding render_compute render_flush
  render_frame conv aim s t = do next ← render_compute conv aim s t; ok (next, render_flush next)

  -- `safeBlackoutCore`, from the universe `u` on for `n` of them
  unfoldable pub blackout_from : ℕ → ℕ → Show H F → Outcome (Show H F)
  unfolding write_raw_universe
  blackout_from u zero s = ok s
  blackout_from u (suc n) s = do
    next ← write_raw_universe s u dark_slots dmx_universe_size
    blackout_from (u + 1) n next

  unfoldable pub safe_blackout_core :
      Show H F → ShowController F → Outcome (Show H F × ShowController F)
  unfolding blackout_from stop_all
  safe_blackout_core s c = do dark ← blackout_from 0 s.universe_count s; ok (dark, stop_all c)
