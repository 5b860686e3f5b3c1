-- ===== src/Show/Patch.antt =====
-- `Show` of show.h and show.cpp: the patched fixtures, and the universes. A write outside a
-- universe is a fault. The head configuration of aim.h is a
-- parameter, as nothing but the aiming reads it. A sink is a number.
use esp_glow.Prelude.{
  ℕ, zero, suc, ◌+◌, ◌%◌, ◌^◌, Bool, true, false, Option, none, some, List, [], ◌∷◌, ◌++◌,
  if◌then◌else◌, ltb, leb, ◌==◌, length, get_elem?, set, replicate,
}
use esp_glow.Prelude.Outcome.{Outcome, ok, ◌>>=◌, read}
use esp_glow.Fixture.Profile.{FixtureProfile}
use esp_glow.Show.Intent.{Effect}

abbrev pub dmx_universe_size : ℕ
dmx_universe_size = 512

abbrev pub max_universes : ℕ
max_universes = 8

abbrev pub max_fixtures : ℕ
max_fixtures = 128

pub data UniverseMode : Type 0 where
  fixture raw : UniverseMode

abbrev pub is_fixture : UniverseMode → Bool
is_fixture fixture = true
is_fixture raw = false

pub record Universe : Type 0 where
  pub mode : UniverseMode
  pub sink : Option ℕ
  pub configured : Bool
  pub slots : List ℕ

pub record PatchedFixture (H : Type 0) : Type 0 where
  pub id : ℕ
  pub profile : FixtureProfile
  pub universe : ℕ
  pub base : ℕ
  pub is_head : Bool
  pub head : H

-- The vectors of intents are cleared in every frame, so that they are no state.
pub record Show (H F : Type 0) : Type 0 where
  pub universe_count : ℕ
  pub universes : List Universe
  pub fixtures : List (PatchedFixture H)
  pub next_fixture_id : ℕ
  pub effects : List (Effect F)

unfoldable pub dark_slots : List ℕ
dark_slots = replicate dmx_universe_size 0

abbrev pub no_universe : Universe
no_universe = record { mode = fixture; sink = none; configured = false; slots = dark_slots }

unfoldable pub find_fixture : {H : Type 0} → List (PatchedFixture H) → ℕ → Option (PatchedFixture H)
find_fixture [] id = none
find_fixture (f ∷ fs) id = let rest = find_fixture fs id in if f.id == id then some f else rest

-- the copying loop, from the slot `i` on
unfoldable pub copy_slots : List ℕ → ℕ → ℕ → List ℕ → Outcome (List ℕ)
copy_slots bytes i zero slots = ok slots
copy_slots bytes i (suc n) slots = do b ← read bytes i; copy_slots bytes (i + 1) n (set slots i b)

module _ {H F : Type 0} where
  abbrev pub new_show : Show H F
  new_show = record {
    universe_count = 0;
    universes = replicate max_universes no_universe;
    fixtures = [];
    next_fixture_id = 0;
    effects = [];
  }

  unfoldable pub set_universe_count : Show H F → ℕ → Show H F
  set_universe_count s n = record s {
    universe_count = if ltb max_universes n then max_universes else n;
  }

  unfoldable pub configure_universe : Show H F → ℕ → UniverseMode → Option ℕ → Show H F
  configure_universe s idx mode sink = elim (get_elem? s.universes idx) [
    | none ↦ s
    | some u ↦
        let configured : Universe = record u { mode = mode; sink = sink; configured = true } in
        record s { universes = set s.universes idx configured }
  ]

  -- The id is 0xFFFF where the show is full.
  unfoldable pub patch_common : Show H F → FixtureProfile → ℕ → ℕ → Bool → H → ℕ × Show H F
  patch_common s p universe base is_head cfg =
      if leb max_fixtures (length s.fixtures) then (0xffff, s) else (
        s.next_fixture_id,
        record s {
          next_fixture_id = (s.next_fixture_id + 1) % 2 ^ 16;
          fixtures =
              s.fixtures
              ++ (record {
                id = s.next_fixture_id;
                profile = p;
                universe = universe;
                base = base;
                is_head = is_head;
                head = cfg;
              }
                  ∷ []);
        },
      )

  -- `empty` is the configuration `MovingHeadConfig{}`.
  abbrev pub patch : Show H F → H → FixtureProfile → ℕ → ℕ → ℕ × Show H F
  patch s empty p universe base = patch_common s p universe base false empty

  abbrev pub patch_head : Show H F → FixtureProfile → ℕ → ℕ → H → ℕ × Show H F
  patch_head s p universe base cfg = patch_common s p universe base true cfg

  unfoldable pub add_effect : Show H F → Effect F → Show H F
  add_effect s fx = record s { effects = s.effects ++ (fx ∷ []) }

  unfoldable pub remove_all_effects : Show H F → Show H F
  remove_all_effects s = record s { effects = [] }

  unfoldable pub write_raw_universe : Show H F → ℕ → List ℕ → ℕ → Outcome (Show H F)
  unfolding copy_slots
  write_raw_universe s idx bytes len = elim (get_elem? s.universes idx) [
    | none ↦ ok s
    | some u ↦ if is_fixture u.mode then ok s else do
      slots ←
          copy_slots bytes 0 (if ltb len dmx_universe_size then len else dmx_universe_size) u.slots
      ok (record s { universes = set s.universes idx (record u { slots = slots }) })
  ]

  -- `universeData`, with `none` for a null pointer
  unfoldable pub universe_data : Show H F → ℕ → Option (List ℕ)
  universe_data s idx = elim (get_elem? s.universes idx) [ none ↦ none | some u ↦ some u.slots ]
