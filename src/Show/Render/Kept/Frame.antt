-- ===== src/Show/Render/Kept/Frame.antt =====
-- A whole frame: the rendering stays inside the universes, and darkens every slot that no fixture has.
use esp_glow.Prelude.{
  ℕ, zero, suc, ◌≤◌, ◌<◌, ◌≡◌, refl, ap, ◌∙◌, arith, true, false, ◌⊎◌, inl, inr, List, [], ◌∷◌,
  length, get_or, All, Bool-cases, replicate, ltb, ltb→lt,
}
use esp_glow.Prelude.Float.{FloatOps}
use esp_glow.Prelude.Outcome.{Succeeds, ok_succeeds, Succeeds-bind}
use esp_glow.Fixture.Apply.{Conversions}
use esp_glow.Show.Intent.{AimIntent}
use esp_glow.Show.Patch.{fixture, raw, is_fixture, dark_slots, Universe, PatchedFixture, Show}
use esp_glow.Show.Render.{
  reset_universe, reset_universes, gather, resolve_aim, resolve_cap, render_compute,
}
use esp_glow.Show.Render.Kept.{
  at, owned, IsPatched, IsSized, Kept, Kept-trans, Kept-IsSized, IsReady,
}
use esp_glow.Show.Render.Kept.Steps.{
  IsReady-owned, defaults_all-Kept, resolve_aim-Kept, resolve_cap-Kept, each_intent-Kept,
}

-- a show whose fixtures are well formed and fit their universes
pub record IsShow {H F : Type 0} (s : Show H F) : Type 0 where
  pub sized : IsSized s.universes
  pub few : s.universe_count ≤ 8
  pub patched : All IsPatched s.fixtures

-- The frame after `s`: nothing but the universes changes.
pub record IsFrame {H F : Type 0} (s next : Show H F) : Type 0 where
  pub same : next ≡ record s { universes = next.universes }
  pub sized : IsSized next.universes
  pub others :
      (u : ℕ)
      → (s.universe_count ≤ u) ⊎ ((at s.universes u).mode ≡ raw)
      → at next.universes u ≡ at s.universes u
  pub dark :
      (u i : ℕ)
      → u < s.universe_count
      → (at s.universes u).mode ≡ fixture
      → owned s.fixtures u i ≡ false
      → get_or (at next.universes u).slots i 0 ≡ 0

pub length-dark_slots : length dark_slots ≡ 512
unfolding dark_slots
length-dark_slots = refl

reset_universe_size : (u : Universe) → length u.slots ≡ 512 → length (reset_universe u).slots ≡ 512
reset_universe_size u h = elim (Bool-cases (is_fixture u.mode)) [
  | inl of_fixtures ↦ rw of_fixtures length-dark_slots
  | inr is_raw ↦ rw is_raw h
]

reset_universes-length :
    (count : ℕ) (us : List Universe) → length (reset_universes count us) ≡ length us
reset_universes-length zero us = refl
reset_universes-length (suc count) [] = refl
reset_universes-length (suc count) (u ∷ us) = ap suc (reset_universes-length count us)

at-reset :
    (count : ℕ) (us : List Universe) (u : ℕ)
    → u < count
    → at (reset_universes count us) u ≡ reset_universe (at us u)
at-reset zero us u h = absurd (omega arith)
at-reset (suc count) [] u h = refl
at-reset (suc count) (x ∷ us) zero h = refl
at-reset (suc count) (x ∷ us) (suc u) h = at-reset count us u (omega arith)

at-reset_behind :
    (count : ℕ) (us : List Universe) (u : ℕ) → count ≤ u → at (reset_universes count us) u ≡ at us u
at-reset_behind zero us u h = refl
at-reset_behind (suc count) [] u h = refl
at-reset_behind (suc count) (x ∷ us) zero h = absurd (omega arith)
at-reset_behind (suc count) (x ∷ us) (suc u) h = at-reset_behind count us u (omega arith)

get_or-zeros : (n i : ℕ) → get_or (replicate {A = ℕ} n 0) i 0 ≡ 0
get_or-zeros zero i = refl
get_or-zeros (suc n) zero = refl
get_or-zeros (suc n) (suc i) = get_or-zeros n i

dark_slots-dark : (i : ℕ) → get_or dark_slots i 0 ≡ 0
unfolding dark_slots
dark_slots-dark i = get_or-zeros 512 i

reset_raw : (u : Universe) → u.mode ≡ raw → reset_universe u ≡ u
reset_raw u h = let kept : is_fixture u.mode ≡ false = ap is_fixture h in rw kept refl

reset_dark : (u : Universe) (i : ℕ) → u.mode ≡ fixture → get_or (reset_universe u).slots i 0 ≡ 0
reset_dark u i h =
    let reset : is_fixture u.mode ≡ true = ap is_fixture h in rw reset (dark_slots-dark i)

not_below : (u count : ℕ) → ltb u count ≡ false → count ≤ u
not_below u count h = ground arith

-- a raw universe, or one behind the count, is not reset
reset_others :
    (count : ℕ) (us : List Universe) (u : ℕ)
    → (count ≤ u) ⊎ ((at us u).mode ≡ raw)
    → (at (reset_universes count us) u ≡ at us u)
reset_others count us u out = elim (Bool-cases (ltb u count)) [
  | inl below ↦ elim out [
    | inl beyond ↦ at-reset_behind count us u beyond
    | inr is_raw ↦ at-reset count us u (ltb→lt _ _ below) ∙ reset_raw (at us u) is_raw
  ]
  | inr behind ↦ at-reset_behind count us u (not_below u count behind)
]

module _ {H F : Type 0} ⦃fl : FloatOps F⦄ (conv : Conversions F) (aim : H → AimIntent F → F × F)
    (s : Show H F) (is : IsShow s) (t : F) where
  abbrev count : ℕ
  count = s.universe_count

  abbrev fs : List (PatchedFixture H)
  fs = s.fixtures

  abbrev start : List Universe
  start = reset_universes count s.universes

  start-IsSized : IsSized start
  start-IsSized = record {
    eight = reset_universes-length count s.universes ∙ is.sized.eight;
    full = λ u. elim (Bool-cases (ltb u count)) [
      | inl below ↦
          ap (λ x. length x.slots) (at-reset count s.universes u (ltb→lt _ _ below))
          ∙ reset_universe_size (at s.universes u) (is.sized.full u)
      | inr behind ↦
          ap (λ x. length x.slots) (at-reset_behind count s.universes u (not_below u count behind))
          ∙ is.sized.full u
    ];
  }

  ready : All (IsReady count fs) fs
  ready = IsReady-owned count fs fs is.patched (λ u i out. out)

  out_of_start :
      (u : ℕ)
      → (count ≤ u) ⊎ ((at s.universes u).mode ≡ raw)
      → (count ≤ u) ⊎ ((at start u).mode ≡ raw)
  out_of_start u out = elim out [
    | inl beyond ↦ inl beyond
    | inr is_raw ↦ inr (ap (λ x. x.mode) (reset_others count s.universes u (inr is_raw)) ∙ is_raw)
  ]

  framed : (vs : List Universe) → Kept count fs start vs → IsFrame s (record s { universes = vs })
  framed vs p = record {
    same = refl;
    sized = Kept-IsSized count fs start vs start-IsSized p;
    others = λ u out. p.others u (out_of_start u out) ∙ reset_others count s.universes u out;
    dark = λ u i below of_fixtures out.
        p.outside u i out
        ∙ ap (λ x. get_or x.slots i 0) (at-reset count s.universes u below)
        ∙ reset_dark (at s.universes u) i of_fixtures;
  }

  -- the four steps of a frame
  steps : Succeeds (IsFrame s) (render_compute conv aim s t)
  unfolding render_compute
  steps =
      let intents = gather t s.effects in
      Succeeds-bind _
        (defaults_all-Kept conv aim count is.few fs ready fs start ready start-IsSized)
        (λ a p.
          let a_sized = Kept-IsSized count fs start a start-IsSized p in
          Succeeds-bind _
            (each_intent-Kept conv aim count is.few fs ready (resolve_aim conv aim count fs)
              intents.1 a (resolve_aim-Kept conv aim count is.few fs ready) a_sized)
            (λ b q.
              let b_sized = Kept-IsSized count fs a b a_sized q in
              Succeeds-bind _
                (each_intent-Kept conv aim count is.few fs ready (resolve_cap conv count fs)
                  intents.0 b (resolve_cap-Kept conv aim count is.few fs ready) b_sized)
                (λ c r.
                  ok_succeeds
                    (framed c (Kept-trans count fs start a c p (Kept-trans count fs a b c q r))))))

-- For a show of eight universes of 512 slots, at most eight of them in use, whose fixtures have well-formed
-- profiles and end inside their universe, and for every effect and aiming: rendering a frame succeeds and
-- writes inside the universes only; it changes nothing but the universes; a raw universe, and one that is not
-- in use, keeps its slots; and in each of the others every slot that no fixture of it has is 0.
pub render_compute-IsFrame :
    {H F : Type 0} ⦃fl : FloatOps F⦄ (conv : Conversions F) (aim : H → AimIntent F → F × F)
    (s : Show H F) (t : F)
    → IsShow s
    → Succeeds (IsFrame s) (render_compute conv aim s t)
render_compute-IsFrame conv aim s t is = steps conv aim s is t
