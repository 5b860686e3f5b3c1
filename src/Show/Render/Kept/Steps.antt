-- ===== src/Show/Render/Kept/Steps.antt =====
-- Each step of the rendering keeps to the slots of the fixtures.
use esp_glow.Prelude.{
  ℕ, ◌%◌, ◌^◌, ◌≤◌, ◌≡◌, refl, ◌∙◌, arith, Bool, true, false, inl, inr, Option, none, some, List,
  [], ◌∷◌, if◌then◌else◌, ◌==◌, length, All, Bool-cases, Option-cases, subst,
}
use esp_glow.Prelude.Int.{ℤ, pos, negsuc}
use esp_glow.Prelude.Float.{FloatOps}
use esp_glow.Prelude.Outcome.{Outcome, ◌>>=◌, Succeeds, ok_succeeds, Succeeds-bind, Succeeds-impl}
use esp_glow.Fixture.Capability.{Capability, pan, tilt}
use esp_glow.Fixture.Apply.{
  Conversions, apply_capability, apply_defaults, apply_range_by_name, apply_range_by_index,
}
use esp_glow.Fixture.Apply.Within.{Within, Within-trans, apply-Within}
use esp_glow.Show.Intent.{CapIntent, AimIntent}
use esp_glow.Show.Patch.{Universe, PatchedFixture, find_fixture}
use esp_glow.Show.Render.{second, defaults_all, resolve_aim, apply_intent, resolve_cap, each_intent}
use esp_glow.Show.Render.Kept.{
  owns, owned, IsPatched, IsSized, Kept, Kept-refl, Kept-bind, IsReady, on_universe-Kept,
}

module _ {H F : Type 0} ⦃fl : FloatOps F⦄ (conv : Conversions F) where
  -- what every write to a fixture's slots does
  abbrev Keeps : PatchedFixture H → (List ℕ → Outcome (List ℕ)) → Type 0
  Keeps f op =
      (slots : List ℕ)
      → length slots ≡ 512
      → Succeeds (Within f.base f.profile.footprint slots) (op slots)

  module _ (f : PatchedFixture H) (is : IsPatched f) where
    defaults-Keeps : Keeps f (λ slots. apply_defaults f.profile slots f.base)
    defaults-Keeps slots full =
        (apply-Within conv f.profile slots f.base 0 none 0 (fl.of_nat 0) is.profile_is
          (omega (arith, is.inside))).1

    capability-Keeps :
        (cap : Capability) (v : F)
        → Keeps f (λ slots. apply_capability conv f.profile cap v slots f.base)
    capability-Keeps cap v slots full =
        (apply-Within conv f.profile slots f.base cap none 0 v is.profile_is
          (omega (arith, is.inside))).0

    second-Within :
        (slots : List ℕ) {m : Outcome (Bool × List ℕ)}
        → Succeeds (λ out. Within f.base f.profile.footprint slots out.1) m
        → Succeeds (Within f.base f.profile.footprint slots) (second m)
    second-Within slots p = Succeeds-bind _ p (λ r q. ok_succeeds q)

    -- the three ways of a capability intent
    intent_by :
        (cap : Capability) (v : F) (name : Option (List ℕ)) (index : ℤ) (slots : List ℕ)
        → length slots ≡ 512
        → Succeeds (Within f.base f.profile.footprint slots) (elim name [
          | some n ↦ second (apply_range_by_name conv f.profile cap (some n) v slots f.base)
          | none ↦ elim index [
            | pos i ↦ second (apply_range_by_index conv f.profile cap (i % 2 ^ 8) v slots f.base)
            | negsuc i ↦ apply_capability conv f.profile cap v slots f.base
          ]
        ])
    intent_by cap v (some n) index slots full =
        second-Within slots
          (apply-Within conv f.profile slots f.base cap (some n) 0 v is.profile_is
            (omega (arith, is.inside))).2
    intent_by cap v none (pos i) slots full =
        second-Within slots
          (apply-Within conv f.profile slots f.base cap none (i % 2 ^ 8) v is.profile_is
            (omega (arith, is.inside))).3
    intent_by cap v none (negsuc i) slots full = capability-Keeps cap v slots full

    intent-Keeps : (ci : CapIntent F) → Keeps f (apply_intent conv f ci)
    unfolding apply_intent
    intent-Keeps ci slots full = intent_by ci.cap ci.norm01 ci.range_name ci.range_index slots full

    aimed-Keeps :
        (p t : F)
        → Keeps f (λ slots. apply_capability conv f.profile pan p slots f.base >>= λ panned.
            apply_capability conv f.profile tilt t panned f.base)
    aimed-Keeps p t slots full =
        Succeeds-bind _ (capability-Keeps pan p slots full) (λ panned first.
          Succeeds-impl _ _ (capability-Keeps tilt t panned (first.size ∙ full)) (λ tilted second.
            Within-trans f.base f.profile.footprint slots panned tilted first second))

find_fixture_all :
    {H : Type 0} (P : PatchedFixture H → Type 0) (fs : List (PatchedFixture H)) (id : ℕ)
    (f : PatchedFixture H)
    → All P fs
    → find_fixture fs id ≡ some f
    → P f
unfolding find_fixture
find_fixture_all P [] id f ps e = absurd cc
find_fixture_all P (x ∷ fs) id f ps e = elim (Bool-cases (x.id == id)) [
  | inl mine ↦ let same : x ≡ f = ground arith in subst P same ps.0
  | inr other ↦
      let later : find_fixture fs id ≡ some f = ground arith in
      find_fixture_all P fs id f ps.1 later
]

neither : (a b : Bool) → (if a then true else b) ≡ false → (a ≡ false) × (b ≡ false)
neither true b h = absurd cc
neither false b h = (refl, h)

not_owned_cons :
    {H : Type 0} (f : PatchedFixture H) (fs : List (PatchedFixture H)) (u i : ℕ)
    → owned (f ∷ fs) u i ≡ false
    → (owns f u i ≡ false) × (owned fs u i ≡ false)
not_owned_cons f fs u i h = neither (owns f u i) (owned fs u i) h

-- Each fixture of a list has its slots among those that the list owns.
pub IsReady-owned :
    {H : Type 0} (count : ℕ) (all fs : List (PatchedFixture H))
    → All IsPatched fs
    → ((u i : ℕ) → owned all u i ≡ false → owned fs u i ≡ false)
    → All (IsReady count all) fs
IsReady-owned count all [] ps part = tt
IsReady-owned count all (f ∷ fs) ps part = (
  record { patched = ps.0; listed = λ u i out. (not_owned_cons f fs u i (part u i out)).0 },
  IsReady-owned count all fs ps.1 (λ u i out. (not_owned_cons f fs u i (part u i out)).1),
)

module _ {H F : Type 0} ⦃fl : FloatOps F⦄ (conv : Conversions F) (aim : H → AimIntent F → F × F)
    (count : ℕ) (few : count ≤ 8) (fs : List (PatchedFixture H))
    (ready : All (IsReady count fs) fs) where
  abbrev Step : List Universe → Outcome (List Universe) → Type 0
  Step us m = Succeeds (Kept count fs us) m

  pub defaults_all-Kept :
      (gs : List (PatchedFixture H)) (us : List Universe)
      → All (IsReady count fs) gs
      → IsSized us
      → Step us (defaults_all count gs us)
  unfolding defaults_all
  defaults_all-Kept [] us all is = ok_succeeds (Kept-refl count fs us)
  defaults_all-Kept (g ∷ gs) us all is =
      Kept-bind count fs us (defaults_all count gs) is
        (on_universe-Kept count fs g (λ slots. apply_defaults g.profile slots g.base) us few all.0
          is (defaults-Keeps conv g all.0.patched))
        (λ vs sized. defaults_all-Kept gs vs all.1 sized)

  pub resolve_aim-Kept :
      (ai : AimIntent F) (us : List Universe)
      → IsSized us
      → Step us (resolve_aim conv aim count fs ai us)
  unfolding resolve_aim
  resolve_aim-Kept ai us is = elim (Option-cases (find_fixture fs ai.fixture_id)) [
    | inl unknown ↦ rw (unknown, resolve_aim) (ok_succeeds (Kept-refl count fs us))
    | inr (f, found) ↦
        let is_ready = find_fixture_all (IsReady count fs) fs ai.fixture_id f ready found in
        elim (Bool-cases f.is_head) [
          | inl head ↦
              rw (found, resolve_aim, head)
                (on_universe-Kept count fs f _ us few is_ready is
                  (aimed-Keeps conv f is_ready.patched (aim f.head ai).0 (aim f.head ai).1))
          | inr fixed ↦ rw (found, resolve_aim, fixed) (ok_succeeds (Kept-refl count fs us))
        ]
  ]

  pub resolve_cap-Kept :
      (ci : CapIntent F) (us : List Universe)
      → IsSized us
      → Step us (resolve_cap conv count fs ci us)
  unfolding resolve_cap
  resolve_cap-Kept ci us is = elim (Option-cases (find_fixture fs ci.fixture_id)) [
    | inl unknown ↦ rw (unknown, resolve_cap) (ok_succeeds (Kept-refl count fs us))
    | inr (f, found) ↦
        let is_ready = find_fixture_all (IsReady count fs) fs ci.fixture_id f ready found in
        rw (found, resolve_cap)
          (on_universe-Kept count fs f (apply_intent conv f ci) us few is_ready is
            (intent-Keeps conv f is_ready.patched ci))
  ]

  pub each_intent-Kept :
      {I : Type 0} (resolve : I → List Universe → Outcome (List Universe)) (is : List I)
      (us : List Universe)
      → ((i : I) (vs : List Universe) → IsSized vs → Step vs (resolve i vs))
      → IsSized us
      → Step us (each_intent resolve is us)
  unfolding each_intent
  each_intent-Kept resolve [] us keeps sized = ok_succeeds (Kept-refl count fs us)
  each_intent-Kept resolve (i ∷ is) us keeps sized =
      Kept-bind count fs us (each_intent resolve is) sized (keeps i us sized)
        (λ vs is_sized. each_intent-Kept resolve is vs keeps is_sized)
