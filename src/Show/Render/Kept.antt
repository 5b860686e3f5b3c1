-- ===== src/Show/Render/Kept.antt =====
-- What a step of the rendering leaves as it was.
pub mod Steps
pub mod Frame
use esp_glow.Prelude.{
  ℕ, zero, suc, ◌+◌, ◌≤◌, ◌<◌, ◌≡◌, ◌≢◌, refl, sym, ap, ◌∙◌, arith, Bool, true, false, not, ◌&&◌,
  ◌⊎◌, inl, inr, Option, none, some, List, [], ◌∷◌, if◌then◌else◌, ltb, leb, ◌==◌, ==_iff, length,
  get_elem?, get_or, set, All, Bool-cases, length-set, get_or-set_self, get_or-set_ne,
  get_elem?-eq-get_or, replicate, subst,
}
use esp_glow.Prelude.Outcome.{
  Outcome, ok, ◌>>=◌, or_fault, Succeeds, ok_succeeds, Succeeds-bind, Succeeds-impl,
}
use esp_glow.Fixture.Parse.WellFormed.{IsFixture}
use esp_glow.Fixture.Apply.Within.{Within}
use esp_glow.Show.Patch.{
  UniverseMode, fixture, raw, is_fixture, no_universe, Universe, PatchedFixture, dmx_universe_size,
}
use esp_glow.Show.Render.{on_universe}

abbrev pub at : List Universe → ℕ → Universe
at us u = get_or us u no_universe

-- whether a fixture has a slot, by the universe and the slot's index
abbrev pub owns : {H : Type 0} → PatchedFixture H → ℕ → ℕ → Bool
owns f u i = f.universe == u && leb f.base i && ltb i (f.base + f.profile.footprint)

abbrev pub owned : {H : Type 0} → List (PatchedFixture H) → ℕ → ℕ → Bool
owned [] u i = false
owned (f ∷ fs) u i = let rest = owned fs u i in if owns f u i then true else rest

-- a fixture with a well-formed profile, inside its universe
pub record IsPatched {H : Type 0} (f : PatchedFixture H) : Type 0 where
  pub profile_is : IsFixture f.profile
  pub inside : f.base + f.profile.footprint ≤ 512

-- eight universes of 512 slots
pub record IsSized (us : List Universe) : Type 0 where
  pub eight : length us ≡ 8
  pub full : (u : ℕ) → length (at us u).slots ≡ 512

outside_of :
    (u base size i : ℕ)
    → (u == u && leb base i && ltb i (base + size)) ≡ false
    → (i < base) ⊎ (base + size ≤ i)
outside_of u base size i h = ground arith

differ : (a b : ℕ) → (a == b) ≡ false → a ≡ b → ⊥
differ a b h e = ground arith

rendered :
    {count u : ℕ} (mode : UniverseMode)
    → u < count
    → is_fixture mode ≡ true
    → (count ≤ u) ⊎ (mode ≡ raw)
    → ⊥
rendered fixture used is out = elim out [ inl beyond ↦ omega arith | inr e ↦ cc ]
rendered raw used is out = cc

below : (count u : ℕ) → leb count u ≡ false → u < count
below count u h = ground arith

module _ {H : Type 0} (count : ℕ) (fs : List (PatchedFixture H)) where
  -- Universes that are not rendered stay the same, and so do the slots that no fixture has.
  pub record Kept (us vs : List Universe) : Type 0 where
    pub size : length vs ≡ length us
    pub full : (u : ℕ) → length (at vs u).slots ≡ length (at us u).slots
    pub mode : (u : ℕ) → (at vs u).mode ≡ (at us u).mode
    pub others : (u : ℕ) → (count ≤ u) ⊎ ((at us u).mode ≡ raw) → at vs u ≡ at us u
    pub outside :
        (u i : ℕ) → owned fs u i ≡ false → get_or (at vs u).slots i 0 ≡ get_or (at us u).slots i 0

  pub Kept-refl : (us : List Universe) → Kept us us
  Kept-refl us = record {
    size = refl;
    full = λ u. refl;
    mode = λ u. refl;
    others = λ u out. refl;
    outside = λ u i out. refl;
  }

  still_out :
      {us vs : List Universe} (u : ℕ)
      → Kept us vs
      → (count ≤ u) ⊎ ((at us u).mode ≡ raw)
      → (count ≤ u) ⊎ ((at vs u).mode ≡ raw)
  still_out u p out = elim out [ inl beyond ↦ inl beyond | inr is_raw ↦ inr (p.mode u ∙ is_raw) ]

  pub Kept-trans : (us vs ws : List Universe) → Kept us vs → Kept vs ws → Kept us ws
  Kept-trans us vs ws p q = record {
    size = q.size ∙ p.size;
    full = λ u. q.full u ∙ p.full u;
    mode = λ u. q.mode u ∙ p.mode u;
    others = λ u out. q.others u (still_out u p out) ∙ p.others u out;
    outside = λ u i out. q.outside u i out ∙ p.outside u i out;
  }

  pub Kept-IsSized : (us vs : List Universe) → IsSized us → Kept us vs → IsSized vs
  Kept-IsSized us vs is p = record { eight = p.size ∙ is.eight; full = λ u. p.full u ∙ is.full u }

  -- one step behind another
  pub Kept-bind :
      (us : List Universe) {m : Outcome (List Universe)}
      (k : List Universe → Outcome (List Universe))
      → IsSized us
      → Succeeds (Kept us) m
      → ((vs : List Universe) → IsSized vs → Succeeds (Kept vs) (k vs))
      → Succeeds (Kept us) (m >>= k)
  Kept-bind us k is first next = Succeeds-bind k first (λ vs p.
      Succeeds-impl _ _ (next vs (Kept-IsSized us vs is p)) (λ ws q. Kept-trans us vs ws p q))

  -- what the steps need of a fixture: its slots are among those owned
  pub record IsReady (f : PatchedFixture H) : Type 0 where
    pub patched : IsPatched f
    pub listed : (u i : ℕ) → owned fs u i ≡ false → owns f u i ≡ false

  not_owned :
      (f : PatchedFixture H) (i : ℕ)
      → owns f f.universe i ≡ false
      → (i < f.base) ⊎ (f.base + f.profile.footprint ≤ i)
  not_owned f i h = outside_of f.universe f.base f.profile.footprint i h

  module _ (f : PatchedFixture H) (ready : IsReady f) (us : List Universe) (is : IsSized us)
      (used : f.universe < count) (few : count ≤ 8)
      (of_fixtures : is_fixture (at us f.universe).mode ≡ true) (slots : List ℕ)
      (within : Within f.base f.profile.footprint (at us f.universe).slots slots) where
    abbrev old : Universe
    old = at us f.universe

    abbrev changed : List Universe
    changed = set us f.universe (record old { slots = slots })

    here : at changed f.universe ≡ record old { slots = slots }
    here =
        get_or-set_self us f.universe (record old { slots = slots }) no_universe
          (omega (arith, is.eight))

    there : (u : ℕ) → f.universe ≢ u → at changed u ≡ at us u
    there u ne = get_or-set_ne us f.universe u (record old { slots = slots }) no_universe ne

    by_universe : (P : ℕ → Type 0) → P f.universe → ((u : ℕ) → f.universe ≢ u → P u) → (u : ℕ) → P u
    by_universe P same other u = elim (Bool-cases (f.universe == u)) [
      | inl e ↦ subst P ((==_iff f.universe u).0 e) same
      | inr ne ↦ other u (λ e. differ f.universe u ne e)
    ]

    set-Kept : Kept us changed
    set-Kept = record {
      size = length-set us f.universe (record old { slots = slots });
      full =
          by_universe (λ u. length (at changed u).slots ≡ length (at us u).slots)
            (ap (λ x. length x.slots) here ∙ within.size)
            (λ u ne. ap (λ x. length x.slots) (there u ne));
      mode =
          by_universe (λ u. (at changed u).mode ≡ (at us u).mode) (ap (λ x. x.mode) here)
            (λ u ne. ap (λ x. x.mode) (there u ne));
      others =
          by_universe (λ u. (count ≤ u) ⊎ ((at us u).mode ≡ raw) → at changed u ≡ at us u)
            (λ out. absurd (rendered (at us f.universe).mode used of_fixtures out))
            (λ u ne out. there u ne);
      outside =
          by_universe
            (λ u.
              (i : ℕ)
              → owned fs u i ≡ false
              → get_or (at changed u).slots i 0 ≡ get_or (at us u).slots i 0)
            (λ i out.
              ap (λ x. get_or x.slots i 0) here
              ∙ within.outside i (not_owned f i (ready.listed f.universe i out)))
            (λ u ne i out. ap (λ x. get_or x.slots i 0) (there u ne));
    }

  -- A function that keeps to a fixture's slots, on the fixture's universe.
  pub on_universe-Kept :
      (f : PatchedFixture H) (op : List ℕ → Outcome (List ℕ)) (us : List Universe)
      → count ≤ 8
      → IsReady f
      → IsSized us
      → ((slots : List ℕ)
          → length slots ≡ 512
          → Succeeds (Within f.base f.profile.footprint slots) (op slots))
      → Succeeds (Kept us) (on_universe count us f.universe op)
  unfolding on_universe
  on_universe-Kept f op us few ready is keeps = elim (Bool-cases (leb count f.universe)) [
    | inl unused ↦ rw unused (ok_succeeds (Kept-refl us))
    | inr in_use ↦
        let used = below count f.universe in_use in
        let found = get_elem?-eq-get_or us f.universe no_universe (omega (arith, is.eight)) in
        elim (Bool-cases (is_fixture (at us f.universe).mode)) [
          | inl of_fixtures ↦
              rw (in_use, found, of_fixtures)
                (Succeeds-bind _ (keeps (at us f.universe).slots (is.full f.universe))
                  (λ slots within.
                    ok_succeeds (set-Kept f ready us is used few of_fixtures slots within)))
          | inr is_raw ↦ rw (in_use, found, is_raw) (ok_succeeds (Kept-refl us))
        ]
  ]
