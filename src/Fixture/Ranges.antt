-- ===== src/Fixture/Ranges.antt =====
-- The questions asked of the ranges of a capability: how many, their names, and which are continuous.
use esp_glow.Prelude.{
  ℕ, suc, ◌+◌, ◌%◌, ◌^◌, ◌≤◌, ◌<◌, ◌≡◌, refl, ap, ◌∙◌, arith, Bool, true, false, not, ◌&&◌, Option,
  none, some, List, [], ◌∷◌, if◌then◌else◌, ltb, ◌==◌, length, Bool-cases, Option-cases, inl, inr,
}
use esp_glow.Fixture.Capability.{Capability}
use esp_glow.Fixture.Profile.{FunctionRange, FixtureProfile}
use esp_glow.Fixture.Parse.WellFormed.{IsFixture}
use esp_glow.Fixture.Apply.{is_some, channel_index_for_cap, range_at, range_at_local_index}

unfoldable pub count_ranges : ℕ → List FunctionRange → ℕ
count_ranges ci [] = 0
count_ranges ci (r ∷ rs) =
    let rest = count_ranges ci rs in if r.cap_index == ci then suc rest else rest

unfoldable pub range_count : FixtureProfile → Capability → ℕ
unfolding channel_index_for_cap count_ranges
range_count p cap = elim (channel_index_for_cap p cap) [
  | none ↦ 0
  | some ci ↦ count_ranges ci p.ranges
]

-- The name is given by its offset into the name blob, with `none` for a null pointer.
unfoldable pub range_name : FixtureProfile → Capability → ℕ → Option ℕ
unfolding range_at_local_index
range_name p cap idx = elim (range_at_local_index p cap idx) [
  | none ↦ none
  | some r ↦ if r.name_off == 0xffff then none else some r.name_off
]

unfoldable pub range_is_continuous : FixtureProfile → Capability → ℕ → Bool
unfolding range_at_local_index
range_is_continuous p cap idx = elim (range_at_local_index p cap idx) [
  | none ↦ false
  | some r ↦ r.continuous
]

at_count : (idx seen n : ℕ) → (seen == idx) ≡ true → true ≡ ltb idx (seen + suc n)
at_count idx seen n h = ground arith

one_further : (seen idx : ℕ) → seen ≤ idx → (seen == idx) ≡ false → seen + 1 ≤ idx
one_further seen idx h k = ground arith

nothing_below : (idx : ℕ) → false ≡ ltb idx 0
nothing_below idx = ground arith

not-is_some {ℓ} : {A : Type ℓ} (a : Option A) → is_some a ≡ false → a ≡ none
not-is_some none e = refl
not-is_some (some a) e = absurd cc

range_at-count :
    (ci idx seen : ℕ) (rs : List FunctionRange)
    → seen ≤ idx
    → seen + length rs < 2 ^ 8
    → is_some (range_at ci idx seen rs) ≡ ltb idx (seen + count_ranges ci rs)
unfolding range_at count_ranges
range_at-count ci idx seen [] h k = ground arith
range_at-count ci idx seen (r ∷ rs) h k = elim (Bool-cases (r.cap_index == ci)) [
  | inl mine ↦ elim (Bool-cases (seen == idx)) [
    | inl here ↦ rw (mine, here) (at_count idx seen (count_ranges ci rs) here)
    | inr further ↦
        let next : (seen + 1) % 2 ^ 8 ≡ seen + 1 = omega arith in
        rw (mine, further, next)
          (range_at-count ci idx (seen + 1) rs (one_further seen idx h further) (omega arith)
            ∙ ap (λ n. ltb idx n) (omega arith))
  ]
  | inr other ↦ rw other (range_at-count ci idx seen rs h (omega arith))
]

range_at_local_index-count :
    (p : FixtureProfile) (cap : Capability) (idx : ℕ)
    → IsFixture p
    → is_some (range_at_local_index p cap idx) ≡ ltb idx (range_count p cap)
unfolding range_at_local_index range_count
range_at_local_index-count p cap idx is = elim (Option-cases (channel_index_for_cap p cap)) [
  | inl absent ↦ rw (absent, range_at_local_index, range_count) (nothing_below idx)
  | inr (ci, at) ↦
      rw (at, range_at_local_index, range_count)
        (range_at-count ci idx 0 p.ranges (omega arith) (omega (arith, is.few_ranges))
          ∙ ap (λ n. ltb idx n) (omega arith))
]

-- For a well-formed profile: the index of a range of a capability finds one exactly when it is below the
-- number of ranges of that capability, and from there on no range is continuous or has a name.
pub range_at_local_index-range_count :
    (p : FixtureProfile) (cap : Capability) (idx : ℕ)
    → IsFixture p
    → (is_some (range_at_local_index p cap idx) ≡ ltb idx (range_count p cap))
      × ((not (ltb idx (range_count p cap)) && range_is_continuous p cap idx) ≡ false)
      × ((not (ltb idx (range_count p cap)) && is_some (range_name p cap idx)) ≡ false)
unfolding range_is_continuous range_name
range_at_local_index-range_count p cap idx is =
    let finds = range_at_local_index-count p cap idx is in
    elim (Bool-cases (ltb idx (range_count p cap))) [
      | inl below ↦ rw below (finds ∙ below, refl, refl)
      | inr beyond ↦
          let absent = not-is_some (range_at_local_index p cap idx) (finds ∙ beyond) in
          rw (beyond, absent, range_is_continuous, range_name) (refl, refl, refl)
    ]
