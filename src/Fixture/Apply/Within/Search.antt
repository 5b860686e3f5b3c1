-- ===== src/Fixture/Apply/Within/Search.antt =====
-- The searches for a channel or a range: what they find is in the profile.
use esp_glow.Prelude.{
  ℕ, zero, suc, ◌+◌, ◌^◌, ◌<◌, ◌≡◌, arith, true, false, not, ◌||◌, inl, inr, Option, some, List, [],
  ◌∷◌, ◌==◌, length, drop, get_or, All, Bool-cases, Option-cases, subst, ◌%◌,
}
use esp_glow.Prelude.Outcome.{Succeeds, ok_succeeds, Succeeds-bind}
use esp_glow.Prelude.Strings.{has_nul, Succeeds-if, str_equal_lem}
use esp_glow.Fixture.Capability.{Capability}
use esp_glow.Fixture.Profile.{ChannelMap, FunctionRange}
use esp_glow.Fixture.Parse.WellFormed.{IsChannel, IsRange}
use esp_glow.Fixture.Apply.{find_channel, index_from, range_at, range_named}

pub find_channel_all :
    (P : ChannelMap → Type 0) (cap : Capability) (cs : List ChannelMap) (c : ChannelMap)
    → All P cs
    → find_channel cap cs ≡ some c
    → P c
unfolding find_channel
find_channel_all P cap [] c ps e = absurd cc
find_channel_all P cap (x ∷ cs) c ps e = elim (Bool-cases (x.cap == cap)) [
  | inl mine ↦ let same : x ≡ c = ground arith in subst P same ps.0
  | inr other ↦
      let later : find_channel cap cs ≡ some c = ground arith in
      find_channel_all P cap cs c ps.1 later
]

pub index_from-lt :
    (cap : Capability) (cs : List ChannelMap) (i : ℕ) → index_from cap cs ≡ some i → i < length cs
unfolding index_from
index_from-lt cap [] i e = absurd cc
index_from-lt cap (x ∷ cs) i e = elim (Bool-cases (x.cap == cap)) [
  | inl mine ↦ let at : i ≡ 0 = ground arith in omega (arith, at)
  | inr other ↦ elim (Option-cases (index_from cap cs)) [
    | inl missing ↦ absurd (ground arith)
    | inr (j, found) ↦
        let at : i ≡ suc j = ground arith in omega (arith, at, index_from-lt cap cs j found)
  ]
]

pub range_at_all :
    (P : FunctionRange → Type 0) (ci idx seen : ℕ) (rs : List FunctionRange) (r : FunctionRange)
    → All P rs
    → range_at ci idx seen rs ≡ some r
    → P r
unfolding range_at
range_at_all P ci idx seen [] r ps e = absurd cc
range_at_all P ci idx seen (x ∷ rs) r ps e = elim (Bool-cases (x.cap_index == ci)) [
  | inl mine ↦ elim (Bool-cases (seen == idx)) [
    | inl here ↦ let same : x ≡ r = ground arith in subst P same ps.0
    | inr further ↦
        let later : range_at ci idx ((seen + 1) % 2 ^ 8) rs ≡ some r = ground arith in
        range_at_all P ci idx ((seen + 1) % 2 ^ 8) rs r ps.1 later
  ]
  | inr other ↦
      let later : range_at ci idx seen rs ≡ some r = ground arith in
      range_at_all P ci idx seen rs r ps.1 later
]

pub all_get_or :
    {A : Type 0} (P : A → Type 0) (xs : List A) (i : ℕ) (d : A)
    → All P xs
    → i < length xs
    → P (get_or xs i d)
all_get_or P [] i d ps h = absurd (omega arith)
all_get_or P (x ∷ xs) zero d ps h = ps.0
all_get_or P (x ∷ xs) (suc i) d ps h = all_get_or P xs i d ps.1 (omega arith)

named :
    {channels : ℕ} {blob : List ℕ} (ci : ℕ) (r : FunctionRange)
    → IsRange channels blob r
    → (not (r.cap_index == ci) || r.name_off == 0xffff) ≡ false
    → has_nul (drop r.name_off blob) ≡ true
named ci r is tried = elim is.name [ inl unnamed ↦ absurd (ground arith) | inr name ↦ name.ended ]

pub range_named_lem :
    (channels : ℕ) (blob : List ℕ) (ci : ℕ) (name : List ℕ) (rs : List FunctionRange)
    → All (IsRange channels blob) rs
    → Succeeds (λ (found : Option FunctionRange). Unit {0}) (range_named blob ci name rs)
unfolding range_named
range_named_lem channels blob ci name [] ps = ok_succeeds tt
range_named_lem channels blob ci name (r ∷ rs) ps =
    let rest = range_named_lem channels blob ci name rs ps.1 in
    elim (Bool-cases (not (r.cap_index == ci) || r.name_off == 0xffff)) [
      | inl skipped ↦ rw skipped rest
      | inr tried ↦ rw tried (
          Succeeds-bind _ (str_equal_lem (drop r.name_off blob) name (named ci r ps.0 tried))
            (λ same u. Succeeds-if _ same (ok_succeeds tt) rest))
    ]

pub fine_in_place :
    {footprint : ℕ} (c : ChannelMap)
    → IsChannel footprint c
    → (c.fine == 0xff) ≡ false
    → c.fine < footprint
fine_in_place c is wide = elim is.fine_in [
  | inl none_such ↦ absurd (ground arith)
  | inr inside ↦ inside
]
