-- ===== src/Fixture/Apply.antt =====
-- The functions of fixture_profile.cpp that write DMX slots. The buffer is the list of its slots, and a write
-- behind its end is a fault. `round` is `std::round`. `to_nat` is the conversion of a float to an unsigned
-- integer, which C++ defines for a value that fits; the clamped values do, so that the reduction is the identity.
pub mod Within
use esp_glow.Prelude.{
  ℕ, zero, suc, ◌+◌, ◌-◌, ◌*◌, ◌/◌, ◌%◌, ◌^◌, Bool, true, false, not, ◌||◌, Option, none, some,
  List, [], ◌∷◌, if◌then◌else◌, ◌==◌, drop, get_elem?, bit_and,
}
use esp_glow.Prelude.Float.{FloatOps}
use esp_glow.Prelude.Outcome.{Outcome, ok, fault, ◌>>=◌, or_fault, write}
use esp_glow.Prelude.Strings.{str_equal}
use esp_glow.Fixture.Capability.{Capability}
use esp_glow.Fixture.Profile.{ChannelMap, FunctionRange, FixtureProfile}

pub record Conversions (F : Type 0) : Type 0 where
  pub round : F → F
  pub to_nat : F → ℕ

unfoldable pub find_channel : Capability → List ChannelMap → Option ChannelMap
find_channel cap [] = none
find_channel cap (c ∷ cs) = let rest = find_channel cap cs in if c.cap == cap then some c else rest

unfoldable pub find_capability : FixtureProfile → Capability → Option ChannelMap
unfolding find_channel
find_capability p cap = find_channel cap p.channels

abbrev pub is_some {ℓ} : {A : Type ℓ} → Option A → Bool
is_some none = false
is_some (some a) = true

unfoldable pub has_capability : FixtureProfile → Capability → Bool
unfolding find_capability
has_capability p cap = is_some (find_capability p cap)

abbrev pub inverted : ChannelMap → Bool
inverted c = not (bit_and c.flags 1 == 0)

abbrev pub one_more : Option ℕ → Option ℕ
one_more none = none
one_more (some i) = some (suc i)

-- `channelIndexForCap`, with `none` for -1
unfoldable pub index_from : Capability → List ChannelMap → Option ℕ
index_from cap [] = none
index_from cap (c ∷ cs) =
    let rest = index_from cap cs in if c.cap == cap then some 0 else one_more rest

unfoldable pub channel_index_for_cap : FixtureProfile → Capability → Option ℕ
unfolding index_from
channel_index_for_cap p cap = index_from cap p.channels

-- the ranges of the channel `ci`, from a count `seen` of them on
unfoldable pub range_at : ℕ → ℕ → ℕ → List FunctionRange → Option FunctionRange
range_at ci idx seen [] = none
range_at ci idx seen (r ∷ rs) =
    let next = range_at ci idx ((seen + 1) % 2 ^ 8) rs in
    let rest = range_at ci idx seen rs in
    if r.cap_index == ci then (if seen == idx then some r else next) else rest

unfoldable pub range_at_local_index : FixtureProfile → Capability → ℕ → Option FunctionRange
unfolding channel_index_for_cap range_at
range_at_local_index p cap idx = elim (channel_index_for_cap p cap) [
  | none ↦ none
  | some ci ↦ range_at ci idx 0 p.ranges
]

-- the loop of `applyRangeByName`
unfoldable pub range_named :
    List ℕ → ℕ → List ℕ → List FunctionRange → Outcome (Option FunctionRange)
unfolding str_equal
range_named blob ci name [] = ok none
range_named blob ci name (r ∷ rs) =
    let rest = range_named blob ci name rs in
    if not (r.cap_index == ci) || r.name_off == 0xffff
    then rest
    else do same ← str_equal (drop r.name_off blob) name; if same then ok (some r) else rest

-- `applyDefaults`, from the channels `cs` on
unfoldable pub apply_defaults_from : List ChannelMap → List ℕ → ℕ → Outcome (List ℕ)
unfolding write
apply_defaults_from [] buf base = ok buf
apply_defaults_from (c ∷ cs) buf base = do
  coarse ← write buf (base + c.coarse) c.default_value
  both ← if not (c.fine == 0xff) then write coarse (base + c.fine) 0 else ok coarse
  apply_defaults_from cs both base

unfoldable pub apply_defaults : FixtureProfile → List ℕ → ℕ → Outcome (List ℕ)
unfolding apply_defaults_from
apply_defaults p buf base = apply_defaults_from p.channels buf base

module _ {F : Type 0} ⦃fl : FloatOps F⦄ (conv : Conversions F) where
  -- `std::max(0.0f, std::min(1.0f, norm01))`
  abbrev pub clamp_std : F → F
  clamp_std v =
      let low = (if fl.less v (fl.of_nat 1) then v else fl.of_nat 1) in
      if fl.less (fl.of_nat 0) low then low else fl.of_nat 0

  abbrev pub level_8 : ChannelMap → F → ℕ
  level_8 c clamped =
      let v8 = conv.to_nat (conv.round (fl.mul clamped (fl.of_nat 255))) % 2 ^ 8 in
      if inverted c then 255 - v8 else v8

  abbrev pub level_16 : ChannelMap → F → ℕ
  level_16 c clamped =
      let v16 = conv.to_nat (fl.mul clamped (fl.of_nat 65535)) % 2 ^ 16 in
      if inverted c then 65535 - v16 else v16

  unfoldable pub apply_capability : FixtureProfile → Capability → F → List ℕ → ℕ → Outcome (List ℕ)
  unfolding find_capability write
  apply_capability p cap norm buf base = elim (find_capability p cap) [
    | none ↦ ok buf
    | some c ↦
        let clamped = clamp_std norm in
        if c.fine == 0xff then write buf (base + c.coarse) (level_8 c clamped) else do
          coarse ← write buf (base + c.coarse) (level_16 c clamped / 2 ^ 8)
          write coarse (base + c.fine) (bit_and (level_16 c clamped) 0xff)
  ]

  -- The difference of the bounds is an `int`, not negative for a range in order.
  unfoldable pub apply_range_value : FunctionRange → F → ℕ
  apply_range_value r v =
      let span = fl.of_nat (r.dmx_to - r.dmx_from) in
      let moved = fl.add (fl.of_nat r.dmx_from) (conv.round (fl.mul (clamp_std v) span)) in
      if r.continuous then conv.to_nat moved % 2 ^ 8 else (r.dmx_from + r.dmx_to) / 2 % 2 ^ 8

  -- `universeBuf[base + p.channels[ci].coarse] = applyRangeValue(r, value01); return true;`
  unfoldable pub write_range :
      FixtureProfile → ℕ → FunctionRange → F → List ℕ → ℕ → Outcome (Bool × List ℕ)
  unfolding write apply_range_value
  write_range p ci r v buf base = do
    c ← or_fault (get_elem? p.channels ci)
    written ← write buf (base + c.coarse) (apply_range_value r v)
    ok (true, written)

  -- The name is `none` for a null pointer.
  unfoldable pub apply_range_by_name :
      FixtureProfile → Capability → Option (List ℕ) → F → List ℕ → ℕ → Outcome (Bool × List ℕ)
  unfolding channel_index_for_cap range_named write_range
  apply_range_by_name p cap name v buf base = elim (channel_index_for_cap p cap) [
    | none ↦ ok (false, buf)
    | some ci ↦ elim name [
      | none ↦ ok (false, buf)
      | some n ↦ range_named p.range_name_blob ci n p.ranges >>= λ found. elim found [
        | none ↦ ok (false, buf)
        | some r ↦ write_range p ci r v buf base
      ]
    ]
  ]

  unfoldable pub apply_range_by_index :
      FixtureProfile → Capability → ℕ → F → List ℕ → ℕ → Outcome (Bool × List ℕ)
  unfolding range_at_local_index write_range
  apply_range_by_index p cap idx v buf base = elim (range_at_local_index p cap idx) [
    | none ↦ ok (false, buf)
    | some r ↦ write_range p r.cap_index r v buf base
  ]
