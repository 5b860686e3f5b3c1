-- ===== src/Show/Control/Evaluate/Merge.antt =====
-- `workingCaps_` and `workingAims_`, and how one cue's intents are merged into them.
use esp_glow.Prelude.{
  ℕ, Bool, true, false, not, ◌&&◌, ◌||◌, Option, none, some, List, [], ◌∷◌, if◌then◌else◌, ltb, leb,
  ◌==◌,
}
use esp_glow.Prelude.Int.{ℤ, pos, negsuc}
use esp_glow.Prelude.Float.{FloatOps}
use esp_glow.Fixture.Capability.{
  Capability, dimmer, red, green, blue, white, amber, uv, cyan, magenta, yellow, shutter_strobe,
  fog, fan,
}
use esp_glow.Show.Intent.{Vec3, CapIntent, AimIntent}

pub record WorkingCap (F : Type 0) : Type 0 where
  pub fixture_id : ℕ
  pub cap : Capability
  pub value : F
  pub owner_prio : ℕ
  pub owner_seq : ℕ
  pub range_name : Option (List ℕ)
  pub range_index : ℤ

pub record WorkingAim (F : Type 0) : Type 0 where
  pub fixture_id : ℕ
  pub target : Vec3 F
  pub is_point : Bool
  pub owner_prio : ℕ
  pub owner_seq : ℕ

unfoldable pub is_intensity_class : Capability → Bool
is_intensity_class cap =
    cap == dimmer
    || cap == red
    || cap == green
    || cap == blue
    || cap == white
    || cap == amber
    || cap == uv
    || cap == cyan
    || cap == magenta
    || cap == yellow
    || cap == shutter_strobe
    || cap == fog
    || cap == fan

-- `rangeIndex >= 0`
abbrev pub is_index : ℤ → Bool
is_index (pos n) = true
is_index (negsuc n) = false

-- `rangeName != nullptr`
abbrev pub is_named : Option (List ℕ) → Bool
is_named none = false
is_named (some name) = true

-- the later or the higher of two owners: priority first, then activation
abbrev pub takes_over : ℕ → ℕ → ℕ → ℕ → Bool
takes_over prio seq owner_prio owner_seq =
    ltb owner_prio prio || (prio == owner_prio && leb owner_seq seq)

module _ {F : Type 0} where
  abbrev pub is_range_select : CapIntent F → Bool
  is_range_select ci = is_named ci.range_name || is_index ci.range_index

  unfoldable pub is_htp : CapIntent F → Bool
  unfolding is_intensity_class
  is_htp ci = not (is_range_select ci) && is_intensity_class ci.cap

  abbrev pub same_cap : WorkingCap F → CapIntent F → Bool
  same_cap e ci = e.fixture_id == ci.fixture_id && e.cap == ci.cap

  -- the entry that the intent's key has, whoever owned it before
  unfoldable pub take_ltp : ℕ → ℕ → CapIntent F → WorkingCap F → WorkingCap F
  take_ltp prio seq ci e =
      if takes_over prio seq e.owner_prio e.owner_seq
      then record e {
        value = ci.norm01;
        owner_prio = prio;
        owner_seq = seq;
        range_name = ci.range_name;
        range_index = ci.range_index;
      }
      else e

  unfoldable pub new_ltp : ℕ → ℕ → CapIntent F → WorkingCap F
  new_ltp prio seq ci = record {
    fixture_id = ci.fixture_id;
    cap = ci.cap;
    value = ci.norm01;
    owner_prio = prio;
    owner_seq = seq;
    range_name = ci.range_name;
    range_index = ci.range_index;
  }

  -- The search for the key's entry: change it, or push a new one at the end.
  unfoldable pub update_cap :
      (WorkingCap F → WorkingCap F)
      → WorkingCap F
      → CapIntent F
      → List (WorkingCap F)
      → List (WorkingCap F)
  update_cap change fresh ci [] = fresh ∷ []
  update_cap change fresh ci (e ∷ es) =
      let rest = update_cap change fresh ci es in if same_cap e ci then change e ∷ es else e ∷ rest

  unfoldable pub take_aim : ℕ → ℕ → AimIntent F → WorkingAim F → WorkingAim F
  take_aim prio seq ai e =
      if takes_over prio seq e.owner_prio e.owner_seq
      then record e {
        target = ai.target;
        is_point = ai.is_point;
        owner_prio = prio;
        owner_seq = seq;
      }
      else e

  unfoldable pub merge_aim : ℕ → ℕ → AimIntent F → List (WorkingAim F) → List (WorkingAim F)
  unfolding take_aim
  merge_aim prio seq ai [] =
      record {
        fixture_id = ai.fixture_id;
        target = ai.target;
        is_point = ai.is_point;
        owner_prio = prio;
        owner_seq = seq;
      }
      ∷ []
  merge_aim prio seq ai (e ∷ es) =
      let rest = merge_aim prio seq ai es in
      if e.fixture_id == ai.fixture_id then take_aim prio seq ai e ∷ es else e ∷ rest

  unfoldable pub merge_aims : ℕ → ℕ → List (AimIntent F) → List (WorkingAim F) → List (WorkingAim F)
  unfolding merge_aim
  merge_aims prio seq [] es = es
  merge_aims prio seq (ai ∷ ais) es = merge_aims prio seq ais (merge_aim prio seq ai es)

  unfoldable pub cap_out : WorkingCap F → CapIntent F
  cap_out e = record {
    fixture_id = e.fixture_id;
    cap = e.cap;
    norm01 = e.value;
    range_name = e.range_name;
    range_index = e.range_index;
  }

  unfoldable pub aim_out : WorkingAim F → AimIntent F
  aim_out e = record { fixture_id = e.fixture_id; target = e.target; is_point = e.is_point }

module _ {F : Type 0} ⦃fl : FloatOps F⦄ where
  -- A tie takes the plain value, which clears a range selection.
  unfoldable pub take_htp : F → WorkingCap F → WorkingCap F
  take_htp val e =
      if fl.less_eq e.value val
      then record e { value = val; range_name = none; range_index = negsuc 0 }
      else e

  unfoldable pub new_htp : ℕ → ℕ → F → CapIntent F → WorkingCap F
  new_htp prio seq val ci = record {
    fixture_id = ci.fixture_id;
    cap = ci.cap;
    value = val;
    owner_prio = prio;
    owner_seq = seq;
    range_name = none;
    range_index = negsuc 0;
  }

  unfoldable pub merge_cap : ℕ → ℕ → F → CapIntent F → List (WorkingCap F) → List (WorkingCap F)
  unfolding update_cap
  merge_cap prio seq weight ci es =
      if is_htp ci
      then (let val = fl.mul weight ci.norm01 in
          update_cap (take_htp val) (new_htp prio seq val ci) ci es)
      else update_cap (take_ltp prio seq ci) (new_ltp prio seq ci) ci es

  unfoldable pub merge_caps :
      ℕ → ℕ → F → List (CapIntent F) → List (WorkingCap F) → List (WorkingCap F)
  unfolding merge_cap
  merge_caps prio seq weight [] es = es
  merge_caps prio seq weight (ci ∷ cis) es =
      merge_caps prio seq weight cis (merge_cap prio seq weight ci es)
