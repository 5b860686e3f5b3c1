-- ===== src/Fixture/Apply/Within.antt =====
-- The functions that write DMX slots keep to the fixture's own slots.
mod Search
use esp_glow.Prelude.{
  ℕ, zero, suc, ◌+◌, ◌/◌, ◌^◌, ◌≤◌, ◌<◌, ◌≡◌, ◌≢◌, refl, ◌∙◌, arith, Bool, true, false, not, ◌||◌,
  ◌⊎◌, inl, inr, Option, none, some, List, [], ◌∷◌, if◌then◌else◌, ◌==◌, length, drop, get_or, All,
  length-set, get_or-set_ne, get_elem?-eq-get_or, Bool-cases, Option-cases, bit_and, subst, ◌%◌,
}
use esp_glow.Prelude.Float.{FloatOps}
use esp_glow.Prelude.Outcome.{
  ok, ◌>>=◌, write, write_ok, Succeeds, ok_succeeds, Succeeds-bind, Succeeds-impl,
}
use esp_glow.Prelude.Strings.{has_nul, Succeeds-if, str_equal_lem}
use esp_glow.Fixture.Capability.{Capability}
use esp_glow.Fixture.Profile.{ChannelMap, FunctionRange, FixtureProfile}
use esp_glow.Fixture.Parse.WellFormed.{IsChannel, IsRange, IsFixture}
use esp_glow.Fixture.Apply.{
  Conversions, find_channel, find_capability, index_from, channel_index_for_cap, range_at,
  range_at_local_index, range_named, apply_defaults_from, apply_defaults, clamp_std, level_8,
  level_16, apply_capability, write_range, apply_range_value, apply_range_by_name,
  apply_range_by_index,
}
use esp_glow.Fixture.Apply.Within.Search.{
  find_channel_all, index_from-lt, range_at_all, all_get_or, range_named_lem, fine_in_place,
}

-- The slots of a fixture at `base` may differ, and no others.
pub record Within (base footprint : ℕ) (before after : List ℕ) : Type 0 where
  pub size : length after ≡ length before
  pub outside : (i : ℕ) → (i < base) ⊎ (base + footprint ≤ i) → get_or after i 0 ≡ get_or before i 0

module _ (base footprint : ℕ) where
  Within-refl : (buf : List ℕ) → Within base footprint buf buf
  Within-refl buf = record { size = refl; outside = λ i away. refl }

  pub Within-trans :
      (a b c : List ℕ)
      → Within base footprint a b
      → Within base footprint b c
      → Within base footprint a c
  Within-trans a b c p q = record {
    size = q.size ∙ p.size;
    outside = λ i away. q.outside i away ∙ p.outside i away;
  }

  apart : (i j : ℕ) → i < footprint → (j < base) ⊎ (base + footprint ≤ j) → base + i ≢ j
  apart i j inside away = elim away [ inl below ↦ omega arith | inr above ↦ omega arith ]

  write-Within :
      (buf : List ℕ) (i v : ℕ)
      → base + footprint ≤ length buf
      → i < footprint
      → Succeeds (Within base footprint buf) (write buf (base + i) v)
  write-Within buf i v room inside = rw (write_ok buf (base + i) v (omega arith)) (
      ok_succeeds (record {
        size = length-set buf (base + i) v;
        outside = λ j away. get_or-set_ne buf (base + i) j v 0 (apart i j inside away);
      }))

  -- a write behind one that stayed within
  write-Within_next :
      (before buf : List ℕ) (i v : ℕ)
      → base + footprint ≤ length before
      → i < footprint
      → Within base footprint before buf
      → Succeeds (Within base footprint before) (write buf (base + i) v)
  write-Within_next before buf i v room inside p =
      Succeeds-impl _ _ (write-Within buf i v (omega (arith, p.size)) inside)
        (λ after q. Within-trans before buf after p q)

fine_cleared :
    (base footprint : ℕ) (before : List ℕ) (c : ChannelMap) (buf : List ℕ)
    → base + footprint ≤ length before
    → IsChannel footprint c
    → Within base footprint before buf
    → Succeeds
        (Within base footprint before)
        (if not (c.fine == 0xff) then write buf (base + c.fine) 0 else ok buf)
fine_cleared base footprint before c buf room is p = elim (Bool-cases (c.fine == 0xff)) [
  | inl narrow ↦ rw narrow (ok_succeeds p)
  | inr wide ↦
      rw wide
        (write-Within_next base footprint before buf c.fine 0 room (fine_in_place c is wide) p)
]

apply_defaults_from_lem :
    (base footprint : ℕ) (cs : List ChannelMap) (before buf : List ℕ)
    → base + footprint ≤ length before
    → All (IsChannel footprint) cs
    → Within base footprint before buf
    → Succeeds (Within base footprint before) (apply_defaults_from cs buf base)
unfolding apply_defaults_from
apply_defaults_from_lem base footprint [] before buf room are p = ok_succeeds p
apply_defaults_from_lem base footprint (c ∷ cs) before buf room are p =
    Succeeds-bind _
      (write-Within_next base footprint before buf c.coarse c.default_value room are.0.coarse_in p)
      (λ coarse q.
        Succeeds-bind _ (fine_cleared base footprint before c coarse room are.0 q)
          (λ both r. apply_defaults_from_lem base footprint cs before both room are.1 r))

abbrev no_channel : ChannelMap
no_channel = record { cap = 0; coarse = 0; fine = 0; default_value = 0; flags = 0 }

module _ {F : Type 0} ⦃fl : FloatOps F⦄ (conv : Conversions F) (p : FixtureProfile)
    (is : IsFixture p) (buf : List ℕ) (base : ℕ) (room : base + p.footprint ≤ length buf) where
  abbrev Kept : List ℕ → Type 0
  Kept after = Within base p.footprint buf after

  apply_defaults_lem : Succeeds Kept (apply_defaults p buf base)
  unfolding apply_defaults
  apply_defaults_lem =
      apply_defaults_from_lem base p.footprint p.channels buf buf room is.channels_are
        (Within-refl base p.footprint buf)

  write_channel :
      (c : ChannelMap) (clamped : F)
      → IsChannel p.footprint c
      → Succeeds Kept (
          if c.fine == 0xff
          then write buf (base + c.coarse) (level_8 conv c clamped)
          else (write buf (base + c.coarse) (level_16 conv c clamped / 2 ^ 8) >>= λ coarse.
              write coarse (base + c.fine) (bit_and (level_16 conv c clamped) 0xff)))
  write_channel c clamped in_place = elim (Bool-cases (c.fine == 0xff)) [
    | inl narrow ↦ rw narrow (
        write-Within base p.footprint buf c.coarse (level_8 conv c clamped) room in_place.coarse_in)
    | inr wide ↦ rw wide (
        Succeeds-bind _
          (write-Within base p.footprint buf c.coarse (level_16 conv c clamped / 2 ^ 8) room
            in_place.coarse_in)
          (λ coarse q.
            write-Within_next base p.footprint buf coarse c.fine
              (bit_and (level_16 conv c clamped) 0xff) room (fine_in_place c in_place wide) q))
  ]

  apply_capability_lem :
      (cap : Capability) (v : F) → Succeeds Kept (apply_capability conv p cap v buf base)
  unfolding apply_capability find_capability
  apply_capability_lem cap v = elim (Option-cases (find_channel cap p.channels)) [
    | inl absent ↦ rw (absent, apply_capability) (ok_succeeds (Within-refl base p.footprint buf))
    | inr (c, found) ↦
        rw (found, apply_capability)
          (write_channel c (clamp_std conv v)
            (find_channel_all (IsChannel p.footprint) cap p.channels c is.channels_are found))
  ]

  write_range_lem :
      (ci : ℕ) (r : FunctionRange) (v : F)
      → ci < length p.channels
      → Succeeds (λ out. Kept out.1) (write_range conv p ci r v buf base)
  unfolding write_range
  write_range_lem ci r v inside =
      let c = get_or p.channels ci no_channel in
      let in_place =
        all_get_or (IsChannel p.footprint) p.channels ci no_channel is.channels_are inside in
      rw (get_elem?-eq-get_or p.channels ci no_channel inside) (
        Succeeds-bind _
          (write-Within base p.footprint buf c.coarse (apply_range_value conv r v) room
            in_place.coarse_in)
          (λ written q. ok_succeeds q))

  apply_range_by_index_lem :
      (cap : Capability) (idx : ℕ) (v : F)
      → Succeeds (λ out. Kept out.1) (apply_range_by_index conv p cap idx v buf base)
  unfolding apply_range_by_index range_at_local_index
  apply_range_by_index_lem cap idx v = elim (Option-cases (channel_index_for_cap p cap)) [
    | inl absent ↦
        rw (absent, apply_range_by_index) (ok_succeeds (Within-refl base p.footprint buf))
    | inr (ci, at) ↦ elim (Option-cases (range_at ci idx 0 p.ranges)) [
      | inl none_such ↦
          rw (at, none_such, apply_range_by_index) (ok_succeeds (Within-refl base p.footprint buf))
      | inr (r, found) ↦
          rw (at, found, apply_range_by_index)
            (write_range_lem r.cap_index r v
              (range_at_all (IsRange (length p.channels) p.range_name_blob) ci idx 0 p.ranges r
                is.ranges_are found).cap_in)
    ]
  ]

  write_found :
      (found : Option FunctionRange) (ci : ℕ) (v : F)
      → ci < length p.channels
      → Succeeds
          (λ (out : Bool × List ℕ). Kept out.1)
          (elim found [ none ↦ ok (false, buf) | some r ↦ write_range conv p ci r v buf base ])
  write_found none ci v inside = ok_succeeds (Within-refl base p.footprint buf)
  write_found (some r) ci v inside = write_range_lem ci r v inside

  apply_range_by_name_lem :
      (cap : Capability) (name : Option (List ℕ)) (v : F)
      → Succeeds (λ out. Kept out.1) (apply_range_by_name conv p cap name v buf base)
  unfolding apply_range_by_name channel_index_for_cap
  apply_range_by_name_lem cap name v = elim (Option-cases (index_from cap p.channels)) [
    | inl absent ↦ rw (absent, apply_range_by_name) (ok_succeeds (Within-refl base p.footprint buf))
    | inr (ci, at) ↦ elim (Option-cases name) [
      | inl null ↦
          rw (at, null, apply_range_by_name) (ok_succeeds (Within-refl base p.footprint buf))
      | inr (n, given) ↦
          rw (at, given, apply_range_by_name)
            (Succeeds-bind _
              (range_named_lem (length p.channels) p.range_name_blob ci n p.ranges is.ranges_are)
              (λ found u. write_found found ci v (index_from-lt cap p.channels ci at)))
    ]
  ]

-- For a well-formed profile and a buffer with room for its footprint at `base`: setting a capability, the
-- defaults, and choosing a range by name or by index each succeed without reading or writing outside an
-- array, keep the size of the buffer, and change no slot outside `base … base + footprint - 1`.
pub apply-Within :
    {F : Type 0} ⦃fl : FloatOps F⦄ (conv : Conversions F) (p : FixtureProfile) (buf : List ℕ)
    (base : ℕ) (cap : Capability) (name : Option (List ℕ)) (idx : ℕ) (v : F)
    → IsFixture p
    → base + p.footprint ≤ length buf
    → Succeeds (Within base p.footprint buf) (apply_capability conv p cap v buf base)
      × Succeeds (Within base p.footprint buf) (apply_defaults p buf base)
      × Succeeds
          (λ out. Within base p.footprint buf out.1)
          (apply_range_by_name conv p cap name v buf base)
      × Succeeds
          (λ out. Within base p.footprint buf out.1)
          (apply_range_by_index conv p cap idx v buf base)
apply-Within conv p buf base cap name idx v is room = (
  apply_capability_lem conv p is buf base room cap v,
  apply_defaults_lem conv p is buf base room,
  apply_range_by_name_lem conv p is buf base room cap name v,
  apply_range_by_index_lem conv p is buf base room cap idx v,
)
