-- ===== src/Fixture/Encode.antt =====
-- profile_encoder.h and profile_encoder.cpp: the blob that a `ProfileBuilder` emits.
pub mod Records
pub mod Entries
pub mod Built
pub mod RoundTrip
use esp_glow.Prelude.{
  ℕ, zero, suc, ◌+◌, ◌*◌, ◌/◌, ◌%◌, ◌^◌, Bool, true, false, List, [], ◌∷◌, ◌++◌, if◌then◌else◌,
  length, bit_and,
}
use esp_glow.Fixture.Capability.{Capability}
use esp_glow.Fixture.Profile.{ChannelMap}

-- A string is the list of its bytes; a range without a name has the empty one.
pub record RangeSpec : Type 0 where
  pub cap_index : ℕ
  pub dmx_from : ℕ
  pub dmx_to : ℕ
  pub continuous : Bool
  pub name : List ℕ

pub record ProfileBuilder : Type 0 where
  pub footprint : ℕ
  pub name : List ℕ
  pub caps : List ChannelMap
  pub ranges : List RangeSpec

abbrev pub set_footprint : ProfileBuilder → ℕ → ProfileBuilder
set_footprint b f = record b { footprint = f }

abbrev pub add : ProfileBuilder → Capability → ℕ → ℕ → ℕ → Bool → ProfileBuilder
add b c coarse fine def inverted =
    let cm : ChannelMap = record {
      cap = c;
      coarse = coarse;
      fine = fine;
      default_value = def;
      flags = if inverted then 1 else 0;
    } in
    record b { caps = b.caps ++ (cm ∷ []) }

abbrev pub add_range : ProfileBuilder → ℕ → ℕ → ℕ → Bool → List ℕ → ProfileBuilder
add_range b cap_index dmx_from dmx_to continuous range_name =
    let r : RangeSpec = record {
      cap_index = cap_index;
      dmx_from = dmx_from;
      dmx_to = dmx_to;
      continuous = continuous;
      name = range_name;
    } in
    record b { ranges = b.ranges ++ (r ∷ []) }

abbrev pub capability_record : ChannelMap → List ℕ
capability_record c = c.cap ∷ c.coarse ∷ c.fine ∷ c.default_value ∷ c.flags ∷ []

abbrev pub capability_records : List ChannelMap → List ℕ
capability_records [] = []
capability_records (c ∷ cs) = capability_record c ++ capability_records cs

-- a name as the name blob holds it
abbrev pub name_entry : List ℕ → List ℕ
name_entry [] = []
name_entry (c ∷ cs) = (c ∷ cs) ++ (0 ∷ [])

abbrev pub name_blob : List RangeSpec → List ℕ
name_blob [] = []
name_blob (r ∷ rs) = name_entry r.name ++ name_blob rs

-- the offset of a name, where the blob holds `size` bytes so far
abbrev pub name_off : ℕ → List ℕ → ℕ
name_off size [] = 0xffff
name_off size (c ∷ cs) = size % 2 ^ 16

abbrev pub name_offs : ℕ → List RangeSpec → List ℕ
name_offs size [] = []
name_offs size (r ∷ rs) = name_off size r.name ∷ name_offs (size + length (name_entry r.name)) rs

abbrev pub range_record : RangeSpec → ℕ → List ℕ
range_record r off =
    r.cap_index
    ∷ r.dmx_from
    ∷ r.dmx_to
    ∷ (if r.continuous then 1 else 0)
    ∷ bit_and off 0xff
    ∷ bit_and (off / 2 ^ 8) 0xff
    ∷ 0
    ∷ []

-- `nameOffs[i]` beside `ranges[i]`: the two have the same length
abbrev pub range_records : List RangeSpec → List ℕ → List ℕ
range_records [] offs = []
range_records (r ∷ rs) [] = []
range_records (r ∷ rs) (off ∷ offs) = range_record r off ++ range_records rs offs

abbrev pub header : ProfileBuilder → ℕ → List ℕ
header b version =
    80
    ∷ 70
    ∷ 88
    ∷ 49
    ∷ version
    ∷ 0
    ∷ b.footprint
    ∷ length b.caps % 2 ^ 8
    ∷ length b.name % 2 ^ 8
    ∷ []

abbrev pub range_count_bytes : ℕ → List ℕ
range_count_bytes count = bit_and (count % 2 ^ 16) 0xff ∷ bit_and (count % 2 ^ 16 / 2 ^ 8) 0xff ∷ []

-- the blob for the builder's ranges: version 1 without any
abbrev pub encode_with : ProfileBuilder → List RangeSpec → List ℕ
encode_with b [] = header b 1 ++ (b.name ++ capability_records b.caps)
encode_with b (r ∷ rs) =
    header b 2
    ++ (range_count_bytes (length (r ∷ rs))
        ++ (b.name
            ++ (capability_records b.caps
                ++ (range_records (r ∷ rs) (name_offs 0 (r ∷ rs)) ++ name_blob (r ∷ rs)))))

unfoldable pub encode : ProfileBuilder → List ℕ
encode b = encode_with b b.ranges
