-- ===== src/Fixture/Parse.antt =====
-- `parseProfile`: the list holds the `len` bytes of the blob, and reading behind them is a fault. On a refusal
-- the source leaves some of `out` written; the result here is only that it refused.
pub mod WellFormed
use esp_glow.Prelude.{
  ℕ, ◌+◌, ◌-◌, ◌*◌, ◌^◌, Bool, true, false, not, ◌&&◌, ◌||◌, List, [], ◌∷◌, if◌then◌else◌, ltb, leb,
  ◌==◌, length, drop, bit_and,
}
use esp_glow.Prelude.Outcome.{Outcome, ok, ◌>>=◌, ◌>>◌, require, read}
use esp_glow.Mdef.Parse.{each_record, le_16, check_name}
use esp_glow.Fixture.Profile.{
  max_caps, max_ranges, max_range_name_blob, ChannelMap, FunctionRange, FixtureProfile,
}

unfoldable pub parse_capability : List ℕ → ℕ → ℕ → Outcome ChannelMap
parse_capability bytes footprint o = do
  type ← read bytes o
  coarse ← read bytes (o + 1)
  fine ← read bytes (o + 2)
  default_value ← read bytes (o + 3)
  flags ← read bytes (o + 4)
  require (not (leb footprint coarse))
  require (not (not (fine == 0xff) && leb footprint fine))
  ok (record {
    cap = type;
    coarse = coarse;
    fine = fine;
    default_value = default_value;
    flags = flags;
  })

unfoldable pub parse_capability_records : List ℕ → ℕ → ℕ → ℕ → Outcome (List ChannelMap)
unfolding parse_capability each_record
parse_capability_records bytes cap_table cap_count footprint =
    each_record (parse_capability bytes footprint) cap_table 5 cap_count

unfoldable pub parse_range : List ℕ → ℕ → ℕ → ℕ → ℕ → Outcome FunctionRange
unfolding check_name
parse_range bytes cap_count blob blob_len o = do
  cap_index ← read bytes o
  from ← read bytes (o + 1)
  to ← read bytes (o + 2)
  flags ← read bytes (o + 3)
  low ← read bytes (o + 4)
  high ← read bytes (o + 5)
  semantic ← read bytes (o + 6)
  let name_off = le_16 low high
  require (not (leb cap_count cap_index))
  require (not (ltb to from))
  if not (name_off == 0xffff) then check_name bytes blob blob_len name_off else ok tt
  ok (record {
    cap_index = cap_index;
    dmx_from = from;
    dmx_to = to;
    continuous = not (bit_and flags 1 == 0);
    name_off = name_off;
    semantic = semantic;
  })

-- `version == 1`
unfoldable pub parse_v1 : List ℕ → ℕ → ℕ → ℕ → Outcome FixtureProfile
unfolding parse_capability_records
parse_v1 bytes footprint cap_count name_len = do
  require (not (ltb (length bytes) (9 + name_len + 5 * cap_count)))
  channels ← parse_capability_records bytes (9 + name_len) cap_count footprint
  ok (record { footprint = footprint; channels = channels; ranges = []; range_name_blob = [] })

-- `version == 2`
unfoldable pub parse_v2 : List ℕ → ℕ → ℕ → ℕ → Outcome FixtureProfile
unfolding parse_capability_records parse_range each_record
parse_v2 bytes footprint cap_count name_len = do
  require (not (ltb (length bytes) 11))
  low ← read bytes 9
  high ← read bytes 10
  let range_count = le_16 low high
  require (not (ltb max_ranges range_count))
  let cap_table = 11 + name_len
  let range_table = cap_table + 5 * cap_count
  let name_blob = range_table + 7 * range_count
  require (not (ltb (length bytes) name_blob))
  let blob_len = length bytes - name_blob
  require (not (ltb max_range_name_blob blob_len))
  channels ← parse_capability_records bytes cap_table cap_count footprint
  ranges ← each_record (parse_range bytes cap_count name_blob blob_len) range_table 7 range_count
  ok (record {
    footprint = footprint;
    channels = channels;
    ranges = ranges;
    range_name_blob = drop name_blob bytes;
  })

unfoldable pub parse_profile : List ℕ → Outcome FixtureProfile
unfolding parse_v1 parse_v2
parse_profile bytes = do
  require (not (ltb (length bytes) 9))
  m0 ← read bytes 0
  m1 ← read bytes 1
  m2 ← read bytes 2
  m3 ← read bytes 3
  require (m0 == 80 && m1 == 70 && m2 == 88 && m3 == 49)
  version ← read bytes 4
  require (not (not (version == 1) && not (version == 2)))
  flags ← read bytes 5
  require (not (not (flags == 0)))
  footprint ← read bytes 6
  cap_count ← read bytes 7
  name_len ← read bytes 8
  require (not (ltb max_caps cap_count))
  if version == 1
      then parse_v1 bytes footprint cap_count name_len
      else parse_v2 bytes footprint cap_count name_len
