-- ===== src/Fixture/Encode/RoundTrip.antt =====
-- What `ProfileBuilder` emits, `parseProfile` reads back.
use esp_glow.Prelude.{
  ℕ, ◌+◌, ◌-◌, ◌*◌, ◌%◌, ◌^◌, ◌≤◌, ◌≡◌, refl, sym, ap, ◌∙◌, arith, subst, false, not, ◌&&◌, List,
  [], ◌∷◌, ◌++◌, if◌then◌else◌, ltb, ◌==◌, length, length-append, drop, All, ge→ltb,
}
use esp_glow.Prelude.Append.{append_assoc, append-nil, drop-append_at}
use esp_glow.Prelude.Outcome.{ok, read}
use esp_glow.Mdef.Parse.{each_record}
use esp_glow.Fixture.Parse.{
  parse_capability, parse_capability_records, parse_range, parse_v1, parse_v2, parse_profile,
}
use esp_glow.Fixture.Parse.WellFormed.{IsChannel}
use esp_glow.Fixture.Profile.{FixtureProfile}
use esp_glow.Fixture.Encode.{
  RangeSpec, ProfileBuilder, capability_record, capability_records, name_blob, name_offs,
  range_records, header, range_count_bytes, encode_with, encode,
}
use esp_glow.Fixture.Encode.Records.{each_record-table}
use esp_glow.Fixture.Encode.Built.{
  built, profile_of, InOrder, DescribesAll, built-DescribesAll, IsBuilder, capability_records-table,
  range_records-table, length-built, length-table, IsWritten, built-IsWritten,
}
use esp_glow.Fixture.Encode.Entries.{
  le_16_lem, range_bytes, parse_capability-record, parse_range-record,
}

module _ (bytes : List ℕ) where
  read_header :
      (version footprint caps name_len : ℕ)
      → 9 ≤ length bytes
      → read bytes 0 ≡ ok 80
      → read bytes 1 ≡ ok 70
      → read bytes 2 ≡ ok 88
      → read bytes 3 ≡ ok 49
      → read bytes 4 ≡ ok version
      → read bytes 5 ≡ ok 0
      → read bytes 6 ≡ ok footprint
      → read bytes 7 ≡ ok caps
      → read bytes 8 ≡ ok name_len
      → (not (version == 1) && not (version == 2)) ≡ false
      → caps ≤ 24
      → parse_profile bytes ≡ (
          if version == 1
          then parse_v1 bytes footprint caps name_len
          else parse_v2 bytes footprint caps name_len)
  unfolding parse_profile
  read_header version footprint caps name_len nine m0 m1 m2 m3 v f0 f c n known few =
      let whole = ge→ltb (length bytes) 9 nine in
      let fits = ge→ltb 24 caps few in rw (whole, m0, m1, m2, m3, v, known, f0, f, c, n, fits) refl

module _ (b : ProfileBuilder) (is : IsBuilder b) where
  abbrev caps : ℕ
  caps = length b.caps

  abbrev name_len : ℕ
  name_len = length b.name

  caps_byte : caps % 2 ^ 8 ≡ caps
  caps_byte = omega (arith, is.few_caps)

  name_byte : name_len % 2 ^ 8 ≡ name_len
  name_byte = omega (arith, is.short_name)

  caps_size : length (capability_records b.caps) ≡ 5 * caps
  caps_size =
      ap length (capability_records-table b.caps)
      ∙ length-table capability_record 5 (λ c. refl) b.caps

  -- the channel table, wherever it stands
  channels_read :
      (bytes pre post : List ℕ) (at : ℕ)
      → at ≡ length pre
      → bytes ≡ pre ++ (capability_records b.caps ++ post)
      → parse_capability_records bytes at caps b.footprint ≡ ok b.caps
  unfolding parse_capability_records
  channels_read bytes pre post at e whole =
      each_record-table capability_record bytes (parse_capability bytes b.footprint)
        (IsChannel b.footprint) 5 (λ c. refl)
        (λ pre c post here is. parse_capability-record bytes pre b.footprint c post here is) pre
        b.caps post at e (whole ∙ ap (λ t. pre ++ (t ++ post)) (capability_records-table b.caps))
        is.caps_are

  v1_read :
      parse_profile (encode_with b [])
      ≡ ok
          (record { footprint = b.footprint; channels = b.caps; ranges = []; range_name_blob = [] })
  unfolding read parse_v1
  v1_read =
      let bytes = encode_with b [] in
      let sized = length-append b.name (capability_records b.caps) in
      let room : ltb (length bytes) (9 + name_len + 5 * caps) ≡ false =
        ge→ltb (length bytes) (9 + name_len + 5 * caps) (omega (arith, sized, caps_size)) in
      let pre = header b 1 ++ b.name in
      let channels =
        channels_read bytes pre [] (9 + name_len) (omega arith)
          (ap (λ t. pre ++ t) (sym (append-nil (capability_records b.caps)))) in
      read_header bytes 1 b.footprint caps name_len (omega arith) refl refl refl refl refl refl refl
        (ap ok caps_byte) (ap ok name_byte) refl is.few_caps
      ∙ rw (room, channels) refl

  -- with ranges
  module _ (r : RangeSpec) (rs : List RangeSpec) (few : length (r ∷ rs) ≤ 192)
      (short : length (name_blob (r ∷ rs)) ≤ 2048) (are : All (InOrder caps) (r ∷ rs)) where
    abbrev all : List RangeSpec
    all = r ∷ rs

    abbrev bytes : List ℕ
    bytes = encode_with b all

    abbrev records : List ℕ
    records = range_records all (name_offs 0 all)

    abbrev ranges_at : ℕ
    ranges_at = 11 + name_len + 5 * caps

    abbrev names_at : ℕ
    names_at = ranges_at + 7 * length all

    abbrev before_ranges : List ℕ
    before_ranges =
        (header b 2 ++ range_count_bytes (length all)) ++ (b.name ++ capability_records b.caps)

    records_size : length records ≡ 7 * length all
    records_size =
        ap length (range_records-table 0 all)
        ∙ length-table range_bytes 7 (λ f. refl) (built 0 all)
        ∙ ap (λ n. 7 * n) (length-built 0 all)

    before_size : length before_ranges ≡ ranges_at
    before_size = omega (arith, length-append b.name (capability_records b.caps), caps_size)

    split : bytes ≡ before_ranges ++ (records ++ name_blob all)
    split =
        ap (λ t. header b 2 ++ (range_count_bytes (length all) ++ t))
          (sym (append_assoc b.name (capability_records b.caps) (records ++ name_blob all)))

    bytes_size : length bytes ≡ names_at + length (name_blob all)
    bytes_size = omega (
      arith,
      ap length split,
      length-append before_ranges (records ++ name_blob all),
      length-append records (name_blob all),
      before_size,
      records_size,
    )

    names_read : drop names_at bytes ≡ name_blob all
    names_read =
        ap (drop names_at) (split ∙ sym (append_assoc before_ranges records (name_blob all)))
        ∙ drop-append_at (before_ranges ++ records) (name_blob all) names_at 0
            (omega (arith, length-append before_ranges records, before_size, records_size))

    ranges_read :
        each_record
          (parse_range bytes caps names_at (length bytes - names_at))
          ranges_at
          7
          (length all)
        ≡ ok (built 0 all)
    ranges_read =
        let written =
          subst (λ names. All (IsWritten caps names) (built 0 all)) (sym names_read)
            (built-IsWritten caps 0 [] all (name_blob all) refl refl short are) in
        ap
          (λ n.
            each_record (parse_range bytes caps names_at (length bytes - names_at)) ranges_at 7 n)
          (sym (length-built 0 all))
        ∙ each_record-table range_bytes bytes
            (parse_range bytes caps names_at (length bytes - names_at))
            (IsWritten caps (drop names_at bytes)) 7 (λ f. refl)
            (λ pre f post here w.
              parse_range-record bytes pre caps names_at f post here (omega (arith, bytes_size)) w.0
                w.1 w.2)
            before_ranges (built 0 all) (name_blob all) ranges_at (sym before_size)
            (split ∙ ap (λ t. before_ranges ++ (t ++ name_blob all)) (range_records-table 0 all))
            written

    v2_read :
        parse_profile bytes
        ≡ ok (record {
          footprint = b.footprint;
          channels = b.caps;
          ranges = built 0 all;
          range_name_blob = name_blob all;
        })
    unfolding read parse_v2
    v2_read =
        let n = length all in
        let eleven : ltb (length bytes) 11 ≡ false =
          ge→ltb (length bytes) 11 (omega (arith, bytes_size)) in
        let whole : n % 2 ^ 16 ≡ n = omega arith in
        let counted = le_16_lem (n % 2 ^ 16) (omega arith) ∙ whole in
        let fits = ge→ltb 192 n few in
        let room : ltb (length bytes) names_at ≡ false =
          ge→ltb (length bytes) names_at (omega (arith, bytes_size)) in
        let small : ltb 2048 (length bytes - names_at) ≡ false =
          ge→ltb 2048 (length bytes - names_at) (omega (arith, bytes_size)) in
        let channels =
          channels_read bytes ((header b 2 ++ range_count_bytes n) ++ b.name)
            (records ++ name_blob all) (11 + name_len) (omega arith) refl in
        read_header bytes 2 b.footprint caps name_len (omega arith) refl refl refl refl refl refl
          refl (ap ok caps_byte) (ap ok name_byte) refl is.few_caps
        ∙ rw (eleven, counted, fits, room, small, channels, ranges_read, names_read) refl

encode_with_lem :
    (b : ProfileBuilder)
    → IsBuilder b
    → (rs : List RangeSpec) → b.ranges ≡ rs
    → parse_profile (encode_with b rs)
      ≡ ok (record {
        footprint = b.footprint;
        channels = b.caps;
        ranges = built 0 rs;
        range_name_blob = name_blob rs;
      })
encode_with_lem b is [] e = v1_read b is
encode_with_lem b is (r ∷ rs) e =
    v2_read b is r rs (subst (λ xs. length xs ≤ 192) e is.few_ranges)
      (subst (λ xs. length (name_blob xs) ≤ 2048) e is.short_names)
      (subst (λ xs. All (InOrder (length b.caps)) xs) e is.ranges_are)

pub encode-profile_of :
    (b : ProfileBuilder) → IsBuilder b → parse_profile (encode b) ≡ ok (profile_of b)
unfolding encode
encode-profile_of b is = encode_with_lem b is b.ranges refl

-- For a builder with at most 24 capabilities inside its footprint, at most 192 ranges in order and of its
-- capabilities, a name of at most 255 bytes and at most 2048 bytes of range names: parsing what it emits gives
-- its footprint, its capabilities and its ranges in order; at a range's name offset the name blob holds its
-- name and a NUL, and a range without a name has the offset 0xffff.
pub parse_profile-encode :
    (b : ProfileBuilder)
    → IsBuilder b
    → (p : FixtureProfile) × (parse_profile (encode b) ≡ ok p)
      × (p.footprint ≡ b.footprint)
      × (p.channels ≡ b.caps)
      × DescribesAll p.range_name_blob b.ranges p.ranges
parse_profile-encode b is = (
  profile_of b,
  encode-profile_of b is,
  refl,
  refl,
  built-DescribesAll 0 [] b.ranges (name_blob b.ranges) refl refl is.short_names,
)
