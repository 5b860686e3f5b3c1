-- ===== src/Fixture/Encode/Built.antt =====
-- The ranges and names that the encoder writes, as the parser gives them.
use native.Mathlib.Nat.{mul-suc}
use esp_glow.Prelude.{
  ℕ, suc, ◌+◌, ◌*◌, ◌%◌, ◌^◌, ◌≤◌, ◌<◌, ◌≡◌, refl, sym, ap, ◌∙◌, arith, subst, true, ◌⊎◌, inl, inr,
  List, [], ◌∷◌, ◌++◌, ◌==◌, length, length-append, drop, All, Bool-cases,
}
use esp_glow.Prelude.Append.{append_assoc, drop-append_at}
use esp_glow.Prelude.Strings.{has_nul}
use esp_glow.Mdef.Parse.Safe.{IsName}
use esp_glow.Fixture.Profile.{ChannelMap, FunctionRange, FixtureProfile}
use esp_glow.Fixture.Parse.WellFormed.{IsChannel, IsRange}
use esp_glow.Fixture.Encode.{
  RangeSpec, ProfileBuilder, capability_record, capability_records, name_entry, name_blob, name_off,
  name_offs, range_records,
}
use esp_glow.Fixture.Encode.Records.{table}
use esp_glow.Fixture.Encode.Entries.{range_bytes}

-- What the builder is asked for, as the parser gives it.
abbrev pub built_range : ℕ → RangeSpec → FunctionRange
built_range size r = record {
  cap_index = r.cap_index;
  dmx_from = r.dmx_from;
  dmx_to = r.dmx_to;
  continuous = r.continuous;
  name_off = name_off size r.name;
  semantic = 0;
}

abbrev pub built : ℕ → List RangeSpec → List FunctionRange
built size [] = []
built size (r ∷ rs) = built_range size r ∷ built (size + length (name_entry r.name)) rs

abbrev pub profile_of : ProfileBuilder → FixtureProfile
profile_of b = record {
  footprint = b.footprint;
  channels = b.caps;
  ranges = built 0 b.ranges;
  range_name_blob = name_blob b.ranges;
}

abbrev pub InOrder : ℕ → RangeSpec → Type 0
InOrder caps r = (r.cap_index < caps) × (r.dmx_from ≤ r.dmx_to)

-- A builder that the format has room for, with its channels inside the footprint and its ranges in order.
pub record IsBuilder (b : ProfileBuilder) : Type 0 where
  pub few_caps : length b.caps ≤ 24
  pub short_name : length b.name ≤ 255
  pub few_ranges : length b.ranges ≤ 192
  pub short_names : length (name_blob b.ranges) ≤ 2048
  pub caps_are : All (IsChannel b.footprint) b.caps
  pub ranges_are : All (InOrder (length b.caps)) b.ranges

pub capability_records-table :
    (cs : List ChannelMap) → capability_records cs ≡ table capability_record cs
capability_records-table [] = refl
capability_records-table (c ∷ cs) = ap (λ t. capability_record c ++ t) (capability_records-table cs)

pub range_records-table :
    (size : ℕ) (rs : List RangeSpec)
    → range_records rs (name_offs size rs) ≡ table range_bytes (built size rs)
range_records-table size [] = refl
range_records-table size (r ∷ rs) =
    ap (λ t. range_bytes (built_range size r) ++ t)
      (range_records-table (size + length (name_entry r.name)) rs)

pub length-built : (size : ℕ) (rs : List RangeSpec) → length (built size rs) ≡ length rs
length-built size [] = refl
length-built size (r ∷ rs) = ap suc (length-built (size + length (name_entry r.name)) rs)

pub length-table :
    {A : Type 0} (write : A → List ℕ) (n : ℕ)
    → ((x : A) → length (write x) ≡ n)
    → (xs : List A) → length (table write xs) ≡ n * length xs
length-table write n sized [] = omega arith
length-table write n sized (x ∷ xs) = omega (
  arith,
  length-append (write x) (table write xs),
  sized x,
  length-table write n sized xs,
  mul-suc n (length xs),
)

pub has_nul-append : (cs rest : List ℕ) → has_nul ((cs ++ (0 ∷ [])) ++ rest) ≡ true
has_nul-append [] rest = refl
has_nul-append (c ∷ cs) rest = elim (Bool-cases (c == 0)) [
  | inl nul ↦ rw nul refl
  | inr more ↦ rw more (has_nul-append cs rest)
]

abbrev pub IsNamed : List ℕ → ℕ → Type 0
IsNamed blob off = ((off ≡ 0xffff) ⊎ IsName blob off) × (off < 2 ^ 16)

-- A written name stands at its offset, ended by a NUL.
entry_found :
    (before : List ℕ) (c : ℕ) (cs rest blob : List ℕ) (size : ℕ)
    → size ≡ length before
    → blob ≡ before ++ (name_entry (c ∷ cs) ++ rest)
    → length blob ≤ 2048
    → (length before ≡ size % 2 ^ 16)
      × (length before < length blob)
      × (drop (length before) blob ≡ (c ∷ cs) ++ (0 ∷ rest))
entry_found before c cs rest blob size e whole short =
    let entry = name_entry (c ∷ cs) in
    let len = ap length whole in
    let sized = length-append before (entry ++ rest) in
    let here : length before < length blob = omega (arith, len, sized) in
    (
      omega arith,
      here,
      ap (drop (length before)) whole
          ∙ drop-append_at before (entry ++ rest) (length before) 0 (omega arith)
          ∙ append_assoc (c ∷ cs) (0 ∷ []) rest,
    )

-- The name blob has this name at `off`; 0xffff stands for no name.
abbrev pub HasName : List ℕ → List ℕ → ℕ → Type 0
HasName blob [] off = off ≡ 0xffff
HasName blob (c ∷ cs) off = (rest : List ℕ) × (drop off blob ≡ (c ∷ cs) ++ (0 ∷ rest))

entry-HasName :
    (before name rest blob : List ℕ) (size : ℕ)
    → size ≡ length before
    → blob ≡ before ++ (name_entry name ++ rest)
    → length blob ≤ 2048
    → HasName blob name (name_off size name)
entry-HasName before [] rest blob size e whole short = refl
entry-HasName before (c ∷ cs) rest blob size e whole short =
    let (off, here, found) = entry_found before c cs rest blob size e whole short in
    (rest, ap (λ o. drop o blob) (sym off) ∙ found)

-- A range of the profile is the one that the builder was given.
pub record Describes (blob : List ℕ) (r : RangeSpec) (f : FunctionRange) : Type 0 where
  pub cap_is : f.cap_index ≡ r.cap_index
  pub from_is : f.dmx_from ≡ r.dmx_from
  pub to_is : f.dmx_to ≡ r.dmx_to
  pub continuous_is : f.continuous ≡ r.continuous
  pub name_is : HasName blob r.name f.name_off
  pub no_semantic : f.semantic ≡ 0

abbrev pub DescribesAll : List ℕ → List RangeSpec → List FunctionRange → Type 0
DescribesAll blob [] [] = Unit
DescribesAll blob [] (f ∷ fs) = ⊥
DescribesAll blob (r ∷ rs) [] = ⊥
DescribesAll blob (r ∷ rs) (f ∷ fs) = Describes blob r f × DescribesAll blob rs fs

-- `before` is what the blob holds so far.
pub built-DescribesAll :
    (size : ℕ) (before : List ℕ) (rs : List RangeSpec) (blob : List ℕ)
    → size ≡ length before
    → blob ≡ before ++ name_blob rs
    → length blob ≤ 2048
    → DescribesAll blob rs (built size rs)
built-DescribesAll size before [] blob e whole short = tt
built-DescribesAll size before (r ∷ rs) blob e whole short = (
  record {
    cap_is = refl;
    from_is = refl;
    to_is = refl;
    continuous_is = refl;
    name_is = entry-HasName before r.name (name_blob rs) blob size e whole short;
    no_semantic = refl;
  },
  built-DescribesAll (size + length (name_entry r.name)) (before ++ name_entry r.name) rs blob
      (omega (arith, length-append before (name_entry r.name)))
      (whole ∙ sym (append_assoc before (name_entry r.name) (name_blob rs))) short,
)

pub entry-IsNamed :
    (before name rest blob : List ℕ) (size : ℕ)
    → size ≡ length before
    → blob ≡ before ++ (name_entry name ++ rest)
    → length blob ≤ 2048
    → IsNamed blob (name_off size name)
entry-IsNamed before [] rest blob size e whole short = (inl refl, omega arith)
entry-IsNamed before (c ∷ cs) rest blob size e whole short =
    let (off, here, found) = entry_found before c cs rest blob size e whole short in
    let ended = ap has_nul (sym (append_assoc (c ∷ cs) (0 ∷ []) rest)) in
    subst (IsNamed blob) off (
      inr (record {
        inside = here;
        ended = ap has_nul found ∙ ended ∙ has_nul-append (c ∷ cs) rest;
      }),
      omega arith,
    )

abbrev pub IsWritten : ℕ → List ℕ → FunctionRange → Type 0
IsWritten caps blob r = IsRange caps blob r × (r.name_off < 2 ^ 16) × (r.semantic ≡ 0)

-- Each offset points at a name that ends, in the whole blob: `before` is what it holds so far.
pub built-IsWritten :
    (caps size : ℕ) (before : List ℕ) (rs : List RangeSpec) (blob : List ℕ)
    → size ≡ length before
    → blob ≡ before ++ name_blob rs
    → length blob ≤ 2048
    → All (InOrder caps) rs
    → All (IsWritten caps blob) (built size rs)
built-IsWritten caps size before [] blob e whole short are = tt
built-IsWritten caps size before (r ∷ rs) blob e whole short are =
    let (name, small) = entry-IsNamed before r.name (name_blob rs) blob size e whole short in
    (
      (record { cap_in = are.0.0; ordered = are.0.1; name = name }, small, refl),
      built-IsWritten caps (size + length (name_entry r.name)) (before ++ name_entry r.name) rs blob
          (omega (arith, length-append before (name_entry r.name)))
          (whole ∙ sym (append_assoc before (name_entry r.name) (name_blob rs))) short are.1,
    )
