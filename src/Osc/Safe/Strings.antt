-- ===== src/Osc/Safe/Strings.antt =====
-- The padded strings and 32-bit numbers of a packet: what reading them gives.
use esp_glow.Prelude.{
  ℕ, zero, suc, ◌+◌, ◌-◌, ◌*◌, ◌/◌, ◌%◌, ◌^◌, ◌≤◌, ◌<◌, ◌≡◌, refl, ap, ◌∙◌, arith, true, not, inl,
  inr, List, [], ◌∷◌, ltb, ◌==◌, ltb→lt, length, get_or, Bool-cases, ==_iff,
}
use esp_glow.Prelude.Bits.{or_bound}
use esp_glow.Prelude.Outcome.{
  Outcome, ok, ◌>>=◌, Returns, ok_returns, Returns-bind, Returns-require, Returns-read, read_ok,
  Succeeds, ok_succeeds, Succeeds-bind, Succeeds-Returns, Succeeds-read,
}
use esp_glow.Prelude.Strings.{has_nul}
use esp_glow.Mdef.Parse.Safe.{not-ltb}
use esp_glow.Osc.{scan_nul, check_padding, read_osc_string, u32_be, read_u32_be}

pub u32_be_bound :
    (a b c d : ℕ) → a < 2 ^ 8 → b < 2 ^ 8 → c < 2 ^ 8 → d < 2 ^ 8 → u32_be a b c d < 2 ^ 32
u32_be_bound a b c d ha hb hc hd =
    let two = or_bound 32 (a * 2 ^ 24) (b * 2 ^ 16) (omega arith) (omega arith) in
    or_bound 32 _ d (or_bound 32 _ (c * 2 ^ 8) two (omega arith)) (omega arith)

pub has_nul_at :
    (bytes : List ℕ) (i : ℕ) → i < length bytes → get_or bytes i 0 ≡ 0 → has_nul bytes ≡ true
has_nul_at [] i h e = absurd (omega arith)
has_nul_at (x ∷ bytes) zero h e = let nul = (==_iff x 0).1 e in rw nul refl
has_nul_at (x ∷ bytes) (suc i) h e = elim (Bool-cases (x == 0)) [
  | inl nul ↦ rw nul refl
  | inr more ↦ rw more (has_nul_at bytes i (omega arith) e)
]

module _ (bytes : List ℕ) where
  abbrev byte : ℕ → ℕ
  byte i = get_or bytes i 0

  -- the scan stops at a NUL or at the end
  record IsScan (i n j : ℕ) : Type 0 where
    from : i ≤ j
    to : j ≤ i + n
    nul : j < i + n → byte j ≡ 0

  scan_nul_lem : (i n : ℕ) → i + n ≤ length bytes → Succeeds (IsScan i n) (scan_nul bytes i n)
  unfolding scan_nul
  scan_nul_lem i zero h =
      ok_succeeds (record { from = omega arith; to = omega arith; nul = λ k. absurd (omega arith) })
  scan_nul_lem i (suc n) h =
      Succeeds-read bytes i _ (omega arith) (elim (Bool-cases (byte i == 0)) [
        | inl nul ↦ rw nul (
            ok_succeeds (record {
              from = omega arith;
              to = omega arith;
              nul = λ k. (==_iff (byte i) 0).0 nul;
            }))
        | inr more ↦ rw more (
            Succeeds-bind _ (scan_nul_lem (i + 1) n (omega arith)) (λ j s. ok_succeeds (record {
              from = omega (arith, s.from);
              to = omega (arith, s.to);
              nul = λ k. s.nul (omega arith);
            })))
      ])

  check_padding_lem :
      (p n : ℕ)
      → p + n ≤ length bytes
      → Returns (λ (u : Unit {0}). Unit {0}) (check_padding bytes p n)
  unfolding check_padding
  check_padding_lem p zero h = ok_returns tt
  check_padding_lem p (suc n) h =
      Returns-read bytes p _ (omega arith)
        (Returns-require (byte p == 0) (λ e. check_padding_lem (p + 1) n (omega arith)))

  pub record IsString (len start : ℕ) (r : ℕ × ℕ) : Type 0 where
    pub behind : start < r.1
    pub inside : r.1 ≤ len
    pub aligned : r.1 % 4 ≡ 0
    pub ends : byte (start + r.0) ≡ 0
    pub ends_in : start + r.0 < len

  pub read_osc_string_lem :
      (len start : ℕ)
      → len ≤ length bytes
      → Returns (IsString len start) (read_osc_string bytes len start)
  unfolding read_osc_string
  read_osc_string_lem len start h = Returns-require (ltb start len) (λ some_left.
      let left : start < len = ltb→lt _ _ some_left in
      Returns-bind _ (Succeeds-Returns (scan_nul_lem start (len - start) (omega arith))) (λ i s.
        Returns-require (ltb i len) (λ found.
          let here : i < len = ltb→lt _ _ found in
          let aligned = (i + 1 + 3) / 4 * 4 in
          Returns-require (not (ltb len aligned)) (λ fits.
            Returns-bind _
              (check_padding_lem (i + 1) (aligned - (i + 1)) (omega (arith, not-ltb _ _ fits)))
              (λ u padded. ok_returns (record {
                behind = omega arith;
                inside = not-ltb _ _ fits;
                aligned = omega arith;
                ends = ap byte (omega (arith, s.from)) ∙ s.nul (omega (arith, s.from));
                ends_in = omega (arith, s.from);
              }))))))

  module _ {ν ℓ} {B : Type ℓ} {Q : B → Type ν} where
    pub Returns-u32 :
        (at : ℕ) (f : ℕ → Outcome B)
        → at + 4 ≤ length bytes
        → Returns Q (f (u32_be (byte at) (byte (at + 1)) (byte (at + 2)) (byte (at + 3))))
        → Returns Q (read_u32_be bytes at >>= f)
    unfolding read_u32_be
    Returns-u32 at f h k =
        rw
          (
            read_ok bytes at (omega arith),
            read_ok bytes (at + 1) (omega arith),
            read_ok bytes (at + 2) (omega arith),
            read_ok bytes (at + 3) (omega arith),
          )
          k

  pub read_u32_be_ok :
      (at : ℕ)
      → at + 4 ≤ length bytes
      → read_u32_be bytes at ≡ ok (u32_be (byte at) (byte (at + 1)) (byte (at + 2)) (byte (at + 3)))
  unfolding read_u32_be
  read_u32_be_ok at h =
      rw
        (
          read_ok bytes at (omega arith),
          read_ok bytes (at + 1) (omega arith),
          read_ok bytes (at + 2) (omega arith),
          read_ok bytes (at + 3) (omega arith),
        )
        refl
