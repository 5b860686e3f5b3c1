-- ===== src/Prelude/Strings.antt =====
-- C strings in a buffer of bytes.
use Prim.Native.Nat.{ℕ}
use mathlib.Core.Path.{◌≡◌}
use mathlib.Core.Bool.{Bool, true, false}
use mathlib.Core.Logic.{inl, inr}
use mathlib.Core.List.{List, [], ◌∷◌}
use native.Mathlib.Omega.{arith}
use esp_glow.Prelude.Tests.{◌==◌, if◌then◌else◌, Bool-cases}
use esp_glow.Prelude.Outcome.{Outcome, ok, fault, Succeeds, ok_succeeds}

-- a string that ends in the buffer: there is a NUL
abbrev pub has_nul : List ℕ → Bool
has_nul [] = false
has_nul (b ∷ bs) = let rest = has_nul bs in if b == 0 then true else rest

-- `strcmp(bytes, name) == 0`: `bytes` is the buffer from the first string on, `name` the second without its NUL.
unfoldable pub str_equal : List ℕ → List ℕ → Outcome Bool
str_equal [] name = fault
str_equal (c ∷ bytes) [] = ok (c == 0)
str_equal (c ∷ bytes) (n ∷ name) =
    let rest = str_equal bytes name in
    if c == 0 then ok false else if c == n then rest else ok false

pub Succeeds-if :
    {A : Type 0} (P : A → Type 0) {m n : Outcome A} (b : Bool)
    → Succeeds P m
    → Succeeds P n
    → Succeeds P (if b then m else n)
Succeeds-if P true p q = p
Succeeds-if P false p q = q

-- a comparison with a string that ends
pub str_equal_lem :
    (bytes name : List ℕ)
    → has_nul bytes ≡ true
    → Succeeds (λ (b : Bool). Unit {0}) (str_equal bytes name)
unfolding str_equal
str_equal_lem [] name h = absurd cc
str_equal_lem (c ∷ bytes) [] h = ok_succeeds tt
str_equal_lem (c ∷ bytes) (n ∷ name) h = elim (Bool-cases (c == 0)) [
  | inl nul ↦ rw nul (ok_succeeds tt)
  | inr more ↦
      let ends : has_nul bytes ≡ true = ground (arith, h, more) in
      elim (Bool-cases (c == n)) [
        | inl same ↦ rw (more, same) (str_equal_lem bytes name ends)
        | inr differs ↦ rw (more, differs) (ok_succeeds tt)
      ]
]
