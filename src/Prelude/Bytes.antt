-- ===== src/Prelude/Bytes.antt =====
-- Lists whose numbers are bytes.
use Prim.Native.Nat.{ℕ, zero, suc, ◌<◌, ◌^◌}
use mathlib.Core.Path.{◌≡◌}
use mathlib.Core.Bool.{Bool, true, ◌&&◌}
use mathlib.Core.Logic.{inl, inr}
use mathlib.Core.List.{List, [], ◌∷◌}
use native.Mathlib.Omega.{arith}
use esp_glow.Prelude.Tests.{ltb, ltb→lt, Bool-cases}
use esp_glow.Prelude.Lists.{All, get_or, set, take, drop}

abbrev pub Bytes : List ℕ → Type 0
Bytes = All (λ b. b < 2 ^ 8)

pub get_or-Bytes : (xs : List ℕ) (i : ℕ) → Bytes xs → get_or xs i 0 < 2 ^ 8
get_or-Bytes [] i bytes = omega arith
get_or-Bytes (x ∷ xs) zero bytes = bytes.0
get_or-Bytes (x ∷ xs) (suc i) bytes = get_or-Bytes xs i bytes.1

pub take-Bytes : (n : ℕ) (xs : List ℕ) → Bytes xs → Bytes (take n xs)
take-Bytes zero xs bytes = tt
take-Bytes (suc n) [] bytes = tt
take-Bytes (suc n) (x ∷ xs) bytes = (bytes.0, take-Bytes n xs bytes.1)

pub drop-Bytes : (n : ℕ) (xs : List ℕ) → Bytes xs → Bytes (drop n xs)
drop-Bytes zero xs bytes = bytes
drop-Bytes (suc n) [] bytes = tt
drop-Bytes (suc n) (x ∷ xs) bytes = drop-Bytes n xs bytes.1

pub set-Bytes : (xs : List ℕ) (i v : ℕ) → Bytes xs → v < 2 ^ 8 → Bytes (set xs i v)
set-Bytes [] i v bytes h = tt
set-Bytes (x ∷ xs) zero v bytes h = (h, bytes.1)
set-Bytes (x ∷ xs) (suc i) v bytes h = (bytes.0, set-Bytes xs i v bytes.1 h)

abbrev pub bytes_test : List ℕ → Bool
bytes_test [] = true
bytes_test (x ∷ xs) = ltb x 256 && bytes_test xs

pub bytes_test_lem : (xs : List ℕ) → bytes_test xs ≡ true → Bytes xs
bytes_test_lem [] h = tt
bytes_test_lem (x ∷ xs) h = elim (Bool-cases (ltb x 256)) [
  | inl less ↦ (ltb→lt _ _ less, bytes_test_lem xs (ground (arith, h, less)))
  | inr more ↦ absurd (ground (arith, h, more))
]
