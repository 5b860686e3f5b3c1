-- ===== src/Prelude/Append.antt =====
-- Reading and writing a list at a place behind its first part.
use Prim.Native.Nat.{ℕ, zero, suc, ◌+◌}
use mathlib.Core.Path.{◌≡◌, refl, ap}
use mathlib.Core.List.{List, [], ◌∷◌, ◌++◌}
use native.Mathlib.Omega.{arith}
use esp_glow.Prelude.Lists.{length, get_elem?, set, take, drop, replicate}

module _ {ℓ} {A : Type ℓ} where
  pub append_assoc : (xs ys zs : List A) → (xs ++ ys) ++ zs ≡ xs ++ (ys ++ zs)
  append_assoc [] ys zs = refl
  append_assoc (x ∷ xs) ys zs = ap (◌∷◌ x) (append_assoc xs ys zs)

  pub append-nil : (xs : List A) → xs ++ [] ≡ xs
  append-nil [] = refl
  append-nil (x ∷ xs) = ap (◌∷◌ x) (append-nil xs)

  pub take-append_at :
      (pre rest : List A) (j k : ℕ) → j ≡ length pre + k → take j (pre ++ rest) ≡ pre ++ take k rest
  take-append_at [] rest j k e = ap (λ n. take n rest) (omega arith)
  take-append_at (x ∷ pre) rest zero k e = absurd (omega arith)
  take-append_at (x ∷ pre) rest (suc j) k e = ap (◌∷◌ x) (take-append_at pre rest j k (omega arith))

  pub drop-append_at :
      (pre rest : List A) (j k : ℕ) → j ≡ length pre + k → drop j (pre ++ rest) ≡ drop k rest
  drop-append_at [] rest j k e = ap (λ n. drop n rest) (omega arith)
  drop-append_at (x ∷ pre) rest zero k e = absurd (omega arith)
  drop-append_at (x ∷ pre) rest (suc j) k e = drop-append_at pre rest j k (omega arith)

  pub set-append_at :
      (pre rest : List A) (j k : ℕ) (v : A)
      → j ≡ length pre + k
      → set (pre ++ rest) j v ≡ pre ++ set rest k v
  set-append_at [] rest j k v e = ap (λ n. set rest n v) (omega arith)
  set-append_at (x ∷ pre) rest zero k v e = absurd (omega arith)
  set-append_at (x ∷ pre) rest (suc j) k v e =
      ap (◌∷◌ x) (set-append_at pre rest j k v (omega arith))

  pub get_elem?-append_at :
      (pre rest : List A) (j k : ℕ)
      → j ≡ length pre + k
      → get_elem? (pre ++ rest) j ≡ get_elem? rest k
  get_elem?-append_at [] rest j k e = ap (get_elem? rest) (omega arith)
  get_elem?-append_at (x ∷ pre) rest zero k e = absurd (omega arith)
  get_elem?-append_at (x ∷ pre) rest (suc j) k e = get_elem?-append_at pre rest j k (omega arith)

  pub replicate_add :
      (n j k : ℕ) (a : A) → n ≡ j + k → replicate n a ≡ replicate j a ++ replicate k a
  replicate_add n zero k a e = ap (λ n. replicate n a) (omega arith)
  replicate_add zero (suc j) k a e = absurd (omega arith)
  replicate_add (suc n) (suc j) k a e = ap (◌∷◌ a) (replicate_add n j k a (omega arith))

  pub drop-replicate : (n j k : ℕ) (a : A) → n ≡ j + k → drop j (replicate n a) ≡ replicate k a
  drop-replicate n zero k a e = ap (λ n. replicate n a) (omega arith)
  drop-replicate zero (suc j) k a e = absurd (omega arith)
  drop-replicate (suc n) (suc j) k a e = drop-replicate n j k a (omega arith)
