-- ===== src/Prelude/Outcome.antt =====
-- The result of a parser over a byte buffer: a value, the source's `return false`, or a read or
-- write outside the storage, which C++ leaves undefined. A proof of `Returns` rules the last out.
use Prim.Native.Nat.{ℕ, ◌<◌}
use mathlib.Core.Path.{◌≡◌, refl, subst}
use mathlib.Core.Bool.{Bool, true, false}
use mathlib.Core.Option.{Option, none, some}
use mathlib.Core.List.{List}
use esp_glow.Prelude.Lists.{length, get_elem?, get_or, set, get_elem?-eq-get_or}
use esp_glow.Prelude.Tests.{ltb, if◌then◌else◌, lt→ltb}

pub data Outcome {ℓ} (A : Type ℓ) : Type ℓ where
  ok : A → Outcome A
  reject : Outcome A
  fault : Outcome A

infixl 5 ◌>>=◌ ◌>>◌
abbrev pub ◌>>=◌ {ℓ κ} : {A : Type ℓ} {B : Type κ} → Outcome A → (A → Outcome B) → Outcome B
ok a >>= f = f a
reject >>= f = reject
fault >>= f = fault

abbrev pub ◌>>◌ {ℓ} : {B : Type ℓ} → Outcome (Unit {0}) → Outcome B → Outcome B
m >> k = m >>= λ _. k

-- `if (!test) return false;`
abbrev pub require : Bool → Outcome (Unit {0})
require true = ok tt
require false = reject

-- `data[i]`, for an array whose length the program has to respect
abbrev pub or_fault {ℓ} : {A : Type ℓ} → Option A → Outcome A
or_fault none = fault
or_fault (some a) = ok a

unfoldable pub read : List ℕ → ℕ → Outcome ℕ
read bytes i = or_fault (get_elem? bytes i)

-- `data[i] = v`, likewise
unfoldable pub write : List ℕ → ℕ → ℕ → Outcome (List ℕ)
write bytes i v = if ltb i (length bytes) then ok (set bytes i v) else fault

-- A value that satisfies `P`.
pub data Succeeds {ℓ κ} {A : Type ℓ} (P : A → Type κ) : Outcome A → Type (ℓ ⊔ κ) where
  ok_succeeds : {a : A} → P a → Succeeds P (ok a)

pub Succeeds-bind {ℓ κ μ ν} :
    {A : Type ℓ} {P : A → Type κ} {B : Type μ} {Q : B → Type ν} {m : Outcome A} (f : A → Outcome B)
    → Succeeds P m
    → ((a : A) → P a → Succeeds Q (f a))
    → Succeeds Q (m >>= f)
Succeeds-bind f (ok_succeeds p) k = k _ p

pub Succeeds-impl {ℓ} :
    {A : Type ℓ} (P Q : A → Type 0) {m : Outcome A}
    → Succeeds P m
    → ((a : A) → P a → Q a)
    → Succeeds Q m
Succeeds-impl P Q (ok_succeeds p) f = ok_succeeds (f _ p)

pub write_ok : (bytes : List ℕ) (i v : ℕ) → i < length bytes → write bytes i v ≡ ok (set bytes i v)
unfolding write
write_ok bytes i v h = let inside : ltb i (length bytes) ≡ true = lt→ltb _ _ h in rw inside refl

-- No fault, and every value returned satisfies `P`.
pub data Returns {ℓ κ} {A : Type ℓ} (P : A → Type κ) : Outcome A → Type (ℓ ⊔ κ) where
  ok_returns : {a : A} → P a → Returns P (ok a)
  reject_returns : Returns P reject

module _ {ℓ κ} {A : Type ℓ} {P : A → Type κ} where
  pub Returns-ok : {m : Outcome A} {a : A} → Returns P m → m ≡ ok a → P a
  Returns-ok (ok_returns {a} p) e = subst P (cc) p
  Returns-ok reject_returns e = absurd cc

  pub Returns-ne-fault : {m : Outcome A} → Returns P m → m ≡ fault → ⊥
  Returns-ne-fault (ok_returns p) e = cc
  Returns-ne-fault reject_returns e = cc

-- Where nothing can be returned, the input is refused.
pub Returns-reject {ℓ} :
    {A : Type ℓ} {P : Type 0} {m : Outcome A} → Returns (λ (a : A). P) m → (P → ⊥) → m ≡ reject
Returns-reject (ok_returns p) never = absurd (never p)
Returns-reject reject_returns never = refl

module _ {ℓ κ μ ν} {A : Type ℓ} {B : Type μ} {P : A → Type κ} {Q : B → Type ν} where
  pub Returns-bind :
      {m : Outcome A} (f : A → Outcome B)
      → Returns P m
      → ((a : A) → P a → Returns Q (f a))
      → Returns Q (m >>= f)
  Returns-bind f (ok_returns p) k = k _ p
  Returns-bind f reject_returns k = reject_returns

module _ {ν ℓ} {B : Type ℓ} {Q : B → Type ν} where
  pub Returns-require :
      (b : Bool) {m : Outcome B} → (b ≡ true → Returns Q m) → Returns Q (require b >> m)
  Returns-require true k = k refl
  Returns-require false k = reject_returns

  pub Returns-read :
      (bytes : List ℕ) (i : ℕ) (f : ℕ → Outcome B)
      → i < length bytes
      → Returns Q (f (get_or bytes i 0))
      → Returns Q (read bytes i >>= f)
  unfolding read
  Returns-read bytes i f h k = rw (get_elem?-eq-get_or bytes i 0 h) k

pub read_ok : (bytes : List ℕ) (i : ℕ) → i < length bytes → read bytes i ≡ ok (get_or bytes i 0)
unfolding read
read_ok bytes i h = rw (get_elem?-eq-get_or bytes i 0 h)

pub Succeeds-Returns {ℓ} :
    {A : Type ℓ} {P : A → Type 0} {m : Outcome A} → Succeeds P m → Returns P m
Succeeds-Returns (ok_succeeds p) = ok_returns p

pub Succeeds-read {ℓ} :
    {B : Type ℓ} {Q : B → Type 0} (bytes : List ℕ) (i : ℕ) (f : ℕ → Outcome B)
    → i < length bytes
    → Succeeds Q (f (get_or bytes i 0))
    → Succeeds Q (read bytes i >>= f)
unfolding read
Succeeds-read bytes i f h k = rw (get_elem?-eq-get_or bytes i 0 h) k

pub Returns-impl {ℓ} :
    {A : Type ℓ} (P Q : A → Type 0) {m : Outcome A}
    → Returns P m
    → ((a : A) → P a → Q a)
    → Returns Q m
Returns-impl P Q (ok_returns p) f = ok_returns (f _ p)
Returns-impl P Q reject_returns f = reject_returns
