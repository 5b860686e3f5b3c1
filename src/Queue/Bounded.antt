-- ===== src/Queue/Bounded.antt =====
-- The abstract contract of the queues: a first-in first-out list of at most `cap` elements, which
-- refuses the newest element when it is full and counts the refusals.
use esp_glow.Prelude.{
  ℕ, ◌+◌, true, false, Option, none, some, List, [], ◌∷◌, ◌++◌, leb, if◌then◌else◌, length,
}
use esp_glow.Queue.{Op, put, get, Reply, pushed, popped}

pub record Bounded {ℓ} (A : Type ℓ) : Type ℓ where
  pub items : List A
  pub refused : ℕ

module _ {ℓ} {A : Type ℓ} where
  abbrev pub first : List A → Option A
  first [] = none
  first (a ∷ rest) = some a

  abbrev pub behind : List A → List A
  behind [] = []
  behind (a ∷ rest) = rest

  unfoldable pub step : ℕ → Op A → Bounded A → Reply A × Bounded A
  step cap (put a) b =
      if leb cap (length b.items)
      then (pushed false, record b { refused = b.refused + 1 })
      else (pushed true, record b { items = b.items ++ (a ∷ []) })
  step cap get b = (popped (first b.items), record b { items = behind b.items })

  unfoldable pub run : ℕ → List (Op A) → Bounded A → List (Reply A) × Bounded A
  run cap [] b = ([], b)
  run cap (op ∷ ops) b =
      let (r, b') = step cap op b in let (rs, b'') = run cap ops b' in (r ∷ rs, b'')
