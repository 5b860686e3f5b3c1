-- ===== src/ArtNet/Discovery/Table.antt =====
-- The table of discovered nodes: what a reply records, and what expiring leaves.
use esp_glow.Prelude.{
  ℕ, zero, suc, ◌+◌, ◌≤◌, ◌<◌, ◌≡◌, refl, sym, ap, ap₂, ◌∙◌, arith, Bool, not, List, [], ◌∷◌, ◌++◌,
  if◌then◌else◌, ◌==◌, ==_iff, length, get_or, set, take, drop, drop-eq-cons, length-set,
  Bool-cases, inl, inr,
}
use esp_glow.Prelude.Append.{append_assoc, append-nil}
use esp_glow.Prelude.Float.{FloatOps}
use esp_glow.ArtNet.Discovery.{
  DiscoveredNode, ArtNetDiscovery, entry, fresh, compact, no_node, expire,
}

module _ {ℓ} {A : Type ℓ} where
  -- the elements that pass a test, in their order
  abbrev pub keep : (A → Bool) → List A → List A
  keep test [] = []
  keep test (x ∷ xs) = let rest = keep test xs in if test x then x ∷ rest else rest

  pub take-set-suc :
      (xs : List A) (w : ℕ) (x : A)
      → w < length xs
      → take (suc w) (set xs w x) ≡ take w xs ++ (x ∷ [])
  take-set-suc [] w x h = absurd (omega arith)
  take-set-suc (y ∷ xs) zero x h = refl
  take-set-suc (y ∷ xs) (suc w) x h = ap (◌∷◌ y) (take-set-suc xs w x (omega arith))

  drop-set_below : (xs : List A) (w j : ℕ) (x : A) → w < j → drop j (set xs w x) ≡ drop j xs
  drop-set_below [] w j x h = refl
  drop-set_below (y ∷ xs) w zero x h = absurd (omega arith)
  drop-set_below (y ∷ xs) zero (suc j) x h = refl
  drop-set_below (y ∷ xs) (suc w) (suc j) x h = drop-set_below xs w j x (omega arith)

  set-get_or : (xs : List A) (i : ℕ) (d : A) → i < length xs → set xs i (get_or xs i d) ≡ xs
  set-get_or [] i d h = refl
  set-get_or (y ∷ xs) zero d h = refl
  set-get_or (y ∷ xs) (suc i) d h = ap (◌∷◌ y) (set-get_or xs i d (omega arith))

module _ {F : Type 0} ⦃fl : FloatOps F⦄ (blank : DiscoveredNode F) (timeout now : F) where
  -- Moving a node to where it stands changes nothing, so that the test does not matter.
  moved :
      (w r : ℕ) (nodes : List (DiscoveredNode F))
      → r < length nodes
      → (if not (w == r) then set nodes w (entry blank nodes r) else nodes)
        ≡ set nodes w (entry blank nodes r)
  moved w r nodes h = elim (Bool-cases (w == r)) [
    | inl same ↦
        let e : w ≡ r = (==_iff w r).0 same in
        rw same (sym (ap (λ i. set nodes i (entry blank nodes r)) e ∙ set-get_or nodes r blank h))
    | inr other ↦ rw other refl
  ]

  -- the nodes in front of `w`, and those left that are fresh
  compact_lem :
      (left r w : ℕ) (nodes : List (DiscoveredNode F))
      → w ≤ r
      → r + left ≤ length nodes
      → (take
            (compact blank timeout now left r w nodes).1
            (compact blank timeout now left r w nodes).0
          ≡ take w nodes ++ keep (fresh timeout now) (take left (drop r nodes)))
        × (length (compact blank timeout now left r w nodes).0 ≡ length nodes)
        × ((compact blank timeout now left r w nodes).1 ≤ w + left)
  unfolding compact
  compact_lem zero r w nodes behind room = (sym (append-nil (take w nodes)), refl, omega arith)
  compact_lem (suc left) r w nodes behind room =
      let n = entry blank nodes r in
      let split = drop-eq-cons r nodes blank (omega arith) in
      elim (Bool-cases (fresh timeout now n)) [
        | inl kept ↦
            let on = set nodes w n in
            let (rest, size, bound) =
              compact_lem left (r + 1) (w + 1) on (omega arith)
                (omega (arith, length-set nodes w n)) in
            let next : w + 1 ≡ suc w = omega arith in
            let front = ap (λ i. take i on) next ∙ take-set-suc nodes w n (omega arith) in
            let left_over = drop-set_below nodes w (r + 1) n (omega arith) in
            rw (kept, moved w r nodes (omega arith), split, kept)
              (
                rest
                    ∙ ap₂ (λ xs ys. xs ++ keep (fresh timeout now) (take left ys)) front left_over
                    ∙ append_assoc (take w nodes) (n ∷ []) _,
                size ∙ length-set nodes w n,
                omega (arith, bound),
              )
        | inr old ↦
            let (rest, size, bound) =
              compact_lem left (r + 1) w nodes (omega arith) (omega arith) in
            rw (old, split, old) (rest, size, omega (arith, bound))
      ]

-- the nodes in use
abbrev pub live : {F : Type 0} → ArtNetDiscovery F → List (DiscoveredNode F)
live d = take d.count d.nodes

-- For a table whose count is within its array: expiring, which moves the nodes up in place, leaves exactly the
-- nodes that were seen within the timeout, in their order; the array keeps its size and the count does not grow.
pub expire-keep :
    {F : Type 0} ⦃fl : FloatOps F⦄ (d : ArtNetDiscovery F) (now : F)
    → d.count ≤ length d.nodes
    → (live (expire d now) ≡ keep (fresh d.timeout_sec now) (live d))
      × (length (expire d now).nodes ≡ length d.nodes)
      × ((expire d now).count ≤ d.count)
unfolding expire
expire-keep d now within =
    let (kept, size, bound) =
      compact_lem no_node d.timeout_sec now d.count 0 0 d.nodes (omega arith) (omega arith) in
    (kept, size, omega (arith, bound))
