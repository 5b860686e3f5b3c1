-- ===== src/Show/Control/Evaluate/Sorting.antt =====
-- The order in which `evaluate` blends the active cues.
use esp_glow.Prelude.{
  ℕ, ◌+◌, ◌≤◌, ◌≢◌, ◌≡◌, sym, arith, Bool, true, false, List, [], ◌∷◌, inl, inr, Bool-cases, All,
}
use esp_glow.Show.Control.{Cue}
use esp_glow.Show.Control.Evaluate.{
  insert_by, sort_by, key_less, order_of, active_from, prio_at, seq_at,
}
use esp_glow.Show.Control.Evaluate.Merge.{takes_over}

abbrev pub Apart : List ℕ → Type 0
Apart [] = Unit
Apart (i ∷ is) = All (λ j. j ≢ i) is × Apart is

abbrev pub SortedBy : (ℕ → ℕ → Type 0) → List ℕ → Type 0
SortedBy R [] = Unit
SortedBy R (i ∷ is) = All (R i) is × SortedBy R is

pub All-impl {ℓ κ μ} :
    {A : Type ℓ} (P : A → Type κ) (Q : A → Type μ) (xs : List A)
    → ((a : A) → P a → Q a)
    → All P xs
    → All Q xs
All-impl P Q [] f h = tt
All-impl P Q (x ∷ xs) f h = (f x h.0, All-impl P Q xs f h.1)

less-takes_over : (pa sa pb sb : ℕ) → key_less pa sa pb sb ≡ true → takes_over pb sb pa sa ≡ true
unfolding key_less
less-takes_over pa sa pb sb h = ground arith

not_less-takes_over :
    (pa sa pb sb : ℕ) → key_less pb sb pa sa ≡ false → takes_over pb sb pa sa ≡ true
unfolding key_less
not_less-takes_over pa sa pb sb h = ground arith

takes_over_trans :
    (pa sa pb sb pc sc : ℕ)
    → takes_over pb sb pa sa ≡ true
    → takes_over pc sc pb sb ≡ true
    → takes_over pc sc pa sa ≡ true
takes_over_trans pa sa pb sb pc sc h g = ground arith

module _ (less : ℕ → ℕ → Bool) where
  insert_by-All :
      (P : ℕ → Type 0) (i : ℕ) (js : List ℕ) → P i → All P js → All P (insert_by less i js)
  unfolding insert_by
  insert_by-All P i [] p h = (p, tt)
  insert_by-All P i (j ∷ js) p h = elim (Bool-cases (less j i)) [
    | inl later ↦ rw later (h.0, insert_by-All P i js p h.1)
    | inr here ↦ rw here (p, h)
  ]

  pub sort_by-All : (P : ℕ → Type 0) (is : List ℕ) → All P is → All P (sort_by less is)
  unfolding sort_by
  sort_by-All P [] h = tt
  sort_by-All P (i ∷ is) h = insert_by-All P i (sort_by less is) h.0 (sort_by-All P is h.1)

  insert_by-Apart :
      (i : ℕ) (js : List ℕ) → All (λ j. j ≢ i) js → Apart js → Apart (insert_by less i js)
  unfolding insert_by
  insert_by-Apart i [] p h = (tt, tt)
  insert_by-Apart i (j ∷ js) p h = elim (Bool-cases (less j i)) [
    | inl later ↦
        rw later
          (insert_by-All (λ k. k ≢ j) i js (λ e. p.0 (sym e)) h.0, insert_by-Apart i js p.1 h.1)
    | inr here ↦ rw here (p, h)
  ]

  pub sort_by-Apart : (is : List ℕ) → Apart is → Apart (sort_by less is)
  unfolding sort_by
  sort_by-Apart [] h = tt
  sort_by-Apart (i ∷ is) h =
      insert_by-Apart i (sort_by less is) (sort_by-All (λ j. j ≢ i) is h.0) (sort_by-Apart is h.1)

  module _ (R : ℕ → ℕ → Type 0) (before : (i j : ℕ) → less j i ≡ true → R j i)
      (not_after : (i j : ℕ) → less j i ≡ false → R i j)
      (trans_R : (i j k : ℕ) → R i j → R j k → R i k) where
    insert_by-SortedBy : (i : ℕ) (js : List ℕ) → SortedBy R js → SortedBy R (insert_by less i js)
    unfolding insert_by
    insert_by-SortedBy i [] h = (tt, tt)
    insert_by-SortedBy i (j ∷ js) h = elim (Bool-cases (less j i)) [
      | inl later ↦
          rw later (insert_by-All (R j) i js (before i j later) h.0, insert_by-SortedBy i js h.1)
      | inr here ↦
          let r = not_after i j here in
          rw here ((r, All-impl (R j) (R i) js (λ k. trans_R i j k r) h.0), h)
    ]

    pub sort_by-SortedBy : (is : List ℕ) → SortedBy R (sort_by less is)
    unfolding sort_by
    sort_by-SortedBy [] = tt
    sort_by-SortedBy (i ∷ is) = insert_by-SortedBy i (sort_by less is) (sort_by-SortedBy is)

module _ {F : Type 0} (cues : List (Cue F)) where
  -- the cue at `j` is the one whose position intents win against the cue at `i`
  abbrev pub WinsOver : ℕ → ℕ → Type 0
  WinsOver i j = takes_over (prio_at cues j) (seq_at cues j) (prio_at cues i) (seq_at cues i) ≡ true

  -- The cues are blended in an order in which each wins over those before it.
  pub precedence_order : (is : List ℕ) → SortedBy WinsOver (sort_by (order_of cues) is)
  unfolding order_of
  precedence_order =
      let p = prio_at cues in
      let q = seq_at cues in
      sort_by-SortedBy (order_of cues) WinsOver (λ i j. less-takes_over (p j) (q j) (p i) (q i))
        (λ i j. not_less-takes_over (p i) (q i) (p j) (q j))
        (λ i j k. takes_over_trans (p i) (q i) (p j) (q j) (p k) (q k))

  active_from-ge : (i : ℕ) (cs : List (Cue F)) → All (λ j. i ≤ j) (active_from i cs)
  unfolding active_from
  active_from-ge i [] = tt
  active_from-ge i (cue ∷ cs) =
      let later =
        All-impl (λ j. i + 1 ≤ j) (λ j. i ≤ j) (active_from (i + 1) cs) (λ j h. omega arith)
          (active_from-ge (i + 1) cs) in
      elim (Bool-cases cue.active) [ inl on ↦ rw on (omega arith, later) | inr off ↦ rw off later ]

  pub active_from-Apart : (i : ℕ) (cs : List (Cue F)) → Apart (active_from i cs)
  unfolding active_from
  active_from-Apart i [] = tt
  active_from-Apart i (cue ∷ cs) =
      let others =
        All-impl (λ j. i + 1 ≤ j) (λ j. j ≢ i) (active_from (i + 1) cs) (λ j h. omega arith)
          (active_from-ge (i + 1) cs) in
      elim (Bool-cases cue.active) [
        | inl on ↦ rw on (others, active_from-Apart (i + 1) cs)
        | inr off ↦ rw off (active_from-Apart (i + 1) cs)
      ]
