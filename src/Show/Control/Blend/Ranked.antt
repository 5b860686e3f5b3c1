-- ===== src/Show/Control/Blend/Ranked.antt =====
-- The contributions that `evaluate` merges come in order of rank.
use esp_glow.Prelude.{
  ℕ, ◌≡◌, refl, inl, inr, arith, true, Bool-cases, Option, none, some, List, [], ◌∷◌, ◌++◌,
  get_elem?, All,
}
use esp_glow.Prelude.Float.{FloatOps}
use esp_glow.Show.Intent.{CapIntent}
use esp_glow.Show.Control.{Cue, ShowController, weight_and_alive}
use esp_glow.Show.Control.Evaluate.{active_from, prio_of, seq_of, prio_at, seq_at}
use esp_glow.Show.Control.Evaluate.Merge.{takes_over}
use esp_glow.Show.Control.Evaluate.Sorting.{SortedBy, WinsOver, precedence_order, All-impl}
use esp_glow.Show.Control.Evaluate.Contributions.{
  Contribution, ranked, cue_contributions, contributed, contributions_at, contributions,
}
use esp_glow.Show.Control.Blend.{is_for, for_channel}

takes_over_self : (p s : ℕ) → takes_over p s p s ≡ true
takes_over_self p s = ground arith

module _ {F : Type 0} where
  pub for_channel-is_for :
      (f c : ℕ) (ks : List (Contribution F))
      → All (λ k. is_for f c k.intent ≡ true) (for_channel f c ks)
  unfolding for_channel
  for_channel-is_for f c [] = tt
  for_channel-is_for f c (k ∷ ks) = elim (Bool-cases (is_for f c k.intent)) [
    | inl mine ↦ rw mine (mine, for_channel-is_for f c ks)
    | inr other ↦ rw other (for_channel-is_for f c ks)
  ]

  -- A later contribution wins over each before it.
  abbrev pub Over : Contribution F → Contribution F → Type 0
  Over k l = takes_over l.prio l.seq k.prio k.seq ≡ true

  abbrev pub Ranked : List (Contribution F) → Type 0
  Ranked [] = Unit
  Ranked (k ∷ ks) = All (Over k) ks × Ranked ks

  for_channel-All :
      (P : Contribution F → Type 0) (f c : ℕ) (ks : List (Contribution F))
      → All P ks
      → All P (for_channel f c ks)
  unfolding for_channel
  for_channel-All P f c [] h = tt
  for_channel-All P f c (k ∷ ks) h = elim (Bool-cases (is_for f c k.intent)) [
    | inl mine ↦ rw mine (h.0, for_channel-All P f c ks h.1)
    | inr other ↦ rw other (for_channel-All P f c ks h.1)
  ]

  pub for_channel-Ranked :
      (f c : ℕ) (ks : List (Contribution F)) → Ranked ks → Ranked (for_channel f c ks)
  unfolding for_channel
  for_channel-Ranked f c [] h = tt
  for_channel-Ranked f c (k ∷ ks) h = elim (Bool-cases (is_for f c k.intent)) [
    | inl mine ↦ rw mine (for_channel-All (Over k) f c ks h.0, for_channel-Ranked f c ks h.1)
    | inr other ↦ rw other (for_channel-Ranked f c ks h.1)
  ]

  All-append :
      (P : Contribution F → Type 0) (ks ls : List (Contribution F))
      → All P ks
      → All P ls
      → All P (ks ++ ls)
  All-append P [] ls h g = g
  All-append P (k ∷ ks) ls h g = (h.0, All-append P ks ls h.1 g)

module _ {F : Type 0} ⦃fl : FloatOps F⦄ where
  abbrev HasRank : ℕ → ℕ → Contribution F → Type 0
  HasRank p s k = (k.prio ≡ p) × (k.seq ≡ s)

  ranked-HasRank :
      (p s : ℕ) (w : F) (cis : List (CapIntent F)) → All (HasRank p s) (ranked p s w cis)
  unfolding ranked
  ranked-HasRank p s w [] = tt
  ranked-HasRank p s w (ci ∷ cis) = ((refl, refl), ranked-HasRank p s w cis)

  contributed-HasRank :
      (t : F) (o : Option (Cue F)) → All (HasRank (prio_of o) (seq_of o)) (contributed t o)
  unfolding contributed cue_contributions
  contributed-HasRank t none = tt
  contributed-HasRank t (some cue) = elim (Bool-cases (weight_and_alive cue t).1) [
    | inr dead ↦ rw dead tt
    | inl alive ↦ elim (Bool-cases (fl.less_eq (weight_and_alive cue t).0 (fl.of_nat 0))) [
      | inl silent ↦ rw (alive, silent) tt
      | inr heard ↦ rw (alive, heard) (ranked-HasRank _ _ _ _)
    ]
  ]

  HasRank-Over :
      (p s q r : ℕ) (ks : List (Contribution F)) (k : Contribution F)
      → takes_over q r p s ≡ true
      → HasRank p s k
      → All (HasRank q r) ks
      → All (Over k) ks
  HasRank-Over p s q r ks k wins h =
      All-impl (HasRank q r) (Over k) ks λ l g. ground (arith, wins, h.0, h.1, g.0, g.1)

  HasRank-Ranked : (p s : ℕ) (ks : List (Contribution F)) → All (HasRank p s) ks → Ranked ks
  HasRank-Ranked p s [] h = tt
  HasRank-Ranked p s (k ∷ ks) h =
      (HasRank-Over p s p s ks k (takes_over_self p s) h.0 h.1, HasRank-Ranked p s ks h.1)

  -- Every later cue's contributions win over the contributions of rank `p`, `s`.
  contributions_at-Over :
      (t : F) (cues : List (Cue F)) (is : List ℕ) (i : ℕ) (k : Contribution F)
      → HasRank (prio_at cues i) (seq_at cues i) k
      → All (WinsOver cues i) is
      → All (Over k) (contributions_at t cues is)
  unfolding contributions_at
  contributions_at-Over t cues [] i k h g = tt
  contributions_at-Over t cues (j ∷ is) i k h g =
      All-append (Over k) (contributed t (get_elem? cues j)) (contributions_at t cues is)
        (HasRank-Over _ _ _ _ _ k g.0 h (contributed-HasRank t (get_elem? cues j)))
        (contributions_at-Over t cues is i k h g.1)

  Ranked-append :
      (ks ls : List (Contribution F))
      → Ranked ks
      → All (λ k. All (Over k) ls) ks
      → Ranked ls
      → Ranked (ks ++ ls)
  Ranked-append [] ls h g r = r
  Ranked-append (k ∷ ks) ls h g r =
      (All-append (Over k) ks ls h.0 g.0, Ranked-append ks ls h.1 g.1 r)

  contributions_at-Ranked :
      (t : F) (cues : List (Cue F)) (is : List ℕ)
      → SortedBy (WinsOver cues) is
      → Ranked (contributions_at t cues is)
  unfolding contributions_at
  contributions_at-Ranked t cues [] h = tt
  contributions_at-Ranked t cues (i ∷ is) h =
      let own = contributed-HasRank t (get_elem? cues i) in
      let mine = contributed t (get_elem? cues i) in
      let rest = contributions_at t cues is in
      Ranked-append mine rest (HasRank-Ranked (prio_at cues i) (seq_at cues i) mine own)
        (All-impl (HasRank (prio_at cues i) (seq_at cues i)) (λ k. All (Over k) rest) mine
          (λ k r. contributions_at-Over t cues is i k r h.0) own)
        (contributions_at-Ranked t cues is h.1)

  -- In what `evaluate` merges, each contribution ranks at least as high as all before it.
  pub contributions-Ranked : (t : F) (c : ShowController F) → Ranked (contributions t c)
  unfolding contributions
  contributions-Ranked t c =
      contributions_at-Ranked t c.cues _ (precedence_order c.cues (active_from 0 c.cues))
