-- ===== src/Show/Control/Evaluate/Contributions.antt =====
-- `evaluate` as one pass over a list of contributions: what each live cue, in order of precedence,
-- has to say of each channel.
use esp_glow.Prelude.{
  ℕ, ◌≡◌, ◌≢◌, refl, sym, ap, ap₂, ◌∙◌, not, inl, inr, Bool-cases, Option-cases, Option,
  get_elem?-set_ne, none, some, List, [], ◌∷◌, ◌++◌, if◌then◌else◌, get_elem?, map, All,
}
use esp_glow.Prelude.Float.{FloatOps}
use esp_glow.Show.Intent.{CapIntent}
use esp_glow.Show.Control.{Cue, ShowController, weight_and_alive}
use esp_glow.Show.Control.Evaluate.{
  Working, blend_cue, blend_all, evaluate, run_effects, active_from, sort_by, order_of,
}
use esp_glow.Show.Control.Evaluate.Merge.{WorkingCap, merge_cap, merge_caps, cap_out}
use esp_glow.Show.Control.Evaluate.Sorting.{Apart, sort_by-Apart, active_from-Apart, All-impl}

-- One intent, with the weight and the rank of the cue that it comes from.
pub record Contribution (F : Type 0) : Type 0 where
  pub prio : ℕ
  pub seq : ℕ
  pub weight : F
  pub intent : CapIntent F

module _ {F : Type 0} where
  unfoldable pub ranked : ℕ → ℕ → F → List (CapIntent F) → List (Contribution F)
  ranked prio seq weight [] = []
  ranked prio seq weight (ci ∷ cis) =
      record { prio = prio; seq = seq; weight = weight; intent = ci } ∷ ranked prio seq weight cis

module _ {F : Type 0} ⦃fl : FloatOps F⦄ where
  -- Nothing, where the cue has run out or has no weight.
  unfoldable pub cue_contributions : F → Cue F → List (Contribution F)
  cue_contributions t cue =
      if not (weight_and_alive cue t).1
      then []
      else if fl.less_eq (weight_and_alive cue t).0 (fl.of_nat 0)
      then []
      else ranked cue.priority cue.activation_seq (weight_and_alive cue t).0
          (run_effects cue.effects t).0

  unfoldable pub contributed : F → Option (Cue F) → List (Contribution F)
  unfolding cue_contributions
  contributed t none = []
  contributed t (some cue) = cue_contributions t cue

  unfoldable pub contributions_at : F → List (Cue F) → List ℕ → List (Contribution F)
  contributions_at t cues [] = []
  contributions_at t cues (i ∷ is) = contributed t (get_elem? cues i) ++ contributions_at t cues is

  -- those of the active cues, in order of precedence
  unfoldable pub contributions : F → ShowController F → List (Contribution F)
  contributions t c = contributions_at t c.cues (sort_by (order_of c.cues) (active_from 0 c.cues))

  unfoldable pub merge_all : List (Contribution F) → List (WorkingCap F) → List (WorkingCap F)
  merge_all [] es = es
  merge_all (k ∷ ks) es = merge_all ks (merge_cap k.prio k.seq k.weight k.intent es)

  merge_all-append :
      (ks ls : List (Contribution F)) (es : List (WorkingCap F))
      → merge_all (ks ++ ls) es ≡ merge_all ls (merge_all ks es)
  unfolding merge_all
  merge_all-append [] ls es = refl
  merge_all-append (k ∷ ks) ls es =
      merge_all-append ks ls (merge_cap k.prio k.seq k.weight k.intent es)

  merge_caps-ranked :
      (prio seq : ℕ) (weight : F) (cis : List (CapIntent F)) (es : List (WorkingCap F))
      → merge_caps prio seq weight cis es ≡ merge_all (ranked prio seq weight cis) es
  unfolding merge_caps merge_all ranked
  merge_caps-ranked prio seq weight [] es = refl
  merge_caps-ranked prio seq weight (ci ∷ cis) es =
      merge_caps-ranked prio seq weight cis (merge_cap prio seq weight ci es)

  -- The round of cue `i` merges its contributions, and touches no other cue.
  blend_cue-contributed :
      (t : F) (i : ℕ) (w : Working F)
      → ((blend_cue t i w).caps ≡ merge_all (contributed t (get_elem? w.cues i)) w.caps)
        × ((j : ℕ) → j ≢ i → get_elem? (blend_cue t i w).cues j ≡ get_elem? w.cues j)
  unfolding contributed blend_cue merge_all
  blend_cue-contributed t i w = elim (Option-cases (get_elem? w.cues i)) [
    | inl missing ↦ rw (missing, blend_cue) (refl, λ j h. refl)
    | inr (cue, found) ↦ elim (Bool-cases (weight_and_alive cue t).1) [
      | inr dead ↦ rw (found, blend_cue, dead) (refl, λ j h. get_elem?-set_ne w.cues i j _ h)
      | inl alive ↦ elim (Bool-cases (fl.less_eq (weight_and_alive cue t).0 (fl.of_nat 0))) [
        | inl silent ↦ rw (found, blend_cue, alive, silent) (refl, λ j h. refl)
        | inr heard ↦
            rw (found, blend_cue, alive, heard) (merge_caps-ranked _ _ _ _ w.caps, λ j h. refl)
      ]
    ]
  ]

  contributions_at-agree :
      (t : F) (xs ys : List (Cue F)) (is : List ℕ)
      → All (λ i. get_elem? xs i ≡ get_elem? ys i) is
      → contributions_at t xs is ≡ contributions_at t ys is
  unfolding contributions_at
  contributions_at-agree t xs ys [] h = refl
  contributions_at-agree t xs ys (i ∷ is) h =
      ap₂ (λ o ks. contributed t o ++ ks) h.0 (contributions_at-agree t xs ys is h.1)

  blend_all-caps :
      (t : F) (is : List ℕ) (w : Working F)
      → Apart is
      → (blend_all t is w).caps ≡ merge_all (contributions_at t w.cues is) w.caps
  unfolding blend_all contributions_at merge_all
  blend_all-caps t [] w h = refl
  blend_all-caps t (i ∷ is) w h =
      let (merged, kept) = blend_cue-contributed t i w in
      let agree =
        All-impl (λ j. j ≢ i) (λ j. get_elem? (blend_cue t i w).cues j ≡ get_elem? w.cues j) is kept
          h.0 in
      blend_all-caps t is (blend_cue t i w) h.1
      ∙ ap₂ merge_all (contributions_at-agree t _ w.cues is agree) merged
      ∙ sym (
          merge_all-append (contributed t (get_elem? w.cues i)) (contributions_at t w.cues is)
            w.caps)

  -- What `evaluate` appends to the capability intents: the contributions of the live cues, in order
  -- of precedence, merged into an empty table.
  pub evaluate-contributions :
      (t : F) (c : ShowController F)
      → (evaluate t c).0.0 ≡ map cap_out (merge_all (contributions t c) [])
  unfolding evaluate contributions
  evaluate-contributions t c =
      let order = active_from 0 c.cues in
      ap (map cap_out) (
        blend_all-caps t (sort_by (order_of c.cues) order) _
          (sort_by-Apart (order_of c.cues) order (active_from-Apart c.cues 0 c.cues)))
