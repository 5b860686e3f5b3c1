-- ===== src/Show/Control/Blend/Precedence.antt =====
-- The two blending rules, for the whole of `evaluate`.
use esp_glow.Prelude.{
  ℕ, ◌≡◌, refl, ◌∙◌, ◌⊎◌, inl, inr, arith, true, false, Bool-cases, Option, none, some, List, [],
  ◌∷◌, map, if◌then◌else◌, All, subst,
}
use esp_glow.Prelude.Int.{negsuc}
use esp_glow.Prelude.Float.{FloatOps, IsOrdered}
use esp_glow.Show.Intent.{CapIntent}
use esp_glow.Show.Control.{ShowController}
use esp_glow.Show.Control.Evaluate.{evaluate}
use esp_glow.Show.Control.Evaluate.Merge.{
  WorkingCap, is_htp, take_htp, new_htp, take_ltp, new_ltp, cap_out,
}
use esp_glow.Show.Control.Evaluate.Contributions.{
  Contribution, contributions, merge_all, evaluate-contributions,
}
use esp_glow.Show.Control.Blend.Ranked.{
  Ranked, Over, for_channel-is_for, for_channel-Ranked, contributions-Ranked,
}
use esp_glow.Show.Control.Blend.{
  entry_for, entry_for-merge_all, is_for, for_channel, level, blend_one, blend_list,
}

module _ {F : Type 0} where
  -- the first intent for a channel among those that `evaluate` appends
  unfoldable pub output_for : ℕ → ℕ → List (CapIntent F) → Option (CapIntent F)
  output_for f c [] = none
  output_for f c (ci ∷ cis) =
      let rest = output_for f c cis in if is_for f c ci then some ci else rest

  output_for-map :
      (f c : ℕ) (es : List (WorkingCap F))
      → output_for f c (map cap_out es)
        ≡ elim (entry_for f c es) [ none ↦ none | some e ↦ some (cap_out e) ]
  unfolding output_for entry_for cap_out
  output_for-map f c [] = refl
  output_for-map f c (e ∷ es) = ground (arith, output_for-map f c es)

  -- the last of a list that is not empty
  abbrev pub last_of : Contribution F → List (Contribution F) → Contribution F
  last_of k [] = k
  last_of k (l ∷ ls) = last_of l ls

  abbrev pub Any : (Contribution F → Type 0) → List (Contribution F) → Type 0
  Any P [] = ⊥
  Any P (k ∷ ks) = P k ⊎ Any P ks

module _ {F : Type 0} ⦃fl : FloatOps F⦄ where
  -- The latest takes the channel over whole.
  replaced :
      (f c : ℕ) (k l : Contribution F)
      → is_htp l.intent ≡ false
      → is_for f c k.intent ≡ true
      → is_for f c l.intent ≡ true
      → Over k l
      → blend_one l (some (new_ltp k.prio k.seq k.intent)) ≡ new_ltp l.prio l.seq l.intent
  unfolding blend_one take_ltp new_ltp
  replaced f c k l h m m' over = rw (h, over) (ground arith)

  -- Latest takes precedence, from an entry that `k` made.
  blend_list-ltp :
      (f c : ℕ) (k : Contribution F) (ks : List (Contribution F))
      → All (λ l. is_htp l.intent ≡ false) ks
      → is_for f c k.intent ≡ true
      → All (λ l. is_for f c l.intent ≡ true) ks
      → Ranked (k ∷ ks)
      → blend_list ks (some (new_ltp k.prio k.seq k.intent))
        ≡ some (new_ltp (last_of k ks).prio (last_of k ks).seq (last_of k ks).intent)
  unfolding blend_list
  blend_list-ltp f c k [] h m ms r = refl
  blend_list-ltp f c k (l ∷ ls) h m ms r =
      rw (replaced f c k l h.0 m ms.0 r.0.0) (blend_list-ltp f c l ls h.1 ms.0 ms.1 r.1)

  -- Highest takes precedence, from an entry that some contribution made.
  pub record IsHighest (ks : List (Contribution F)) (e : WorkingCap F) : Type 0 where
    pub above : All (λ k. fl.less_eq (level k) e.value ≡ true) ks
    pub attained : Any (λ k. e.value ≡ level k) ks
    pub plain : (e.range_name ≡ none) × (e.range_index ≡ negsuc 0)

  abbrev IsPlain : WorkingCap F → Type 0
  IsPlain e = (e.range_name ≡ none) × (e.range_index ≡ negsuc 0)

  not_le : (o : IsOrdered fl) (a b : F) → fl.less_eq a b ≡ false → fl.less_eq b a ≡ true
  not_le o a b h = elim (o.total_le a b) [ inl g ↦ cc | inr g ↦ g ]

  -- One plain intensity raises the entry to at least its level, or leaves it.
  take_htp_lem :
      (o : IsOrdered fl) (v : F) (e : WorkingCap F)
      → IsPlain e
      → (fl.less_eq v (take_htp v e).value ≡ true)
        × (fl.less_eq e.value (take_htp v e).value ≡ true)
        × (((take_htp v e).value ≡ v) ⊎ ((take_htp v e).value ≡ e.value))
        × IsPlain (take_htp v e)
  unfolding take_htp
  take_htp_lem o v e plain = elim (Bool-cases (fl.less_eq e.value v)) [
    | inl raised ↦ rw raised (o.refl_le v, raised, inl refl, (refl, refl))
    | inr kept ↦ rw kept (not_le o e.value v kept, o.refl_le e.value, inr refl, plain)
  ]

  -- what a run of plain intensities makes of the entry `e`
  record Raises (ks : List (Contribution F)) (e e' : WorkingCap F) : Type 0 where
    from_start : fl.less_eq e.value e'.value ≡ true
    above : All (λ k. fl.less_eq (level k) e'.value ≡ true) ks
    attained : (e'.value ≡ e.value) ⊎ Any (λ k. e'.value ≡ level k) ks
    plain : IsPlain e'

  blend_list-htp :
      (o : IsOrdered fl) (ks : List (Contribution F)) (e : WorkingCap F)
      → All (λ l. is_htp l.intent ≡ true) ks
      → IsPlain e
      → (e' : WorkingCap F) × (blend_list ks (some e) ≡ some e') × Raises ks e e'
  unfolding blend_list blend_one
  blend_list-htp o [] e h plain = (
    e,
    refl,
    record { from_start = o.refl_le e.value; above = tt; attained = inl refl; plain = plain },
  )
  blend_list-htp o (k ∷ ks) e h plain =
      let next = take_htp (level k) e in
      let (own, kept, which, plain') = take_htp_lem o (level k) e plain in
      let (e', made, r) = blend_list-htp o ks next h.1 plain' in
      rw h.0 (
        e',
        made,
        record {
          from_start = o.trans_le e.value next.value e'.value kept r.from_start;
          above = (o.trans_le (level k) next.value e'.value own r.from_start, r.above);
          attained = elim r.attained [
            | inr later ↦ inr (inr later)
            | inl same ↦ elim which [
              | inl raised ↦ inr (inl (same ∙ raised))
              | inr left ↦ inl (same ∙ left)
            ]
          ];
          plain = r.plain;
        },
      )

  -- `evaluate`'s output for a channel.
  output_for-evaluate :
      (t : F) (sc : ShowController F) (f c : ℕ)
      → output_for f c (evaluate t sc).0.0
        ≡ elim (blend_list (for_channel f c (contributions t sc)) none) [
          | none ↦ none
          | some e ↦ some (cap_out e)
        ]
  output_for-evaluate t sc f c =
      rw
        (
          evaluate-contributions t sc,
          output_for-map f c (merge_all (contributions t sc) []),
          entry_for-merge_all f c (contributions t sc) [],
        )
        (unfold entry_for in refl)

  -- Latest takes precedence. Where no contribution to a channel is a plain intensity, the channel's
  -- output is the intent of the last of them: the cue of highest priority, and among those the one
  -- activated last, wins, whatever its weight.
  pub evaluate_ltp :
      (t : F) (sc : ShowController F) (f c : ℕ) (k : Contribution F) (ks : List (Contribution F))
      → for_channel f c (contributions t sc) ≡ k ∷ ks
      → All (λ l. is_htp l.intent ≡ false) (k ∷ ks)
      → (output_for f c (evaluate t sc).0.0 ≡ some (last_of k ks).intent) × Ranked (k ∷ ks)
  unfolding blend_list blend_one cap_out new_ltp
  evaluate_ltp t sc f c k ks e h =
      let mine =
        subst (All (λ l. is_for f c l.intent ≡ true)) e
          (for_channel-is_for f c (contributions t sc)) in
      let ranked =
        subst Ranked e (for_channel-Ranked f c (contributions t sc) (contributions-Ranked t sc)) in
      (
        rw (output_for-evaluate t sc f c, e, h.0, blend_list-ltp f c k ks h.1 mine.0 mine.1 ranked)
            refl,
        ranked,
      )

  -- Highest takes precedence. Where all contributions to a channel are plain intensities, the channel's
  -- output is plain, and its value is the highest product of a cue's weight and its intent's level:
  -- no product is above it, and one of them is equal to it. The order of `float` is assumed total,
  -- as it is where no value is a NaN.
  pub evaluate_htp :
      (o : IsOrdered fl) (t : F) (sc : ShowController F) (f c : ℕ) (k : Contribution F)
      (ks : List (Contribution F))
      → for_channel f c (contributions t sc) ≡ k ∷ ks
      → All (λ l. is_htp l.intent ≡ true) (k ∷ ks)
      → (e : WorkingCap F) × (output_for f c (evaluate t sc).0.0 ≡ some (cap_out e))
        × IsHighest (k ∷ ks) e
  unfolding blend_list blend_one new_htp
  evaluate_htp o t sc f c k ks e h =
      let start = new_htp k.prio k.seq (level k) k.intent in
      let (e', made, r) = blend_list-htp o ks start h.1 (refl, refl) in
      (
        e',
        rw (output_for-evaluate t sc f c, e, h.0, made) refl,
        record { above = (r.from_start, r.above); attained = r.attained; plain = r.plain },
      )
