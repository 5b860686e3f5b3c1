-- ===== src/Show/Control/Settle.antt =====
-- Which cues a frame switches off.
use esp_glow.Prelude.{
  ℕ, zero, suc, subst, ◌<◌, ◌+◌, ◌≡◌, ◌≢◌, ◌⊎◌, refl, sym, ap, ◌∙◌, arith, Bool, ◌&&◌, ◌||◌, true,
  false, not, inl, inr, Bool-cases, Option-cases, Option, some, List, [], ◌∷◌, if◌then◌else◌,
  get_elem?, All, get_elem?-set_self, get_elem?-lt, get_elem?-set_ne,
}
use esp_glow.Prelude.Float.{FloatOps}
use esp_glow.Show.Control.{Cue, ShowController, weight_and_alive, faded_out}
use esp_glow.Show.Control.Evaluate.{
  Working, evaluate, active_from, insert_by, sort_by, order_of, blend_cue, blend_all,
}
use esp_glow.Show.Control.Evaluate.Sorting.{Apart, sort_by-All, sort_by-Apart, active_from-Apart}

abbrev In : ℕ → List ℕ → Type 0
In j [] = ⊥
In j (i ∷ is) = (i ≡ j) ⊎ In j is

All-In : (i j : ℕ) (is : List ℕ) → All (λ k. k ≢ i) is → In j is → j ≢ i
All-In i j [] h m = absurd m
All-In i j (k ∷ ks) h (inl e) = λ f. h.0 (e ∙ f)
All-In i j (k ∷ ks) h (inr m) = All-In i j ks h.1 m

insert_by-In-self : (less : ℕ → ℕ → Bool) (i : ℕ) (is : List ℕ) → In i (insert_by less i is)
unfolding insert_by
insert_by-In-self less i [] = inl refl
insert_by-In-self less i (k ∷ ks) = elim (Bool-cases (less k i)) [
  | inl later ↦ rw later (inr (insert_by-In-self less i ks))
  | inr here ↦ rw here (inl refl)
]

insert_by-In : (less : ℕ → ℕ → Bool) (j i : ℕ) (is : List ℕ) → In j is → In j (insert_by less i is)
unfolding insert_by
insert_by-In less j i [] h = absurd h
insert_by-In less j i (k ∷ ks) h = elim (Bool-cases (less k i)) [
  | inr here ↦ rw here (inr h)
  | inl later ↦ rw later (elim h [ inl e ↦ inl e | inr m ↦ inr (insert_by-In less j i ks m) ])
]

sort_by-In : (less : ℕ → ℕ → Bool) (j : ℕ) (is : List ℕ) → In j is → In j (sort_by less is)
unfolding sort_by
sort_by-In less j [] h = h
sort_by-In less j (i ∷ is) (inl e) =
    subst (λ k. In k (insert_by less i (sort_by less is))) e
      (insert_by-In-self less i (sort_by less is))
sort_by-In less j (i ∷ is) (inr m) =
    insert_by-In less j i (sort_by less is) (sort_by-In less j is m)

module _ {F : Type 0} where
  active_from-In :
      (k j : ℕ) (cues : List (Cue F)) (cue : Cue F)
      → get_elem? cues j ≡ some cue
      → cue.active ≡ true
      → In (k + j) (active_from k cues)
  unfolding active_from
  active_from-In k j [] cue found on = absurd cc
  active_from-In k zero (x ∷ xs) cue found on =
      let same : x ≡ cue = ground arith in rw (ap (λ c. c.active) same ∙ on) (inl (omega arith))
  active_from-In k (suc j) (x ∷ xs) cue found on =
      let there : In (k + suc j) (active_from (k + 1) xs) =
        subst (λ n. In n (active_from (k + 1) xs)) (omega arith)
          (active_from-In (k + 1) j xs cue found on) in
      elim (Bool-cases x.active) [ inl a ↦ rw a (inr there) | inr a ↦ rw a there ]

  above-ne : (k j : ℕ) (cues : List (Cue F)) → j < k → All (λ i. i ≢ j) (active_from k cues)
  unfolding active_from
  above-ne k j [] h = tt
  above-ne k j (x ∷ xs) h =
      let rest = above-ne (k + 1) j xs (omega arith) in
      elim (Bool-cases x.active) [ inl a ↦ rw a ((λ e. omega arith), rest) | inr a ↦ rw a rest ]

  active_from-not_In :
      (k j : ℕ) (cues : List (Cue F)) (cue : Cue F)
      → get_elem? cues j ≡ some cue
      → cue.active ≡ false
      → All (λ i. i ≢ k + j) (active_from k cues)
  unfolding active_from
  active_from-not_In k j [] cue found off = absurd cc
  active_from-not_In k zero (x ∷ xs) cue found off =
      let same : x ≡ cue = ground arith in
      rw (ap (λ c. c.active) same ∙ off) (above-ne (k + 1) (k + 0) xs (omega arith))
  active_from-not_In k (suc j) (x ∷ xs) cue found off =
      let rest : All (λ i. i ≢ k + suc j) (active_from (k + 1) xs) =
        subst (λ n. All (λ i. i ≢ n) (active_from (k + 1) xs)) (omega arith)
          (active_from-not_In (k + 1) j xs cue found off) in
      elim (Bool-cases x.active) [ inl a ↦ rw a ((λ e. omega arith), rest) | inr a ↦ rw a rest ]

not-not : (b : Bool) → not (not b) ≡ b
not-not true = refl
not-not false = refl

module _ {F : Type 0} ⦃fl : FloatOps F⦄ where
  -- Is a fade-out of `elapsed` seconds over? One without a duration is at once.
  abbrev faded : F → F → Bool
  faded elapsed fade_out =
      fl.less_eq fade_out (fl.of_nat 0) || fl.less_eq (fl.of_nat 1) (fl.div elapsed fade_out)

  abbrev fades_in : Cue F → Bool
  fades_in cue = fl.less (fl.of_nat 0) cue.fade_in_sec

  -- the seconds from the start to the end of the hold
  abbrev hold_end : Cue F → F
  hold_end cue = fl.add (if fades_in cue then cue.fade_in_sec else fl.of_nat 0) cue.hold_sec

  -- Has the hold come to its end after `e` seconds? A cue without a hold time is held for good.
  abbrev hold_over : Cue F → F → Bool
  hold_over cue e =
      not (fl.less e (fl.of_nat 0))
      && not (fades_in cue && fl.less e cue.fade_in_sec)
      && not (fl.less_eq cue.hold_sec (fl.of_nat 0))
      && not (fl.less e (hold_end cue))

  -- A cue has run out at time `t`: it is not set by hand, and the fade-out from its release, or else
  -- the one from the end of its hold, is over.
  abbrev pub expired : F → Cue F → Bool
  expired t cue =
      let e = fl.sub t cue.go_time in
      not cue.manual_override
      && (if cue.released
          then faded (fl.sub t cue.release_time) cue.fade_out_sec
          else hold_over cue e && faded (fl.sub e (hold_end cue)) cue.fade_out_sec)

  weight_and_alive-expired :
      (t : F) (cue : Cue F) → cue.active ≡ true → (weight_and_alive cue t).1 ≡ not (expired t cue)
  unfolding weight_and_alive faded_out
  weight_and_alive-expired t cue on = ground arith

  -- the cue after a round of its own
  abbrev ended : F → Cue F → Cue F
  ended t cue = if not (weight_and_alive cue t).1 then record cue { active = false } else cue

  blend_cue-ended :
      (t : F) (i : ℕ) (w : Working F) (cue : Cue F)
      → get_elem? w.cues i ≡ some cue
      → get_elem? (blend_cue t i w).cues i ≡ some (ended t cue)
  unfolding blend_cue weight_and_alive
  blend_cue-ended t i w cue found = elim (Bool-cases (weight_and_alive cue t).1) [
    | inr dead ↦
        rw (found, blend_cue, dead) (get_elem?-set_self w.cues i _ (get_elem?-lt w.cues i found))
    | inl alive ↦ elim (Bool-cases (fl.less_eq (weight_and_alive cue t).0 (fl.of_nat 0))) [
      | inl silent ↦ rw (found, blend_cue, alive, silent) found
      | inr heard ↦ rw (found, blend_cue, alive, heard) found
    ]
  ]

  blend_cue-other :
      (t : F) (i j : ℕ) (w : Working F)
      → j ≢ i
      → get_elem? (blend_cue t i w).cues j ≡ get_elem? w.cues j
  unfolding blend_cue
  blend_cue-other t i j w ne = elim (Option-cases (get_elem? w.cues i)) [
    | inl missing ↦ rw (missing, blend_cue) refl
    | inr (cue, found) ↦ elim (Bool-cases (weight_and_alive cue t).1) [
      | inr dead ↦ rw (found, blend_cue, dead) (get_elem?-set_ne w.cues i j _ ne)
      | inl alive ↦ elim (Bool-cases (fl.less_eq (weight_and_alive cue t).0 (fl.of_nat 0))) [
        | inl silent ↦ rw (found, blend_cue, alive, silent) refl
        | inr heard ↦ rw (found, blend_cue, alive, heard) refl
      ]
    ]
  ]

  blend_all-other :
      (t : F) (is : List ℕ) (j : ℕ) (w : Working F)
      → All (λ i. i ≢ j) is
      → get_elem? (blend_all t is w).cues j ≡ get_elem? w.cues j
  unfolding blend_all
  blend_all-other t [] j w h = refl
  blend_all-other t (i ∷ is) j w h =
      blend_all-other t is j (blend_cue t i w) h.1 ∙ blend_cue-other t i j w (λ e. h.0 (sym e))

  blend_all-ended :
      (t : F) (is : List ℕ) (j : ℕ) (w : Working F) (cue : Cue F)
      → Apart is
      → In j is
      → get_elem? w.cues j ≡ some cue
      → get_elem? (blend_all t is w).cues j ≡ some (ended t cue)
  unfolding blend_all
  blend_all-ended t [] j w cue a m found = absurd m
  blend_all-ended t (i ∷ is) j w cue a (inl e) found =
      let here : get_elem? w.cues i ≡ some cue = ap (get_elem? w.cues) e ∙ found in
      ap (get_elem? (blend_all t is (blend_cue t i w)).cues) (sym e)
      ∙ blend_all-other t is i (blend_cue t i w) a.0
      ∙ blend_cue-ended t i w cue here
  blend_all-ended t (i ∷ is) j w cue a (inr m) found =
      let ne = All-In i j is a.0 m in
      blend_all-ended t is j (blend_cue t i w) cue a.1 m (blend_cue-other t i j w ne ∙ found)

  -- A frame switches off exactly the active cues that have run out, and leaves every other cue as it
  -- was. A cue has run out where it is not set by hand and its fade-out is over: the fade-out counts
  -- from the release, or, for a cue that is not released and has a hold time, from the end of its
  -- fade-in and hold, before which such a cue has not run out; it is over when its duration is 0 or
  -- less or the elapsed time divided by the duration is at least 1. A cue that is not released and
  -- has no hold time does not run out.
  pub evaluate-cues :
      (t : F) (c : ShowController F) (id : ℕ) (cue : Cue F)
      → get_elem? c.cues id ≡ some cue
      → get_elem? (evaluate t c).1.cues id
        ≡ some (if cue.active && expired t cue then record cue { active = false } else cue)
  unfolding evaluate
  evaluate-cues t c id cue found =
      let order = order_of c.cues in
      let same : 0 + id ≡ id = omega arith in
      let start : Working F = record { cues = c.cues; caps = []; aims = [] } in
      let off_if : Bool → Option (Cue F) =
        λ b. some (if b && expired t cue then record cue { active = false } else cue) in
      elim (Bool-cases cue.active) [
        | inl on ↦
            let dead : not (weight_and_alive cue t).1 ≡ expired t cue =
              ap not (weight_and_alive-expired t cue on) ∙ not-not (expired t cue) in
            blend_all-ended t (sort_by order (active_from 0 c.cues)) id start cue
              (sort_by-Apart order (active_from 0 c.cues) (active_from-Apart c.cues 0 c.cues))
              (sort_by-In order id (active_from 0 c.cues) (
                subst (λ n. In n (active_from 0 c.cues)) same
                  (active_from-In 0 id c.cues cue found on)))
              found
            ∙ ap (λ b. some (if b then record cue { active = false } else cue)) dead
            ∙ ap off_if (sym on)
        | inr off ↦
            blend_all-other t (sort_by order (active_from 0 c.cues)) id start (
              sort_by-All order (λ i. i ≢ id) (active_from 0 c.cues)
                (subst (λ n. All (λ i. i ≢ n) (active_from 0 c.cues)) same
                  (active_from-not_In 0 id c.cues cue found off)))
            ∙ found
            ∙ ap off_if (sym off)
      ]
