-- ===== src/Show/Control/Blend.antt =====
-- What the blend gives for one channel: highest takes precedence for intensities, latest takes
-- precedence for everything else.
pub mod Ranked
pub mod Precedence
use esp_glow.Prelude.{
  ℕ, ◌≡◌, refl, sym, ap, ◌∙◌, ◌⊎◌, inl, inr, arith, Bool, true, false, not, ◌&&◌, Bool-cases,
  Option, none, some, List, [], ◌∷◌, ◌++◌, if◌then◌else◌, ◌==◌, All,
}
use esp_glow.Prelude.Int.{ℤ, negsuc}
use esp_glow.Prelude.Float.{FloatOps, IsOrdered}
use esp_glow.Show.Intent.{CapIntent}
use esp_glow.Show.Control.Evaluate.Merge.{
  WorkingCap, is_htp, is_intensity_class, takes_over, same_cap, update_cap, take_htp, new_htp,
  take_ltp, new_ltp, merge_cap,
}
use esp_glow.Show.Control.Evaluate.Contributions.{Contribution, merge_all}

module _ {F : Type 0} where
  -- the table's entry for a channel
  unfoldable pub entry_for : ℕ → ℕ → List (WorkingCap F) → Option (WorkingCap F)
  entry_for f c [] = none
  entry_for f c (e ∷ es) =
      let rest = entry_for f c es in if e.fixture_id == f && e.cap == c then some e else rest

  abbrev pub is_for : ℕ → ℕ → CapIntent F → Bool
  is_for f c ci = ci.fixture_id == f && ci.cap == c

  unfoldable pub for_channel : ℕ → ℕ → List (Contribution F) → List (Contribution F)
  for_channel f c [] = []
  for_channel f c (k ∷ ks) =
      let rest = for_channel f c ks in if is_for f c k.intent then k ∷ rest else rest

module _ {F : Type 0} ⦃fl : FloatOps F⦄ where
  abbrev pub level : Contribution F → F
  level k = fl.mul k.weight k.intent.norm01

  -- one contribution against the entry that its channel has
  unfoldable pub blend_one : Contribution F → Option (WorkingCap F) → WorkingCap F
  blend_one k none =
      if is_htp k.intent
      then new_htp k.prio k.seq (level k) k.intent
      else new_ltp k.prio k.seq k.intent
  blend_one k (some e) =
      if is_htp k.intent then take_htp (level k) e else take_ltp k.prio k.seq k.intent e

  unfoldable pub blend_list : List (Contribution F) → Option (WorkingCap F) → Option (WorkingCap F)
  blend_list [] o = o
  blend_list (k ∷ ks) o = blend_list ks (some (blend_one k o))

  entry_for-update_cap :
      (f c : ℕ) (change : WorkingCap F → WorkingCap F) (fresh : WorkingCap F) (ci : CapIntent F)
      (es : List (WorkingCap F))
      → ((e : WorkingCap F) → ((change e).fixture_id ≡ e.fixture_id) × ((change e).cap ≡ e.cap))
      → fresh.fixture_id ≡ ci.fixture_id
      → fresh.cap ≡ ci.cap
      → entry_for f c (update_cap change fresh ci es) ≡ (
          if is_for f c ci
          then elim (entry_for f c es) [ none ↦ some fresh | some e ↦ some (change e) ]
          else entry_for f c es)
  unfolding entry_for update_cap
  entry_for-update_cap f c change fresh ci [] keeps ff fc = ground arith
  entry_for-update_cap f c change fresh ci (e ∷ es) keeps ff fc =
      ground (arith, keeps e, entry_for-update_cap f c change fresh ci es keeps ff fc)

  -- How a contribution changes the entry, by its class.
  blend_htp :
      (k : Contribution F) (o : Option (WorkingCap F))
      → is_htp k.intent ≡ true
      → elim o [
        | none ↦ some (new_htp k.prio k.seq (level k) k.intent)
        | some e ↦ some (take_htp (level k) e)
      ]
        ≡ some (blend_one k o)
  unfolding blend_one
  blend_htp k none h = rw h
  blend_htp k (some e) h = rw h

  blend_ltp :
      (k : Contribution F) (o : Option (WorkingCap F))
      → is_htp k.intent ≡ false
      → elim o [
        | none ↦ some (new_ltp k.prio k.seq k.intent)
        | some e ↦ some (take_ltp k.prio k.seq k.intent e)
      ]
        ≡ some (blend_one k o)
  unfolding blend_one
  blend_ltp k none h = rw h
  blend_ltp k (some e) h = rw h

  take_htp-keeps :
      (v : F) (e : WorkingCap F)
      → ((take_htp v e).fixture_id ≡ e.fixture_id) × ((take_htp v e).cap ≡ e.cap)
  unfolding take_htp
  take_htp-keeps v e = ground arith

  take_ltp-keeps :
      (prio seq : ℕ) (ci : CapIntent F) (e : WorkingCap F)
      → ((take_ltp prio seq ci e).fixture_id ≡ e.fixture_id)
        × ((take_ltp prio seq ci e).cap ≡ e.cap)
  unfolding take_ltp
  take_ltp-keeps prio seq ci e = ground arith

  entry_for-merge_cap :
      (f c : ℕ) (k : Contribution F) (es : List (WorkingCap F))
      → entry_for f c (merge_cap k.prio k.seq k.weight k.intent es)
        ≡ (if is_for f c k.intent then some (blend_one k (entry_for f c es)) else entry_for f c es)
  unfolding merge_cap new_htp new_ltp
  entry_for-merge_cap f c k es = elim (Bool-cases (is_htp k.intent)) [
    | inl htp ↦
        rw (htp, merge_cap)
          (entry_for-update_cap f c (take_htp (level k)) (new_htp k.prio k.seq (level k) k.intent)
              k.intent es (take_htp-keeps (level k)) refl refl
            ∙ ap (λ o. if is_for f c k.intent then o else entry_for f c es)
                (blend_htp k (entry_for f c es) htp))
    | inr ltp ↦
        rw (ltp, merge_cap)
          (entry_for-update_cap f c (take_ltp k.prio k.seq k.intent) (new_ltp k.prio k.seq k.intent)
              k.intent es (take_ltp-keeps k.prio k.seq k.intent) refl refl
            ∙ ap (λ o. if is_for f c k.intent then o else entry_for f c es)
                (blend_ltp k (entry_for f c es) ltp))
  ]

  -- The table's entry for a channel is made by that channel's contributions alone, in their order.
  pub entry_for-merge_all :
      (f c : ℕ) (ks : List (Contribution F)) (es : List (WorkingCap F))
      → entry_for f c (merge_all ks es) ≡ blend_list (for_channel f c ks) (entry_for f c es)
  unfolding merge_all for_channel blend_list
  entry_for-merge_all f c [] es = refl
  entry_for-merge_all f c (k ∷ ks) es = elim (Bool-cases (is_for f c k.intent)) [
    | inl mine ↦ rw (mine, entry_for-merge_all f c ks _, entry_for-merge_cap f c k es, mine) refl
    | inr other ↦ rw (other, entry_for-merge_all f c ks _, entry_for-merge_cap f c k es, other) refl
  ]
