-- ===== src/Live/Params.antt =====
-- The named parameters: interning a name, and what drives its value.
use esp_glow.Prelude.{
  ℕ, suc, ◌%◌, ◌^◌, ◌<◌, ◌≡◌, refl, sym, ap, ◌∙◌, arith, true, Bool-cases, Option-cases, inl, inr,
  none, some, List, [], ◌∷◌, ◌++◌, length, get_elem?, eq→==,
}
use esp_glow.Prelude.Float.{FloatOps, clamp_01}
use esp_glow.Live.{
  Binding, param_set, LiveControl, ParamSlot, same_name, find_param, intern_param, param_value,
  set_value, handle_continuous,
}

same_name_self : (name : List ℕ) → same_name name name ≡ true
unfolding same_name
same_name_self [] = refl
same_name_self (x ∷ xs) = rw (eq→== x) (same_name_self xs)

module _ {F : Type 0} where
  find_param-lt :
      (name : List ℕ) (ps : List (ParamSlot F)) (i : ℕ)
      → find_param name ps ≡ some i
      → i < length ps
  unfolding find_param
  find_param-lt name [] i h = absurd cc
  find_param-lt name (p ∷ ps) i h = elim (Bool-cases (same_name p.name name)) [
    | inl mine ↦ let at : i ≡ 0 = ground arith in omega (arith, at)
    | inr other ↦ elim (Option-cases (find_param name ps)) [
      | inl missing ↦ absurd (ground arith)
      | inr (j, found) ↦
          let at : i ≡ suc j = ground arith in omega (arith, at, find_param-lt name ps j found)
    ]
  ]

  find_param-append :
      (name : List ℕ) (v : F) (ps : List (ParamSlot F))
      → find_param name ps ≡ none
      → find_param name (ps ++ (record { name = name; value = v } ∷ [])) ≡ some (length ps)
  unfolding find_param
  find_param-append name v [] h = rw (same_name_self name) refl
  find_param-append name v (p ∷ ps) h = elim (Bool-cases (same_name p.name name)) [
    | inl mine ↦ absurd (ground arith)
    | inr other ↦
        let absent : find_param name ps ≡ none = elim (Option-cases (find_param name ps)) [
          | inl e ↦ e
          | inr (j, found) ↦ absurd (ground arith)
        ] in
        rw (other, find_param-append name v ps absent) refl
  ]

module _ {F : Type 0} ⦃fl : FloatOps F⦄ where
  set_value-suc :
      (v : F) (j : ℕ) (p : ParamSlot F) (ps : List (ParamSlot F))
      → set_value v (suc j) (p ∷ ps) ≡ p ∷ set_value v j ps
  set_value-suc v j p ps = elim (Option-cases (get_elem? ps j)) [
    | inl e ↦ rw (e, set_value) refl
    | inr (q, e) ↦ rw (e, set_value) refl
  ]

  param_value-set_value :
      (name : List ℕ) (v : F) (ps : List (ParamSlot F)) (i : ℕ)
      → find_param name ps ≡ some i
      → param_value name (set_value v i ps) ≡ v
  unfolding find_param param_value
  param_value-set_value name v [] i h = absurd cc
  param_value-set_value name v (p ∷ ps) i h = elim (Bool-cases (same_name p.name name)) [
    | inl mine ↦ let at : i ≡ 0 = ground arith in rw at (rw mine refl)
    | inr other ↦ elim (Option-cases (find_param name ps)) [
      | inl missing ↦ absurd (ground arith)
      | inr (j, found) ↦
          let at : i ≡ suc j = ground arith in
          rw (at, set_value-suc v j p ps, other) (param_value-set_value name v ps j found)
    ]
  ]

  intern_param-found :
      (name : List ℕ) (c : LiveControl F) (i : ℕ)
      → find_param name c.params ≡ some i
      → intern_param name c ≡ (i % 2 ^ 16, c)
  unfolding intern_param
  intern_param-found name c i h = rw (h, intern_param) refl

  -- Interning gives the index at which the name is then found.
  interned :
      (name : List ℕ) (c : LiveControl F)
      → length c.params < 2 ^ 16
      → (i : ℕ) × (i < 2 ^ 16)
        × ((intern_param name c).0 ≡ i)
        × (find_param name (intern_param name c).1.params ≡ some i)
  unfolding intern_param
  interned name c small = elim (Option-cases (find_param name c.params)) [
    | inr (i, found) ↦
        let below = find_param-lt name c.params i found in
        let whole : i % 2 ^ 16 ≡ i = omega arith in
        (
          i,
          omega arith,
          rw (intern_param-found name c i found) whole,
          rw (intern_param-found name c i found) found,
        )
    | inl absent ↦
        let whole : length c.params % 2 ^ 16 ≡ length c.params = omega arith in
        (
          length c.params,
          small,
          rw (absent, intern_param) whole,
          rw (absent, intern_param) (find_param-append name (fl.of_nat 0) c.params absent),
        )
  ]

  handle_continuous-param_set :
      (b : Binding) (val : F) (c : LiveControl F)
      → b.action ≡ param_set
      → (handle_continuous b val c).params ≡ set_value (clamp_01 val) b.target_id c.params
  unfolding handle_continuous
  handle_continuous-param_set b val c h = rw (h, handle_continuous) refl

  -- Interning a name again gives the same slot and adds nothing, and a control that is bound to the slot sets
  -- what reading the name gives: the control's value, cut to between 0 and 1. The table has fewer than 2^16
  -- names, as its 16-bit indices need.
  pub intern_param-param_value :
      (name : List ℕ) (c : LiveControl F) (b : Binding) (val : F)
      → length c.params < 2 ^ 16
      → b.action ≡ param_set
      → b.target_id ≡ (intern_param name c).0
      → (intern_param name (intern_param name c).1 ≡ intern_param name c)
        × (param_value name (handle_continuous b val (intern_param name c).1).params ≡ clamp_01 val)
  intern_param-param_value name c b val small act target =
      let (i, below, index, found) = interned name c small in
      let c' = (intern_param name c).1 in
      let whole : i % 2 ^ 16 ≡ i = omega arith in
      (
        intern_param-found name c' i found ∙ ap (λ k. (k, c')) (whole ∙ sym index),
        ap (param_value name) (
              handle_continuous-param_set b val c' act
              ∙ ap (λ k. set_value (clamp_01 val) k c'.params) (target ∙ index))
            ∙ param_value-set_value name (clamp_01 val) c'.params i found,
      )
