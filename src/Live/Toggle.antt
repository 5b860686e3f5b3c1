-- ===== src/Live/Toggle.antt =====
-- The latch of a toggling button.
use esp_glow.Prelude.{
  ℕ, zero, suc, ◌≡◌, sym, ap, ◌∙◌, arith, Bool, true, false, not, some, List, [], ◌∷◌,
  if◌then◌else◌, get_elem?, set, get_elem?-set_self, get_elem?-lt,
}
use esp_glow.Prelude.Float.{FloatOps}
use esp_glow.Midi.Event.{ControlType, button, ControlEvent}
use esp_glow.Show.Control.{go, release}
use esp_glow.Live.{
  Binding, later, cue_toggle, LiveControl, matches, find_binding, effective_id, toggled,
  handle_button, handle_bound, handle,
}

-- the press of the button `id` on `channel`
abbrev pub press : {F : Type 0} → ℕ → ℕ → F → ControlEvent F
press id channel val = record {
  type = button;
  id = id;
  channel = channel;
  pressed = true;
  value = val;
}

-- A binding that changes only its latch is found as before.
find_binding-set :
    (type : ControlType) (id : ℕ) (bs : List Binding) (i : ℕ) (b : Binding) (latch : Bool)
    → get_elem? bs i ≡ some b
    → find_binding type id (set bs i (record b { latched = latch })) ≡ find_binding type id bs
unfolding find_binding
find_binding-set type id [] i b latch h = absurd cc
find_binding-set type id (x ∷ xs) zero b latch h =
    let same : x ≡ b = ground arith in
    ap (λ y. if matches type id y then some 0 else later (find_binding type id xs)) (sym same)
find_binding-set type id (x ∷ xs) (suc i) b latch h =
    ap (λ o. if matches type id x then some 0 else later o)
      (find_binding-set type id xs i b latch h)

set-back :
    (bs : List Binding) (i : ℕ) (b c : Binding)
    → get_elem? bs i ≡ some b
    → set (set bs i c) i b ≡ bs
set-back [] i b c h = absurd cc
set-back (x ∷ xs) zero b c h = let same : x ≡ b = ground arith in ap (λ y. y ∷ xs) (sym same)
set-back (x ∷ xs) (suc i) b c h = ap (◌∷◌ x) (set-back xs i b c h)

module _ {F : Type 0} ⦃fl : FloatOps F⦄ where
  handle_button-toggle :
      (i : ℕ) (b : Binding) (t : F) (c : LiveControl F)
      → b.action ≡ cue_toggle
      → handle_button b.action i b true t c ≡ toggled go release i b t c
  unfolding handle_button
  handle_button-toggle i b t c h = ap (λ a. handle_button a i b true t c) h

  handle-press :
      (id channel i : ℕ) (val t : F) (c : LiveControl F) (b : Binding)
      → find_binding button (effective_id c.profile (press id channel val)) c.bindings ≡ some i
      → get_elem? c.bindings i ≡ some b
      → b.action ≡ cue_toggle
      → handle (press id channel val) t c ≡ toggled go release i b t c
  unfolding handle handle_bound
  handle-press id channel i val t c b found at_i h =
      let ev = press id channel val in
      rw found (ap (λ o. handle_bound ev t i o c) at_i ∙ handle_button-toggle i b t c h)

  -- A button that toggles a cue, pressed twice: the first press starts the cue, the second releases it, and
  -- the bindings are as before, so that the next press starts it again.
  pub handle-toggle_twice :
      (id channel i : ℕ) (val t t' : F) (c : LiveControl F) (b : Binding)
      → find_binding button (effective_id c.profile (press id channel val)) c.bindings ≡ some i
      → get_elem? c.bindings i ≡ some b
      → b.action ≡ cue_toggle
      → b.latched ≡ false
      → handle (press id channel val) t' (handle (press id channel val) t c)
        ≡ record c { show = release b.target_id t' (go b.target_id t c.show) }
  handle-toggle_twice id channel i val t t' c b found at_i h unlatched =
      let after : Bool → LiveControl F = λ latch. record c {
        show = if latch then release b.target_id t c.show else go b.target_id t c.show;
        bindings = set c.bindings i (record b { latched = not latch });
      } in
      let b' : Binding = record b { latched = true } in
      let bs' = set c.bindings i b' in
      let c' : LiveControl F = record c { show = go b.target_id t c.show; bindings = bs' } in
      let first : handle (press id channel val) t c ≡ c' =
        handle-press id channel i val t c b found at_i h ∙ ap after unlatched in
      let found' : find_binding button (effective_id c.profile (press id channel val)) bs'
          ≡ some i =
        find_binding-set button _ c.bindings i b true at_i ∙ found in
      let second =
        handle-press id channel i val t' c' b' found'
          (get_elem?-set_self c.bindings i b' (get_elem?-lt c.bindings i at_i)) h in
      ap (handle (press id channel val) t') first
      ∙ second
      ∙ ap
          (λ bs. record c {
            show = release b.target_id t' (go b.target_id t c.show);
            bindings = bs;
          })
          (ap (λ l. set bs' i (record b { latched = l })) (sym unlatched)
            ∙ set-back c.bindings i b b' at_i)
