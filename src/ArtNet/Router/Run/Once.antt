-- ===== src/ArtNet/Router/Run/Once.antt =====
-- One call of `ArtNetRouter::send`, on every branch: what it does to each universe.
use esp_glow.Prelude.{
  ℕ, ◌+◌, ◌%◌, ◌^◌, ◌<◌, ◌≡◌, ◌≢◌, refl, sym, ap, ◌∙◌, arith, Bool, true, false, not, List, [],
  if◌then◌else◌, leb, ◌⊎◌, ◌==◌, length, get_or, subst, Bool-cases, inl, inr, ==_iff,
}
use esp_glow.ArtNet.Router.{ArtNetRouter, Datagram, max_universes, send}
use esp_glow.ArtNet.Router.Sequence.{
  IsValid, counter, target, Dropped, Routed, send-Dropped, send-Routed,
}

abbrev pub unrouted : ArtNetRouter → ℕ → Bool
unrouted r u = target u r == 0

-- What one call does to the counter of universe `u`, to the drops and to the packets.
pub record Step (f : ℕ × List ℕ) (r : ArtNetRouter) (after : List Datagram × ArtNetRouter)
    : Type 0 where
  pub valid : IsValid after.1
  pub routes : (v : ℕ) → target v after.1 ≡ target v r
  pub counters :
      (u : ℕ)
      → u < max_universes
      → counter u after.1 ≡ (
          if target u r == 0
          then counter u r
          else if f.0 == u
          then (if counter u r == 255 then 1 else counter u r + 1)
          else counter u r)
  pub actives :
      (u : ℕ)
      → u < max_universes
      → get_or after.1.active_this_frame u false
        ≡ (if f.0 == u then not (target u r == 0) else get_or r.active_this_frame u false)
  pub drops : after.1.unrouted_drops ≡ (
      if leb max_universes f.0
      then r.unrouted_drops
      else if unrouted r f.0
      then (r.unrouted_drops + 1) % 2 ^ 32
      else r.unrouted_drops)
  pub packets :
      length after.0 ≡ (if leb max_universes f.0 then 0 else if unrouted r f.0 then 0 else 1)

ignored :
    (u : ℕ) (bytes : List ℕ) (r : ArtNetRouter)
    → leb max_universes u ≡ true
    → send u bytes (length bytes) r ≡ ([], r)
unfolding send
ignored u bytes r h = rw h refl

same_or_other : (a b : ℕ) → ((a == b) ≡ true × (a ≡ b)) ⊎ ((a == b) ≡ false × (b ≢ a))
same_or_other a b = elim (Bool-cases (a == b)) [
  | inl same ↦ inl (same, (==_iff a b).0 same)
  | inr other ↦ inr (other, λ e. ground arith)
]

kept : (b : Bool) (c : ℕ) → c ≡ (if b then c else c)
kept true c = refl
kept false c = refl

step_ignored :
    (f : ℕ × List ℕ) (r : ArtNetRouter)
    → IsValid r
    → leb max_universes f.0 ≡ true
    → Step f r ([], r)
step_ignored f r v h = record {
  valid = v;
  routes = λ u. refl;
  counters = λ u inside. elim (same_or_other f.0 u) [
    | inl (same, e) ↦ absurd (ground arith)
    | inr (other, ne) ↦ rw other (kept (target u r == 0) (counter u r))
  ];
  actives = λ u inside. elim (same_or_other f.0 u) [
    | inl (same, e) ↦ absurd (ground arith)
    | inr (other, ne) ↦ rw other refl
  ];
  drops = rw h refl;
  packets = rw h refl;
}

step_dropped :
    (f : ℕ × List ℕ) (r : ArtNetRouter) (after : List Datagram × ArtNetRouter)
    → Dropped f.0 r after
    → leb max_universes f.0 ≡ false
    → unrouted r f.0 ≡ true
    → Step f r after
step_dropped f r after d h t = record {
  valid = d.valid;
  routes = d.routes;
  counters = λ u inside. elim (same_or_other f.0 u) [
    | inl (same, e) ↦
        let none_there : unrouted r u ≡ true = ap (unrouted r) (sym e) ∙ t in
        rw (same, none_there) (ap (λ s. get_or s u 0) d.counters_wait)
    | inr (other, ne) ↦
        rw other (ap (λ s. get_or s u 0) d.counters_wait ∙ kept (target u r == 0) (counter u r))
  ];
  actives = λ u inside. elim (same_or_other f.0 u) [
    | inl (same, e) ↦
        let none_there : unrouted r u ≡ true = ap (unrouted r) (sym e) ∙ t in
        rw (same, none_there)
          (subst (λ w. get_or after.1.active_this_frame w false ≡ false) e d.inactive)
    | inr (other, ne) ↦ rw other (d.others u ne)
  ];
  drops = rw (h, t) d.counted;
  packets = rw (h, t) (ap length d.nothing_sent);
}

step_routed :
    (f : ℕ × List ℕ) (r : ArtNetRouter) (after : List Datagram × ArtNetRouter)
    → Routed f.0 f.1 r after
    → leb max_universes f.0 ≡ false
    → unrouted r f.0 ≡ false
    → Step f r after
step_routed f r after d h t = record {
  valid = d.valid;
  routes = d.routes;
  counters = λ u inside. elim (same_or_other f.0 u) [
    | inl (same, e) ↦
        let there : unrouted r u ≡ false = ap (unrouted r) (sym e) ∙ t in
        rw (same, there)
          (subst (λ w. counter w after.1 ≡ (if counter w r == 255 then 1 else counter w r + 1)) e
            d.counter_moves)
    | inr (other, ne) ↦ rw other ((d.others u ne).0 ∙ kept (target u r == 0) (counter u r))
  ];
  actives = λ u inside. elim (same_or_other f.0 u) [
    | inl (same, e) ↦
        let there : unrouted r u ≡ false = ap (unrouted r) (sym e) ∙ t in
        rw (same, there) (subst (λ w. get_or after.1.active_this_frame w false ≡ true) e d.active)
    | inr (other, ne) ↦ rw other (d.others u ne).1
  ];
  drops = rw (h, t) d.uncounted;
  packets = rw (h, t) (ap length d.packet_sent);
}

pub step : (f : ℕ × List ℕ) (r : ArtNetRouter) → IsValid r → Step f r (send f.0 f.1 (length f.1) r)
step f r v = elim (Bool-cases (leb max_universes f.0)) [
  | inl out ↦ rw (ignored f.0 f.1 r out) (step_ignored f r v out)
  | inr here ↦
      let inside : f.0 < max_universes = ground arith in
      elim (Bool-cases (unrouted r f.0)) [
        | inl lost ↦
            step_dropped f r _ (send-Dropped f.0 f.1 r inside v ((==_iff (target f.0 r) 0).0 lost))
              here lost
        | inr routed ↦ step_routed f r _ (send-Routed f.0 f.1 r inside v routed) here routed
      ]
]
