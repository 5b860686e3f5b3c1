-- ===== src/ArtNet/Router/Run.antt =====
-- The sequence counters and the drops over any run of frames.
mod Once
use esp_glow.Prelude.{
  ℕ, ◌+◌, ◌-◌, ◌%◌, ◌^◌, ◌<◌, ◌≡◌, ◌≢◌, refl, sym, ap, ◌∙◌, arith, Bool, true, false, not, List, [],
  ◌∷◌, ◌++◌, if◌then◌else◌, leb, ◌⊎◌, ◌==◌, length, get_or, subst, length-append, Bool-cases, inl,
  inr, ==_iff,
}
use esp_glow.ArtNet.Router.{ArtNetRouter, Datagram, max_universes, send}
use esp_glow.ArtNet.Router.Sequence.{
  InRange, IsValid, counter, target, Dropped, Routed, get_or-All, send-Dropped, send-Routed,
}
use esp_glow.ArtNet.Router.Run.Once.{Step, step}

-- Frames by universe and bytes, sent one after another; a universe may be out of range.
unfoldable pub send_all : List (ℕ × List ℕ) → ArtNetRouter → List Datagram × ArtNetRouter
send_all [] r = ([], r)
send_all (f ∷ fs) r =
    let (sent, r') = send f.0 f.1 (length f.1) r in
    let (later, r'') = send_all fs r' in (sent ++ later, r'')

-- how many of the frames are for universe `u`
abbrev pub frames_of : ℕ → List (ℕ × List ℕ) → ℕ
frames_of u [] = 0
frames_of u (f ∷ fs) = (if f.0 == u then 1 else 0) + frames_of u fs

-- how many are for a universe in range that resolves to no address, or to one
abbrev pub frames_where : (ℕ → Bool) → List (ℕ × List ℕ) → ℕ
frames_where p [] = 0
frames_where p (f ∷ fs) =
    let rest = frames_where p fs in
    if leb max_universes f.0 then rest else if p f.0 then 1 + rest else rest

frames_where-same :
    (p q : ℕ → Bool) (fs : List (ℕ × List ℕ))
    → ((u : ℕ) → p u ≡ q u)
    → frames_where p fs ≡ frames_where q fs
frames_where-same p q [] h = refl
frames_where-same p q (f ∷ fs) h = rw (h f.0, frames_where-same p q fs h) refl

-- the counter of a routed universe, one frame on and `n` more
counter_on :
    (c n : ℕ)
    → InRange c
    → ((if c == 255 then 1 else c + 1) - 1 + n) % 255 + 1 ≡ (c - 1 + (1 + n)) % 255 + 1
counter_on c n h = elim (Bool-cases (c == 255)) [
  | inl last ↦ let at : c ≡ 255 = (==_iff c 255).0 last in rw at (omega arith)
  | inr before ↦ rw before (omega arith)
]

unmoved : (c : ℕ) → InRange c → c ≡ (c - 1 + 0) % 255 + 1
unmoved c h = omega arith

-- what a run of frames leaves
pub record Ran (fs : List (ℕ × List ℕ)) (r : ArtNetRouter) (after : List Datagram × ArtNetRouter)
    : Type 0 where
  pub valid : IsValid after.1
  pub counters :
      (u : ℕ)
      → u < max_universes
      → counter u after.1
        ≡ (if target u r == 0 then counter u r else (counter u r - 1 + frames_of u fs) % 255 + 1)
  pub actives :
      (u : ℕ)
      → u < max_universes
      → get_or after.1.active_this_frame u false ≡ (
          if frames_of u fs == 0 then get_or r.active_this_frame u false else not (target u r == 0))
  pub drops :
      after.1.unrouted_drops ≡ (r.unrouted_drops + frames_where (λ u. target u r == 0) fs) % 2 ^ 32
  pub packets : length after.0 ≡ frames_where (λ u. not (target u r == 0)) fs

Ran-none : (r : ArtNetRouter) → IsValid r → r.unrouted_drops < 2 ^ 32 → Ran [] r ([], r)
Ran-none r v few = record {
  valid = v;
  counters = λ u inside. elim (Bool-cases (target u r == 0)) [
    | inl t ↦ rw t refl
    | inr t ↦ rw t (unmoved (counter u r) (get_or-All r.seq u v.in_range (omega (arith, v.seqs))))
  ];
  actives = λ u inside. refl;
  drops = omega arith;
  packets = refl;
}

zero_more : (n : ℕ) → 0 + n ≡ n
zero_more n = omega arith

-- One frame and then a run, on the numbers that they leave.
count_on :
    (c c1 c2 n : ℕ) (lost own : Bool)
    → InRange c
    → c1 ≡ (if lost then c else if own then (if c == 255 then 1 else c + 1) else c)
    → c2 ≡ (if lost then c1 else (c1 - 1 + n) % 255 + 1)
    → c2 ≡ (if lost then c else (c - 1 + ((if own then 1 else 0) + n)) % 255 + 1)
count_on c c1 c2 n true own h one more = more ∙ one
count_on c c1 c2 n false true h one more =
    more ∙ ap (λ x. (x - 1 + n) % 255 + 1) one ∙ counter_on c n h
count_on c c1 c2 n false false h one more =
    rw (zero_more n) (more ∙ ap (λ x. (x - 1 + n) % 255 + 1) one)

active_on :
    (a a1 a2 : Bool) (n : ℕ) (lost own : Bool)
    → a1 ≡ (if own then not lost else a)
    → a2 ≡ (if n == 0 then a1 else not lost)
    → a2 ≡ (if (if own then 1 else 0) + n == 0 then a else not lost)
active_on a a1 a2 n lost true one more = elim (Bool-cases (n == 0)) [
  | inl none_left ↦
      let some_sent : (1 + n == 0) ≡ false = ground arith in
      rw some_sent (more ∙ ap (λ b. if b then a1 else not lost) none_left ∙ one)
  | inr some_left ↦
      let some_sent : (1 + n == 0) ≡ false = ground arith in
      rw some_sent (more ∙ ap (λ b. if b then a1 else not lost) some_left)
]
active_on a a1 a2 n lost false one more =
    rw (zero_more n) (more ∙ ap (λ x. if n == 0 then x else not lost) one)

drops_on :
    (d d1 d2 n : ℕ) (out lost : Bool)
    → d1 ≡ (if out then d else if lost then (d + 1) % 2 ^ 32 else d)
    → d2 ≡ (d1 + n) % 2 ^ 32
    → d2 ≡ (d + (if out then n else if lost then 1 + n else n)) % 2 ^ 32
drops_on d d1 d2 n true lost one more = omega arith
drops_on d d1 d2 n false true one more = omega arith
drops_on d d1 d2 n false false one more = omega arith

packets_on :
    (p q n : ℕ) (out lost : Bool)
    → p ≡ (if out then 0 else if lost then 0 else 1)
    → q ≡ n
    → p + q ≡ (if out then n else if not lost then 1 + n else n)
packets_on p q n true lost one more = omega arith
packets_on p q n false true one more = omega arith
packets_on p q n false false one more = omega arith

Ran-next :
    (f : ℕ × List ℕ) (fs : List (ℕ × List ℕ)) (r : ArtNetRouter)
    (first rest : List Datagram × ArtNetRouter)
    → IsValid r
    → r.unrouted_drops < 2 ^ 32
    → Step f r first
    → Ran fs first.1 rest
    → Ran (f ∷ fs) r (first.0 ++ rest.0, rest.1)
Ran-next f fs r first rest v few s ran = record {
  valid = ran.valid;
  counters = λ u inside.
      count_on (counter u r) (counter u first.1) (counter u rest.1) (frames_of u fs)
        (target u r == 0) (f.0 == u) (get_or-All r.seq u v.in_range (omega (arith, v.seqs)))
        (s.counters u inside)
        (subst
          (λ ip. counter u rest.1 ≡ (
            if ip == 0
            then counter u first.1
            else (counter u first.1 - 1 + frames_of u fs) % 255 + 1))
          (s.routes u) (ran.counters u inside));
  actives = λ u inside.
      active_on (get_or r.active_this_frame u false) (get_or first.1.active_this_frame u false)
        (get_or rest.1.active_this_frame u false) (frames_of u fs) (target u r == 0) (f.0 == u)
        (s.actives u inside)
        (subst
          (λ ip. get_or rest.1.active_this_frame u false ≡ (
            if frames_of u fs == 0
            then get_or first.1.active_this_frame u false
            else not (ip == 0)))
          (s.routes u) (ran.actives u inside));
  drops =
      drops_on r.unrouted_drops first.1.unrouted_drops rest.1.unrouted_drops
        (frames_where (λ u. target u r == 0) fs) (leb max_universes f.0) (target f.0 r == 0) s.drops
        (ran.drops
          ∙ ap (λ n. (first.1.unrouted_drops + n) % 2 ^ 32)
              (frames_where-same _ _ fs (λ u. ap (λ ip. ip == 0) (s.routes u))));
  packets =
      length-append first.0 rest.0
      ∙ packets_on (length first.0) (length rest.0) (frames_where (λ u. not (target u r == 0)) fs)
          (leb max_universes f.0) (target f.0 r == 0) s.packets
          (ran.packets ∙ frames_where-same _ _ fs (λ u. ap (λ ip. not (ip == 0)) (s.routes u)));
}

-- Over any run of frames, whatever their universes, on a valid router whose drop count has 32 bits: the counter
-- of a universe that resolves to an address moves on by the number of that universe's own frames, from 1 to 255
-- and round, and that of one without an address stays; a universe that frames were sent for takes part in
-- ArtSync exactly if it has an address, and any other universe as before; the frames of universes in range
-- without an address are counted as dropped, modulo 2^32, and each other one in range is sent as one packet.
pub send_all-Ran :
    (fs : List (ℕ × List ℕ)) (r : ArtNetRouter)
    → IsValid r
    → r.unrouted_drops < 2 ^ 32
    → Ran fs r (send_all fs r)
unfolding send_all
send_all-Ran [] r v few = Ran-none r v few
send_all-Ran (f ∷ fs) r v few =
    let s = step f r v in
    let first = send f.0 f.1 (length f.1) r in
    let still : first.1.unrouted_drops < 2 ^ 32 = few_on r.unrouted_drops _ _ _ few s.drops in
    Ran-next f fs r first (send_all fs first.1) v few s (send_all-Ran fs first.1 s.valid still)
  where
    few_on :
        (d d1 : ℕ) (out lost : Bool)
        → d < 2 ^ 32
        → d1 ≡ (if out then d else if lost then (d + 1) % 2 ^ 32 else d)
        → d1 < 2 ^ 32
    few_on d d1 true lost h e = omega arith
    few_on d d1 false true h e = omega arith
    few_on d d1 false false h e = omega arith
