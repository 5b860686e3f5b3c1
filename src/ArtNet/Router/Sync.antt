-- ===== src/ArtNet/Router/Sync.antt =====
-- Whom a frame's ArtSync reaches.
use esp_glow.Prelude.{
  ℕ, ◌≡◌, refl, ap, ◌∙◌, arith, Bool, true, false, not, ◌&&◌, ◌||◌, inl, inr, Bool-cases, List, [],
  ◌∷◌, ◌++◌, map, if◌then◌else◌, ◌==◌, replicate, ==_iff,
}
use esp_glow.ArtNet.Router.{
  ArtNetRouter, ArtNetDest, resolve_ip, contains, distinct_ips, sync_to, frame_end, max_universes,
}

-- Is there an active universe that goes to `ip`?
abbrev pub targeted : ℕ → ArtNetRouter → List Bool → List ArtNetDest → Bool
targeted ip r [] ds = false
targeted ip r (active ∷ actives) [] = false
targeted ip r (active ∷ actives) (d ∷ ds) =
    let rest = targeted ip r actives ds in
    if active && resolve_ip d r == ip && not (ip == 0) then true else rest

abbrev pub Distinct : List ℕ → Type 0
Distinct [] = Unit
Distinct (ip ∷ ips) = (contains ip ips ≡ false) × Distinct ips

contains-append :
    (ip : ℕ) (xs : List ℕ) (y : ℕ) → contains ip (xs ++ (y ∷ [])) ≡ contains ip xs || y == ip
contains-append ip [] y = ground arith
contains-append ip (x ∷ xs) y = ground (arith, contains-append ip xs y)

Distinct-append :
    (xs : List ℕ) (y : ℕ) → Distinct xs → contains y xs ≡ false → Distinct (xs ++ (y ∷ []))
Distinct-append [] y d h = (refl, tt)
Distinct-append (x ∷ xs) y d h =
    let apart : (x == y) ≡ false = ground arith in
    let later : contains y xs ≡ false = ground arith in
    (ground (arith, contains-append x xs y), Distinct-append xs y d.1 later)

-- one round of the loop
step-contains :
    (ip addr : ℕ) (active : Bool) (ips : List ℕ)
    → contains ip (
        if not active
        then ips
        else if addr == 0
        then ips
        else if contains addr ips
        then ips
        else ips ++ (addr ∷ []))
      ≡ contains ip ips || (active && addr == ip && not (ip == 0))
step-contains ip addr active ips = elim (Bool-cases (addr == ip)) [
  | inl same ↦
      let e : contains addr ips ≡ contains ip ips =
        ap (λ k. contains k ips) ((==_iff addr ip).0 same) in
      ground (arith, e, contains-append ip ips addr)
  | inr other ↦ ground (arith, contains-append ip ips addr)
]

step-Distinct :
    (addr : ℕ) (active : Bool) (ips : List ℕ)
    → Distinct ips
    → Distinct (
        if not active
        then ips
        else if addr == 0
        then ips
        else if contains addr ips
        then ips
        else ips ++ (addr ∷ []))
step-Distinct addr false ips d = d
step-Distinct addr true ips d = elim (Bool-cases (addr == 0)) [
  | inl h ↦ rw h d
  | inr h ↦ elim (Bool-cases (contains addr ips)) [
    | inl m ↦ rw (h, m) d
    | inr m ↦ rw (h, m) (Distinct-append ips addr d m)
  ]
]

distinct_ips-contains :
    (ip : ℕ) (r : ArtNetRouter) (actives : List Bool) (ds : List ArtNetDest) (ips : List ℕ)
    → contains ip (distinct_ips r actives ds ips) ≡ contains ip ips || targeted ip r actives ds
unfolding distinct_ips
distinct_ips-contains ip r [] ds ips = ground arith
distinct_ips-contains ip r (active ∷ actives) [] ips = ground arith
distinct_ips-contains ip r (active ∷ actives) (d ∷ ds) ips =
    distinct_ips-contains ip r actives ds _
    ∙ ap (λ b. b || targeted ip r actives ds) (step-contains ip (resolve_ip d r) active ips)
    ∙ or_assoc (contains ip ips) (active && resolve_ip d r == ip && not (ip == 0))
        (targeted ip r actives ds)
  where
    or_assoc : (a b c : Bool) → (a || b) || c ≡ a || (if b then true else c)
    or_assoc a b c = ground arith

distinct_ips-Distinct :
    (r : ArtNetRouter) (actives : List Bool) (ds : List ArtNetDest) (ips : List ℕ)
    → Distinct ips
    → Distinct (distinct_ips r actives ds ips)
unfolding distinct_ips
distinct_ips-Distinct r [] ds ips d = d
distinct_ips-Distinct r (active ∷ actives) [] ips d = d
distinct_ips-Distinct r (active ∷ actives) (e ∷ ds) ips d =
    distinct_ips-Distinct r actives ds _ (step-Distinct (resolve_ip e r) active ips d)

-- Without broadcast, a frame ends with one ArtSync to each address that a universe sent in this frame goes to:
-- the addresses are all different, and an address is among them exactly if such a universe goes to it. No
-- universe is active afterwards.
pub frame_end-sync :
    (r : ArtNetRouter)
    → r.sync_broadcast ≡ false
    → (ips : List ℕ) × ((frame_end r).0 ≡ map (sync_to r) ips)
      × Distinct ips
      × ((ip : ℕ) → contains ip ips ≡ targeted ip r r.active_this_frame r.dest)
      × ((frame_end r).1.active_this_frame ≡ replicate max_universes false)
unfolding frame_end
frame_end-sync r h =
    let ips = distinct_ips r r.active_this_frame r.dest [] in
    rw h (
      ips,
      refl,
      distinct_ips-Distinct r r.active_this_frame r.dest [] tt,
      λ ip. distinct_ips-contains ip r r.active_this_frame r.dest [],
      refl,
    )
