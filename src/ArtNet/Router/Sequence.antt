-- ===== src/ArtNet/Router/Sequence.antt =====
-- The sequence counter of a universe over one call.
use esp_glow.Prelude.{
  ℕ, zero, suc, ◌+◌, ◌%◌, ◌^◌, ◌≤◌, ◌<◌, ◌≡◌, refl, ap, ◌∙◌, arith, Bool, true, false, List, [],
  ◌∷◌, if◌then◌else◌, leb, ◌==◌, length, get_or, set, All, length-set, get_or-set_self,
  get_or-set_ne, ◌≢◌, sym,
}
use esp_glow.Dmx.{dmx_universe_size}
use esp_glow.ArtNet.Packet.{build_art_dmx_packet, build_art_dmx_packet_lem, Carries}
use esp_glow.ArtNet.Router.{
  ArtNetRouter, Datagram, max_universes, no_dest, resolve_ip, send, next_sequence, init,
}

abbrev pub InRange : ℕ → Type 0
InRange s = (1 ≤ s) × (s ≤ 255)

-- The three arrays have a place for every universe, and no counter is 0 or above 255.
pub record IsValid (r : ArtNetRouter) : Type 0 where
  pub dests : length r.dest ≡ max_universes
  pub seqs : length r.seq ≡ max_universes
  pub actives : length r.active_this_frame ≡ max_universes
  pub in_range : All InRange r.seq

next_sequence-InRange : (s : ℕ) → InRange (next_sequence s)
next_sequence-InRange s = ground arith

set-All : (xs : List ℕ) (i v : ℕ) → All InRange xs → InRange v → All InRange (set xs i v)
set-All [] i v h p = tt
set-All (x ∷ xs) zero v h p = (p, h.1)
set-All (x ∷ xs) (suc i) v h p = (h.0, set-All xs i v h.1 p)

pub get_or-All : (xs : List ℕ) (i : ℕ) → All InRange xs → i < length xs → InRange (get_or xs i 0)
get_or-All [] i h lt = absurd (omega arith)
get_or-All (x ∷ xs) zero h lt = h.0
get_or-All (x ∷ xs) (suc i) h lt = get_or-All xs i h.1 (omega arith)

pub init-IsValid : (ip port : ℕ) (sync_broadcast : Bool) → IsValid (init ip port sync_broadcast)
unfolding init
init-IsValid ip port sync_broadcast = record {
  dests = refl;
  seqs = refl;
  actives = refl;
  in_range = ground arith;
}

-- what a universe's counter reads, and where its packets go
abbrev pub counter : ℕ → ArtNetRouter → ℕ
counter u r = get_or r.seq u 0

abbrev pub target : ℕ → ArtNetRouter → ℕ
target u r = resolve_ip (get_or r.dest u no_dest) r

pub record Dropped (u : ℕ) (r : ArtNetRouter) (after : List Datagram × ArtNetRouter) : Type 0 where
  pub nothing_sent : after.0 ≡ []
  pub counters_wait : after.1.seq ≡ r.seq
  pub routes : (v : ℕ) → target v after.1 ≡ target v r
  pub counted : after.1.unrouted_drops ≡ (r.unrouted_drops + 1) % 2 ^ 32
  pub inactive : get_or after.1.active_this_frame u false ≡ false
  pub others :
      (v : ℕ)
      → v ≢ u
      → get_or after.1.active_this_frame v false ≡ get_or r.active_this_frame v false
  pub valid : IsValid after.1

pub record Routed (u : ℕ) (bytes : List ℕ) (r : ArtNetRouter) (after : List Datagram × ArtNetRouter)
    : Type 0 where
  pub packet_sent :
      after.0
      ≡ record {
        ip = target u r;
        port = r.port;
        bytes =
            build_art_dmx_packet
              (get_or r.dest u no_dest).wire_universe
              (counter u r)
              bytes
              (length bytes);
      }
        ∷ []
  pub counter_moves : counter u after.1 ≡ (if counter u r == 255 then 1 else counter u r + 1)
  pub active : get_or after.1.active_this_frame u false ≡ true
  pub routes : (v : ℕ) → target v after.1 ≡ target v r
  pub uncounted : after.1.unrouted_drops ≡ r.unrouted_drops
  pub others :
      (v : ℕ)
      → v ≢ u
      → (counter v after.1 ≡ counter v r)
        × (get_or after.1.active_this_frame v false ≡ get_or r.active_this_frame v false)
  pub valid : IsValid after.1

counter_next : (s : ℕ) → InRange s → next_sequence s ≡ (if s == 255 then 1 else s + 1)
counter_next s h = ground arith

pub send-Dropped :
    (u : ℕ) (bytes : List ℕ) (r : ArtNetRouter)
    → u < max_universes
    → IsValid r
    → target u r ≡ 0
    → Dropped u r (send u bytes (length bytes) r)
unfolding send
send-Dropped u bytes r h v t =
    let there : leb max_universes u ≡ false = ground arith in
    let none_there : (target u r == 0) ≡ true = ap (λ ip. ip == 0) t in
    rw (there, none_there)
      (record {
        nothing_sent = refl;
        counters_wait = refl;
        routes = λ v. refl;
        others = λ v ne. get_or-set_ne r.active_this_frame u v false false (λ e. ne (sym e));
        counted = refl;
        inactive = get_or-set_self r.active_this_frame u false false (omega (arith, v.actives));
        valid = record {
          dests = v.dests;
          seqs = v.seqs;
          actives = length-set r.active_this_frame u false ∙ v.actives;
          in_range = v.in_range;
        };
      })

pub send-Routed :
    (u : ℕ) (bytes : List ℕ) (r : ArtNetRouter)
    → u < max_universes
    → IsValid r
    → (target u r == 0) ≡ false
    → Routed u bytes r (send u bytes (length bytes) r)
unfolding send
send-Routed u bytes r h v t =
    let there : leb max_universes u ≡ false = ground arith in
    rw (there, t)
      (record {
        packet_sent = refl;
        counter_moves =
            get_or-set_self r.seq u (next_sequence (counter u r)) 0 (omega (arith, v.seqs))
            ∙ counter_next (counter u r) (get_or-All r.seq u v.in_range (omega (arith, v.seqs)));
        active = get_or-set_self r.active_this_frame u true false (omega (arith, v.actives));
        routes = λ w. refl;
        uncounted = refl;
        others = λ w ne. (
          get_or-set_ne r.seq u w (next_sequence (counter u r)) 0 (λ e. ne (sym e)),
          get_or-set_ne r.active_this_frame u w true false (λ e. ne (sym e)),
        );
        valid = record {
          dests = v.dests;
          seqs = length-set r.seq u (next_sequence (counter u r)) ∙ v.seqs;
          actives = length-set r.active_this_frame u true ∙ v.actives;
          in_range =
              set-All r.seq u (next_sequence (counter u r)) v.in_range
                (next_sequence-InRange (counter u r));
        };
      })

-- A frame of at most 512 bytes for a universe that resolves to an address is sent there as one ArtDMX packet,
-- which a reader finds to carry the frame, the universe's number on the wire and the universe's own counter.
-- That counter then goes on from 1 to 255 and to 1 again, and the universe takes part in the frame's ArtSync.
-- The counter and the part in ArtSync of every other universe stay, as do all addresses and the count of
-- dropped frames; no counter is ever 0.
pub send-Carries :
    (u : ℕ) (bytes : List ℕ) (r : ArtNetRouter)
    → u < max_universes
    → length bytes ≤ dmx_universe_size
    → IsValid r
    → (target u r == 0) ≡ false
    → Routed u bytes r (send u bytes (length bytes) r)
      × ((d : Datagram) × ((send u bytes (length bytes) r).0 ≡ d ∷ [])
          × (d.ip ≡ target u r)
          × (d.port ≡ r.port)
          × Carries (get_or r.dest u no_dest).wire_universe (counter u r) bytes d.bytes)
send-Carries u bytes r h short v t =
    let routed = send-Routed u bytes r h v t in
    let wire = (get_or r.dest u no_dest).wire_universe in
    let packet = build_art_dmx_packet wire (counter u r) bytes (length bytes) in
    (
      routed,
      (
        record { ip = target u r; port = r.port; bytes = packet },
        routed.packet_sent,
        refl,
        refl,
        build_art_dmx_packet_lem wire (counter u r) bytes short,
      ),
    )
