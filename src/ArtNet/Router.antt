-- ===== src/ArtNet/Router.antt =====
-- `ArtNetRouter`: the routing table, the sequence counters, and what one frame sends. A lock guards the
-- table; what the transport is given is returned as a list.
pub mod Sequence
pub mod Run
pub mod Sync
use esp_glow.Prelude.{
  ℕ, zero, suc, ◌+◌, ◌%◌, ◌^◌, Bool, true, false, not, Option, none, some, List, [], ◌∷◌, ◌++◌,
  if◌then◌else◌, ltb, leb, ◌==◌, length, get_or, set, replicate, tabulate, take, map,
}
use esp_glow.ArtNet.Packet.{build_art_dmx_packet, build_art_sync_packet}

abbrev pub max_universes : ℕ
max_universes = 8

-- An IPv4 address is a uint32_t, 0 for none.
pub record ArtNetDest : Type 0 where
  pub ip : ℕ
  pub wire_universe : ℕ

pub record ArtNetRouter : Type 0 where
  pub fallback_ip : ℕ
  pub port : ℕ
  pub sync_broadcast : Bool
  pub dest : List ArtNetDest
  pub seq : List ℕ
  pub unrouted_drops : ℕ
  pub active_this_frame : List Bool

-- one call of `IArtNetTransport::sendTo`
pub record Datagram : Type 0 where
  pub ip : ℕ
  pub port : ℕ
  pub bytes : List ℕ

-- the value-initialised `ArtNetDest{}`
abbrev pub no_dest : ArtNetDest
no_dest = record { ip = 0; wire_universe = 0 }

unfoldable pub init : ℕ → ℕ → Bool → ArtNetRouter
init fallback_ip port sync_broadcast = record {
  fallback_ip = fallback_ip;
  port = port;
  sync_broadcast = sync_broadcast;
  dest = tabulate max_universes (λ i. record { ip = 0; wire_universe = i });
  seq = replicate max_universes 1;
  unrouted_drops = 0;
  active_this_frame = replicate max_universes false;
}

unfoldable pub set_dest : ℕ → ArtNetDest → ArtNetRouter → ArtNetRouter
set_dest universe_index d r =
    if leb max_universes universe_index then r else record r { dest = set r.dest universe_index d }

unfoldable pub dest_for : ℕ → ArtNetRouter → ArtNetDest
dest_for universe_index r =
    if leb max_universes universe_index then no_dest else get_or r.dest universe_index no_dest

unfoldable pub resolve_ip : ArtNetDest → ArtNetRouter → ℕ
resolve_ip d r = if not (d.ip == 0) then d.ip else r.fallback_ip

-- `if (++seq_[i] == 0) seq_[i] = 1;`, on a uint8_t
abbrev pub next_sequence : ℕ → ℕ
next_sequence s = let up = (s + 1) % 2 ^ 8 in if up == 0 then 1 else up

unfoldable pub send : ℕ → List ℕ → ℕ → ArtNetRouter → List Datagram × ArtNetRouter
unfolding resolve_ip
send universe_index bytes len r =
    let dest = get_or r.dest universe_index no_dest in
    let ip = resolve_ip dest r in
    let sequence = get_or r.seq universe_index 0 in
    if leb max_universes universe_index
    then ([], r)
    else if ip == 0
    then (
      [],
      record r {
        unrouted_drops = (r.unrouted_drops + 1) % 2 ^ 32;
        active_this_frame = set r.active_this_frame universe_index false;
      },
    )
    else (
      record {
        ip = ip;
        port = r.port;
        bytes = build_art_dmx_packet dest.wire_universe sequence bytes len;
      }
          ∷ [],
      record r {
        seq = set r.seq universe_index (next_sequence sequence);
        active_this_frame = set r.active_this_frame universe_index true;
      },
    )

-- the search in `distinctIps`
abbrev pub contains : ℕ → List ℕ → Bool
contains ip [] = false
contains ip (other ∷ others) = let rest = contains ip others in if other == ip then true else rest

-- `distinctIps`, filled by the loop over the universes
unfoldable pub distinct_ips : ArtNetRouter → List Bool → List ArtNetDest → List ℕ → List ℕ
unfolding resolve_ip
distinct_ips r [] ds ips = ips
distinct_ips r (active ∷ actives) [] ips = ips
distinct_ips r (active ∷ actives) (d ∷ ds) ips =
    let ip = resolve_ip d r in
    distinct_ips r actives ds (
      if not active
      then ips
      else if ip == 0
      then ips
      else if contains ip ips
      then ips
      else ips ++ (ip ∷ []))

abbrev pub sync_to : ArtNetRouter → ℕ → Datagram
sync_to r ip = record { ip = ip; port = r.port; bytes = build_art_sync_packet }

unfoldable pub frame_end : ArtNetRouter → List Datagram × ArtNetRouter
unfolding distinct_ips
frame_end r = if r.sync_broadcast then (sync_to r 0xffffffff ∷ [], r) else (
  map (sync_to r) (distinct_ips r r.active_this_frame r.dest []),
  record r { active_this_frame = replicate max_universes false },
)
