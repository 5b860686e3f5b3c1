-- ===== src/ArtNet/Tests.antt =====
-- Runs of the router at concrete inputs.
use esp_glow.Prelude.{ℕ, ◌<◌, ◌^◌, ◌≡◌, refl, arith, false, List, [], ◌∷◌, map, replicate}
use esp_glow.ArtNet.Packet.{build_art_dmx_packet, Carries, build_art_dmx_packet_lem}
use esp_glow.ArtNet.Router.{
  ArtNetRouter, Datagram, init, send, frame_end, sync_to, contains, max_universes, resolve_ip,
}
use esp_glow.ArtNet.Router.Sequence.{Routed, init-IsValid, send-Carries}
use esp_glow.ArtNet.Router.Run.{Ran, send_all, send_all-Ran}
use esp_glow.ArtNet.Router.Sync.{Distinct, targeted, frame_end-sync}

build_art_dmx_packet_example :
    Carries 0x1234 7 (1 ∷ 2 ∷ 3 ∷ []) (build_art_dmx_packet 0x1234 7 (1 ∷ 2 ∷ 3 ∷ []) 3)
build_art_dmx_packet_example = build_art_dmx_packet_lem 0x1234 7 (1 ∷ 2 ∷ 3 ∷ []) (omega arith)

-- with no fallback address
abbrev unrouted : ArtNetRouter
unrouted = init 0 6454 false

abbrev with_fallback : ArtNetRouter
with_fallback = init 0x0a000005 6454 false

few_drops : with_fallback.unrouted_drops < 2 ^ 32
unfolding init
few_drops = omega arith

-- two universes, one frame for a universe out of range
abbrev frames : List (ℕ × List ℕ)
frames = (3, 1 ∷ []) ∷ (0, 2 ∷ []) ∷ (9, []) ∷ (3, []) ∷ []

send_all-Ran_example : Ran frames with_fallback (send_all frames with_fallback)
send_all-Ran_example =
    send_all-Ran frames with_fallback (init-IsValid 0x0a000005 6454 false) few_drops

send_all_run : (send_all frames unrouted).1.unrouted_drops ≡ 3
unfolding send_all send init resolve_ip
send_all_run = refl

send-Carries_example :
    Routed 3 (1 ∷ []) with_fallback (send 3 (1 ∷ []) 1 with_fallback)
    × ((d : Datagram) × ((send 3 (1 ∷ []) 1 with_fallback).0 ≡ d ∷ [])
        × (d.ip ≡ 0x0a000005)
        × (d.port ≡ 6454)
        × Carries 3 1 (1 ∷ []) d.bytes)
unfolding init resolve_ip
send-Carries_example =
    send-Carries 3 (1 ∷ []) with_fallback (omega arith) (omega arith)
      (init-IsValid 0x0a000005 6454 false) refl

frame_end-sync_example :
    (ips : List ℕ) × ((frame_end with_fallback).0 ≡ map (sync_to with_fallback) ips)
    × Distinct ips
    × ((ip : ℕ)
        → contains ip ips
          ≡ targeted ip with_fallback with_fallback.active_this_frame with_fallback.dest)
    × ((frame_end with_fallback).1.active_this_frame ≡ replicate max_universes false)
unfolding init
frame_end-sync_example = frame_end-sync with_fallback refl
