-- ===== src/ArtNet/Discovery/Tests.antt =====
-- Runs of the discovery.
use esp_glow.Prelude.{
  ℕ, ◌≤◌, ◌≡◌, refl, arith, ◌&&◌, ◌||◌, some, List, [], ◌∷◌, ◌++◌, if◌then◌else◌, ◌==◌, ltb, length,
  replicate,
}
use esp_glow.Prelude.Float.{milli}
use esp_glow.Prelude.Outcome.{ok, read}
use esp_glow.Fixture.Apply.{is_some}
use esp_glow.ArtNet.Discovery.{
  ArtNetPollReply, ArtNetDiscovery, node_of, no_node, fresh, on_reply, expire, parse_art_poll_reply,
}
use esp_glow.ArtNet.Discovery.Table.{keep, live, expire-keep}
use esp_glow.ArtNet.Discovery.Lookup.{lookup, on_reply-lookup}

abbrev reply_of : ℕ → ArtNetPollReply
reply_of ip = record {
  ip = ip;
  short_name = 110 ∷ [];
  long_name = [];
  net_switch = 0;
  sub_switch = 1;
  wire_universe = 16 ∷ 17 ∷ [];
}

-- two nodes, seen at 1 s and at 9 s, with a timeout of 5 s
abbrev two_nodes : ArtNetDiscovery ℕ
two_nodes = record {
  nodes =
      node_of (reply_of 7) 1000 ∷ node_of (reply_of 8) 9000 ∷ replicate 14 (no_node ⦃fl = milli⦄);
  count = 2;
  timeout_sec = 5000;
}

-- at 10 s the second alone is left, moved to the front
expire-keep_example :
    (live (expire ⦃fl = milli⦄ two_nodes 10000)
      ≡ keep (fresh ⦃fl = milli⦄ 5000 10000) (live two_nodes))
    × (length (expire ⦃fl = milli⦄ two_nodes 10000).nodes ≡ length two_nodes.nodes)
    × ((expire ⦃fl = milli⦄ two_nodes 10000).count ≤ 2)
expire-keep_example = expire-keep ⦃fl = milli⦄ two_nodes 10000 (omega arith)

one_left : live (expire ⦃fl = milli⦄ two_nodes 10000) ≡ node_of (reply_of 8) 9000 ∷ []
unfolding expire
one_left = refl

on_reply-lookup_example : lookup 8 (live (on_reply two_nodes (reply_of 8) 9500)) ≡ (
    if 8 == 8 && (is_some (lookup 8 (live two_nodes)) || ltb 2 16)
    then some (node_of (reply_of 8) 9500)
    else lookup 8 (live two_nodes))
on_reply-lookup_example = on_reply-lookup two_nodes (reply_of 8) 9500 8 (omega arith) (omega arith)

abbrev reply_packet : List ℕ
reply_packet =
    (65 ∷ 114 ∷ 116 ∷ 45 ∷ 78 ∷ 101 ∷ 116 ∷ 0 ∷ 0 ∷ 0x21 ∷ 10 ∷ 0 ∷ 0 ∷ 9 ∷ replicate 4 0)
    ++ (1 ∷ 2 ∷ replicate 6 0)
    ++ (110 ∷ replicate 146 0)
    ++ (1 ∷ replicate 16 0)
    ++ (5 ∷ 0 ∷ 0 ∷ 0 ∷ [])

reply_packet_run :
    parse_art_poll_reply reply_packet
    ≡ ok (record {
      ip = 0x0a000009;
      short_name = 110 ∷ [];
      long_name = [];
      net_switch = 1;
      sub_switch = 2;
      wire_universe = 0x0125 ∷ [];
    })
unfolding parse_art_poll_reply read
reply_packet_run = refl
