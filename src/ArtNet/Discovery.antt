-- ===== src/ArtNet/Discovery.antt =====
-- artnet_discovery.cpp: replies to ArtPoll, the table of the nodes that sent them, and the addresses that the
-- table gives to universes without a route. The packet is the list of its bytes, and reading behind it a fault.
pub mod Table
pub mod Lookup
mod Tests
use esp_glow.Prelude.{
  ℕ, zero, suc, ◌+◌, ◌-◌, ◌*◌, ◌/◌, ◌^◌, Bool, true, false, not, ◌&&◌, Option, none, some, List, [],
  ◌∷◌, ◌++◌, if◌then◌else◌, ltb, leb, ◌==◌, length, get_or, set, take, drop, replicate, bit_and,
  bit_or,
}
use esp_glow.Prelude.Float.{FloatOps}
use esp_glow.Prelude.Outcome.{Outcome, ok, reject, fault, ◌>>=◌, ◌>>◌, require, read}
use esp_glow.ArtNet.Router.{ArtNetDest, max_universes}

abbrev pub artnet_op_poll : ℕ
artnet_op_poll = 0x2000

abbrev pub artnet_op_poll_reply : ℕ
artnet_op_poll_reply = 0x2100

abbrev pub artnet_poll_reply_min_len : ℕ
artnet_poll_reply_min_len = 194

abbrev pub artnet_max_reply_ports : ℕ
artnet_max_reply_ports = 4

abbrev pub max_nodes : ℕ
max_nodes = 16

-- A name is its bytes in front of the NUL; the ports' universes are the first `portCount` of the array.
pub record ArtNetPollReply : Type 0 where
  pub ip : ℕ
  pub short_name : List ℕ
  pub long_name : List ℕ
  pub net_switch : ℕ
  pub sub_switch : ℕ
  pub wire_universe : List ℕ

pub record DiscoveredNode (F : Type 0) : Type 0 where
  pub ip : ℕ
  pub short_name : List ℕ
  pub long_name : List ℕ
  pub wire_universe : List ℕ
  pub last_seen_sec : F

-- `copyFixedField` of the `n` bytes from `at` on: it stops at the first NUL.
unfoldable pub copy_fixed_field : List ℕ → ℕ → ℕ → Outcome (List ℕ)
copy_fixed_field bytes at zero = ok []
copy_fixed_field bytes at (suc n) = do
  b ← read bytes at
  rest ← copy_fixed_field bytes (at + 1) n
  ok (if b == 0 then [] else b ∷ rest)

-- `SwOut[i]` at 190 + i with the net and the sub-net, for the `n` ports from `i` on
unfoldable pub read_ports : List ℕ → ℕ → ℕ → ℕ → ℕ → Outcome (List ℕ)
read_ports bytes net sub i zero = ok []
read_ports bytes net sub i (suc n) = do
  b ← read bytes (190 + i)
  rest ← read_ports bytes net sub (i + 1) n
  ok (bit_or (bit_or (net * 2 ^ 8) (sub * 2 ^ 4)) (bit_and b 0x0f) ∷ rest)

unfoldable pub parse_art_poll_reply : List ℕ → Outcome ArtNetPollReply
unfolding copy_fixed_field read_ports
parse_art_poll_reply bytes = do
  require (not (ltb (length bytes) artnet_poll_reply_min_len))
  m0 ← read bytes 0
  m1 ← read bytes 1
  m2 ← read bytes 2
  m3 ← read bytes 3
  m4 ← read bytes 4
  m5 ← read bytes 5
  m6 ← read bytes 6
  m7 ← read bytes 7
  require (
      m0 == 65
      && m1 == 114
      && m2 == 116
      && m3 == 45
      && m4 == 78
      && m5 == 101
      && m6 == 116
      && m7 == 0)
  op_low ← read bytes 8
  op_high ← read bytes 9
  require (bit_or op_low (op_high * 2 ^ 8) == artnet_op_poll_reply)
  i0 ← read bytes 10
  i1 ← read bytes 11
  i2 ← read bytes 12
  i3 ← read bytes 13
  net ← read bytes 18
  sub ← read bytes 19
  short_name ← copy_fixed_field bytes 26 18
  long_name ← copy_fixed_field bytes 44 64
  ports ← read bytes 173
  require (not (ltb artnet_max_reply_ports ports))
  universes ← read_ports bytes (bit_and net 0x7f) (bit_and sub 0x0f) 0 ports
  ok (record {
    ip = bit_or (bit_or (bit_or (i0 * 2 ^ 24) (i1 * 2 ^ 16)) (i2 * 2 ^ 8)) i3;
    short_name = short_name;
    long_name = long_name;
    net_switch = bit_and net 0x7f;
    sub_switch = bit_and sub 0x0f;
    wire_universe = universes;
  })

-- `buildArtPollPacket`
abbrev pub build_art_poll_packet : List ℕ
build_art_poll_packet =
    65
    ∷ 114
    ∷ 116
    ∷ 45
    ∷ 78
    ∷ 101
    ∷ 116
    ∷ 0
    ∷ bit_and artnet_op_poll 0xff
    ∷ bit_and (artnet_op_poll / 2 ^ 8) 0xff
    ∷ 0
    ∷ 14
    ∷ 0
    ∷ 0
    ∷ []

-- `nodes` is the whole array, of which the first `count` are in use.
pub record ArtNetDiscovery (F : Type 0) : Type 0 where
  pub nodes : List (DiscoveredNode F)
  pub count : ℕ
  pub timeout_sec : F

-- the node that a reply describes
abbrev pub node_of : {F : Type 0} → ArtNetPollReply → F → DiscoveredNode F
node_of reply now = record {
  ip = reply.ip;
  short_name = reply.short_name;
  long_name = reply.long_name;
  wire_universe = reply.wire_universe;
  last_seen_sec = now;
}

-- `nodes_[i]`: the index is below `count`, and so inside the array
abbrev pub entry : {F : Type 0} → DiscoveredNode F → List (DiscoveredNode F) → ℕ → DiscoveredNode F
entry blank nodes i = get_or nodes i blank

abbrev pub after_one : Option ℕ → Option ℕ
after_one none = none
after_one (some i) = some (suc i)

-- the index of the first of the `count` nodes with the address
unfoldable pub index_of : {F : Type 0} → ℕ → ℕ → List (DiscoveredNode F) → Option ℕ
index_of ip zero nodes = none
index_of ip (suc count) [] = none
index_of ip (suc count) (n ∷ nodes) =
    let rest = index_of ip count nodes in if n.ip == ip then some 0 else after_one rest

unfoldable pub on_reply : {F : Type 0} → ArtNetDiscovery F → ArtNetPollReply → F → ArtNetDiscovery F
unfolding index_of
on_reply d reply now = elim (index_of reply.ip d.count d.nodes) [
  | some i ↦ record d { nodes = set d.nodes i (node_of reply now) }
  | none ↦
      if leb max_nodes d.count
      then d
      else record d { nodes = set d.nodes d.count (node_of reply now); count = d.count + 1 }
]

-- the first of the `count` nodes that has a port on the universe
abbrev pub has_port : ℕ → List ℕ → Bool
has_port wire [] = false
has_port wire (p ∷ ports) = let rest = has_port wire ports in if p == wire then true else rest

unfoldable pub find_by_wire_universe :
    {F : Type 0} → ℕ → ℕ → List (DiscoveredNode F) → Option (DiscoveredNode F)
find_by_wire_universe wire zero nodes = none
find_by_wire_universe wire (suc count) [] = none
find_by_wire_universe wire (suc count) (n ∷ nodes) =
    let rest = find_by_wire_universe wire count nodes in
    if has_port wire n.wire_universe then some n else rest

-- one round of `resolveDiscoveredDests`
abbrev pub resolve_dest : {F : Type 0} → ArtNetDiscovery F → ArtNetDest → ArtNetDest
resolve_dest d dest =
    if not (dest.ip == 0)
    then dest
    else elim (find_by_wire_universe dest.wire_universe d.count d.nodes) [
      | none ↦ record dest { ip = 0 }
      | some n ↦ record dest { ip = n.ip }
    ]

module _ {F : Type 0} ⦃fl : FloatOps F⦄ where
  -- `nowSec - nodes_[r].lastSeenSec <= timeoutSec_`
  abbrev pub fresh : F → F → DiscoveredNode F → Bool
  fresh timeout now n = fl.less_eq (fl.sub now n.last_seen_sec) timeout

  -- the loop of `expire`, with `left` nodes from `r` on; the result is the array and the new count
  unfoldable pub compact :
      DiscoveredNode F → F → F → ℕ → ℕ → ℕ → List (DiscoveredNode F) → List (DiscoveredNode F) × ℕ
  compact blank timeout now zero r w nodes = (nodes, w)
  compact blank timeout now (suc left) r w nodes =
      let n = entry blank nodes r in
      let moved = if not (w == r) then set nodes w n else nodes in
      let kept = compact blank timeout now left (r + 1) (w + 1) moved in
      let dropped = compact blank timeout now left (r + 1) w nodes in
      if fresh timeout now n then kept else dropped

  -- the value-initialised `DiscoveredNode{}`
  abbrev pub no_node : DiscoveredNode F
  no_node = record {
    ip = 0;
    short_name = [];
    long_name = [];
    wire_universe = [];
    last_seen_sec = fl.of_nat 0;
  }

  abbrev pub new_discovery : F → ArtNetDiscovery F
  new_discovery timeout = record {
    nodes = replicate max_nodes no_node;
    count = 0;
    timeout_sec = timeout;
  }

  unfoldable pub expire : ArtNetDiscovery F → F → ArtNetDiscovery F
  unfolding compact
  expire d now =
      let r = compact no_node d.timeout_sec now d.count 0 0 d.nodes in
      record d { nodes = r.0; count = r.1 }
