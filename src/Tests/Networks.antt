-- ===== src/Tests/Networks.antt =====
-- A search that goes over two nodes to a third one.
use p2p_demo.Prelude.{◌≡◌, refl, [], ◌∷◌, ◌++◌, arith}
use p2p_demo.Prelude.Maps.{lookup}
use p2p_demo.Outcome.{ok}
use p2p_demo.Wire.{Bytes, int2string}
use p2p_demo.Wire.CString.{codes}
use p2p_demo.Util.Hex.{to_hex}
use p2p_demo.Util.Text.{bytes_eq, contains, to_upper}
use p2p_demo.Packet.OptData
use p2p_demo.Packet.Header.{set_id}
use p2p_demo.Packet.Query.{Query, query_class}
use p2p_demo.Packet.QueryResult
use p2p_demo.Packet.QueryHits.{results_string}
use p2p_demo.Packet.Message.{hexid}
use p2p_demo.Listener.State.{World, note, drew}
use p2p_demo.Prelude.{false}
use p2p_demo.Wire.{u16}
use p2p_demo.Packet.Ping.{Ping, ping_class}
use p2p_demo.Listener.Peers.{has_peer, get_peer_fd, peer_full, max_peer_size, connect_peer}
use p2p_demo.Listener.Commands.{ping_peer}
use p2p_demo.Listener.Network.PingHops.{PassesPing, Welcomes, probe}
use p2p_demo.Listener.Network.Pings.{ping_peer-Found}
use p2p_demo.Listener.History.{is_my_ping, is_my_query, is_stale_message, has_key}
use p2p_demo.Listener.Search.{results_for, matches}
use p2p_demo.Listener.Receive.{handle_peer_msg}
use p2p_demo.Listener.Commands.{query_peer}
use p2p_demo.Listener.Network.Hops.{Sends, question}
use p2p_demo.Listener.Network.Roles.{Relay, Found, Asks, Passes, Answers, results}
use p2p_demo.Listener.Network.{query_peer-Found}
use p2p_demo.Tests.Data.{an_id, listener, peer, world, net}
use p2p_demo.Tests.Nodes.{peers-IsSorted, shared}

abbrev relay : Relay
relay = record { net = net; from = 5; to = 6; world = world }

abbrev asked : Query
asked = question net (codes "ON") an_id world

asks : Asks (codes "ON") an_id
asks = record {
  some_text = λ e. cc;
  no_nul = omega arith;
  text_fits = omega arith;
  id_length = refl;
}

passes : Passes asked 5 6 world
unfolding is_my_query hexid bytes_eq to_hex is_stale_message has_key lookup set_id
passes = record {
  mine = refl;
  stale = refl;
  sorted = peers-IsSorted;
  peer = peer 6;
  linked = refl;
  other = omega arith;
}

answers : Answers asked world
unfolding is_my_query hexid bytes_eq to_hex is_stale_message has_key lookup set_id results_for
    matches contains to_upper results_string QueryResult.to_string OptData.to_string int2string
answers = record {
  mine = refl;
  stale = refl;
  shared = shared;
  ip_fits = omega arith;
  hit = omega arith;
  few = omega arith;
  length_fits = omega arith;
}

network_example :
    (str : Bytes) × (back : Bytes) × (a' : World) × Sends 5 str world
      (query_peer net 5 (codes "ON") an_id world).0
    × Found (relay ∷ relay ∷ []) net 5 world str back
    × (handle_peer_msg net 5 back (query_peer net 5 (codes "ON") an_id world).0 ≡ ok a')
    × (a'.query_result_set ≡ [] ++ results asked world)
network_example =
    query_peer-Found (relay ∷ relay ∷ []) net 5 world net 5 (codes "ON") an_id world asks
      (omega arith) (passes, (passes, tt)) answers

-- A node somewhere else.
abbrev far : World
far = record world { listener = record listener { hostip = 0x0A000009 } }

abbrev sent : Ping
sent = probe net an_id world

passes_ping : PassesPing sent 5 6 world
unfolding is_my_ping hexid to_hex is_stale_message has_key lookup set_id
passes_ping = record {
  mine = refl;
  stale = refl;
  sorted = peers-IsSorted;
  peer = peer 6;
  linked = refl;
  other = omega arith;
}

welcomes : Welcomes sent far
unfolding is_my_ping hexid to_hex is_stale_message has_key lookup set_id peer_full max_peer_size
welcomes = record { mine = refl; stale = refl; no_seed = refl; room = refl; ip_fits = omega arith }

abbrev pinged : World
pinged = (ping_peer net 5 an_id world).0

unknown : has_peer pinged.listener far.hostip (u16 far.conf.neighbor_port) ≡ false
unfolding ping_peer has_peer get_peer_fd
unknown = refl

room : peer_full pinged.listener ≡ false
unfolding ping_peer peer_full max_peer_size
room = refl

ping_example :
    (str : Bytes) × (back : Bytes) × Sends 5 str world pinged
    × Found (relay ∷ relay ∷ []) net 5 far str back
    × (handle_peer_msg net 5 back pinged
        ≡ ok (connect_peer net far.hostip (u16 far.conf.neighbor_port) (note drew pinged)).0)
ping_example =
    ping_peer-Found (relay ∷ relay ∷ []) net 5 far net 5 an_id world refl (omega arith)
      (passes_ping, (passes_ping, tt)) welcomes unknown room
