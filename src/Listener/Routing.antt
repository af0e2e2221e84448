-- ===== src/Listener/Routing.antt =====
-- What a node does with a Ping, a Pong, a Query and a QueryHits: answer, forward or drop.
pub mod Flood
pub mod Seen
pub mod Pings
pub mod Queries
use p2p_demo.Prelude.{
  ℕ, ◌+◌, ◌-◌, ◌<◌, Bool, true, false, not, ◌&&◌, List, [], ◌∷◌, Option, none, some, ltb, ◌==◌,
  if◌then◌else◌,
}
use p2p_demo.Prelude.Maps.{lookup}
use p2p_demo.Wire.{Bytes, u8, u16}
use p2p_demo.Packet.Header.{Packet, to_string, set_id}
use p2p_demo.Packet.Ping.{Ping, ping_class}
use p2p_demo.Packet.Pong.{Pong, pong_class, new_pong}
use p2p_demo.Packet.Query.{Query, query_class}
use p2p_demo.Packet.QueryHits.{QueryHits, hits_class, new_query_hits}
use p2p_demo.Packet.Message.{Message, ping, pong, query, query_hits, base, text, hexid}
use p2p_demo.Listener.State.{Listener, World, Net, Peers, note, wrote, drew, draws, bytes_key}
use p2p_demo.Listener.Peers.{peer_full, has_peer, connect_peer}
use p2p_demo.Listener.History.{is_stale_message, save_msg_hist, is_my_ping, is_my_query}
use p2p_demo.Listener.Search
use p2p_demo.Listener.Search.{save_query_result}

-- A failed write is only logged here.
abbrev pub send : ℕ → Bytes → World → World
send fd str w = note (wrote fd str) w

unfoldable pub forward_message_single : Message → ℕ → World → World
forward_message_single msg sockfd w = send sockfd (text msg) w

-- The loop of `forward_message` over the peers.
unfoldable pub forward_to : Message → ℕ → Peers → World → World
unfolding forward_message_single
forward_to msg src [] w = w
forward_to msg src ((fd, p) ∷ ps) w =
    forward_to msg src ps (if fd == src then w else forward_message_single msg fd w)

unfoldable pub forward_message : Message → ℕ → World → World
unfolding forward_to
forward_message msg src w = forward_to msg src w.peers w

-- `if (msg.ttl > 0) forward_message(msg, sockfd);`
unfoldable pub pass_on : Message → ℕ → World → World
pass_on msg src w = if ltb 0 (base msg).ttl then forward_message msg src w else w

-- `msg.ttl = max(0, msg.ttl - 1)` and `msg.hops = msg.hops + 1`, in an `unsigned char`.
abbrev pub age : Packet → Packet
age p = record p { ttl = p.ttl - 1; hops = u8 (p.hops + 1) }

module _ (net : Net) where
  unfoldable pub reply_ping : ℕ → Ping → World → World
  reply_ping sockfd m w =
      let msg = set_id (new_pong (draws net w)) m.packet.id in
      let reply : Pong = record msg {
        packet = record (msg.packet) { ttl = u8 w.conf.ttl };
        ip = w.hostip;
        port = u16 w.conf.neighbor_port;
      } in
      send sockfd (to_string reply).1 (note drew w)

  -- A seed node does not answer, and neither does a node with enough peers.
  unfoldable pub answer_ping : ℕ → Ping → World → World
  answer_ping sockfd m w =
      if w.conf.is_seed_node == 0 && not (peer_full w.listener) then reply_ping sockfd m w else w

  unfoldable pub handle_ping : ℕ → Ping → World → World
  handle_ping sockfd m w =
      let aged : Ping = record m { packet = age m.packet } in
      if is_my_ping w.listener m.packet
      then w
      else if is_stale_message w.listener (ping m)
      then w
      else pass_on (ping aged) sockfd
          (answer_ping sockfd aged (save_msg_hist net sockfd (ping aged) w))

  unfoldable pub handle_pong : ℕ → Pong → World → World
  handle_pong sockfd m w =
      if is_my_ping w.listener m.packet
      then (if has_peer w.listener m.ip m.port
          then w
          else if peer_full w.listener
          then w
          else (connect_peer net m.ip m.port w).0)
      else elim (lookup (hexid m.packet) w.ping_hist) [
        | none ↦ w
        | some info ↦ forward_message_single (pong m) info.sockfd w
      ]

  answer_query : ℕ → Query → QueryHits → World → World
  answer_query sockfd q msg w = elim msg.result_set [
    | [] ↦ w
    | r ∷ rs ↦ send sockfd (to_string (set_id msg q.packet.id)).1 w
  ]

  unfoldable pub reply_query : ℕ → Query → World → World
  unfolding answer_query
  reply_query sockfd q w =
      let msg = Search.query w.listener q.criteria (new_query_hits (draws net w)) in
      answer_query sockfd q msg (note drew w)

  unfoldable pub handle_query : ℕ → Query → World → World
  handle_query sockfd m w =
      let aged : Query = record m { packet = age m.packet } in
      if is_my_query w.listener m.packet
      then w
      else if is_stale_message w.listener (query m)
      then w
      else pass_on (query aged) sockfd
          (reply_query sockfd aged (save_msg_hist net sockfd (query aged) w))

  unfoldable pub handle_query_hits : ℕ → QueryHits → World → World
  handle_query_hits sockfd m w =
      if is_my_query w.listener m.packet
      then save_query_result m w
      else elim (lookup (hexid m.packet) w.query_hist) [
        | none ↦ w
        | some info ↦ forward_message_single (query_hits m) info.sockfd w
      ]
