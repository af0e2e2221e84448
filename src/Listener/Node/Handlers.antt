-- ===== src/Listener/Node/Handlers.antt =====
-- What the node does with a message keeps its invariant.
use p2p_demo.Prelude.{ℕ, ◌<◌, ◌≡◌, refl, inl, inr, false, length, arith, Option-cases, Bool-cases}
use p2p_demo.Prelude.Maps.{lookup}
use p2p_demo.Wire.{Bytes}
use p2p_demo.Packet.Ping.{Ping}
use p2p_demo.Packet.Pong.{Pong}
use p2p_demo.Packet.Query.{Query}
use p2p_demo.Packet.QueryHits.{QueryHits}
use p2p_demo.Packet.Message.{Message, ping, pong, query, query_hits, hexid}
use p2p_demo.Listener.State.{World, Net, bytes_key, note, drew}
use p2p_demo.Listener.Peers.{has_peer, peer_full, max_peer_size}
use p2p_demo.Listener.Peers.Invariant.{GivesFresh}
use p2p_demo.Listener.History.{save_msg_hist, is_my_ping, is_my_query, is_stale_message}
use p2p_demo.Listener.Search.{save_query_result}
use p2p_demo.Listener.Routing.{
  handle_ping, handle_pong, handle_query, handle_query_hits, forward_message_single,
}
use p2p_demo.Listener.Routing.Seen.{handle_ping_dropped, handle_query_dropped}
use p2p_demo.Listener.Routing.Pings.{handle_ping-listener, aged_ping}
use p2p_demo.Listener.Routing.Queries.{handle_query-listener, aged_query}
use p2p_demo.Listener.Receive.{handle_peer_msg}
use p2p_demo.Listener.Receive.Safety.{Returns, handle_peer_msg-Returns}
use p2p_demo.Listener.Node.{Promise, IsNode, Same, Same-IsNode, connect_peer-IsNode}

save_msg_hist-Same :
    (net : Net) (fd : ℕ) (m : Message) (w : World)
    → Same (save_msg_hist net fd m w).listener w.listener
unfolding save_msg_hist
save_msg_hist-Same net fd (ping m) w = record {
  neighborfd = refl;
  filefd = refl;
  fdset = refl;
  maxfd = refl;
  peers = refl;
  conf = refl;
  seed_nodes = refl;
}
save_msg_hist-Same net fd (pong m) w = record {
  neighborfd = refl;
  filefd = refl;
  fdset = refl;
  maxfd = refl;
  peers = refl;
  conf = refl;
  seed_nodes = refl;
}
save_msg_hist-Same net fd (query m) w = record {
  neighborfd = refl;
  filefd = refl;
  fdset = refl;
  maxfd = refl;
  peers = refl;
  conf = refl;
  seed_nodes = refl;
}
save_msg_hist-Same net fd (query_hits m) w = record {
  neighborfd = refl;
  filefd = refl;
  fdset = refl;
  maxfd = refl;
  peers = refl;
  conf = refl;
  seed_nodes = refl;
}

save_query_result-Same :
    (m : QueryHits) (w : World) → Same (save_query_result m w).listener w.listener
unfolding save_query_result
save_query_result-Same m w = record {
  neighborfd = refl;
  filefd = refl;
  fdset = refl;
  maxfd = refl;
  peers = refl;
  conf = refl;
  seed_nodes = refl;
}

module _ (B : Promise) (n f : ℕ) (net : Net) (fd : ℕ) (w : World)
    (v : IsNode B n f w.listener) where
  save_msg_hist-IsNode : (m : Message) → IsNode B n f (save_msg_hist net fd m w).listener
  save_msg_hist-IsNode m = Same-IsNode B n f _ w.listener (save_msg_hist-Same net fd m w) v

  handle_ping-IsNode : (m : Ping) → IsNode B n f (handle_ping net fd m w).listener
  handle_ping-IsNode m = elim (Bool-cases (is_my_ping w.listener m.packet)) [
    | inl mine ↦ rw (handle_ping_dropped net fd m w (inl mine)) v
    | inr other ↦ elim (Bool-cases (is_stale_message w.listener (ping m))) [
      | inl stale ↦ rw (handle_ping_dropped net fd m w (inr stale)) v
      | inr fresh ↦
          rw (handle_ping-listener net fd m w other fresh)
            (save_msg_hist-IsNode (ping (aged_ping net fd m w)))
    ]
  ]

  handle_query-IsNode : (m : Query) → IsNode B n f (handle_query net fd m w).listener
  handle_query-IsNode m = elim (Bool-cases (is_my_query w.listener m.packet)) [
    | inl mine ↦ rw (handle_query_dropped net fd m w (inl mine)) v
    | inr other ↦ elim (Bool-cases (is_stale_message w.listener (query m))) [
      | inl stale ↦ rw (handle_query_dropped net fd m w (inr stale)) v
      | inr fresh ↦
          rw (handle_query-listener net fd m w other fresh)
            (save_msg_hist-IsNode (query (aged_query net fd m w)))
    ]
  ]

  handle_query_hits-IsNode : (m : QueryHits) → IsNode B n f (handle_query_hits net fd m w).listener
  unfolding handle_query_hits forward_message_single
  handle_query_hits-IsNode m = elim (Bool-cases (is_my_query w.listener m.packet)) [
    | inl mine ↦
        rw (handle_query_hits, mine) (Same-IsNode B n f _ w.listener (save_query_result-Same m w) v)
    | inr other ↦ elim (Option-cases (lookup (hexid m.packet) w.query_hist)) [
      | inl e ↦ rw (handle_query_hits, other, e) v
      | inr (info, e) ↦ rw (handle_query_hits, other, e) v
    ]
  ]

  room : peer_full w.listener ≡ false → length w.peers < max_peer_size w.conf
  unfolding peer_full
  room h = ground arith

  handle_pong-IsNode :
      GivesFresh n f net → (m : Pong) → IsNode B n f (handle_pong net fd m w).listener
  unfolding handle_pong forward_message_single
  handle_pong-IsNode g m = elim (Bool-cases (is_my_ping w.listener m.packet)) [
    | inl mine ↦ elim (Bool-cases (has_peer w.listener m.ip m.port)) [
      | inl old ↦ rw (handle_pong, mine, old) v
      | inr new ↦ elim (Bool-cases (peer_full w.listener)) [
        | inl full ↦ rw (handle_pong, mine, new, full) v
        | inr open_place ↦
            rw (handle_pong, mine, new, open_place)
              (connect_peer-IsNode B n f w v net g m.ip m.port (λ _. room open_place))
      ]
    ]
    | inr other ↦ elim (Option-cases (lookup (hexid m.packet) w.ping_hist)) [
      | inl e ↦ rw (handle_pong, other, e) v
      | inr (info, e) ↦ rw (handle_pong, other, e) v
    ]
  ]

-- In a node that keeps its invariant, on a system that hands out no listening socket again,
-- `handle_peer_msg` returns on every text, with the invariant kept.
pub handle_peer_msg-IsNode :
    (B : Promise) (n f : ℕ) (net : Net) (fd : ℕ) (w : World)
    → GivesFresh n f net
    → IsNode B n f w.listener
    → (msg : Bytes) → Returns (λ w'. IsNode B n f w'.listener) (handle_peer_msg net fd msg w)
handle_peer_msg-IsNode B n f net fd w g v msg =
    handle_peer_msg-Returns (λ w'. IsNode B n f w'.listener) net fd w v v
      (handle_ping-IsNode B n f net fd (note drew w) v)
      (handle_pong-IsNode B n f net fd (note drew w) v g)
      (handle_query-IsNode B n f net fd (note drew w) v)
      (handle_query_hits-IsNode B n f net fd (note drew w) v) msg
