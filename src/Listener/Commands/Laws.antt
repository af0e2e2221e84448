-- ===== src/Listener/Commands/Laws.antt =====
-- What the node's own pings and searches leave behind.
use p2p_demo.Prelude.{ℕ, ◌≡◌, refl, ◌∙◌, ◌⊎◌, inl, inr, true, false, [], ◌∷◌, map, take, arith}
use p2p_demo.Prelude.Maps.{insert}
use p2p_demo.Wire.{Bytes, u16}
use p2p_demo.Util.Hex.{to_hex}
use p2p_demo.Util.Text.{bytes_eq_refl}
use p2p_demo.Packet.Header.{Packet, id_size, set_id, new_id}
use p2p_demo.Packet.Ping.{Ping}
use p2p_demo.Packet.Pong.{Pong}
use p2p_demo.Packet.Query.{Query}
use p2p_demo.Packet.QueryHits.{QueryHits}
use p2p_demo.Packet.Message.{hexid}
use p2p_demo.Listener.State.{World, Net, Peers, PeerInfo, drew, draws, note, bytes_key}
use p2p_demo.Listener.Peers.{has_peer, peer_full, connect_peer, erase_peer}
use p2p_demo.Listener.History.{is_my_ping, is_my_query}
use p2p_demo.Listener.History.Laws.{has_key-insert}
use p2p_demo.Listener.Search.{results_for, save_query_result}
use p2p_demo.Listener.Search
use p2p_demo.Listener.Routing.{handle_ping, handle_pong, handle_query, handle_query_hits}
use p2p_demo.Listener.Routing.Seen.{handle_ping_dropped, handle_query_dropped}
use p2p_demo.Listener.Commands.{
  drop_peer, ping_peer, query_peer, query_each, query_peers, query_local, com_search,
}

pub peers_or_none : (ps : Peers) → (ps ≡ []) ⊎ ((p : ℕ × PeerInfo) × (qs : Peers) × (ps ≡ p ∷ qs))
peers_or_none [] = inl refl
peers_or_none (p ∷ ps) = inr (p, ps, refl)

module _ (net : Net) (fd : ℕ) (id : Bytes) (w : World) where
  -- The record is made whether the write succeeds or not.
  my_ping_hist-ping_peer :
      (ping_peer net fd id w).0.my_ping_hist
      ≡ insert
          (to_hex true (take id_size (take id_size id)))
          (record {
            key = to_hex true (take id_size (take id_size id));
            sockfd = fd;
            ts = net.now (drew ∷ w.trace);
          })
          w.my_ping_hist
  unfolding ping_peer drop_peer erase_peer hexid set_id
  my_ping_hist-ping_peer = ground arith

  pub is_my_ping-ping_peer :
      (p : Packet) → p.id ≡ take id_size id → is_my_ping (ping_peer net fd id w).0.listener p ≡ true
  unfolding is_my_ping hexid
  is_my_ping-ping_peer p e = rw (
    my_ping_hist-ping_peer,
    e,
    has_key-insert (to_hex true (take id_size (take id_size id)))
        (to_hex true (take id_size (take id_size id))) _ w.my_ping_hist,
    bytes_eq_refl (to_hex true (take id_size (take id_size id))),
  )

  -- After `ping_peer` with some id, whether its write succeeded or not, a Ping with that id is
  -- dropped, from whatever socket it comes: nothing changes and nothing is sent.
  own_ping_dropped :
      (fd' : ℕ) (m : Ping)
      → m.packet.id ≡ take id_size id
      → handle_ping net fd' m (ping_peer net fd id w).0 ≡ (ping_peer net fd id w).0
  own_ping_dropped fd' m e =
      handle_ping_dropped net fd' m (ping_peer net fd id w).0
        (inl (is_my_ping-ping_peer m.packet e))

  -- After `ping_peer` with some id, a Pong with that id from an address that is no peer makes the
  -- node connect to that address, where the table of peers is not full.
  own_pong_connects :
      (fd' : ℕ) (p : Pong)
      → p.packet.id ≡ take id_size id
      → has_peer (ping_peer net fd id w).0.listener p.ip p.port ≡ false
      → peer_full (ping_peer net fd id w).0.listener ≡ false
      → handle_pong net fd' p (ping_peer net fd id w).0
        ≡ (connect_peer net p.ip p.port (ping_peer net fd id w).0).0
  unfolding handle_pong
  own_pong_connects fd' p e new open_place =
      rw (handle_pong, is_my_ping-ping_peer p.packet e, new, open_place)

module _ (net : Net) (fd : ℕ) (keyword id : Bytes) (w : World) where
  my_query_hexid-query_peer :
      (query_peer net fd keyword id w).0.my_query_hexid
      ≡ to_hex true (take id_size (take id_size id))
  unfolding query_peer drop_peer erase_peer hexid set_id
  my_query_hexid-query_peer = ground arith

  pub is_my_query-query_peer :
      (p : Packet)
      → p.id ≡ take id_size id
      → is_my_query (query_peer net fd keyword id w).0.listener p ≡ true
  unfolding is_my_query hexid
  is_my_query-query_peer p e =
      rw (my_query_hexid-query_peer, e)
        (bytes_eq_refl (to_hex true (take id_size (take id_size id))))

  -- After `query_peer` with some id, whether its write succeeded or not, a Query with that id is
  -- dropped, from whatever socket it comes.
  pub own_query_dropped :
      (fd' : ℕ) (m : Query)
      → m.packet.id ≡ take id_size id
      → handle_query net fd' m (query_peer net fd keyword id w).0
        ≡ (query_peer net fd keyword id w).0
  own_query_dropped fd' m e =
      handle_query_dropped net fd' m (query_peer net fd keyword id w).0
        (inl (is_my_query-query_peer m.packet e))

  -- After `query_peer` with some id, the results of a QueryHits with that id are added to the
  -- result set, and the message goes no further.
  pub own_hits_saved :
      (fd' : ℕ) (p : QueryHits)
      → p.packet.id ≡ take id_size id
      → handle_query_hits net fd' p (query_peer net fd keyword id w).0
        ≡ save_query_result p (query_peer net fd keyword id w).0
  unfolding handle_query_hits
  own_hits_saved fd' p e = rw (handle_query_hits, is_my_query-query_peer p.packet e)

module _ (net : Net) (keyword : Bytes) where
  query_result_set-query_each :
      (id : Bytes) (ps : Peers) (w : World)
      → (query_each net keyword id ps w).query_result_set ≡ w.query_result_set
  unfolding query_each query_peer drop_peer erase_peer
  query_result_set-query_each id [] w = refl
  query_result_set-query_each id ((fd, p) ∷ ps) w =
      query_result_set-query_each id ps (query_peer net fd keyword id w).0 ∙ ground arith

  query_result_set-query_peers :
      (w : World) → (query_peers net keyword w).query_result_set ≡ w.query_result_set
  unfolding query_peers
  query_result_set-query_peers w =
      query_result_set-query_each (new_id (draws net w)) w.peers (note drew w)

  -- The node as the search of the local files finds it.
  abbrev pub cleared : World → World
  cleared w = record w {
    listener = record (w.listener) {
      my_query_hexid = [];
      my_query_keyword = keyword;
      query_result_set = [];
    };
  }

  -- After `com_search` the result set holds the matching local files under the address and the
  -- file port of the node, and nothing of an earlier search, whether there are peers to ask or
  -- not.
  pub com_search-query_result_set :
      (w : World)
      → (com_search net keyword w).query_result_set
        ≡ map
            (λ r. record { ip = w.hostip; port = u16 w.conf.file_port; qr = r })
            (results_for keyword w.local_files)
  unfolding com_search query_local Search.query save_query_result
  com_search-query_result_set w = elim (peers_or_none w.peers) [
    | inl e ↦ rw (com_search, e)
    | inr (p, ps, e) ↦
        rw (com_search, e) (query_result_set-query_peers (query_local net keyword (cleared w)).0)
  ]
