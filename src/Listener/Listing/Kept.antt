-- ===== src/Listener/Listing/Kept.antt =====
-- What the node does by itself or on a command leaves names that a listing can show.
use p2p_demo.Prelude.{ℕ, ◌≡◌, refl, ap, ◌∙◌, inl, inr, List, [], ◌∷◌, map, All, Bool-cases, arith}
use p2p_demo.Wire.{Bytes, u16}
use p2p_demo.Packet.Header.{new_id}
use p2p_demo.Listener.State.{
  Listener, FileInfo, QueryResultInfo, World, Net, Peers, draws, note, drew,
}
use p2p_demo.Listener.Peers.{has_peer, peer_full, connect_peer, erase_peer, add_peer}
use p2p_demo.Listener.Search.{matches, results_for, save_query_result}
use p2p_demo.Listener.Commands.{
  ping_peer, ping_each, ping_peers, drop_peer, query_peer, query_each, query_peers, query_local,
  com_search, com_ping, com_connect,
}
use p2p_demo.Listener.Commands.Laws.{peers_or_none, cleared, com_search-query_result_set}
use p2p_demo.Listener.Listing.Laws.{IsShort, IsListable}

-- What a listing shows names of.
abbrev listed : Listener → List FileInfo × List QueryResultInfo
listed l = (l.local_files, l.query_result_set)

listed-IsListable : (l k : Listener) → listed l ≡ listed k → IsListable k → IsListable l
listed-IsListable l k e h = record {
  files = rw (ap (λ (p : List FileInfo × List QueryResultInfo). p.0) e) h.files;
  results = rw (ap (λ (p : List FileInfo × List QueryResultInfo). p.1) e) h.results;
}

module _ (net : Net) where
  connect_peer-listed :
      (ip port : ℕ) (w : World) → listed (connect_peer net ip port w).0.listener ≡ listed w.listener
  unfolding connect_peer add_peer
  connect_peer-listed ip port w = ground arith

  ping_each-listed :
      (id : Bytes) (ps : Peers) (w : World)
      → listed (ping_each net id ps w).listener ≡ listed w.listener
  unfolding ping_each ping_peer drop_peer erase_peer
  ping_each-listed id [] w = refl
  ping_each-listed id ((fd, p) ∷ ps) w =
      ping_each-listed id ps (ping_peer net fd id w).0 ∙ ground arith

  ping_peers-listed : (w : World) → listed (ping_peers net w).listener ≡ listed w.listener
  unfolding ping_peers
  ping_peers-listed w = ping_each-listed (new_id (draws net w)) w.peers (note drew w)

  com_ping-listed : (w : World) → listed (com_ping net w).listener ≡ listed w.listener
  unfolding com_ping
  com_ping-listed w = elim (peers_or_none w.peers) [
    | inl e ↦ rw (com_ping, e) refl
    | inr (p, ps, e) ↦ elim (Bool-cases (peer_full w.listener)) [
      | inl full ↦ rw (com_ping, e, full) refl
      | inr room ↦ rw (com_ping, e, room) (ping_peers-listed w)
    ]
  ]

  pub com_ping-IsListable :
      (w : World) → IsListable w.listener → IsListable (com_ping net w).listener
  com_ping-IsListable w h = listed-IsListable _ w.listener (com_ping-listed w) h

  pub com_connect-IsListable :
      (ip port : ℕ) (w : World)
      → IsListable w.listener
      → IsListable (com_connect net ip port w).0.listener
  unfolding com_connect
  com_connect-IsListable ip port w h = elim (Bool-cases (has_peer w.listener ip (u16 port))) [
    | inl old ↦ rw (com_connect, old) h
    | inr new ↦
        rw (com_connect, new)
          (listed-IsListable _ w.listener (connect_peer-listed ip (u16 port) w) h)
  ]

  query_each-files :
      (keyword id : Bytes) (ps : Peers) (w : World)
      → (query_each net keyword id ps w).local_files ≡ w.local_files
  unfolding query_each query_peer drop_peer erase_peer
  query_each-files keyword id [] w = refl
  query_each-files keyword id ((fd, p) ∷ ps) w =
      query_each-files keyword id ps (query_peer net fd keyword id w).0 ∙ ground arith

  query_peers-files :
      (keyword : Bytes) (w : World) → (query_peers net keyword w).local_files ≡ w.local_files
  unfolding query_peers
  query_peers-files keyword w =
      query_each-files keyword (new_id (draws net w)) w.peers (note drew w)

  com_search-files :
      (keyword : Bytes) (w : World) → (com_search net keyword w).local_files ≡ w.local_files
  unfolding com_search query_local save_query_result
  com_search-files keyword w = elim (peers_or_none w.peers) [
    | inl e ↦ rw (com_search, e) refl
    | inr (p, ps, e) ↦
        rw (com_search, e)
          (query_peers-files keyword (query_local net keyword (cleared net keyword w)).0)
  ]

  -- The results that a search finds have the names of local files.
  results_for-short :
      (keyword : Bytes) (ip port : ℕ) (fs : List FileInfo)
      → All (λ fi. IsShort fi.file_name) fs
      → All
          (λ (r : QueryResultInfo). IsShort r.qr.file_name)
          (map (λ q. record { ip = ip; port = port; qr = q }) (results_for keyword fs))
  unfolding results_for
  results_for-short keyword ip port [] h = tt
  results_for-short keyword ip port (fi ∷ fs) (hf, h) = elim (Bool-cases (matches fi keyword)) [
    | inl found ↦ rw (results_for, found) (hf, results_for-short keyword ip port fs h)
    | inr other ↦ rw (results_for, other) (results_for-short keyword ip port fs h)
  ]

  pub com_search-IsListable :
      (keyword : Bytes) (w : World)
      → IsListable w.listener
      → IsListable (com_search net keyword w).listener
  com_search-IsListable keyword w h = record {
    files = rw (com_search-files keyword w) h.files;
    results =
        rw (com_search-query_result_set net keyword w)
          (results_for-short keyword w.hostip (u16 w.conf.file_port) w.local_files h.files);
  }
