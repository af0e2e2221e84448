-- ===== src/Listener/Node/Outgoing.antt =====
-- Pings and searches of the node's own keep its invariant, whichever writes fail.
use p2p_demo.Prelude.{ℕ, ◌≢◌, refl, ◌⊎◌, inl, inr, Bool, true, false, [], ◌∷◌, All, if◌then◌else◌}
use p2p_demo.Wire.{Bytes}
use p2p_demo.Listener.State.{
  Listener, World, Net, Status, Peers, PeerInfo, fd_key, note, drew, draws,
}
use p2p_demo.Packet.Header.{new_id}
use p2p_demo.Listener.Peers.{erase_peer}
use p2p_demo.Listener.Search.{save_query_result}
use p2p_demo.Listener.Search
use p2p_demo.Listener.Commands.{
  drop_peer, ping_peer, ping_each, ping_peers, query_peer, query_each, query_peers, query_local,
  com_search,
}
use p2p_demo.Listener.Commands.Laws.{cleared, peers_or_none}
use p2p_demo.Listener.Node.{Promise, lookup-none, IsNode, Same, Same-IsNode, erase_peer-IsNode}

either_Same :
    (b : Bool) (x y : World × Status) (l k : Listener)
    → Same x.0.listener l
    → Same y.0.listener k
    → Same (if b then x else y).0.listener l ⊎ Same (if b then x else y).0.listener k
either_Same true x y l k hx hy = inl hx
either_Same false x y l k hx hy = inr hy

module _ (B : Promise) (n f : ℕ) (net : Net) where
  either_Same-IsNode :
      (fd : ℕ) (w : World) (l : Listener)
      → fd ≢ n
      → fd ≢ f
      → IsNode B n f w.listener
      → Same l w.listener ⊎ Same l (erase_peer fd w).listener
      → IsNode B n f l
  either_Same-IsNode fd w l hn hf v (inl s) = Same-IsNode B n f l w.listener s v
  either_Same-IsNode fd w l hn hf v (inr s) =
      Same-IsNode B n f l (erase_peer fd w).listener s (erase_peer-IsNode B n f w v fd hn hf)

  ping_peer-IsNode :
      (fd : ℕ) (id : Bytes) (w : World)
      → fd ≢ n
      → fd ≢ f
      → IsNode B n f w.listener
      → IsNode B n f (ping_peer net fd id w).0.listener
  unfolding ping_peer drop_peer erase_peer
  ping_peer-IsNode fd id w hn hf v = either_Same-IsNode fd w _ hn hf v (
      either_Same _ _ _ w.listener (erase_peer fd w).listener
        (record {
          neighborfd = refl;
          filefd = refl;
          fdset = refl;
          maxfd = refl;
          peers = refl;
          conf = refl;
          seed_nodes = refl;
        })
        (record {
          neighborfd = refl;
          filefd = refl;
          fdset = refl;
          maxfd = refl;
          peers = refl;
          conf = refl;
          seed_nodes = refl;
        }))

  query_peer-IsNode :
      (fd : ℕ) (keyword id : Bytes) (w : World)
      → fd ≢ n
      → fd ≢ f
      → IsNode B n f w.listener
      → IsNode B n f (query_peer net fd keyword id w).0.listener
  unfolding query_peer drop_peer erase_peer
  query_peer-IsNode fd keyword id w hn hf v = either_Same-IsNode fd w _ hn hf v (
      either_Same _ _ _ w.listener (erase_peer fd w).listener
        (record {
          neighborfd = refl;
          filefd = refl;
          fdset = refl;
          maxfd = refl;
          peers = refl;
          conf = refl;
          seed_nodes = refl;
        })
        (record {
          neighborfd = refl;
          filefd = refl;
          fdset = refl;
          maxfd = refl;
          peers = refl;
          conf = refl;
          seed_nodes = refl;
        }))

  ping_each-IsNode :
      (id : Bytes) (ps : Peers) (w : World)
      → All (λ (e : ℕ × PeerInfo). e.0 ≢ n) ps
      → All (λ (e : ℕ × PeerInfo). e.0 ≢ f) ps
      → IsNode B n f w.listener
      → IsNode B n f (ping_each net id ps w).listener
  unfolding ping_each
  ping_each-IsNode id [] w hn hf v = v
  ping_each-IsNode id ((fd, p) ∷ ps) w (hn, hns) (hf, hfs) v =
      ping_each-IsNode id ps (ping_peer net fd id w).0 hns hfs (ping_peer-IsNode fd id w hn hf v)

  query_each-IsNode :
      (keyword id : Bytes) (ps : Peers) (w : World)
      → All (λ (e : ℕ × PeerInfo). e.0 ≢ n) ps
      → All (λ (e : ℕ × PeerInfo). e.0 ≢ f) ps
      → IsNode B n f w.listener
      → IsNode B n f (query_each net keyword id ps w).listener
  unfolding query_each
  query_each-IsNode keyword id [] w hn hf v = v
  query_each-IsNode keyword id ((fd, p) ∷ ps) w (hn, hns) (hf, hfs) v =
      query_each-IsNode keyword id ps (query_peer net fd keyword id w).0 hns hfs
        (query_peer-IsNode fd keyword id w hn hf v)

  -- `ping_peers` keeps the invariant of the node, whichever of its writes fail.
  pub ping_peers-IsNode :
      (w : World) → IsNode B n f w.listener → IsNode B n f (ping_peers net w).listener
  unfolding ping_peers
  ping_peers-IsNode w v =
      ping_each-IsNode (new_id (draws net w)) w.peers (note drew w)
        (lookup-none n w.peers v.linked.apart.0) (lookup-none f w.peers v.linked.apart.1) v

  query_peers-IsNode :
      (keyword : Bytes) (w : World)
      → IsNode B n f w.listener
      → IsNode B n f (query_peers net keyword w).listener
  unfolding query_peers
  query_peers-IsNode keyword w v =
      query_each-IsNode keyword (new_id (draws net w)) w.peers (note drew w)
        (lookup-none n w.peers v.linked.apart.0) (lookup-none f w.peers v.linked.apart.1) v

  searched-Same :
      (keyword : Bytes) (w : World)
      → Same (query_local net keyword (cleared net keyword w)).0.listener w.listener
  unfolding query_local Search.query save_query_result
  searched-Same keyword w = record {
    neighborfd = refl;
    filefd = refl;
    fdset = refl;
    maxfd = refl;
    peers = refl;
    conf = refl;
    seed_nodes = refl;
  }

  -- `com_search` keeps the invariant of the node, whichever of its writes fail.
  pub com_search-IsNode :
      (keyword : Bytes) (w : World)
      → IsNode B n f w.listener
      → IsNode B n f (com_search net keyword w).listener
  unfolding com_search
  com_search-IsNode keyword w v =
      let u : IsNode B n f (query_local net keyword (cleared net keyword w)).0.listener =
        Same-IsNode B n f _ w.listener (searched-Same keyword w) v in
      elim (peers_or_none (query_local net keyword (cleared net keyword w)).0.peers) [
        | inl e ↦ rw (com_search, e) u
        | inr (p, ps, e) ↦ rw (com_search, e) (query_peers-IsNode keyword _ u)
      ]
