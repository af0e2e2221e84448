-- ===== src/Listener/Peers/Invariant/Sorted.antt =====
-- The table of peers stays sorted by descriptor, as a `std::map` is.
use p2p_demo.Prelude.{ℕ, inl, inr, Option-cases}
use p2p_demo.Prelude.Maps.{IsSorted, insert-IsSorted}
use p2p_demo.Listener.State.{PeerInfo, World, Net, Status, fd_key, note, opened, accepted}
use p2p_demo.Listener.Peers.{add_peer, connect_peer, dial, admit, handle_new_peer}
use p2p_demo.Listener.Peers.Invariant.{MayAdd, dial-MayAdd, admit-MayAdd}

MayAdd-IsSorted :
    (fd : ℕ) (p : PeerInfo) (w : World) (r : World × Status)
    → IsSorted w.peers
    → MayAdd fd p w r
    → IsSorted r.0.listener.peers
unfolding add_peer
MayAdd-IsSorted fd p w r u (inl (same, _)) = rw same u
MayAdd-IsSorted fd p w r u (inr (added, _)) = rw added (insert-IsSorted fd p w.peers u)

module _ (net : Net) (w : World) (u : IsSorted w.peers) where
  pub connect_peer-IsSorted : (ip port : ℕ) → IsSorted (connect_peer net ip port w).0.listener.peers
  unfolding connect_peer
  connect_peer-IsSorted ip port = elim (Option-cases (net.socket w.trace)) [
    | inl e ↦ rw (e, connect_peer) u
    | inr (fd, e) ↦
        rw (e, connect_peer)
          (MayAdd-IsSorted fd _ (note opened w) (dial net fd ip port (note opened w)) u
            (dial-MayAdd net fd ip port (note opened w)))
  ]

  pub handle_new_peer-IsSorted : IsSorted (handle_new_peer net w).0.listener.peers
  unfolding handle_new_peer
  handle_new_peer-IsSorted = elim (Option-cases (net.accept w.trace)) [
    | inl e ↦ rw (e, handle_new_peer) u
    | inr (c, e) ↦
        rw (e, handle_new_peer)
          (MayAdd-IsSorted c.fd _ (note accepted w) (admit net c (note accepted w)) u
            (admit-MayAdd net c (note accepted w)))
  ]
