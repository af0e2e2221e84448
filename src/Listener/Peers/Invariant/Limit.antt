-- ===== src/Listener/Peers/Invariant/Limit.antt =====
-- How many peers there are.
use p2p_demo.Prelude.{ℕ, ◌<◌, ◌≤◌, inl, inr, length, arith, Option-cases, Bool-cases}
use p2p_demo.Prelude.Maps.{length-insert}
use p2p_demo.Listener.State.{
  Listener, PeerInfo, World, Net, Client, Status, fd_key, note, opened, accepted,
}
use p2p_demo.Listener.Peers.{
  add_peer, dial, connect_peer, admit, handle_new_peer, max_peer_size, peer_full,
}
use p2p_demo.Listener.Peers.Invariant.{MayAdd, dial-MayAdd, admit-MayAdd, admit_full}

abbrev pub IsWithinLimit : Listener → Type 0
IsWithinLimit l = length l.peers ≤ max_peer_size l.conf

MayAdd-IsWithinLimit :
    (fd : ℕ) (p : PeerInfo) (w : World) (r : World × Status)
    → length w.peers < max_peer_size w.conf
    → MayAdd fd p w r
    → IsWithinLimit r.0.listener
unfolding add_peer
MayAdd-IsWithinLimit fd p w r h (inl (same, _)) = rw same (omega arith)
MayAdd-IsWithinLimit fd p w r h (inr (added, _)) =
    rw added (omega (arith, length-insert fd p w.peers))

module _ (net : Net) (w : World) where
  admit-IsWithinLimit :
      (c : Client) → IsWithinLimit w.listener → IsWithinLimit (admit net c w).0.listener
  admit-IsWithinLimit c h = elim (Bool-cases (peer_full w.listener)) [
    | inl full ↦ rw (admit_full net c w full) h
    | inr room ↦
        MayAdd-IsWithinLimit c.fd _ w (admit net c w) (unfold peer_full in ground (arith, room))
          (admit-MayAdd net c w)
  ]

-- `handle_new_peer` never takes the number of peers above the limit, where it was not above it
-- before.
pub handle_new_peer-IsWithinLimit :
    (net : Net) (w : World)
    → IsWithinLimit w.listener
    → IsWithinLimit (handle_new_peer net w).0.listener
unfolding handle_new_peer
handle_new_peer-IsWithinLimit net w h = elim (Option-cases (net.accept w.trace)) [
  | inl e ↦ rw (e, handle_new_peer) h
  | inr (c, e) ↦ rw (e, handle_new_peer) (admit-IsWithinLimit net (note accepted w) c h)
]

-- `connect_peer`, which does not look at the limit, keeps the number of peers within it where
-- there was room for one more.
pub connect_peer-IsWithinLimit :
    (net : Net) (ip port : ℕ) (w : World)
    → length w.peers < max_peer_size w.conf
    → IsWithinLimit (connect_peer net ip port w).0.listener
unfolding connect_peer
connect_peer-IsWithinLimit net ip port w h = elim (Option-cases (net.socket w.trace)) [
  | inl e ↦ rw (e, connect_peer) (omega arith)
  | inr (fd, e) ↦
      rw (e, connect_peer)
        (MayAdd-IsWithinLimit fd _ (note opened w) (dial net fd ip port (note opened w)) h
          (dial-MayAdd net fd ip port (note opened w)))
]
