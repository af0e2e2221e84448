-- ===== src/Listener/Peers/Invariant/Settings.antt =====
-- The configuration and the seeds, which no connection changes, and how many peers one adds.
use p2p_demo.Prelude.{ℕ, ◌+◌, ◌≤◌, ◌≡◌, inl, inr, List, length, arith, Option-cases}
use p2p_demo.Prelude.Maps.{length-insert}
use p2p_demo.Listener.State.{
  Listener, Conf, SeedInfo, PeerInfo, World, Net, Status, fd_key, note, opened,
}
use p2p_demo.Listener.Peers.{add_peer, dial, connect_peer, handle_new_peer}
use p2p_demo.Listener.Peers.Invariant.{MayAdd, dial-MayAdd}

abbrev pub settings : Listener → Conf × List SeedInfo
settings l = (l.conf, l.seed_nodes)

pub connect_peer-settings :
    (net : Net) (ip port : ℕ) (w : World)
    → settings (connect_peer net ip port w).0.listener ≡ settings w.listener
unfolding connect_peer add_peer
connect_peer-settings net ip port w = ground arith

pub handle_new_peer-settings :
    (net : Net) (w : World) → settings (handle_new_peer net w).0.listener ≡ settings w.listener
unfolding handle_new_peer add_peer
handle_new_peer-settings net w = ground arith

MayAdd-length :
    (fd : ℕ) (p : PeerInfo) (w : World) (r : World × Status)
    → MayAdd fd p w r
    → length r.0.listener.peers ≤ length w.peers + 1
unfolding add_peer
MayAdd-length fd p w r (inl (same, _)) = rw same (omega arith)
MayAdd-length fd p w r (inr (added, _)) = rw added (omega (arith, length-insert fd p w.peers))

-- A connection adds one peer at most.
pub length-connect_peer :
    (net : Net) (ip port : ℕ) (w : World)
    → length (connect_peer net ip port w).0.listener.peers ≤ length w.peers + 1
unfolding connect_peer
length-connect_peer net ip port w = elim (Option-cases (net.socket w.trace)) [
  | inl e ↦ rw (e, connect_peer) (omega arith)
  | inr (fd, e) ↦
      rw (e, connect_peer)
        (MayAdd-length fd _ (note opened w) (dial net fd ip port (note opened w))
          (dial-MayAdd net fd ip port (note opened w)))
]
