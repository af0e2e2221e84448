-- ===== src/Listener/Node.antt =====
-- The invariant of a node: its table of peers is sorted, within the limit, and in step with the
-- descriptors that `select` watches. What changes the table keeps it.
pub mod Handlers
pub mod Outgoing
pub mod Select
pub mod Timers
use p2p_demo.Prelude.{
  List, [], ◌∷◌, none, ap, All, inl, inr, ◌==◌, Bool-cases, ℕ, ◌<◌, ◌≤◌, ◌≡◌, ◌≢◌, length, arith,
}
use p2p_demo.Prelude.Maps.{lookup, IsSorted, erase-IsSorted, length-erase}
use p2p_demo.Listener.Peers.Invariant.Sorted.{connect_peer-IsSorted, handle_new_peer-IsSorted}
use p2p_demo.Listener.State.{Conf, SeedInfo, Peers, Listener, PeerInfo, World, Net, fd_key}
use p2p_demo.Listener.Peers.{erase_peer, connect_peer, handle_new_peer, max_peer_size}
use p2p_demo.Listener.Peers.Invariant.Settings.{
  connect_peer-settings, handle_new_peer-settings, settings,
}
use p2p_demo.Listener.Peers.Invariant.{
  IsLinked, GivesFresh, erase_peer-IsLinked, connect_peer-IsLinked, handle_new_peer-IsLinked,
}
use p2p_demo.Listener.Peers.Invariant.Limit.{
  IsWithinLimit, connect_peer-IsWithinLimit, handle_new_peer-IsWithinLimit,
}

-- Whether the invariant speaks of the limit of peers, and what it says of the configuration and the
-- seeds, which no step changes.
pub record Promise : Type 1 where
  pub limit : Type 0
  pub settled : Conf → List SeedInfo → Type 0

abbrev pub unlimited : Promise
unlimited = record { limit = ⊥; settled = λ c ss. Unit {0} }

abbrev pub limited : Promise
limited = record { limit = Unit {0}; settled = λ c ss. Unit {0} }

-- The node is no seed node, and knows no more seeds than it may have peers.
pub record IsPlain (c : Conf) (ss : List SeedInfo) : Type 0 where
  pub no_seed : c.is_seed_node ≡ 0
  pub few : length ss ≤ max_peer_size c

abbrev pub plain : Promise
plain = record { limit = Unit {0}; settled = IsPlain }

-- `n` and `f` are the two listening sockets.
pub record IsNode (B : Promise) (n f : ℕ) (l : Listener) : Type 0 where
  pub linked : IsLinked n f l
  pub within : B.limit → IsWithinLimit l
  pub settled : B.settled l.conf l.seed_nodes
  pub sorted : IsSorted l.peers

-- A descriptor that is not found in the table is no key of it.
pub lookup-none : (j : ℕ) (ps : Peers) → lookup j ps ≡ none → All (λ (e : ℕ × PeerInfo). e.0 ≢ j) ps
unfolding lookup
lookup-none j [] h = tt
lookup-none j ((fd, p) ∷ ps) h = elim (Bool-cases (fd == j)) [
  | inl same ↦ absurd (ground (arith, same, h))
  | inr other ↦ (ground (arith, other), lookup-none j ps (ground (arith, other, h)))
]

-- The two states differ in nothing that the invariant speaks of.
pub record Same (l k : Listener) : Type 0 where
  pub neighborfd : l.neighborfd ≡ k.neighborfd
  pub filefd : l.filefd ≡ k.filefd
  pub fdset : l.fdset ≡ k.fdset
  pub maxfd : l.maxfd ≡ k.maxfd
  pub peers : l.peers ≡ k.peers
  pub conf : l.conf ≡ k.conf
  pub seed_nodes : l.seed_nodes ≡ k.seed_nodes

pub Same-IsNode :
    (B : Promise) (n f : ℕ) (l k : Listener) → Same l k → IsNode B n f k → IsNode B n f l
Same-IsNode B n f l k s v = record {
  linked = record {
    sockets = rw (s.neighborfd, s.filefd) v.linked.sockets;
    peer_ok = λ fd p h. rw (s.fdset, s.maxfd) (v.linked.peer_ok fd p (rw s.peers at h));
    watched = λ fd h. rw s.peers (v.linked.watched fd (rw s.fdset at h));
    listening = rw s.fdset v.linked.listening;
    apart = rw s.peers v.linked.apart;
  };
  within = λ b. rw (s.peers, s.conf) (v.within b);
  settled = rw (s.conf, s.seed_nodes) v.settled;
  sorted = rw s.peers v.sorted;
}

settings_kept :
    (B : Promise) (l k : Listener)
    → settings l ≡ settings k
    → B.settled k.conf k.seed_nodes
    → B.settled l.conf l.seed_nodes
settings_kept B l k e h =
    let c : l.conf ≡ k.conf = ap (λ (p : Conf × List SeedInfo). p.0) e in
    let s : l.seed_nodes ≡ k.seed_nodes = ap (λ (p : Conf × List SeedInfo). p.1) e in rw (c, s) h

module _ (B : Promise) (n f : ℕ) (w : World) (v : IsNode B n f w.listener) where
  -- `erasePeer` of a descriptor other than the two listening sockets keeps the invariant of the
  -- node.
  pub erase_peer-IsNode : (fd : ℕ) → fd ≢ n → fd ≢ f → IsNode B n f (erase_peer fd w).listener
  unfolding erase_peer
  erase_peer-IsNode fd hn hf = record {
    linked = erase_peer-IsLinked n f fd w hn hf v.linked;
    within = λ b. omega (arith, v.within b, length-erase fd w.peers);
    settled = v.settled;
    sorted = erase-IsSorted fd w.peers v.sorted;
  }

  module _ (net : Net) (g : GivesFresh n f net) where
    -- On a system that hands out no listening socket again, `connect_peer`, which does not look at
    -- the limit of peers, keeps the invariant of the node where there is room for one more peer.
    pub connect_peer-IsNode :
        (ip port : ℕ)
        → (B.limit → length w.peers < max_peer_size w.conf)
        → IsNode B n f (connect_peer net ip port w).0.listener
    connect_peer-IsNode ip port room = record {
      linked = connect_peer-IsLinked n f w v.linked net g ip port;
      within = λ b. connect_peer-IsWithinLimit net ip port w (room b);
      settled =
          settings_kept B (connect_peer net ip port w).0.listener w.listener
            (connect_peer-settings net ip port w) v.settled;
      sorted = connect_peer-IsSorted net w v.sorted ip port;
    }

    -- On a system that hands out no listening socket again, `handle_new_peer` keeps the invariant
    -- of the node: the table of peers is sorted, within the limit, and in step with the watched
    -- descriptors and `maxfd`.
    pub handle_new_peer-IsNode : IsNode B n f (handle_new_peer net w).0.listener
    handle_new_peer-IsNode = record {
      linked = handle_new_peer-IsLinked n f w v.linked net g;
      within = λ b. handle_new_peer-IsWithinLimit net w (v.within b);
      settled =
          settings_kept B (handle_new_peer net w).0.listener w.listener
            (handle_new_peer-settings net w) v.settled;
      sorted = handle_new_peer-IsSorted net w v.sorted;
    }
