-- ===== src/Listener/Peers/Invariant.antt =====
-- The table of peers and the set of descriptors that `select` watches stay in step.
pub mod Limit
pub mod Settings
pub mod Sorted
use p2p_demo.Prelude.{
  ℕ, ◌<◌, ◌≤◌, ◌≡◌, ◌≢◌, refl, ◌⊎◌, inl, inr, Bool, true, false, List, [], ◌∷◌, none, some, length,
  ◌==◌, if◌then◌else◌, arith, Option-cases, Bool-cases,
}
use p2p_demo.Prelude.Maps.{lookup, lookup-insert, lookup-erase, length-insert}
use p2p_demo.Wire.{htonl}
use p2p_demo.Listener.State.{
  Listener, PeerInfo, World, Net, Trace, Client, Status, success, failure, fd_key, note, wrote,
  read, connected, opened, accepted,
}
use p2p_demo.Listener.Peers.{
  fd_clr, fd_set, htons, erase_peer, add_peer, await_reply, greet, dial, connect_peer, welcome,
  admit, handle_new_peer, max_peer_size, peer_full, connect_text,
}

-- `FD_ISSET`
unfoldable pub fd_isset : ℕ → List ℕ → Bool
fd_isset fd [] = false
fd_isset fd (x ∷ xs) = if x == fd then true else fd_isset fd xs

fd_isset-fd_clr :
    (j k : ℕ) (xs : List ℕ) → fd_isset j (fd_clr k xs) ≡ (if k == j then false else fd_isset j xs)
unfolding fd_isset fd_clr
fd_isset-fd_clr j k [] = ground arith
fd_isset-fd_clr j k (x ∷ xs) = ground (arith, fd_isset-fd_clr j k xs)

pub fd_isset-fd_set :
    (j k : ℕ) (xs : List ℕ) → fd_isset j (fd_set k xs) ≡ (if k == j then true else fd_isset j xs)
unfolding fd_isset fd_set
fd_isset-fd_set j k xs = ground (arith, fd_isset-fd_clr j k xs)

-- Every peer is filed under its descriptor, which is watched and within `maxfd`; nothing else is
-- watched but the two listening sockets `n` and `f`, which are no peers.
pub record IsLinked (n f : ℕ) (l : Listener) : Type 0 where
  pub sockets : (l.neighborfd ≡ n) × (l.filefd ≡ f)
  pub peer_ok :
      (fd : ℕ) (p : PeerInfo)
      → lookup fd l.peers ≡ some p
      → (p.sockfd ≡ fd) × (fd_isset fd l.fdset ≡ true) × (fd ≤ l.maxfd)
  pub watched :
      (fd : ℕ)
      → fd_isset fd l.fdset ≡ true
      → (fd ≡ n) ⊎ (fd ≡ f) ⊎ ((p : PeerInfo) × (lookup fd l.peers ≡ some p))
  pub listening : (fd_isset n l.fdset ≡ true) × (fd_isset f l.fdset ≡ true)
  pub apart : (lookup n l.peers ≡ none) × (lookup f l.peers ≡ none)

module _ (n f fd : ℕ) (w : World) (hn : fd ≢ n) (hf : fd ≢ f) (v : IsLinked n f w.listener) where
  pub add_peer-IsLinked : (p : PeerInfo) → p.sockfd ≡ fd → IsLinked n f (add_peer fd p w).listener
  unfolding add_peer
  add_peer-IsLinked p e = record {
    sockets = v.sockets;
    peer_ok = λ j q h.
        ground (arith, v.peer_ok j q, lookup-insert fd j p w.peers, fd_isset-fd_set j fd w.fdset);
    watched = λ j h. elim (Bool-cases (fd == j)) [
      | inl same ↦ inr (inr (p, rw (lookup-insert fd j p w.peers, same)))
      | inr other ↦ elim (v.watched j (rw (fd_isset-fd_set j fd w.fdset, other) at h)) [
        | inl n ↦ inl n
        | inr (inl f) ↦ inr (inl f)
        | inr (inr (q, found)) ↦ inr (inr (q, rw (lookup-insert fd j p w.peers, other) found))
      ]
    ];
    listening =
        ground (arith, v.listening, fd_isset-fd_set n fd w.fdset, fd_isset-fd_set f fd w.fdset);
    apart = ground (arith, v.apart, lookup-insert fd n p w.peers, lookup-insert fd f p w.peers);
  }

  -- `erasePeer` of a descriptor other than the two listening sockets keeps the table of peers, the
  -- set of watched descriptors and `maxfd` in step.
  pub erase_peer-IsLinked : IsLinked n f (erase_peer fd w).listener
  unfolding erase_peer
  erase_peer-IsLinked = record {
    sockets = v.sockets;
    peer_ok = λ j q h.
        ground (arith, v.peer_ok j q, lookup-erase fd j w.peers, fd_isset-fd_clr j fd w.fdset);
    watched =
        λ j h. ground (arith, v.watched j, lookup-erase fd j w.peers, fd_isset-fd_clr j fd w.fdset);
    listening =
        ground (arith, v.listening, fd_isset-fd_clr n fd w.fdset, fd_isset-fd_clr f fd w.fdset);
    apart = ground (arith, v.apart, lookup-erase fd n w.peers, lookup-erase fd f w.peers);
  }

-- A call that may add a peer under `fd` either leaves the state alone and fails, or adds it.
abbrev pub MayAdd : ℕ → PeerInfo → World → World × Status → Type 0
MayAdd fd p w r =
    ((r.0.listener ≡ w.listener) × (r.1 ≡ failure))
    ⊎ ((r.0.listener ≡ (add_peer fd p w).listener) × (r.1 ≡ success))

module _ (net : Net) where
  await_reply-MayAdd :
      (fd ip port : ℕ) (w : World)
      → MayAdd fd
          (record { ip = htonl (htonl ip); port = htons (htons port); sockfd = fd })
          w
          (await_reply net fd ip port w)
  unfolding await_reply add_peer
  await_reply-MayAdd fd ip port w = ground arith

  greet-MayAdd :
      (fd ip port : ℕ) (w : World)
      → MayAdd fd
          (record { ip = htonl (htonl ip); port = htons (htons port); sockfd = fd })
          w
          (greet net fd ip port w)
  unfolding greet add_peer
  greet-MayAdd fd ip port w =
      ground (arith, await_reply-MayAdd fd ip port (note (wrote fd connect_text) w))

  dial-MayAdd :
      (fd ip port : ℕ) (w : World)
      → MayAdd fd
          (record { ip = htonl (htonl ip); port = htons (htons port); sockfd = fd })
          w
          (dial net fd ip port w)
  unfolding dial add_peer
  dial-MayAdd fd ip port w =
      ground (arith, greet-MayAdd fd ip port (note (connected fd (htonl ip) (htons port)) w))

  welcome-MayAdd :
      (c : Client) (w : World)
      → MayAdd c.fd
          (record { ip = htonl c.s_addr; port = htons c.sin_port; sockfd = c.fd })
          w
          (welcome net c w)
  unfolding welcome add_peer
  welcome-MayAdd c w = ground arith

  admit-MayAdd :
      (c : Client) (w : World)
      → MayAdd c.fd
          (record { ip = htonl c.s_addr; port = htons c.sin_port; sockfd = c.fd })
          w
          (admit net c w)
  unfolding admit add_peer
  admit-MayAdd c w = ground (arith, welcome-MayAdd c (note (read c.fd) w))

  -- A full table admits nobody.
  admit_full :
      (c : Client) (w : World)
      → peer_full w.listener ≡ true
      → (admit net c w).0.listener ≡ w.listener
  unfolding admit
  admit_full c w full = rw full

-- The system hands out no descriptor that is still in use for listening.
pub record GivesFresh (n f : ℕ) (net : Net) : Type 0 where
  pub fresh_socket : (t : Trace) (fd : ℕ) → net.socket t ≡ some fd → (fd ≢ n) × (fd ≢ f)
  pub fresh_client : (t : Trace) (c : Client) → net.accept t ≡ some c → (c.fd ≢ n) × (c.fd ≢ f)

MayAdd-IsLinked :
    (n f fd : ℕ) (p : PeerInfo) (w : World) (r : World × Status)
    → p.sockfd ≡ fd
    → (fd ≢ n) × (fd ≢ f)
    → IsLinked n f w.listener
    → MayAdd fd p w r
    → IsLinked n f r.0.listener
MayAdd-IsLinked n f fd p w r e (hn, hf) v (inl (same, _)) = rw same v
MayAdd-IsLinked n f fd p w r e (hn, hf) v (inr (added, _)) =
    rw added (add_peer-IsLinked n f fd w hn hf v p e)

module _ (n f : ℕ) (w : World) (v : IsLinked n f w.listener) (net : Net)
    (g : GivesFresh n f net) where
  -- On a system that hands out no listening socket again, `connect_peer` keeps the table of peers,
  -- the set of watched descriptors and `maxfd` in step.
  pub connect_peer-IsLinked : (ip port : ℕ) → IsLinked n f (connect_peer net ip port w).0.listener
  unfolding connect_peer
  connect_peer-IsLinked ip port = elim (Option-cases (net.socket w.trace)) [
    | inl e ↦ rw (e, connect_peer) v
    | inr (fd, e) ↦
        rw (e, connect_peer)
          (MayAdd-IsLinked n f fd _ (note opened w) (dial net fd ip port (note opened w)) refl
            (g.fresh_socket w.trace fd e) v (dial-MayAdd net fd ip port (note opened w)))
  ]

  -- On a system that hands out no listening socket again, `handle_new_peer` keeps the table of
  -- peers, the set of watched descriptors and `maxfd` in step.
  pub handle_new_peer-IsLinked : IsLinked n f (handle_new_peer net w).0.listener
  unfolding handle_new_peer
  handle_new_peer-IsLinked = elim (Option-cases (net.accept w.trace)) [
    | inl e ↦ rw (e, handle_new_peer) v
    | inr (c, e) ↦
        rw (e, handle_new_peer)
          (MayAdd-IsLinked n f c.fd _ (note accepted w) (admit net c (note accepted w)) refl
            (g.fresh_client w.trace c e) v (admit-MayAdd net c (note accepted w)))
  ]
