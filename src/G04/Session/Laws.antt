-- ===== src/G04/Session/Laws.antt =====
-- What holds of a session from the start of the program on.
use p2p_demo.Prelude.{
  ℕ, ◌≡◌, refl, ap, ◌⊎◌, inl, inr, Bool, true, false, List, [], ◌∷◌, none, some, Bool-cases, ◌==◌,
  arith,
}
use p2p_demo.Prelude.Maps.{lookup}
use p2p_demo.Outcome.{
  Outcome, ok, throw, undefined, ◌>>=◌, OnReturn, OnReturn-bind, OnReturn-map, OnReturn-if,
}
use p2p_demo.Util.Files.{Files}
use p2p_demo.Listener.State.{
  Listener, World, Net, Trace, Event, closed, Peers, PeerInfo, Status, success, failure, note,
  fd_key,
}
use p2p_demo.Listener.Peers.Invariant.{GivesFresh}
use p2p_demo.Listener.Node.{unlimited, IsNode}
use p2p_demo.Listener.Loop.{listen_step, close_peers, close_all}
use p2p_demo.Listener.Loop.Start.{Sockets, initialize, IsStarted, initialize-IsNode}
use p2p_demo.Listener.Loop.Reach.{here, Reach-trans, Reach-IsNode, listen_step-Reaches}
use p2p_demo.G04.State.{G04}
use p2p_demo.G04.Conf.{read_conf}
use p2p_demo.G04.Commands.{Shell, Host}
use p2p_demo.G04.Commands.Steps.{Goes}
use p2p_demo.G04.Shell.{run_line}
use p2p_demo.G04.Shell.Node.{run_line-Goes}
use p2p_demo.G04.Session.{
  new_listener, Session, start_listner, Turn, typed, answered, take_turn, take_turns, Ended, stop,
  run,
}

start_listner-IsNode :
    (files : Files) (net : Net) (s : Sockets) (g : G04)
    → (start_listner files net s g).watching ≡ true
    → IsStarted unlimited (start_listner files net s g).shell.world
unfolding start_listner new_listener
start_listner-IsNode files net s g h =
    let w : World = record { listener = new_listener g.conf; trace = [] } in
    initialize-IsNode unlimited files net s w refl (began (initialize files net s w).1 h) tt
  where
    began :
        (status : Status)
        → elim status [ success ↦ true | failure ↦ false ] ≡ true
        → status ≡ success
    began success e = refl
    began failure e = cc

module _ (host : Host) (dup : Trace → ℕ → ℕ) where
  abbrev Follows : Session → Session → Type 0
  Follows s s' = Goes host dup s.shell.world s'.shell.world

  take_turn-Follows : (t : Turn) (s : Session) → OnReturn (Follows s) (take_turn host dup t s)
  unfolding take_turn
  take_turn-Follows (typed line) s =
      OnReturn-if (Follows s) (s.shell.g04.quits) _ _ (here (s.shell.world)) (
        OnReturn-bind (λ (sh : Shell). Goes host dup s.shell.world sh.world) (Follows s)
          (run_line host line s.shell) _ (run_line-Goes host dup line s.shell) (λ sh e h. h))
  take_turn-Follows (answered answer) s =
      OnReturn-if (Follows s) (s.watching) _ _
        (OnReturn-bind (λ w. Goes host dup s.shell.world w) (Follows s)
          (listen_step (host.files) (host.net) dup answer s.shell.world) _
          (listen_step-Reaches (Unit {0}) (host.files) (host.net) dup answer s.shell.world)
          (λ w e h. h))
        tt

  take_turns-Follows :
      (ts : List Turn) (s : Session) → OnReturn (Follows s) (take_turns host dup ts s)
  unfolding take_turns
  take_turns-Follows [] s = here (s.shell.world)
  take_turns-Follows (t ∷ ts) s =
      OnReturn-bind (Follows s) (Follows s) (take_turn host dup t s) (take_turns host dup ts)
        (take_turn-Follows t s)
        (λ s₁ e h.
          OnReturn-map (take_turns host dup ts s₁) (take_turns-Follows ts s₁)
            (λ s₂ k. Reach-trans (Unit {0}) (host.files) (host.net) dup h k))

close_peers-listener : (ps : Peers) (w : World) → (close_peers ps w).listener ≡ w.listener
unfolding close_peers
close_peers-listener [] w = refl
close_peers-listener ((fd, p) ∷ ps) w = close_peers-listener ps (note (closed fd) w)

-- The call is in the trace.
abbrev pub Has : Event → Trace → Type 0
Has e [] = ⊥
Has e (e' ∷ t) = (e ≡ e') ⊎ Has e t

close_peers-Has :
    (e : Event) (ps : Peers) (w : World) → Has e w.trace → Has e (close_peers ps w).trace
unfolding close_peers
close_peers-Has e [] w h = h
close_peers-Has e ((fd, p) ∷ ps) w h = close_peers-Has e ps (note (closed fd) w) (inr h)

close_peers-closed :
    (fd : ℕ) (p : PeerInfo) (ps : Peers) (w : World)
    → lookup fd ps ≡ some p
    → Has (closed fd) (close_peers ps w).trace
unfolding close_peers lookup
close_peers-closed fd p [] w h = absurd (cc h)
close_peers-closed fd p ((k, q) ∷ ps) w h = elim (Bool-cases (k == fd)) [
  | inl same ↦
      close_peers-Has (closed fd) ps (note (closed k) w) (inl (ap closed (ground (arith, same))))
  | inr other ↦ close_peers-closed fd p ps (note (closed k) w) (ground (arith, other, h))
]

close_all-listener : (w : World) → (close_all w).listener ≡ w.listener
unfolding close_all
close_all-listener w = close_peers-listener w.peers _

-- A descriptor of the node.
abbrev pub IsOpen : ℕ → Listener → Type 0
IsOpen fd l =
    (fd ≡ l.neighborfd) ⊎ (fd ≡ l.filefd) ⊎ ((p : PeerInfo) × (lookup fd l.peers ≡ some p))

close_all-closed : (fd : ℕ) (w : World) → IsOpen fd w.listener → Has (closed fd) (close_all w).trace
unfolding close_all
close_all-closed fd w (inl e) = close_peers-Has (closed fd) w.peers _ (inr (inl (ap closed e)))
close_all-closed fd w (inr (inl e)) = close_peers-Has (closed fd) w.peers _ (inl (ap closed e))
close_all-closed fd w (inr (inr (p, e))) = close_peers-closed fd p w.peers _ e

abbrev pub started : Host → Net → Sockets → G04 → Session
started host opening s g = start_listner (host.files) opening s (read_conf (host.files) g).0

module _ (host : Host) (opening : Net) (dup : Trace → ℕ → ℕ) (s : Sockets) (turns : List Turn)
    (looks : List Bool) (g : G04) (e : Ended)
    (ends : run host opening dup s turns looks g ≡ ok (some e)) where
  abbrev pub n : ℕ
  n = (started host opening s g).shell.world.neighborfd

  abbrev pub f : ℕ
  f = (started host opening s g).shell.world.filefd

  last_of :
      (status : Status) (m : Outcome Session)
      → elim status [ failure ↦ ok none | success ↦ m >>= (λ last. ok (some (stop looks last))) ]
        ≡ ok (some e)
      → (last : Session) × ((m ≡ ok last) × (e ≡ stop looks last))
  last_of failure m h = absurd (cc h)
  last_of success (ok last) h = (last, (refl, cc))
  last_of success (throw x) h = absurd (cc h)
  last_of success undefined h = absurd (cc h)

  run-last :
      (last : Session) × ((take_turns host dup turns (started host opening s g) ≡ ok last)
        × (e ≡ stop looks last))
  unfolding run
  run-last =
      last_of (read_conf (host.files) g).1 (take_turns host dup turns (started host opening s g))
        ends

  -- From the reading of g04.conf on, where `initialize` succeeds, whatever lines are typed and
  -- whatever `select` answers, in whatever order the two threads take their turns: a run of the
  -- program that comes to its end leaves the table of peers sorted and in step with the watched
  -- descriptors and `maxfd`, on a system that hands out no listening socket again. Nothing is said
  -- of the limit of peers.
  pub run-IsNode :
      (started host opening s g).watching ≡ true
      → GivesFresh n f (host.net)
      → IsNode unlimited n f e.session.shell.world.listener
  unfolding stop
  run-IsNode set fresh =
      let (last, (went, at_end)) = run-last in
      let r : Goes host dup (started host opening s g).shell.world last.shell.world =
        rw went at (take_turns-Follows host dup turns (started host opening s g)) in
      rw (at_end, close_all-listener last.shell.world)
        (Reach-IsNode (host.files) (host.net) dup n f fresh r
          (start_listner-IsNode (host.files) opening s (read_conf (host.files) g).0 set))

  -- A run of the program that comes to its end, in whatever order its threads take their turns,
  -- has closed every descriptor that the node then has: its two listening sockets, and the socket
  -- of each peer.
  pub run-closed :
      (fd : ℕ)
      → IsOpen fd e.session.shell.world.listener
      → Has (closed fd) e.session.shell.world.trace
  unfolding stop
  run-closed fd h =
      let (last, (went, at_end)) = run-last in
      rw at_end (
        close_all-closed fd last.shell.world
          (rw (at_end, close_all-listener last.shell.world) at h))
