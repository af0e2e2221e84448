-- ===== src/Listener/Loop/Reach.antt =====
-- The states that a node can reach, and the invariant that holds in all of them.
use p2p_demo.Prelude.{ℕ, ◌≡◌, inl, inr, List, [], ◌∷◌, ◌==◌, Bool-cases}
use p2p_demo.Outcome.{
  Outcome, ok, throw, undefined, OnReturn, OnReturn-bind, OnReturn-self, OnReturn-if,
}
use p2p_demo.Wire.{Bytes}
use p2p_demo.Util.Files.{Files}
use p2p_demo.Listener.State.{Conf, SeedInfo, World, Net, Trace, Status, success}
use p2p_demo.Listener.Peers.{handle_new_peer}
use p2p_demo.Listener.Peers.Invariant.{GivesFresh, fd_isset}
use p2p_demo.Listener.Peers.Invariant.Limit.{IsWithinLimit}
use p2p_demo.Listener.Receive.{handle_peer_select}
use p2p_demo.Listener.Commands.{handle_timer_task, com_search, com_ping, com_connect}
use p2p_demo.Listener.Download.Serve.{handle_file_download_request}
use p2p_demo.Listener.Download.Serve.Kept.{request-Keeps}
use p2p_demo.Listener.Node.{Promise, unlimited, plain, IsPlain, IsNode, handle_new_peer-IsNode}
use p2p_demo.Listener.Node.Outgoing.{com_search-IsNode}
use p2p_demo.Listener.Node.Select.{handle_peer_select-IsNode}
use p2p_demo.Listener.Node.Timers.{
  IsKept, com_connect-IsKept, com_ping-IsKept, handle_timer_task-IsKept,
}
use p2p_demo.Listener.Loop.Start.{Sockets, initialize, initialize-IsNode}
use p2p_demo.Listener.Loop.{
  Selected, select_failed, ready, timeout, serve_new_peer, serve_request, listen_step, listen_loop,
}

-- `C` says whether the shell connects to peers: without it, it cannot.
module _ (C : Type 0) (files : Files) (net : Net) (dup : Trace → ℕ → ℕ) where
  -- One thing that happens to a node: a handler of the loop returns, or a command of the shell.
  pub data Step : World → World → Type 0 where
    new_peer : (w : World) → Step w (handle_new_peer net w).0
    request :
        (w w' : World) (status : Status)
        → handle_file_download_request files net dup w ≡ ok (w', status)
        → Step w w'
    selected :
        (w w' : World) (rset : List ℕ) (nready : ℕ)
        → handle_peer_select net rset nready w ≡ ok w'
        → Step w w'
    timer : (w : World) → Step w (handle_timer_task net w)
    search : (w : World) (keyword : Bytes) → Step w (com_search net keyword w)
    ping : (w : World) → Step w (com_ping net w)
    connect : C → (w : World) (ip port : ℕ) → Step w (com_connect net ip port w).0

  pub data Reach : World → World → Type 0 where
    here : (w : World) → Reach w w
    next : {u v w : World} → Step u v → Reach v w → Reach u w

  pub Reach-trans : {u v w : World} → Reach u v → Reach v w → Reach u w
  Reach-trans (here w) r = r
  Reach-trans (next s q) r = next s (Reach-trans q r)

  request-listener :
      (w w' : World) (status : Status)
      → handle_file_download_request files net dup w ≡ ok (w', status)
      → w'.listener ≡ w.listener
  request-listener w w' status e = rw e at (request-Keeps files net dup w)

  module _ (B : Promise)
      (only : (c : Conf) (ss : List SeedInfo) → B.limit → B.settled c ss → IsPlain c ss)
      (quiet : B.limit → C → ⊥) (n f : ℕ) (g : GivesFresh n f net) where
    Step-IsKept : {u v : World} → Step u v → IsKept B n f net g u → IsKept B n f net g v
    Step-IsKept (new_peer w) k = handle_new_peer-IsNode B n f w k net g
    Step-IsKept (request w w' status e) k = rw (request-listener w w' status e) k
    Step-IsKept (selected w w' rset nready e) k =
        rw e at (handle_peer_select-IsNode B n f net g rset nready w k)
    Step-IsKept (timer w) k = handle_timer_task-IsKept B n f net g only w k
    Step-IsKept (search w keyword) k = com_search-IsNode B n f net keyword w k
    Step-IsKept (ping w) k = com_ping-IsKept B n f net g w k
    Step-IsKept (connect c w ip port) k =
        com_connect-IsKept B n f net g ip port w (λ b. absurd (quiet b c)) k

    pub Reach-IsKept : {u v : World} → Reach u v → IsNode B n f u.listener → IsNode B n f v.listener
    Reach-IsKept (here w) k = k
    Reach-IsKept (next s r) k = Reach-IsKept r (Step-IsKept s k)

  abbrev pub Reaches : World → Outcome World → Type 0
  Reaches w m = OnReturn (λ w'. Reach w w') m

  then_Reaches : {u v : World} (m : Outcome World) → Reach u v → Reaches v m → Reaches u m
  then_Reaches (ok w) r s = Reach-trans r s
  then_Reaches (throw e) r s = tt
  then_Reaches undefined r s = tt

  one-Step : {u v : World} → Step u v → Reach u v
  one-Step {v = v} s = next s (here v)

  serve_new_peer-Reach :
      (rset : List ℕ) (nready : ℕ) (w : World)
      → Reach w (serve_new_peer files net dup rset nready w).0
  unfolding serve_new_peer
  serve_new_peer-Reach rset nready w = elim (Bool-cases (fd_isset w.neighborfd rset)) [
    | inl is_ready ↦ rw (serve_new_peer, is_ready) (one-Step (new_peer w))
    | inr idle ↦ rw (serve_new_peer, idle) (here w)
  ]

  serve_request-Reaches :
      (rset : List ℕ) (nready : ℕ) (w : World)
      → OnReturn (λ (r : World × ℕ). Reach w r.0) (serve_request files net dup rset nready w)
  unfolding serve_request
  serve_request-Reaches rset nready w = elim (Bool-cases (fd_isset w.filefd rset)) [
    | inl is_ready ↦
        rw (serve_request, is_ready)
          (OnReturn-bind (λ _. Unit {0}) (λ (r : World × ℕ). Reach w r.0)
            (handle_file_download_request files net dup w) _
            (OnReturn-self _ (handle_file_download_request files net dup w) (λ _ _. tt))
            (λ r e _. one-Step (request w r.0 r.1 e)))
    | inr idle ↦ rw (serve_request, idle) (here w)
  ]

  pub listen_step-Reaches : (a : Selected) (w : World) → Reaches w (listen_step files net dup a w)
  unfolding listen_step
  listen_step-Reaches select_failed w = here w
  listen_step-Reaches timeout w = one-Step (timer w)
  listen_step-Reaches (ready rset nready) w =
      let (w₁, n₁) = serve_new_peer files net dup rset nready w in
      let to_first : Reach w w₁ = serve_new_peer-Reach rset nready w in
      OnReturn-bind (λ (r : World × ℕ). Reach w₁ r.0) (λ w'. Reach w w')
        (serve_request files net dup rset n₁ w₁) _ (serve_request-Reaches rset n₁ w₁)
        (λ r e to_second.
          let to_here = Reach-trans to_first to_second in
          OnReturn-if (λ w'. Reach w w') (r.1 == 0) (ok r.0) (handle_peer_select net rset r.1 r.0)
            to_here
            (OnReturn-self (λ w'. Reach w w') (handle_peer_select net rset r.1 r.0)
              (λ w' e'. Reach-trans to_here (one-Step (selected r.0 w' rset r.1 e')))))

  listen_loop-Reaches :
      (answers : List Selected) (w : World) → Reaches w (listen_loop files net dup answers w)
  unfolding listen_loop
  listen_loop-Reaches [] w = here w
  listen_loop-Reaches (answer ∷ answers) w =
      OnReturn-bind (λ w'. Reach w w') (λ w'. Reach w w') (listen_step files net dup answer w)
        (listen_loop files net dup answers) (listen_step-Reaches answer w)
        (λ w' e r.
          then_Reaches (listen_loop files net dup answers w') r (listen_loop-Reaches answers w'))

  -- Whatever `select` answers, where the loop comes to the end of the answers it has gone through
  -- such steps only.
  pub listen_loop-Reach :
      (answers : List Selected) (w w' : World)
      → listen_loop files net dup answers w ≡ ok w'
      → Reach w w'
  listen_loop-Reach answers w w' e = rw e at (listen_loop-Reaches answers w)

-- However the handlers of the loop, the timers, and the searches, pings and connections of the
-- shell follow each other, the table of peers stays sorted and in step with the watched
-- descriptors and `maxfd`, on a system that hands out no listening socket again. Nothing is
-- said of the limit of peers.
pub Reach-IsNode :
    (files : Files) (net : Net) (dup : Trace → ℕ → ℕ) (n f : ℕ) {u v : World}
    → GivesFresh n f net
    → Reach (Unit {0}) files net dup u v
    → IsNode unlimited n f u.listener
    → IsNode unlimited n f v.listener
Reach-IsNode files net dup n f g r k =
    Reach-IsKept (Unit {0}) files net dup unlimited (λ c ss b. absurd b) (λ b _. absurd b) n f g r k

-- In a plain node, where the shell connects to no peer, the number of peers never goes above the
-- limit.
pub Reach-plain :
    (files : Files) (net : Net) (dup : Trace → ℕ → ℕ) (n f : ℕ) {u v : World}
    → GivesFresh n f net
    → Reach ⊥ files net dup u v
    → IsNode plain n f u.listener
    → IsNode plain n f v.listener
Reach-plain files net dup n f g r k =
    Reach-IsKept ⊥ files net dup plain (λ c ss b h. h) (λ b c. c) n f g r k

module _ (files : Files) (net start : Net) (dup : Trace → ℕ → ℕ) (s : Sockets) (w w' : World)
    (answers : List Selected) (alone : w.peers ≡ [])
    (began : (initialize files start s w).1 ≡ success)
    (g : GivesFresh
      (initialize files start s w).0.neighborfd
      (initialize files start s w).0.filefd
      net)
    (r : listen_loop files net dup answers (initialize files start s w).0 ≡ ok w') where
  abbrev w₀ : World
  w₀ = (initialize files start s w).0

  -- A node that `initialize` has set up from a state with no peers keeps its table of peers sorted
  -- and in step with the watched descriptors and `maxfd`, whatever `select` answers and for as long
  -- as the loop of `startlisten` comes to the next answer, on a system that hands out no listening
  -- socket again.
  listen_loop-IsNode : IsNode unlimited w₀.neighborfd w₀.filefd w'.listener
  listen_loop-IsNode =
      Reach-IsNode files net dup w₀.neighborfd w₀.filefd g
        (listen_loop-Reach (Unit {0}) files net dup answers w₀ w' r)
        (initialize-IsNode unlimited files start s w alone began tt)

  -- Where the node is no seed node and has read no more seeds than it may have peers, the loop of
  -- `startlisten` never takes the number of peers above the limit, whatever `select` answers, from
  -- a state that `initialize` has set up with no peers, on a system that hands out no listening
  -- socket again.
  pub listen_loop-IsWithinLimit : IsPlain w₀.conf w₀.seed_nodes → IsWithinLimit w'.listener
  listen_loop-IsWithinLimit p =
      (Reach-plain files net dup w₀.neighborfd w₀.filefd g
          (listen_loop-Reach ⊥ files net dup answers w₀ w' r)
          (initialize-IsNode plain files start s w alone began p)).within
        tt
