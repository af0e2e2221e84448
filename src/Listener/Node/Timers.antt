-- ===== src/Listener/Node/Timers.antt =====
-- Timers and connections keep the invariant of a node. The limit of peers they keep only in a plain
-- node, and where there is room.
use p2p_demo.Prelude.{
  ℕ, suc, ◌+◌, ◌≤◌, ◌≡◌, ap, arith, length, refl, inl, inr, Bool, true, false, not, List, [], ◌∷◌,
  ltb, ◌==◌, if◌then◌else◌, Bool-cases,
}
use p2p_demo.Wire.{u16}
use p2p_demo.Listener.State.{
  Peers, Conf, World, Net, SeedInfo, TimerTask, TaskName, ping, clean_hist,
}
use p2p_demo.Listener.Peers.{has_peer, peer_full, connect_peer, max_peer_size}
use p2p_demo.Listener.Peers.Invariant.Settings.{connect_peer-settings, length-connect_peer}
use p2p_demo.Listener.Peers.Invariant.{GivesFresh}
use p2p_demo.Listener.History
use p2p_demo.Listener.Commands.{
  connect_seeds_of, connect_seeds, ping_peers, ping_task, run_task, run_tasks, handle_timer_task,
  com_ping, com_connect,
}
use p2p_demo.Listener.Commands.Laws.{peers_or_none}
use p2p_demo.Listener.Node.{Promise, IsPlain, IsNode, Same-IsNode, connect_peer-IsNode}
use p2p_demo.Listener.Node.Outgoing.{ping_peers-IsNode}

empty_peers :
    (ps : Peers) → (elim ps as (λ _. Bool) [ [] ↦ true | p ∷ qs ↦ false ]) ≡ true → ps ≡ []
empty_peers [] e = refl
empty_peers (p ∷ ps) e = absurd (cc e)

module _ (B : Promise) (n f : ℕ) (net : Net) (g : GivesFresh n f net) where
  abbrev pub IsKept : World → Type 0
  IsKept w = IsNode B n f w.listener

  IsKept-if :
      (b : Bool) (v w : World)
      → (b ≡ true → IsKept v)
      → (b ≡ false → IsKept w)
      → IsKept (if b then v else w)
  IsKept-if true v w h k = h refl
  IsKept-if false v w h k = k refl

  -- There is room for a peer more, where the limit counts.
  abbrev HasRoom : World → ℕ → Type 0
  HasRoom w k = B.limit → length w.peers + k ≤ max_peer_size w.conf

  pub com_connect-IsKept :
      (ip port : ℕ) (w : World) → HasRoom w 1 → IsKept w → IsKept (com_connect net ip port w).0
  unfolding com_connect
  com_connect-IsKept ip port w r v = elim (Bool-cases (has_peer w.listener ip (u16 port))) [
    | inl old ↦ rw (com_connect, old) v
    | inr new ↦
        rw (com_connect, new)
          (connect_peer-IsNode B n f w v net g ip (u16 port) (λ b. omega (arith, r b)))
  ]

  connect_peer-HasRoom :
      (ip port k : ℕ) (w : World) → HasRoom w (suc k) → HasRoom (connect_peer net ip port w).0 k
  connect_peer-HasRoom ip port k w r b =
      let c : (connect_peer net ip port w).0.conf ≡ w.conf =
        ap (λ (p : Conf × List SeedInfo). p.0) (connect_peer-settings net ip port w) in
      rw c (omega (arith, r b, length-connect_peer net ip port w))

  connect_seeds_of-IsKept :
      (ss : List SeedInfo) (w : World)
      → HasRoom w (length ss)
      → IsKept w
      → IsKept (connect_seeds_of net ss w)
  unfolding connect_seeds_of
  connect_seeds_of-IsKept [] w r v = v
  connect_seeds_of-IsKept (si ∷ ss) w r v =
      elim (Bool-cases (has_peer w.listener si.ip (u16 si.port))) [
        | inl old ↦
            rw (connect_seeds_of, old) (connect_seeds_of-IsKept ss w (λ b. omega (arith, r b)) v)
        | inr new ↦
            rw (connect_seeds_of, new)
              (connect_seeds_of-IsKept ss _
                (connect_peer-HasRoom si.ip (u16 si.port) (length ss) w r)
                (connect_peer-IsNode B n f w v net g si.ip (u16 si.port) (λ b. omega (arith, r b))))
      ]

  pub com_ping-IsKept : (w : World) → IsKept w → IsKept (com_ping net w)
  unfolding com_ping
  com_ping-IsKept w v = elim (peers_or_none w.peers) [
    | inl e ↦ rw (com_ping, e) v
    | inr (p, ps, e) ↦
        rw (com_ping, e)
          (IsKept-if (peer_full w.listener) w (ping_peers net w) (λ _. v)
            (λ _. ping_peers-IsNode B n f net w v))
  ]

  -- Where the limit counts, the node is plain.
  module _ (only : (c : Conf) (ss : List SeedInfo) → B.limit → B.settled c ss → IsPlain c ss) where
    ping_task-IsKept : (w : World) → IsKept w → IsKept (ping_task net w)
    unfolding ping_task connect_seeds
    ping_task-IsKept w v =
        let alone : Bool = elim w.peers [ [] ↦ true | p ∷ ps ↦ false ] in
        let pinged : World = if peer_full w.listener then w else ping_peers net w in
        let seeded : Bool = not (w.conf.is_seed_node == 0) in
        let rest : World = if seeded then connect_seeds net w else pinged in
        IsKept-if alone (connect_seeds net w) rest
          (λ e.
            connect_seeds_of-IsKept w.seed_nodes w
              (λ b. omega (
                arith,
                ap length (empty_peers w.peers e),
                (only w.conf w.seed_nodes b v.settled).few,
              ))
              v)
          (λ _.
            IsKept-if seeded (connect_seeds net w) pinged
              (λ e.
                connect_seeds_of-IsKept w.seed_nodes w
                  (λ b. absurd (ground (arith, e, (only w.conf w.seed_nodes b v.settled).no_seed)))
                  v)
              (λ _.
                IsKept-if (peer_full w.listener) w (ping_peers net w) (λ _. v)
                  (λ _. ping_peers-IsNode B n f net w v)))

    run_task-IsKept : (t : TaskName) (w : World) → IsKept w → IsKept (run_task net t w)
    unfolding run_task History.clean_hist
    run_task-IsKept ping w v = ping_task-IsKept w v
    run_task-IsKept clean_hist w v =
        Same-IsNode B n f _ w.listener
          (record {
            neighborfd = refl;
            filefd = refl;
            fdset = refl;
            maxfd = refl;
            peers = refl;
            conf = refl;
            seed_nodes = refl;
          })
          v

    run_tasks-IsKept :
        (now : ℕ) (ts : List TimerTask) (w : World) → IsKept w → IsKept (run_tasks net now ts w).0
    unfolding run_tasks
    run_tasks-IsKept now [] w v = v
    run_tasks-IsKept now (task ∷ ts) w v = run_tasks-IsKept now ts _ (
        IsKept-if (ltb (task.last_exec + task.interval) now) _ w
          (λ _. run_task-IsKept task.name w v) (λ _. v))

    pub handle_timer_task-IsKept : (w : World) → IsKept w → IsKept (handle_timer_task net w)
    unfolding handle_timer_task
    handle_timer_task-IsKept w v =
        Same-IsNode B n f _ _
          (record {
            neighborfd = refl;
            filefd = refl;
            fdset = refl;
            maxfd = refl;
            peers = refl;
            conf = refl;
            seed_nodes = refl;
          })
          (run_tasks-IsKept (net.now w.trace) w.time_task_queue w v)
