-- ===== src/Tests/Loops.antt =====
-- The loop of the listening thread on a small network.
use p2p_demo.Prelude.{ℕ, ◌+◌, ◌≡◌, arith, refl, true, [], ◌∷◌, some, none, length}
use p2p_demo.Outcome.{ok}
use p2p_demo.Util.Files.{Files, file_exists}
use p2p_demo.Listener.State.{World, Net, Trace, success}
use p2p_demo.Listener.Config.{read_local_file_conf, read_local_seed_conf}
use p2p_demo.Listener.Peers.{max_peer_size}
use p2p_demo.Listener.Peers.Invariant.{GivesFresh}
use p2p_demo.Listener.Peers.Invariant.Limit.{IsWithinLimit}
use p2p_demo.Listener.Commands.{handle_timer_task}
use p2p_demo.Listener.Node.{IsPlain}
use p2p_demo.Listener.Loop.{listen_loop, listen_step, timeout, select_failed}
use p2p_demo.Listener.Loop.Start.{
  Sockets, initialize, with_neighbors, with_files, open_listening, begin,
}
use p2p_demo.Listener.Loop.Reach.{listen_loop-IsWithinLimit}
use p2p_demo.Tests.Data.{listener, world, net}
use p2p_demo.Tests.Nodes.{net-GivesFresh}

abbrev no_files : Files
no_files = record { content = λ name. none; st_size = λ name. 0; hosts = λ name. none }

-- Before any call the descriptor 3 is free, then 4.
abbrev pub start : Net
start = record net { socket = λ t. some (3 + length t) }

abbrev pub sockets : Sockets
sockets = record { binds = λ t fd port. true; listens = λ t fd. true; host_name = none }

abbrev new_world : World
new_world = record world { listener = record listener { peers = [] } }

abbrev pub dup : Trace → ℕ → ℕ
dup t fd = fd + 10

started : (initialize no_files start sockets new_world).1 ≡ success
unfolding initialize with_neighbors with_files open_listening
started = refl

still_fresh :
    GivesFresh
      (initialize no_files start sockets new_world).0.neighborfd
      (initialize no_files start sockets new_world).0.filefd
      net
unfolding initialize with_neighbors with_files open_listening begin read_local_file_conf
    read_local_seed_conf file_exists
still_fresh = net-GivesFresh

abbrev timed : World
timed = handle_timer_task net (initialize no_files start sockets new_world).0

waited :
    listen_loop no_files net dup
      (select_failed ∷ timeout ∷ [])
      (initialize no_files start sockets new_world).0
    ≡ ok timed
unfolding listen_loop listen_step
waited = refl

settled :
    IsPlain
      (initialize no_files start sockets new_world).0.conf
      (initialize no_files start sockets new_world).0.seed_nodes
unfolding initialize with_neighbors with_files open_listening begin read_local_file_conf
    read_local_seed_conf file_exists max_peer_size
settled = record { no_seed = refl; few = omega arith }

limit_example : IsWithinLimit timed.listener
limit_example =
    listen_loop-IsWithinLimit no_files net start dup sockets new_world timed
      (select_failed ∷ timeout ∷ []) refl started still_fresh waited settled
