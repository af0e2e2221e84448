-- ===== src/Listener/Loop.antt =====
-- `startlisten`: the loop of the listening thread around `select`.
pub mod Start
pub mod Reach
use p2p_demo.Prelude.{ℕ, ◌-◌, Bool, true, false, List, [], ◌∷◌, ◌==◌, if◌then◌else◌}
use p2p_demo.Outcome.{Outcome, ok, ◌>>=◌}
use p2p_demo.Util.Files.{Files}
use p2p_demo.Listener.State.{World, Net, Trace, Peers, note, closed}
use p2p_demo.Listener.Peers.{handle_new_peer}
use p2p_demo.Listener.Peers.Invariant.{fd_isset}
use p2p_demo.Listener.Receive.{handle_peer_select}
use p2p_demo.Listener.Commands.{handle_timer_task}
use p2p_demo.Listener.Download.Serve.{handle_file_download_request}

-- What `select` answers: -1, the descriptors that are ready and their number, or 0 after 2 seconds.
pub data Selected : Type 0 where
  select_failed : Selected
  ready : List ℕ → ℕ → Selected
  timeout : Selected

module _ (files : Files) (net : Net) (dup : Trace → ℕ → ℕ) where
  -- `nready` never goes below 0 here: below 1 the rest is skipped.
  unfoldable pub serve_new_peer : List ℕ → ℕ → World → World × ℕ
  serve_new_peer rset nready w =
      if fd_isset w.neighborfd rset then ((handle_new_peer net w).0, nready - 1) else (w, nready)

  unfoldable pub serve_request : List ℕ → ℕ → World → Outcome (World × ℕ)
  serve_request rset nready w =
      if fd_isset w.filefd rset
      then handle_file_download_request files net dup w >>= (λ r. ok (r.0, nready - 1))
      else ok (w, nready)

  unfoldable pub listen_step : Selected → World → Outcome World
  listen_step select_failed w = ok w
  listen_step timeout w = ok (handle_timer_task net w)
  listen_step (ready rset nready) w = do
    let (w₁, n₁) = serve_new_peer rset nready w
    (w₂, n₂) ← serve_request rset n₁ w₁
    if n₂ == 0 then ok w₂ else handle_peer_select net rset n₂ w₂

  -- The answers of `select` until the flag `bStop` is found set, where the list ends.
  unfoldable pub listen_loop : List Selected → World → Outcome World
  listen_loop [] w = ok w
  listen_loop (answer ∷ answers) w = listen_step answer w >>= listen_loop answers

unfoldable pub close_peers : Peers → World → World
close_peers [] w = w
close_peers ((fd, p) ∷ ps) w = close_peers ps (note (closed fd) w)

-- Behind the loop.
unfoldable pub close_all : World → World
close_all w = close_peers w.peers (note (closed w.filefd) (note (closed w.neighborfd) w))

unfoldable pub startlisten : Files → Net → (Trace → ℕ → ℕ) → List Selected → World → Outcome World
startlisten files net dup answers w =
    listen_loop files net dup answers w >>= (λ w'. ok (close_all w'))
