-- ===== src/Listener/Commands.antt =====
-- What the node starts by itself or on a command: pings, searches, connections and timers.
pub mod Laws
pub mod Timers
use p2p_demo.Prelude.{
  ℕ, ◌+◌, Bool, true, false, not, List, [], ◌∷◌, none, some, ltb, ◌==◌, if◌then◌else◌,
}
use p2p_demo.Prelude.Maps.{insert}
use p2p_demo.Wire.{Bytes, u8, u16}
use p2p_demo.Packet.Header.{to_string, set_id, new_id}
use p2p_demo.Packet.Ping.{Ping, ping_class, new_ping}
use p2p_demo.Packet.Query.{Query, query_class, new_query}
use p2p_demo.Packet.QueryHits.{new_query_hits}
use p2p_demo.Packet.Message.{hexid}
use p2p_demo.Listener.State.{
  World, Net, Peers, SeedInfo, TimerTask, TaskName, ping, clean_hist, Status, success, failure,
  note, wrote, closed, drew, draws, bytes_key,
}
use p2p_demo.Listener.Peers.{has_peer, get_peer_fd, peer_full, connect_peer, erase_peer}
use p2p_demo.Listener.History
use p2p_demo.Listener.Search
use p2p_demo.Listener.Search.{save_query_result}

-- A peer whose write failed is erased, which closes its socket, and the socket is closed again.
unfoldable pub drop_peer : ℕ → World → World
drop_peer sockfd w = note (closed sockfd) (erase_peer sockfd w)

module _ (net : Net) where
  -- `ping_peer` with an id; the local Ping draws an id of its own first.
  unfoldable pub ping_peer : ℕ → Bytes → World → World × Status
  unfolding new_ping
  ping_peer sockfd id w =
      let fresh = set_id (new_ping (draws net w)) id in
      let msg : Ping = record fresh { packet = record (fresh.packet) { ttl = u8 w.conf.ttl } } in
      let key = hexid msg.packet in
      let str = (to_string msg).1 in
      let w' : World = record w {
        listener = record (w.listener) {
          my_ping_hist =
              insert key (record { key = key; sockfd = sockfd; ts = net.now (drew ∷ w.trace) })
                w.my_ping_hist;
        };
        trace = wrote sockfd str ∷ drew ∷ w.trace;
      } in
      if net.writes (drew ∷ w.trace) sockfd str
      then (w', success)
      else (drop_peer sockfd w', failure)

  unfoldable pub ping_each : Bytes → Peers → World → World
  ping_each id [] w = w
  ping_each id ((fd, p) ∷ ps) w = ping_each id ps (ping_peer fd id w).0

  -- All peers get one id, that of a local Ping.
  unfoldable pub ping_peers : World → World
  unfolding ping_each
  ping_peers w = ping_each (new_id (draws net w)) w.peers (note drew w)

  unfoldable pub connect_seeds_of : List SeedInfo → World → World
  connect_seeds_of [] w = w
  connect_seeds_of (si ∷ ss) w = connect_seeds_of ss (
      if has_peer w.listener si.ip (u16 si.port)
      then w
      else (connect_peer net si.ip (u16 si.port) w).0)

  unfoldable pub connect_seeds : World → World
  unfolding connect_seeds_of
  connect_seeds w = connect_seeds_of w.seed_nodes w

  unfoldable pub query_peer : ℕ → Bytes → Bytes → World → World × Status
  unfolding new_query
  query_peer sockfd keyword id w =
      let fresh = set_id (new_query (draws net w)) id in
      let msg : Query = record fresh {
        packet = record (fresh.packet) { ttl = u8 w.conf.ttl };
        criteria = keyword;
      } in
      let str = (to_string msg).1 in
      let w' : World = record w {
        listener = record (w.listener) { my_query_hexid = hexid msg.packet };
        trace = wrote sockfd str ∷ drew ∷ w.trace;
      } in
      if net.writes (drew ∷ w.trace) sockfd str
      then (w', success)
      else (drop_peer sockfd w', failure)

  unfoldable pub query_each : Bytes → Bytes → Peers → World → World
  query_each keyword id [] w = w
  query_each keyword id ((fd, p) ∷ ps) w = query_each keyword id ps (query_peer fd keyword id w).0

  unfoldable pub query_peers : Bytes → World → World
  unfolding query_each
  query_peers keyword w = query_each keyword (new_id (draws net w)) w.peers (note drew w)

  -- The result is `num_hits`.
  unfoldable pub query_local : Bytes → World → World × ℕ
  query_local keyword w =
      let msg = Search.query w.listener keyword (new_query_hits (draws net w)) in
      (save_query_result msg (note drew w), msg.num_hits)

  -- The search starts from an empty result set, and asks the peers where there are any.
  unfoldable pub com_search : Bytes → World → World
  com_search keyword w =
      let cleared : World = record w {
        listener = record (w.listener) {
          my_query_hexid = [];
          my_query_keyword = keyword;
          query_result_set = [];
        };
      } in
      let searched = (query_local keyword cleared).0 in
      elim searched.peers [ [] ↦ searched | p ∷ ps ↦ query_peers keyword searched ]

  unfoldable pub com_ping : World → World
  com_ping w = elim w.peers [ [] ↦ w | p ∷ ps ↦ if peer_full w.listener then w else ping_peers w ]

  -- With the address that the host name has; the port is an `int`.
  unfoldable pub com_connect : ℕ → ℕ → World → World × Status
  com_connect ip port w =
      if has_peer w.listener ip (u16 port) then (w, success) else connect_peer net ip (u16 port) w

  unfoldable pub ping_task : World → World
  unfolding ping_peers connect_seeds
  ping_task w =
      let alone : Bool = elim w.peers [ [] ↦ true | p ∷ ps ↦ false ] in
      if alone
      then connect_seeds w
      else if not (w.conf.is_seed_node == 0)
      then connect_seeds w
      else if peer_full w.listener
      then w
      else ping_peers w

  unfoldable pub run_task : TaskName → World → World
  unfolding ping_task
  run_task ping w = ping_task w
  run_task clean_hist w = History.clean_hist net w

  -- The loop over `timeTaskQueue` at the time `now`, with the tasks as they are left.
  unfoldable pub run_tasks : ℕ → List TimerTask → World → World × List TimerTask
  run_tasks now [] w = (w, [])
  run_tasks now (tt ∷ ts) w =
      let due = ltb (tt.last_exec + tt.interval) now in
      let (w', ts') = run_tasks now ts (if due then run_task tt.name w else w) in
      (w', (if due then record tt { last_exec = now } else tt) ∷ ts')

  unfoldable pub handle_timer_task : World → World
  handle_timer_task w =
      let (w', tasks) = run_tasks (net.now w.trace) w.time_task_queue w in
      record w' { listener = record (w'.listener) { time_task_queue = tasks } }

-- The first seed that is a peer, under a descriptor above 0, is erased.
unfoldable pub try_remove_one_seed_of : List SeedInfo → World → World
try_remove_one_seed_of [] w = w
try_remove_one_seed_of (si ∷ ss) w =
    let next = try_remove_one_seed_of ss w in
    elim (get_peer_fd si.ip (u16 si.port) w.peers) [
      | none ↦ next
      | some fd ↦ if ltb 0 fd then erase_peer fd w else next
    ]
