-- ===== src/Tests/Nodes.antt =====
-- Listener.cpp on a small network.
use p2p_demo.Prelude.{
  ◌+◌, ◌^◌, ◌<◌, ◌≡◌, refl, sym, ap, inl, inr, Bool-cases, ◌==◌, ◌↔◌, [], ◌∷◌, length, true, none,
  some, All, arith, take, map,
}
use p2p_demo.Prelude.Maps.{IsSorted, lookup}
use p2p_demo.Outcome.{ok, throw, bad_alloc}
use p2p_demo.Wire.CString.{codes}
use p2p_demo.Wire.{u8, byte_at, int2string}
use p2p_demo.Packet.Header.{to_string, parse_string}
use p2p_demo.Packet.QueryHits.{QueryHits, hits_class, new_query_hits, results_string}
use p2p_demo.Packet.QueryResult
use p2p_demo.Packet.OptData
use p2p_demo.Util.Text.{to_upper, bytes_before, contains}
use p2p_demo.Listener.State.{World, TaskName, Client, fd_key, bytes_key}
use p2p_demo.Listener.Peers.{max_peer_size}
use p2p_demo.Listener.Peers.Invariant.{IsLinked, GivesFresh, fd_isset}
use p2p_demo.Listener.History.{clean}
use p2p_demo.Listener.History.Laws.{lookup-clean, fresh_only}
use p2p_demo.Listener.Search.{matches, results_for}
use p2p_demo.Listener.Search.Laws.{Inside, matches_iff, IsShared, answer, query_answered}
use p2p_demo.Listener.Commands.{handle_timer_task, run_tasks, com_search}
use p2p_demo.Listener.Commands.Laws.{com_search-query_result_set}
use p2p_demo.Listener.Node.{unlimited, limited, IsNode}
use p2p_demo.Listener.Node.Select.{Ends, handle_peer_select-IsNode}
use p2p_demo.Listener.Receive.{handle_peer_select, handle_peer_msg, read_one_packet}
use p2p_demo.Listener.Receive.Safety.{handle_peer_msg_total, read_one_packet_huge}
use p2p_demo.Tests.Data.{an_id, a_file, listener, world, client, net, peer, huge_head, old_hist}

pub peers-IsSorted : IsSorted listener.peers
peers-IsSorted = ((refl, tt), (tt, tt))

total_example : (w : World) × (handle_peer_msg net 5 huge_head world ≡ ok w)
total_example = handle_peer_msg_total net 5 huge_head world

listener-IsLinked : IsLinked 3 4 listener
unfolding lookup fd_isset
listener-IsLinked = record {
  sockets = (refl, refl);
  peer_ok = λ fd p h. ground arith;
  watched = λ fd h. elim (Bool-cases (5 == fd)) [
    | inl e ↦ inr (inr (peer 5, ground (arith, e)))
    | inr ne ↦ elim (Bool-cases (6 == fd)) [
      | inl e ↦ inr (inr (peer 6, ground (arith, e, ne)))
      | inr nor ↦ elim (Bool-cases (3 == fd)) [
        | inl e ↦ inl (ground (arith, e))
        | inr neither ↦ inr (inl (ground (arith, h, ne, nor, neither)))
      ]
    ]
  ];
  listening = (refl, refl);
  apart = (refl, refl);
}

some_fd : (c d : Client) → some c ≡ some d → c.fd ≡ d.fd
some_fd c d e = ap (λ o. elim o [ none ↦ 0 | some x ↦ x.fd ]) e

pub net-GivesFresh : GivesFresh 3 4 net
net-GivesFresh = record {
  fresh_socket = λ t fd e. ground arith;
  fresh_client = λ t c e. rw (sym (some_fd client c e)) (omega arith);
}

room : length listener.peers < max_peer_size listener.conf
unfolding max_peer_size
room = omega arith

pub listener-IsNode : IsNode limited 3 4 listener
listener-IsNode = record {
  linked = listener-IsLinked;
  within = omega (arith, room);
  settled = tt;
  sorted = peers-IsSorted;
}

-- With nothing said of the limit.
pub world-IsNode : IsNode unlimited 3 4 listener
world-IsNode = record {
  linked = listener-IsLinked;
  within = λ b. absurd b;
  settled = tt;
  sorted = peers-IsSorted;
}

selected-IsNode :
    Ends net (λ w'. IsNode limited 3 4 w'.listener) (handle_peer_select net (5 ∷ 6 ∷ []) 2 world)
selected-IsNode =
    handle_peer_select-IsNode limited 3 4 net net-GivesFresh (5 ∷ 6 ∷ []) 2 world listener-IsNode

abbrev busy : World
busy = record world {
  listener = record listener {
    time_task_queue =
        record { name = TaskName.ping; last_exec = 50; interval = 10 }
        ∷ record { name = TaskName.clean_hist; last_exec = 50; interval = 60 }
        ∷ [];
  };
}

-- Only the first task is due at the time 100.
run_once : map (λ task. task.last_exec) (handle_timer_task net busy).time_task_queue ≡ 100 ∷ 50 ∷ []
unfolding handle_timer_task run_tasks
run_once = refl

searched_set :
    (com_search net (codes "ON") world).query_result_set
    ≡ map
        (λ r. record { ip = 0x0A000001; port = 6347; qr = r })
        (results_for (codes "ON") listener.local_files)
searched_set = com_search-query_result_set net (codes "ON") world

cleaned : lookup (1 ∷ []) (clean 100 old_hist) ≡ fresh_only 100 (lookup (1 ∷ []) old_hist)
unfolding bytes_before
cleaned = lookup-clean 100 (1 ∷ []) old_hist ((refl, tt), (tt, tt))

matched : (matches a_file (codes "ON") ≡ true) ↔ Inside (to_upper (codes "ON")) a_file.keywords
matched = matches_iff a_file (codes "ON")

pub shared : All IsShared listener.local_files
shared = ((λ e. cc, omega arith), tt)

short : length (results_string (results_for (codes "ON") listener.local_files)) + 27 < 2 ^ 32
unfolding results_for matches contains to_upper results_string QueryResult.to_string
    OptData.to_string int2string
short = omega arith

answered :
    (m : QueryHits) × (parse_string
        (new_query_hits [])
        (to_string (answer listener (codes "ON") [] an_id)).1
      ≡ ok m)
    × (m.packet.id ≡ an_id)
    × (m.ip ≡ listener.hostip)
    × (m.result_set
        ≡ take
            (u8 (length (results_for (codes "ON") listener.local_files)))
            (results_for (codes "ON") listener.local_files))
answered =
    query_answered listener (codes "ON") [] an_id shared refl (omega arith) short
      (new_query_hits [])

huge_example : read_one_packet net 5 world ≡ throw bad_alloc
huge_example =
    read_one_packet_huge net 5 128 huge_head world refl refl (unfold byte_at in refl) (omega arith)
