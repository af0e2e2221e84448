-- ===== src/Tests/Programs.antt =====
-- The program from its start to its end.
use p2p_demo.Prelude.{◌≡◌, refl, inl, inr, true, [], ◌∷◌, some}
use p2p_demo.Prelude.Maps.{lookup, insert}
use p2p_demo.Outcome.{ok}
use p2p_demo.Wire.CString.{is_empty}
use p2p_demo.Util.Text.{bytes_eq, bytes_before}
use p2p_demo.Util.Split.{isspace, trim, ltrim, rtrim, split, split_by_deli, spaced, words}
use p2p_demo.Util.Files.{file_exists, readlines, getlines}
use p2p_demo.Listener.State.{closed, bytes_key}
use p2p_demo.Listener.Peers.Invariant.{GivesFresh}
use p2p_demo.Listener.Node.{IsNode, unlimited}
use p2p_demo.Listener.Config.{
  read_local_file_conf, read_local_seed_conf, read_files, read_seeds, file_line, cut_at, seed_entry,
}
use p2p_demo.Listener.Commands.{handle_timer_task}
use p2p_demo.Listener.Loop.{timeout, listen_step}
use p2p_demo.Listener.Loop.Start.{initialize, with_neighbors, with_files, open_listening, begin}
use p2p_demo.G04.State.{getvar}
use p2p_demo.G04.Conf.{read_conf, read_line, read_lines, set_from, apply_settings}
use p2p_demo.G04.Commands.{with_world}
use p2p_demo.G04.Session.{
  Session, Ended, answered, new_listener, start_listner, take_turn, take_turns, stop, run,
}
use p2p_demo.G04.Session.Laws.{started, Has, run-IsNode, run-closed}
use p2p_demo.Tests.Data.{net}
use p2p_demo.Tests.Nodes.{net-GivesFresh}
use p2p_demo.Tests.Shells.{host, g04}
use p2p_demo.Tests.Loops.{start, sockets, dup}

abbrev session : Session
session = started host start sockets g04

abbrev at_end : Ended
at_end = stop (true ∷ []) (record session {
  shell = with_world (session.shell) (handle_timer_task net session.shell.world);
})

ending : run host start dup sockets (answered timeout ∷ []) (true ∷ []) g04 ≡ ok (some at_end)
unfolding run read_conf apply_settings getvar lookup insert file_exists readlines getlines
    read_lines read_line set_from trim ltrim rtrim isspace is_empty split_by_deli split spaced words
    bytes_eq bytes_before take_turns take_turn listen_step start_listner initialize with_neighbors
    with_files open_listening begin new_listener
ending = refl

set_up : session.watching ≡ true
unfolding start_listner initialize with_neighbors with_files open_listening begin
set_up = refl

fresh : GivesFresh session.shell.world.neighborfd session.shell.world.filefd net
unfolding start_listner initialize with_neighbors with_files open_listening begin new_listener
    read_local_file_conf read_local_seed_conf file_exists read_files read_seeds readlines getlines
    file_line cut_at seed_entry trim ltrim rtrim isspace is_empty
fresh = net-GivesFresh

program_example :
    IsNode unlimited session.shell.world.neighborfd session.shell.world.filefd
      at_end.session.shell.world.listener
program_example =
    run-IsNode host start dup sockets (answered timeout ∷ []) (true ∷ []) g04 at_end ending set_up
      fresh

closed_example : Has (closed at_end.session.shell.world.filefd) at_end.session.shell.world.trace
closed_example =
    run-closed host start dup sockets (answered timeout ∷ []) (true ∷ []) g04 at_end ending
      at_end.session.shell.world.filefd (inr (inl refl))
