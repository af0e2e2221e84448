-- ===== src/G04/Session.antt =====
-- The whole program: `G04::run` with `startListner`, and the turns that the two threads take.
pub mod Laws
use p2p_demo.Prelude.{
  ℕ, zero, suc, Bool, true, false, ◌||◌, not, List, [], ◌∷◌, Option, none, some, if◌then◌else◌,
}
use p2p_demo.Outcome.{Outcome, ok, undefined, ◌>>=◌}
use p2p_demo.Wire.{Bytes}
use p2p_demo.Util.Files.{Files}
use p2p_demo.Listener.State.{Listener, Conf, World, Net, Trace, Status, success, failure}
use p2p_demo.Listener.Loop.{Selected, listen_step, close_all}
use p2p_demo.Listener.Loop.Start.{Sockets, initialize}
use p2p_demo.G04.State.{G04}
use p2p_demo.G04.Conf.{read_conf}
use p2p_demo.G04.Commands.{Shell, Host, print, with_world}
use p2p_demo.G04.Shell.{run_line}

-- `Listener::Listener`: the two descriptors are -1.
unfoldable pub new_listener : Conf → Listener
new_listener conf = record {
  conf = conf;
  neighborfd = 0xFFFFFFFF;
  filefd = 0xFFFFFFFF;
  fdset = [];
  maxfd = 0;
  seed_nodes = [];
  peers = [];
  local_files = [];
  my_query_hexid = [];
  my_query_keyword = [];
  query_result_set = [];
  my_ping_hist = [];
  ping_hist = [];
  pong_hist = [];
  query_hist = [];
  queryhits_hist = [];
  time_task_queue = [];
  hostip = 0;
}

-- The shell with the listener it talks to. `watching` says whether `initialize` came to set
-- `fdset`, which the constructor leaves as it is.
pub record Session : Type 0 where
  pub shell : Shell
  pub watching : Bool

-- The result of `initialize` is not looked at.
unfoldable pub start_listner : Files → Net → Sockets → G04 → Session
start_listner files net s g =
    let w : World = record { listener = new_listener g.conf; trace = [] } in
    let (w', status) = initialize files net s w in
    record {
      shell = record { g04 = g; world = w'; downloads = []; printed = [] };
      watching = elim status [ success ↦ true | failure ↦ false ];
    }

-- What comes next: a line that is typed, or an answer to `select` in the other thread.
pub data Turn : Type 0 where
  typed : Bytes → Turn
  answered : Selected → Turn

module _ (host : Host) (dup : Trace → ℕ → ℕ) where
  -- One round of the loop of `run`, or of that of `startlisten`. A round of the second with an
  -- `fdset` that was not set is undefined.
  unfoldable pub take_turn : Turn → Session → Outcome Session
  take_turn (typed line) s =
      if s.shell.g04.quits
      then ok s
      else run_line host line s.shell >>= (λ sh. ok (record s { shell = sh }))
  take_turn (answered answer) s =
      if s.watching
      then listen_step (host.files) (host.net) dup answer s.shell.world
        >>= (λ w. ok (record s { shell = with_world s.shell w }))
      else undefined

  unfoldable pub take_turns : List Turn → Session → Outcome Session
  take_turns [] s = ok s
  take_turns (turn ∷ turns) s = take_turn turn s >>= take_turns turns

-- Up to ten looks at `hasStoped`, 300 ms apart.
unfoldable pub has_stopped_within : ℕ → List Bool → Bool
has_stopped_within zero looks = false
has_stopped_within (suc k) [] = false
has_stopped_within (suc k) (stopped ∷ looks) = stopped || has_stopped_within k looks

-- How `run` ends: the last state, and whether it sent the threads a SIGINT, which is ignored.
pub record Ended : Type 0 where
  pub session : Session
  pub signalled : Bool

-- Behind the loop of the shell: the other thread sees the flag and ends, and is waited for.
unfoldable pub stop : List Bool → Session → Ended
stop looks s = record {
  session = record s { shell = with_world (print s.shell (b'\n' ∷ [])) (close_all s.shell.world) };
  signalled = not (has_stopped_within 10 looks);
}

-- Nothing where `readConf` fails. `opening` is the system while the listener is set up.
unfoldable pub run :
    Host → Net → (Trace → ℕ → ℕ) → Sockets → List Turn → List Bool → G04 → Outcome (Option Ended)
run host opening dup s turns looks g =
    let (g', status) = read_conf (host.files) g in
    elim status [
      | failure ↦ ok none
      | success ↦
          take_turns host dup turns (start_listner (host.files) opening s g')
          >>= (λ last. ok (some (stop looks last)))
    ]
