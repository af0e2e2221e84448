-- ===== src/Listener/Loop/Start.antt =====
-- `Listener::initialize`: the state in which the loop begins.
use p2p_demo.Prelude.{
  ℕ, ◌≡◌, refl, ◌∙◌, inl, inr, ◌⊎◌, Bool, true, false, ◌&&◌, List, [], ◌∷◌, ◌++◌, Option, none,
  some, ltb, ◌==◌, if◌then◌else◌, arith, Bool-cases,
}
use p2p_demo.Prelude.Maps.{lookup}
use p2p_demo.Wire.{Bytes}
use p2p_demo.Util.Files.{Files, file_exists, host2ip}
use p2p_demo.Listener.State.{
  World, Net, Trace, Listener, TimerTask, ping, clean_hist, Status, success, failure, fd_key, note,
  opened, with_listener,
}
use p2p_demo.Listener.Config.{read_local_file_conf, read_local_seed_conf}
use p2p_demo.Listener.Peers.{fd_set}
use p2p_demo.Listener.Peers.Invariant.{fd_isset, fd_isset-fd_set}
use p2p_demo.Listener.Node.{Promise, IsNode}

-- Whether `bind` of a descriptor to a port and `listen` succeed, and what `gethostname` gives.
pub record Sockets : Type 0 where
  pub binds : Trace → ℕ → ℕ → Bool
  pub listens : Trace → ℕ → Bool
  pub host_name : Option Bytes

-- `getLocalIP`
unfoldable pub get_local_ip : Files → Sockets → ℕ
get_local_ip files s = elim s.host_name [ none ↦ 0xFFFFFFFF | some target ↦ host2ip files target ]

-- A socket that listens at a port: `bind` fails on the descriptor -1.
unfoldable pub open_listening : Net → Sockets → ℕ → World → Option ℕ
open_listening net s port w = elim (net.socket w.trace) [
  | none ↦ none
  | some listenfd ↦
      let t = opened ∷ w.trace in
      if s.binds t listenfd port && s.listens t listenfd then some listenfd else none
]

abbrev pub first_tasks : ℕ → ℕ → List TimerTask
first_tasks t₁ t₂ =
    record { name = ping; last_exec = t₁; interval = 10 }
    ∷ record { name = clean_hist; last_exec = t₂; interval = 60 }
    ∷ []

-- With both sockets open.
unfoldable pub begin : Files → Net → Sockets → World → World
begin files net s w =
    let now = net.now w.trace in
    record w {
      listener = record (w.listener) {
        hostip = get_local_ip files s;
        maxfd = if ltb w.neighborfd w.filefd then w.filefd else w.neighborfd;
        fdset = fd_set w.filefd (fd_set w.neighborfd []);
        time_task_queue = w.time_task_queue ++ first_tasks now now;
      };
    }

-- Behind the attempt to open the socket for files, and that to open the one for neighbors.
unfoldable pub with_files : Files → Net → Sockets → World → Option ℕ → World × Status
with_files files net s w none = (note opened w, failure)
with_files files net s w (some f) =
    let w' : World = record (note opened w) { listener = record (w.listener) { filefd = f } } in
    (begin files net s w', success)

unfoldable pub with_neighbors : Files → Net → Sockets → World → Option ℕ → World × Status
with_neighbors files net s w none = (note opened w, failure)
with_neighbors files net s w (some n) =
    let w' : World = record (note opened w) { listener = record (w.listener) { neighborfd = n } } in
    with_files files net s w' (open_listening net s w'.conf.file_port w')

-- A failure to read the two files is only reported.
unfoldable pub initialize : Files → Net → Sockets → World → World × Status
initialize files net s w =
    let shared = (read_local_file_conf files w.listener).0 in
    let w' : World = with_listener w (read_local_seed_conf files shared).0 in
    with_neighbors files net s w' (open_listening net s w'.conf.neighbor_port w')

two_sockets :
    (n f j : ℕ)
    → fd_isset j (fd_set f (fd_set n []))
      ≡ (if f == j then true else if n == j then true else false)
unfolding fd_isset
two_sockets n f j = rw (fd_isset-fd_set j f (fd_set n []), fd_isset-fd_set j n []) refl

either_socket : (n f j : ℕ) → fd_isset j (fd_set f (fd_set n [])) ≡ true → (j ≡ n) ⊎ (j ≡ f)
either_socket n f j h = ground (arith, two_sockets n f j, h)

-- With no peers the invariant of the node holds when both sockets are open.
begin-IsNode :
    (B : Promise) (files : Files) (net : Net) (s : Sockets) (w : World)
    → w.peers ≡ []
    → B.settled w.conf w.seed_nodes
    → IsNode B w.neighborfd w.filefd (begin files net s w).listener
unfolding begin fd_isset lookup
begin-IsNode B files net s w h k = record {
  linked = record {
    sockets = (refl, refl);
    peer_ok = λ fd p e. absurd (cc (rw h at e));
    watched = λ fd e. elim (either_socket w.neighborfd w.filefd fd e) [
      | inl n ↦ inl n
      | inr f ↦ inr (inl f)
    ];
    listening = (
      ground (arith, two_sockets w.neighborfd w.filefd w.neighborfd),
      ground (arith, two_sockets w.neighborfd w.filefd w.filefd),
    );
    apart = rw h (refl, refl);
  };
  within = λ _. rw h (omega arith);
  settled = k;
  sorted = rw h tt;
}

read_local_file_conf-peers :
    (files : Files) (l : Listener) → (read_local_file_conf files l).0.peers ≡ l.peers
unfolding read_local_file_conf
read_local_file_conf-peers files l = elim (Bool-cases (file_exists files l.conf.local_files_file)) [
  | inl there ↦ rw there refl
  | inr missing ↦ rw missing refl
]

read_local_seed_conf-peers :
    (files : Files) (l : Listener) → (read_local_seed_conf files l).0.peers ≡ l.peers
unfolding read_local_seed_conf
read_local_seed_conf-peers files l = elim (Bool-cases (file_exists files l.conf.seed_nodes_file)) [
  | inl there ↦ rw there refl
  | inr missing ↦ rw missing refl
]

abbrev pub IsStarted : Promise → World → Type 0
IsStarted B w = IsNode B w.neighborfd w.filefd w.listener

-- What the promise says of the configuration and the seeds of a node.
abbrev pub IsSettled : Promise → World → Type 0
IsSettled B w = B.settled w.conf w.seed_nodes

with_files-IsNode :
    (B : Promise) (files : Files) (net : Net) (s : Sockets) (w : World) (o : Option ℕ)
    → w.peers ≡ []
    → (with_files files net s w o).1 ≡ success
    → IsSettled B (with_files files net s w o).0
    → IsStarted B (with_files files net s w o).0
unfolding with_files begin
with_files-IsNode B files net s w none h e k = absurd (cc e)
with_files-IsNode B files net s w (some f) h e k =
    let w' : World = record (note opened w) { listener = record (w.listener) { filefd = f } } in
    begin-IsNode B files net s w' h k

with_neighbors-IsNode :
    (B : Promise) (files : Files) (net : Net) (s : Sockets) (w : World) (o : Option ℕ)
    → w.peers ≡ []
    → (with_neighbors files net s w o).1 ≡ success
    → IsSettled B (with_neighbors files net s w o).0
    → IsStarted B (with_neighbors files net s w o).0
unfolding with_neighbors
with_neighbors-IsNode B files net s w none h e k = absurd (cc e)
with_neighbors-IsNode B files net s w (some n) h e k =
    let w' : World = record (note opened w) { listener = record (w.listener) { neighborfd = n } } in
    with_files-IsNode B files net s w' (open_listening net s w'.conf.file_port w') h e k

-- From a state with no peers, as a new `Listener` has it, `initialize` that succeeds leaves a node
-- with its invariant, whatever the files of shared files and of seeds hold.
pub initialize-IsNode :
    (B : Promise) (files : Files) (net : Net) (s : Sockets) (w : World)
    → w.peers ≡ []
    → (initialize files net s w).1 ≡ success
    → IsSettled B (initialize files net s w).0
    → IsStarted B (initialize files net s w).0
unfolding initialize
initialize-IsNode B files net s w h e k =
    let shared = (read_local_file_conf files w.listener).0 in
    let w' : World = with_listener w (read_local_seed_conf files shared).0 in
    with_neighbors-IsNode B files net s w' (open_listening net s w'.conf.neighbor_port w')
      (read_local_seed_conf-peers files shared ∙ read_local_file_conf-peers files w.listener ∙ h) e
      k
