-- ===== src/Listener/State.antt =====
-- The structs of Listener.h and conf.h, the state of a `Listener`, and the world around it.
use p2p_demo.Util.Hex.{rand_lim}
use p2p_demo.Prelude.{
  ℕ, zero, suc, ◌+◌, Bool, List, [], ◌∷◌, Option, ◌==◌, ltb, ==_iff, ltb_irrefl, ltb_trans,
  ltb_total,
}
use p2p_demo.Prelude.Maps.{Key}
use p2p_demo.Wire.{Bytes}
use p2p_demo.Util.Text.{
  bytes_eq, bytes_before, bytes_eq_iff, bytes_before_irrefl, bytes_before_trans, bytes_before_total,
}
use p2p_demo.Packet.QueryResult.{QueryResult}

-- The numbers are those of `unsigned int`.
pub record Conf : Type 0 where
  pub neighbor_port : ℕ
  pub file_port : ℕ
  pub number_of_peers : ℕ
  pub ttl : ℕ
  pub seed_nodes_file : Bytes
  pub is_seed_node : ℕ
  pub local_files_file : Bytes
  pub local_files_directory : Bytes

pub record MsgInfo : Type 0 where
  pub key : Bytes
  pub sockfd : ℕ
  pub ts : ℕ

-- An `ip` is the bit pattern of an `int` in host order.
pub record SeedInfo : Type 0 where
  pub ip : ℕ
  pub port : ℕ

pub record PeerInfo : Type 0 where
  pub ip : ℕ
  pub port : ℕ
  pub sockfd : ℕ

pub record FileInfo : Type 0 where
  pub file_name : Bytes
  pub keywords : List Bytes
  pub size : ℕ
  pub file_index : ℕ

pub record QueryResultInfo : Type 0 where
  pub ip : ℕ
  pub port : ℕ
  pub qr : QueryResult

-- The two names that `initialize` gives to tasks.
pub data TaskName : Type 0 where
  ping clean_hist : TaskName

pub record TimerTask : Type 0 where
  pub name : TaskName
  pub last_exec : ℕ
  pub interval : ℕ

-- `std::map<int, …>` and `std::map<std::string, …>`.
instance abbrev pub fd_key : Key ℕ
fd_key = record {
  same = λ a b. a == b;
  before = λ a b. ltb a b;
  same_iff = ==_iff;
  before_irrefl = ltb_irrefl;
  before_trans = ltb_trans;
  before_total = ltb_total;
}

instance abbrev pub bytes_key : Key Bytes
bytes_key = record {
  same = bytes_eq;
  before = bytes_before;
  same_iff = bytes_eq_iff;
  before_irrefl = bytes_before_irrefl;
  before_trans = bytes_before_trans;
  before_total = bytes_before_total;
}

abbrev pub Peers : Type 0
Peers = List (ℕ × PeerInfo)

abbrev pub Hist : Type 0
Hist = List (Bytes × MsgInfo)

pub record Listener : Type 0 where
  pub conf : Conf
  pub neighborfd : ℕ
  pub filefd : ℕ
  pub fdset : List ℕ
  pub maxfd : ℕ
  pub seed_nodes : List SeedInfo
  pub peers : Peers
  pub local_files : List FileInfo
  pub my_query_hexid : Bytes
  pub my_query_keyword : Bytes
  pub query_result_set : List QueryResultInfo
  pub my_ping_hist : Hist
  pub ping_hist : Hist
  pub pong_hist : Hist
  pub query_hist : Hist
  pub queryhits_hist : Hist
  pub time_task_queue : List TimerTask
  pub hostip : ℕ

-- What the program asks of the system, newest first. `wrote` is a call of `writen`.
pub data Event : Type 0 where
  wrote : ℕ → Bytes → Event
  read : ℕ → Event
  opened : Event
  connected : ℕ → ℕ → ℕ → Event
  accepted : Event
  closed : ℕ → Event
  drew : Event

abbrev pub Trace : Type 0
Trace = List Event

-- An answer to `accept`: the descriptor, and the address in network byte order.
pub record Client : Type 0 where
  pub fd : ℕ
  pub s_addr : ℕ
  pub sin_port : ℕ

-- The system's answers, which may depend on all that went before.
pub record Net : Type 0 where
  -- `time(0)`
  pub now : Trace → ℕ
  -- the draws of `rand()` in a constructor of `Packet`, by their number
  pub rand : Trace → ℕ → ℕ
  -- whether `writen` gives the length and not -1
  pub writes : Trace → ℕ → Bytes → Bool
  -- `readed`: nothing for -1
  pub readed : Trace → ℕ → Option Bytes
  -- `read_once` with a length: nothing for -1
  pub read_once : Trace → ℕ → ℕ → Option Bytes
  -- `socket`: nothing for -1
  pub socket : Trace → Option ℕ
  pub connects : Trace → ℕ → ℕ → ℕ → Bool
  -- `accept`: nothing for -1
  pub accept : Trace → Option Client

pub record World : Type 0 where
  pub listener : Listener
  pub open listener use *
  pub trace : Trace

draws_from : (ℕ → ℕ) → ℕ → ℕ → Bytes
draws_from rand zero i = []
draws_from rand (suc k) i = rand_lim (rand i) 0xff ∷ draws_from rand k (i + 1)

-- The sixteen draws of `rand_lim(0xFF)` in a constructor of `Packet`.
unfoldable pub draws : Net → World → Bytes
unfolding draws_from
draws net w = draws_from (net.rand w.trace) 16 0

-- 0 and -1, where a caller looks at the result.
pub data Status : Type 0 where
  success failure : Status

abbrev pub note : Event → World → World
note e w = record w { trace = e ∷ w.trace }

abbrev pub with_listener : World → Listener → World
with_listener w l = record w { listener = l }
