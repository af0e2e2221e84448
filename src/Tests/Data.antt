-- ===== src/Tests/Data.antt =====
-- A small network for the tests: messages, a listener with two peers and two files, and a system
-- that answers every call.
use p2p_demo.Prelude.{ℕ, ◌+◌, true, [], ◌∷◌, some}
use p2p_demo.Wire.CString.{codes}
use p2p_demo.Wire.{Bytes}
use p2p_demo.Packet.OptData.{OptData}
use p2p_demo.Packet.Header.{Packet}
use p2p_demo.Packet.Ping.{Ping}
use p2p_demo.Packet.Pong.{Pong}
use p2p_demo.Packet.Query.{Query}
use p2p_demo.Packet.QueryResult.{QueryResult}
use p2p_demo.Packet.QueryHits.{QueryHits}
use p2p_demo.Listener.State.{Conf, PeerInfo, FileInfo, Listener, World, Net, Client, Hist}

abbrev pub an_id : Bytes
an_id = 1 ∷ 2 ∷ 3 ∷ 4 ∷ 5 ∷ 6 ∷ 7 ∷ 8 ∷ 255 ∷ 10 ∷ 11 ∷ 12 ∷ 13 ∷ 14 ∷ 15 ∷ 0 ∷ []

abbrev pub no_data : OptData
no_data = record { optlen = 0; optdata = [] }

abbrev pub two_bytes : OptData
two_bytes = record { optlen = 2; optdata = 65 ∷ 66 ∷ [] }

abbrev pub a_header : Packet
a_header = record { id = an_id; pd = 0; ttl = 7; hops = 1; payload = no_data }

abbrev pub a_ping : Ping
a_ping = record { packet = record a_header { payload = two_bytes } }

abbrev pub a_pong : Pong
a_pong = record {
  packet = record a_header { pd = 1 };
  port = 6346;
  ip = 0x7F000001;
  num_files = 3;
  num_size = 4;
  optdata = two_bytes;
}

abbrev pub a_query : Query
a_query = record {
  packet = record a_header { pd = 0x80 };
  min_speed = 56;
  criteria = codes "song";
  optdata = two_bytes;
}

abbrev pub a_result : QueryResult
a_result = record { file_index = 1; file_size = 5; file_name = codes "a.mp3"; optdata = no_data }

abbrev pub hits : QueryHits
hits = record {
  packet = record a_header { pd = 0x81 };
  num_hits = 1;
  port = 6347;
  ip = 0x0A000001;
  speed = 0;
  result_set = a_result ∷ [];
  qhd_data = no_data;
  servent_id = an_id;
}

abbrev pub a_file : FileInfo
a_file = record {
  file_name = codes "a.mp3";
  keywords = codes "Song" ∷ [];
  size = 5;
  file_index = 1;
}

abbrev pub conf : Conf
conf = record {
  neighbor_port = 6346;
  file_port = 6347;
  number_of_peers = 5;
  ttl = 7;
  seed_nodes_file = [];
  is_seed_node = 0;
  local_files_file = [];
  local_files_directory = [];
}

abbrev pub peer : ℕ → PeerInfo
peer fd = record { ip = 0x0A000002; port = 6346; sockfd = fd }

abbrev pub listener : Listener
listener = record {
  conf = conf;
  neighborfd = 3;
  filefd = 4;
  fdset = 3 ∷ 4 ∷ 5 ∷ 6 ∷ [];
  maxfd = 6;
  seed_nodes = [];
  peers = (5, peer 5) ∷ (6, peer 6) ∷ [];
  local_files = a_file ∷ [];
  my_query_hexid = [];
  my_query_keyword = [];
  query_result_set = [];
  my_ping_hist = [];
  ping_hist = [];
  pong_hist = [];
  query_hist = [];
  queryhits_hist = [];
  time_task_queue = [];
  hostip = 0x0A000001;
}

abbrev pub world : World
world = record { listener = listener; trace = [] }

abbrev pub client : Client
client = record { fd = 9; s_addr = 0x0300000A; sin_port = 0xCA18 }

-- A header whose length field is 0x80000000.
abbrev pub huge_head : Bytes
huge_head =
    1 ∷ 2 ∷ 3 ∷ 4 ∷ 5 ∷ 6 ∷ 7 ∷ 8 ∷ 255 ∷ 10 ∷ 11 ∷ 12 ∷ 13 ∷ 14 ∷ 15 ∷ 0 ∷ 0 ∷ 7 ∷ 0 ∷ 0 ∷ 0 ∷ 0
    ∷ 128 ∷ []

abbrev pub net : Net
net = record {
  now = λ t. 100;
  rand = λ t i. 1000 + i;
  writes = λ t fd str. true;
  readed = λ t fd. some (codes "GNUTELLA OK\r\n");
  read_once = λ t fd len. some huge_head;
  socket = λ t. some 9;
  connects = λ t fd ip port. true;
  accept = λ t. some client;
}

abbrev pub old_hist : Hist
old_hist =
    (1 ∷ [], record { key = 1 ∷ []; sockfd = 5; ts = 10 })
    ∷ (2 ∷ [], record { key = 2 ∷ []; sockfd = 6; ts = 90 })
    ∷ []
