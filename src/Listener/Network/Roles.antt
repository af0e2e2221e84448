-- ===== src/Listener/Network/Roles.antt =====
-- The nodes of a search: who asks, who passes on, and who answers.
use p2p_demo.Prelude.{ℕ, ◌+◌, ◌<◌, ◌^◌, ◌≡◌, ◌≢◌, false, some, [], map, length, List, All, ◌∷◌}
use p2p_demo.Prelude.Maps.{IsSorted, lookup}
use p2p_demo.Outcome.{ok}
use p2p_demo.Wire.{Bytes, u16}
use p2p_demo.Wire.CString.{IsNonzero}
use p2p_demo.Packet.Query.{Query, query_class}
use p2p_demo.Packet.QueryHits.{hits_class, results_string}
use p2p_demo.Packet.Message.{query}
use p2p_demo.Listener.State.{QueryResultInfo, World, Net, PeerInfo, fd_key}
use p2p_demo.Listener.History.{is_stale_message, is_my_query}
use p2p_demo.Listener.Search.{results_for}
use p2p_demo.Listener.Search.Laws.{IsShared}
use p2p_demo.Listener.Receive.{handle_peer_msg}
use p2p_demo.Listener.Network.Hops.{Sends}

-- A search that can be written: some text without NUL, and an id of sixteen bytes.
pub record Asks (keyword id : Bytes) : Type 0 where
  pub some_text : keyword ≢ []
  pub no_nul : All IsNonzero keyword
  pub text_fits : length keyword + 3 < 2 ^ 32
  pub id_length : length id ≡ 16

-- A node that has not seen the message, with the socket of another peer.
pub record Passes (q : Query) (from to : ℕ) (b : World) : Type 0 where
  pub mine : is_my_query b.listener q.packet ≡ false
  pub stale : is_stale_message b.listener (query q) ≡ false
  pub sorted : IsSorted b.peers
  pub peer : PeerInfo
  pub linked : lookup to b.peers ≡ some peer
  pub other : to ≢ from

-- A node that has not seen the message, and shares some matching files, but not too many.
pub record Answers (q : Query) (c : World) : Type 0 where
  pub mine : is_my_query c.listener q.packet ≡ false
  pub stale : is_stale_message c.listener (query q) ≡ false
  pub shared : All IsShared c.local_files
  pub ip_fits : c.hostip < 2 ^ 32
  pub hit : 0 < length (results_for q.criteria c.local_files)
  pub few : length (results_for q.criteria c.local_files) < 256
  pub length_fits : length (results_string (results_for q.criteria c.local_files)) + 27 < 2 ^ 32

-- The files of a node that match, under its address.
abbrev pub results : Query → World → List QueryResultInfo
results q w =
    map (λ r. record { ip = w.hostip; port = u16 w.conf.file_port; qr = r })
      (results_for q.criteria w.local_files)

-- The node handles the text that comes from one socket, and writes another to the other.
abbrev pub Carries : Net → ℕ → Bytes → World → ℕ → Bytes → World → Type 0
Carries net from str w to str' w' = (handle_peer_msg net from str w ≡ ok w') × Sends to str' w w'

-- A node on the way: the system, the socket the search comes from, the one it goes on to, and the
-- state.
pub record Relay : Type 0 where
  pub net : Net
  pub from : ℕ
  pub to : ℕ
  pub world : World

-- The last node writes the answer `back` to the text `str`; each relay passes the text on, and then
-- the answer that the nodes behind it write.
abbrev pub Found : List Relay → Net → ℕ → World → Bytes → Bytes → Type 0
Found [] net fd c str back = (c' : World) × Carries net fd str c fd back c'
Found (r ∷ rs) net fd c str back =
    (on : Bytes) × (reply : Bytes) × (b : World) × (b' : World) × Carries r.net r.from str r.world
      r.to on b
    × Found rs net fd c on reply
    × Carries r.net r.to reply b r.from back b'
