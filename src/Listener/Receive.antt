-- ===== src/Listener/Receive.antt =====
-- From a socket to a handler: `read_one_packet`, `handle_peer_msg` and `handle_peer_select`.
pub mod Safety
pub mod Whole
use p2p_demo.Prelude.{
  ℕ, ◌+◌, ◌-◌, ◌^◌, Bool, true, false, List, [], ◌∷◌, ◌++◌, Option, none, some, length, ltb, leb,
  ◌==◌, if◌then◌else◌,
}
use p2p_demo.Outcome.{Outcome, ok, throw, undefined, runtime_error, out_of_range, bad_alloc, ◌>>=◌}
use p2p_demo.Wire.{Bytes, byte_at, string2uint}
use p2p_demo.Packet.Header.{parse_string, head_size}
use p2p_demo.Packet.Ping.{Ping, ping_class, new_ping}
use p2p_demo.Packet.Pong.{Pong, pong_class, new_pong}
use p2p_demo.Packet.Query.{Query, query_class, new_query}
use p2p_demo.Packet.QueryHits.{QueryHits, hits_class, new_query_hits}
use p2p_demo.Listener.State.{Listener, World, Net, Peers, note, read, drew, draws}
use p2p_demo.Listener.Peers.{erase_peer}
use p2p_demo.Listener.Peers.Invariant.{fd_isset}
use p2p_demo.Listener.Routing.{handle_ping, handle_pong, handle_query, handle_query_hits}

-- -1 as a `size_t`.
abbrev pub size_max : ℕ
size_max = 2 ^ 64 - 1

-- `catch (const std::runtime_error&)` logs, and the world stays as it was.
abbrev pub caught {ℓ} : {A : Type ℓ} → World → Outcome A → (A → World) → Outcome World
caught w (ok a) f = ok (f a)
caught w (throw runtime_error) f = ok w
caught w (throw out_of_range) f = throw out_of_range
caught w (throw bad_alloc) f = throw bad_alloc
caught w undefined f = undefined

-- The text that a read put into its buffer.
abbrev bytes_of : Option Bytes → Bytes
bytes_of none = []
bytes_of (some buf) = buf

module _ (net : Net) where
  -- `new char[length]` throws for a length that no array can have.
  unfoldable pub read_once : ℕ → ℕ → World → Outcome (Option Bytes × World)
  read_once sockfd len w =
      if leb (2 ^ 63) len
      then throw bad_alloc
      else ok (net.read_once w.trace sockfd len, note (read sockfd) w)

  -- What one `read_once` gave, where `len` bytes were wanted: all, nothing (the peer has closed),
  -- or a part or an error.
  unfoldable pub received :
      ℕ → ℕ → Option Bytes → World → Outcome ((ℕ × Bytes) × World) → Outcome ((ℕ × Bytes) × World)
  received sockfd len none w whole = ok ((size_max, []), w)
  received sockfd len (some buf) w whole =
      if length buf == len
      then whole
      else if length buf == 0
      then ok ((0, []), erase_peer sockfd w)
      else ok ((size_max, []), w)

  unfoldable pub read_payload : ℕ → Bytes → World → Outcome ((ℕ × Bytes) × World)
  read_payload sockfd buf1 w = do
    pl ← string2uint buf1 19
    (buf2, w') ← read_once sockfd pl w
    let buf = buf1 ++ bytes_of buf2
    received sockfd pl buf2 w' (ok ((length buf, buf), w'))

  -- The size of the packet, 0 where the peer has closed and is erased, and the largest `size_t`
  -- for an error.
  unfoldable pub read_one_packet : ℕ → World → Outcome ((ℕ × Bytes) × World)
  read_one_packet sockfd w = do
    (buf1, w') ← read_once sockfd head_size w
    received sockfd head_size buf1 w' (read_payload sockfd (bytes_of buf1) w')

  -- The switch over the payload descriptor. A local object draws its id before it is parsed.
  unfoldable pub dispatch : ℕ → ℕ → Bytes → World → Outcome World
  dispatch pd sockfd msg w =
      let w' = note drew w in
      if pd == 0x00
      then caught w' (parse_string (new_ping (draws net w)) msg) (λ m. handle_ping net sockfd m w')
      else if pd == 0x01
      then caught w' (parse_string (new_pong (draws net w)) msg) (λ m. handle_pong net sockfd m w')
      else if pd == 0x80
      then caught w' (parse_string (new_query (draws net w)) msg)
          (λ m. handle_query net sockfd m w')
      else if pd == 0x81
      then caught w' (parse_string (new_query_hits (draws net w)) msg)
          (λ m. handle_query_hits net sockfd m w')
      else ok w

  unfoldable pub handle_peer_msg : ℕ → Bytes → World → Outcome World
  handle_peer_msg sockfd msg w =
      if ltb (length msg) head_size then ok w else do pd ← byte_at msg 16; dispatch pd sockfd msg w

  -- `n < 0` never holds of a `size_t`: an error goes to `handle_peer_msg` as an empty text.
  unfoldable pub serve_peer : ℕ → World → Outcome World
  serve_peer sockfd w = do
    ((n, buf), w') ← read_one_packet sockfd w
    if n == 0 then ok w' else handle_peer_msg sockfd buf w'

  -- The loop over a copy of the table, until `nready` sockets were served.
  unfoldable pub serve_peers : List ℕ → ℕ → Peers → World → Outcome World
  serve_peers rset nready [] w = ok w
  serve_peers rset nready ((fd, p) ∷ ps) w =
      let skip = serve_peers rset nready ps w in
      let serve = serve_peer fd w >>= λ w'. serve_peers rset (nready - 1) ps w' in
      if nready == 0 then ok w else if fd_isset fd rset then serve else skip

  unfoldable pub handle_peer_select : List ℕ → ℕ → World → Outcome World
  handle_peer_select rset msgcnt w = serve_peers rset msgcnt w.peers w
