-- ===== src/Listener/Listing.antt =====
-- What a node shows of itself: the `toString` functions of Listener.cpp, `com_peers`, `com_qrs` and
-- `com_dump`.
pub mod Laws
pub mod Kept
pub mod Overflow
use p2p_demo.Prelude.{ℕ, zero, suc, ◌+◌, ◌*◌, List, [], ◌∷◌, ◌++◌, length}
use p2p_demo.Outcome.{Outcome, ok, ◌>>=◌}
use p2p_demo.Wire.{Bytes}
use p2p_demo.Wire.CString.{codes, c_string}
use p2p_demo.Util.Printf.{sprintf, print_hex, print_int, print_long, itoaddress}
use p2p_demo.Listener.State.{Listener, SeedInfo, PeerInfo, FileInfo, QueryResultInfo}
use p2p_demo.Listener.Peers.{max_peer_size}

-- `SeedInfo::toString`, `PeerInfo::toString`, `FileInfo::toString`, `QueryResultInfo::toString`
abbrev pub seed_text : SeedInfo → Bytes
seed_text si =
    codes "(0x"
    ++ (print_hex si.ip ++ (codes ") " ++ (itoaddress si.ip ++ b':' ∷ print_int si.port)))

unfoldable pub seed_to_string : SeedInfo → Outcome Bytes
seed_to_string si = sprintf (seed_text si)

abbrev pub peer_text : PeerInfo → Bytes
peer_text p =
    codes "(0x"
    ++ (print_hex p.ip
        ++ (codes ") "
            ++ (itoaddress p.ip
                ++ b':' ∷ (print_int p.port ++ (codes ", sockfd=" ++ print_int p.sockfd)))))

unfoldable pub peer_to_string : PeerInfo → Outcome Bytes
peer_to_string p = sprintf (peer_text p)

abbrev pub file_text : FileInfo → Bytes
file_text fi =
    print_int fi.file_index
    ++ b' ' ∷ (c_string fi.file_name ++ (codes " (" ++ (print_long fi.size ++ codes " bytes): ")))

unfoldable pub with_bars : List Bytes → Bytes
with_bars [] = []
with_bars (keyword ∷ keywords) = keyword ++ b'|' ∷ with_bars keywords

unfoldable pub file_to_string : FileInfo → Outcome Bytes
file_to_string fi = sprintf (file_text fi) >>= (λ ret. ok (ret ++ with_bars fi.keywords))

abbrev pub result_text : QueryResultInfo → Bytes
result_text r =
    print_hex r.ip
    ++ b' '
      ∷ (itoaddress r.ip
          ++ b' '
            ∷ (print_int r.port
                ++ b' '
                  ∷ (print_int r.qr.file_index
                      ++ b' ' ∷ (c_string r.qr.file_name ++ b' ' ∷ print_int r.qr.file_size))))

unfoldable pub result_to_string : QueryResultInfo → Outcome Bytes
result_to_string r = sprintf (result_text r)

abbrev newline : Bytes
newline = b'\n' ∷ []

-- A line for each entry, as `"%s\n"` prints its text.
unfoldable pub print_lines {ℓ} : {A : Type ℓ} → (A → Outcome Bytes) → List A → Outcome (List Bytes)
print_lines to_string [] = ok []
print_lines to_string (x ∷ xs) = do
  text ← to_string x
  rest ← print_lines to_string xs
  ok ((c_string text ++ newline) ∷ rest)

-- The same as `"%lu: %s\n"` prints it, with the index from `i` on.
unfoldable pub print_numbered : ℕ → List QueryResultInfo → Outcome (List Bytes)
print_numbered i [] = ok []
print_numbered i (r ∷ rs) = do
  text ← result_to_string r
  rest ← print_numbered (i + 1) rs
  ok ((print_long i ++ (codes ": " ++ (c_string text ++ newline))) ∷ rest)

abbrev peer_line : ℕ × PeerInfo → Outcome Bytes
peer_line e = peer_to_string e.1

abbrev counted : Bytes → ℕ → Bytes
counted title n = title ++ (print_long n ++ newline)

abbrev pub peers_title : Listener → Bytes
peers_title l =
    codes "Peers("
    ++ (print_long (length l.peers) ++ b'/' ∷ (print_long (max_peer_size l.conf) ++ codes "):\n"))

abbrev pub qrs_title : Listener → Bytes
qrs_title l =
    codes "keyword: "
    ++ (c_string l.my_query_keyword
        ++ (codes ", total " ++ (print_long (length l.query_result_set) ++ codes " records.\n")))

-- What each prints, a text for each call of `fprintf`, the first one first.
unfoldable pub com_peers : Listener → Outcome (List Bytes)
com_peers l = do shown ← print_lines peer_line l.peers; ok (peers_title l ∷ (shown ++ newline ∷ []))

unfoldable pub com_qrs : Listener → Outcome (List Bytes)
com_qrs l = do
  shown ← print_numbered 0 l.query_result_set
  ok (qrs_title l ∷ (shown ++ newline ∷ []))

unfoldable pub com_dump : Listener → Outcome (List Bytes)
com_dump l = do
  seeds ← print_lines seed_to_string l.seed_nodes
  files ← print_lines file_to_string l.local_files
  peers ← print_lines peer_line l.peers
  results ← print_numbered 0 l.query_result_set
  let local =
      (codes "Local IP (0x"
        ++ (print_hex l.hostip ++ (codes "): " ++ (itoaddress l.hostip ++ newline))))
      ∷ newline
      ∷ []
  let searched =
      codes "My query keyword="
      ++ (c_string l.my_query_keyword
          ++ (codes ", size of results set="
              ++ (print_long (length l.query_result_set) ++ newline)))
  let counts =
      counted (codes "Timer tasks: ") (length l.time_task_queue)
      ∷ counted (codes "My Ping historical Queue size: ") (length l.my_ping_hist)
      ∷ counted (codes "Ping historical Queue size: ") (length l.ping_hist)
      ∷ counted (codes "Pong historical Queue size: ") (length l.pong_hist)
      ∷ counted (codes "Query historical Queue size: ") (length l.query_hist)
      ∷ counted (codes "QueryHits historical Queue size: ") (length l.queryhits_hist)
      ∷ []
  let shown_seeds = codes "Seed nodes:\n" ∷ (seeds ++ newline ∷ [])
  let shown_files = codes "Local files:\n" ∷ (files ++ newline ∷ [])
  let title = codes "Peers(" ++ (print_long (length l.peers) ++ codes "):\n")
  let shown_peers = title ∷ (peers ++ newline ∷ [])
  let shown_results = searched ∷ (results ++ newline ∷ [])
  ok (local ++ (shown_seeds ++ (shown_files ++ (shown_peers ++ (shown_results ++ counts)))))
