-- ===== src/Tests/Sessions.antt =====
-- A run of the whole program, and what its listings show.
use p2p_demo.Prelude.{ℕ, zero, suc, ◌≡◌, refl, ap, [], ◌∷◌, ◌++◌, length, arith}
use p2p_demo.Outcome.{ok, undefined}
use p2p_demo.Wire.{Bytes}
use p2p_demo.Wire.CString.{codes, c_string}
use p2p_demo.Util.Hex.{hex_digit}
use p2p_demo.Util.Decimal.{decimal, int_decimal}
use p2p_demo.Util.Printf.{sprintf, print_hex, print_int, itoaddress}
use p2p_demo.Packet.QueryResult.{QueryResult}
use p2p_demo.Packet.QueryHits.{QueryHits}
use p2p_demo.Listener.State.{Listener}
use p2p_demo.Listener.Routing.{handle_query_hits}
use p2p_demo.Listener.Commands.{query_peer}
use p2p_demo.Listener.Listing.{com_qrs, qrs_title, peer_to_string}
use p2p_demo.Listener.Listing.Laws.{numbered_rows, com_qrs-rows}
use p2p_demo.Listener.Listing.Overflow.{own_hits-com_qrs}
use p2p_demo.Tests.Data.{an_id, a_result, hits, peer, listener, world, net}

address_run : itoaddress 0x0A00010F ≡ codes "10.0.1.15"
unfolding itoaddress decimal
address_run = refl

peer_run : peer_to_string (peer 5) ≡ ok (codes "(0xa000002) 10.0.0.2:6346, sockfd=5")
unfolding peer_to_string sprintf itoaddress print_hex print_int int_decimal decimal hex_digit
peer_run = refl

-- A name of so many letters.
letters : ℕ → Bytes
letters zero = []
letters (suc n) = b'a' ∷ letters n

length-letters : (n : ℕ) → length (c_string (letters n)) ≡ n
unfolding letters c_string
length-letters zero = refl
length-letters (suc n) = ap suc (length-letters n)

abbrev long_result : QueryResult
long_result = record a_result { file_name = letters 5000 }

abbrev long_hits : QueryHits
long_hits = record hits { result_set = a_result ∷ long_result ∷ [] }

overflow_example :
    com_qrs
      (handle_query_hits net 6 long_hits (query_peer net 5 (codes "ON") an_id world).0).listener
    ≡ undefined
overflow_example =
    own_hits-com_qrs net 5 6 (codes "ON") an_id world long_hits (a_result ∷ []) long_result [] refl
      refl (omega (arith, length-letters 5000))

abbrev one_result : Listener
one_result = record listener {
  query_result_set = record { ip = 0x0A000002; port = 6347; qr = a_result } ∷ [];
}

shown_example :
    com_qrs one_result
    ≡ ok (qrs_title one_result ∷ (numbered_rows 0 one_result.query_result_set ++ (b'\n' ∷ []) ∷ []))
shown_example = com_qrs-rows one_result (omega arith)
