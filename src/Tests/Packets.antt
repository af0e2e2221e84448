-- ===== src/Tests/Packets.antt =====
-- Packet.cpp and Util.cpp on small inputs.
use p2p_demo.Prelude.{◌≡◌, refl, List, [], ◌∷◌, arith}
use p2p_demo.Outcome.{ok, undefined}
use p2p_demo.Wire.{byte_at, int2string, string2uint}
use p2p_demo.Packet.OptData.{IsWhole}
use p2p_demo.Packet.OptData
use p2p_demo.Packet.Header.{to_string, parse_string}
use p2p_demo.Packet.Header.Laws.{IsHeader}
use p2p_demo.Packet.Header.Safety.{parse_string_short}
use p2p_demo.Packet.Ping.{ping_class, new_ping}
use p2p_demo.Packet.Pong.{pong_class, new_pong}
use p2p_demo.Packet.Pong.RoundTrip.{IsPong, parse_string-to_string_pong}
use p2p_demo.Packet.Query.{query_class, new_query}
use p2p_demo.Packet.Query.RoundTrip.{IsQuery, parse_string-to_string_query}
use p2p_demo.Packet.QueryResult.{new_query_result}
use p2p_demo.Packet.QueryResult
use p2p_demo.Packet.QueryResult.RoundTrip.{IsResult}
use p2p_demo.Packet.QueryHits.{hits_class, new_query_hits, results_string}
use p2p_demo.Packet.QueryHits.RoundTrip.{IsHits, as_read, parse_string-to_string_hits}
use p2p_demo.Wire.CString.{codes, is_empty}
use p2p_demo.Util.Split.{isspace, words, split, spaced, split_by_deli}
use p2p_demo.Util.Io.{Answer, wrote, interrupted, failed, writen, IsWriteOf, writen-IsWriteOf}
use p2p_demo.Util.Read
use p2p_demo.Tests.Data.{
  an_id, a_ping, a_pong, a_query, a_result, hits, no_data, two_bytes, huge_head,
}

two_bytes-IsWhole : IsWhole two_bytes
two_bytes-IsWhole = record { exact = refl; fits = omega arith }

no_data-IsWhole : IsWhole no_data
no_data-IsWhole = record { exact = refl; fits = omega arith }

a_ping-IsHeader : IsHeader a_ping.packet
a_ping-IsHeader = record { id_length = refl; whole = two_bytes-IsWhole }

a_pong-IsPong : IsPong a_pong
a_pong-IsPong = record {
  id_length = refl;
  port_fits = omega arith;
  ip_fits = omega arith;
  files_fit = omega arith;
  size_fits = omega arith;
  whole = two_bytes-IsWhole;
  length_fits = omega arith;
}

a_query-IsQuery : IsQuery a_query
a_query-IsQuery = record {
  id_length = refl;
  speed_fits = omega arith;
  some_criteria = λ e. cc;
  no_nul = omega arith;
  whole = two_bytes-IsWhole;
  length_fits = omega arith;
}

a_result-IsResult : IsResult a_result
a_result-IsResult = record {
  index_fits = omega arith;
  size_fits = omega arith;
  some_name = λ e. cc;
  no_nul = omega arith;
  whole = no_data-IsWhole;
  opt_no_nul = tt;
}

hits-IsHits : IsHits hits
unfolding results_string QueryResult.to_string OptData.to_string int2string
hits-IsHits = record {
  id_length = refl;
  enough = omega arith;
  port_fits = omega arith;
  ip_fits = omega arith;
  speed_fits = omega arith;
  results = (a_result-IsResult, tt);
  whole = no_data-IsWhole;
  servent_length = refl;
  length_fits = omega arith;
}

pong_example : parse_string (new_pong []) (to_string a_pong).1 ≡ ok (to_string a_pong).0
pong_example = parse_string-to_string_pong a_pong a_pong-IsPong (new_pong [])

query_example : parse_string (new_query []) (to_string a_query).1 ≡ ok (to_string a_query).0
query_example = parse_string-to_string_query a_query a_query-IsQuery (new_query [])

hits_example :
    parse_string (new_query_hits []) (to_string hits).1 ≡ ok (as_read (to_string hits).0 no_data)
unfolding new_query_hits
hits_example = parse_string-to_string_hits hits hits-IsHits (new_query_hits [])

short_example : parse_string (new_ping []) an_id ≡ undefined
short_example = parse_string_short (new_ping []) an_id (omega arith) (omega arith)

abbrev answers : List Answer
answers = wrote 2 ∷ interrupted ∷ wrote 1 ∷ failed ∷ []

writen_example : IsWriteOf (codes "song") (writen answers (codes "song"))
writen_example = writen-IsWriteOf answers (codes "song")

-- Three of the four bytes go out before the error.
writen_run : (writen answers (codes "song")).0 ≡ codes "son"
unfolding writen
writen_run = refl

-- A part that is shorter than the array ends the reading, and the next is left.
abbrev reads : List Read.ReadAnswer
reads = Read.interrupted ∷ Read.bytes (codes "GET") ∷ Read.bytes (codes "more") ∷ []

read_run : Read.readed reads ≡ (codes "GET", Read.count 3)
unfolding Read.readed Read.readed_on
read_run = refl

-- A header with a length field of 0x80000000 asks for almost 2 ^ 64 bytes.
uint_run : string2uint huge_head 19 ≡ ok 0xFFFFFFFF80000000
unfolding string2uint byte_at
uint_run = refl

-- The delimiter is a word of its own.
deli_run : split_by_deli (codes "TTL=7") b'=' ≡ codes "TTL" ∷ codes "=" ∷ codes "7" ∷ []
unfolding split_by_deli split spaced words isspace is_empty
deli_run = refl
