-- ===== src/Listener/Network/Texts.antt =====
-- What `handle_peer_msg` does with the text of a Query or of a QueryHits.
use p2p_demo.Prelude.{
  ℕ, ◌≡◌, refl, ap, ◌∙◌, sym, [], le→not-ltb, length, take, drop, take_exact, List, ◌∷◌, arith,
}
use p2p_demo.Outcome.{ok}
use p2p_demo.Wire.{Bytes}
use p2p_demo.Packet.OptData.{OptData, parse_string_whole}
use p2p_demo.Packet.Header.{Packet, serialize, to_string, parse_string}
use p2p_demo.Packet.Header.Laws.{IsHeader, length-serialize, byte_at-serialize}
use p2p_demo.Packet.Query.{Query, new_query, query_class, update_payload}
use p2p_demo.Packet.Query.RoundTrip.{IsQuery, parse_string-to_string_query}
use p2p_demo.Packet.Query.RoundTrip as Queries
use p2p_demo.Packet.QueryHits.{QueryHits, new_query_hits, hits_class}
use p2p_demo.Packet.QueryHits.RoundTrip.{IsHits, as_read, parse_string-to_string_hits}
use p2p_demo.Packet.QueryHits
use p2p_demo.Packet.QueryHits.RoundTrip as Hits
use p2p_demo.Listener.State.{World, Net, note, drew, draws}
use p2p_demo.Listener.Routing.{handle_query, handle_query_hits}
use p2p_demo.Listener.Receive.{caught, handle_peer_msg, dispatch}

-- Bringing the payload up to date leaves what is sent.
pub to_string-IsQuery : (m : Query) → IsQuery m → IsQuery (to_string m).0
unfolding to_string update_payload
to_string-IsQuery m v = record {
  id_length = v.id_length;
  speed_fits = v.speed_fits;
  some_criteria = v.some_criteria;
  no_nul = v.no_nul;
  whole = v.whole;
  length_fits = v.length_fits;
}

pub to_string-IsHits : (m : QueryHits) → IsHits m → IsHits (to_string m).0
unfolding to_string QueryHits.update_payload
to_string-IsHits m v = record {
  id_length = v.id_length;
  enough = v.enough;
  port_fits = v.port_fits;
  ip_fits = v.ip_fits;
  speed_fits = v.speed_fits;
  results = v.results;
  whole = v.whole;
  servent_length = v.servent_length;
  length_fits = v.length_fits;
}

drop_all {ℓ} : {A : Type ℓ} (xs : List A) → drop (length xs) xs ≡ []
drop_all [] = refl
drop_all (x ∷ xs) = drop_all xs

-- With as many results as `num_hits` says nothing is taken for QHD data.
as_read-exact :
    (m : QueryHits) (old : OptData)
    → IsHits m
    → m.num_hits ≡ length m.result_set
    → as_read m old ≡ m
unfolding QueryHits.results_string
as_read-exact m old v e =
    let all : take m.num_hits m.result_set ≡ m.result_set =
      take_exact m.num_hits m.result_set (sym e) in
    let none_left : drop m.num_hits m.result_set ≡ [] = rw e (drop_all m.result_set) in
    rw (all, none_left, parse_string_whole m.qhd_data old v.whole) refl

module _ (net : Net) (fd : ℕ) (w : World) where
  pub handle_peer_msg-serialize :
      (p : Packet)
      → IsHeader p
      → handle_peer_msg net fd (serialize p) w ≡ dispatch net p.pd fd (serialize p) w
  unfolding handle_peer_msg
  handle_peer_msg-serialize p h = rw (
    handle_peer_msg,
    le→not-ltb (length (serialize p)) 23 (omega (arith, length-serialize p h)),
    byte_at-serialize p h,
  )

  dispatch-query :
      (str : Bytes) (m : Query)
      → parse_string (new_query (draws net w)) str ≡ ok m
      → dispatch net 0x80 fd str w ≡ ok (handle_query net fd m (note drew w))
  unfolding dispatch
  dispatch-query str m e =
      ap (λ o. caught (note drew w) o (λ q. handle_query net fd q (note drew w))) e

  dispatch-query_hits :
      (str : Bytes) (m : QueryHits)
      → parse_string (new_query_hits (draws net w)) str ≡ ok m
      → dispatch net 0x81 fd str w ≡ ok (handle_query_hits net fd m (note drew w))
  unfolding dispatch
  dispatch-query_hits str m e =
      ap (λ o. caught (note drew w) o (λ q. handle_query_hits net fd q (note drew w))) e

  pub handle_peer_msg-query :
      (m : Query)
      → IsQuery m
      → m.packet.pd ≡ 0x80
      → handle_peer_msg net fd (to_string m).1 w
        ≡ ok (handle_query net fd (to_string m).0 (note drew w))
  unfolding to_string update_payload
  handle_peer_msg-query m v e =
      handle_peer_msg-serialize (update_payload m).packet (Queries.header m v)
      ∙ ap (λ d. dispatch net d fd (to_string m).1 w) e
      ∙ dispatch-query (to_string m).1 _
          (parse_string-to_string_query m v (new_query (draws net w)))

  pub handle_peer_msg-query_hits :
      (m : QueryHits)
      → IsHits m
      → m.packet.pd ≡ 0x81
      → m.num_hits ≡ length m.result_set
      → handle_peer_msg net fd (to_string m).1 w
        ≡ ok (handle_query_hits net fd (to_string m).0 (note drew w))
  unfolding to_string QueryHits.update_payload
  handle_peer_msg-query_hits m v e all =
      let old : OptData = (new_query_hits (draws net w)).qhd_data in
      handle_peer_msg-serialize (QueryHits.update_payload m).packet (Hits.header m v)
      ∙ ap (λ d. dispatch net d fd (to_string m).1 w) e
      ∙ dispatch-query_hits (to_string m).1 (to_string m).0 (
          parse_string-to_string_hits m v (new_query_hits (draws net w))
          ∙ ap ok (as_read-exact (to_string m).0 old (to_string-IsHits m v) all))
