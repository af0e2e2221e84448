-- ===== src/Packet/QueryHits.antt =====
-- class QueryHits: the fixed fields, the results one after the other, QHD data, and a servent id.
-- `ip` is written with no change of byte order here.
pub mod RoundTrip
use p2p_demo.Prelude.{
  ℕ, zero, suc, ◌-◌, ◌+◌, refl, List, [], ◌∷◌, ◌++◌, length, take, drop, ltb, if◌then◌else◌,
}
use p2p_demo.Outcome.{Outcome, ok, throw, runtime_error, ◌>>=◌}
use p2p_demo.Wire.{Bytes, u32, byte_at, substr, short2string, int2string, string2short, string2uint}
use p2p_demo.Packet.OptData.{OptData}
use p2p_demo.Packet.OptData
use p2p_demo.Packet.QueryResult.{QueryResult, new_query_result}
use p2p_demo.Packet.QueryResult
use p2p_demo.Packet.Header.{Packet, PacketClass, new_packet, id_size}

pub record QueryHits : Type 0 where
  pub packet : Packet
  pub open packet use *
  pub num_hits : ℕ
  pub port : ℕ
  pub ip : ℕ
  pub speed : ℕ
  pub result_set : List QueryResult
  pub qhd_data : OptData
  pub servent_id : Bytes

unfoldable pub results_string : List QueryResult → Bytes
results_string [] = []
results_string (r ∷ rs) = QueryResult.to_string r ++ results_string rs

unfoldable pub hits_fields : QueryHits → Bytes
hits_fields m =
    m.num_hits
    ∷ (short2string m.port
        ++ int2string m.ip
        ++ int2string m.speed
        ++ results_string m.result_set
        ++ OptData.to_string m.qhd_data
        ++ take id_size m.servent_id)

unfoldable pub update_payload : QueryHits → QueryHits
update_payload m = record m {
  packet = record (m.packet) { payload = OptData.parse_string m.packet.payload (hits_fields m) };
}

-- The loop over `num_hits`: the results, and what is left of the string behind them.
unfoldable pub parse_results : ℕ → Bytes → Outcome (List QueryResult × Bytes)
parse_results zero str = ok ([], str)
parse_results (suc n) str = do
  qr ← QueryResult.parse_string new_query_result str
  rest ← substr str (QueryResult.length qr)
  (rs, last) ← parse_results n rest
  ok (qr ∷ rs, last)

unfoldable pub parse_payload : QueryHits → Outcome QueryHits
parse_payload m =
    let str = OptData.to_string m.packet.payload in
    if ltb (length str) 27 then throw runtime_error else do
      num_hits ← byte_at str 0
      port ← string2short str 1
      ip ← string2uint str 3
      speed ← string2uint str 7
      let servent_id = drop (length str - id_size) str
      rest ← substr (take (length str - id_size) str) 11
      (result_set, last) ← parse_results num_hits rest
      ok (record m {
        num_hits = num_hits;
        port = port;
        ip = u32 ip;
        speed = u32 speed;
        result_set = result_set;
        qhd_data = OptData.parse_string m.qhd_data last;
        servent_id = servent_id;
      })

instance abbrev pub hits_class : PacketClass QueryHits
hits_class = record {
  base = λ m. m.packet;
  set_base = λ m p. record m { packet = p };
  update_payload = update_payload;
  parse_payload = parse_payload;
  base-set_base = λ m p. refl;
  set_base-set_base = λ m p q. refl;
}

abbrev sixteen_zeros : Bytes
sixteen_zeros = 0 ∷ 0 ∷ 0 ∷ 0 ∷ 0 ∷ 0 ∷ 0 ∷ 0 ∷ 0 ∷ 0 ∷ 0 ∷ 0 ∷ 0 ∷ 0 ∷ 0 ∷ 0 ∷ []

unfoldable pub new_query_hits : Bytes → QueryHits
unfolding new_packet
new_query_hits rand = record {
  packet = record (new_packet rand) { pd = 0x81 };
  num_hits = 0;
  port = 0;
  ip = 0;
  speed = 0;
  result_set = [];
  qhd_data = OptData.empty;
  servent_id = sixteen_zeros;
}
