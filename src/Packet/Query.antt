-- ===== src/Packet/Query.antt =====
-- class Query: the criteria end with a NUL, and optional data follow.
pub mod RoundTrip
use p2p_demo.Prelude.{
  ℕ, ◌+◌, Bool, true, false, ◌||◌, refl, List, [], ◌∷◌, ◌++◌, length, drop, ltb, ◌==◌,
  if◌then◌else◌,
}
use p2p_demo.Outcome.{Outcome, ok, throw, runtime_error, ◌>>=◌}
use p2p_demo.Wire.{Bytes, u32, substr, short2string, string2short}
use p2p_demo.Wire.CString.{c_string, is_empty}
use p2p_demo.Packet.OptData.{OptData}
use p2p_demo.Packet.OptData
use p2p_demo.Packet.Header.{Packet, PacketClass, new_packet}

pub record Query : Type 0 where
  pub packet : Packet
  pub open packet use *
  pub min_speed : ℕ
  pub criteria : Bytes
  pub optdata : OptData

unfoldable pub query_fields : Query → Bytes
query_fields m = short2string m.min_speed ++ m.criteria ++ 0 ∷ OptData.to_string m.optdata

unfoldable pub update_payload : Query → Query
update_payload m = record m {
  packet = record (m.packet) { payload = OptData.parse_string m.packet.payload (query_fields m) };
}

-- `idx` is an `unsigned int`, so the step behind the NUL may wrap.
unfoldable pub parse_payload : Query → Outcome Query
parse_payload m =
    let str = OptData.to_string m.packet.payload in
    if ltb (length str) 4 then throw runtime_error else do
      min_speed ← string2short str 0
      let criteria = c_string (drop 2 str)
      let idx = u32 (2 + length criteria + 1)
      if ltb (length str) idx || is_empty criteria then throw runtime_error else do
        rest ← substr str idx
        ok (record m {
          min_speed = min_speed;
          criteria = criteria;
          optdata = OptData.parse_string m.optdata rest;
        })

instance abbrev pub query_class : PacketClass Query
query_class = record {
  base = λ m. m.packet;
  set_base = λ m p. record m { packet = p };
  update_payload = update_payload;
  parse_payload = parse_payload;
  base-set_base = λ m p. refl;
  set_base-set_base = λ m p q. refl;
}

unfoldable pub new_query : Bytes → Query
unfolding new_packet
new_query rand = record {
  packet = record (new_packet rand) { pd = 0x80 };
  min_speed = 0;
  criteria = [];
  optdata = OptData.empty;
}
