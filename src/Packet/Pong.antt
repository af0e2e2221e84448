-- ===== src/Packet/Pong.antt =====
-- class Pong. `ip` is kept in host order and written in network order.
pub mod RoundTrip
use p2p_demo.Prelude.{ℕ, refl, List, [], ◌∷◌, ◌++◌, length, ltb, if◌then◌else◌}
use p2p_demo.Outcome.{Outcome, ok, throw, runtime_error, ◌>>=◌}
use p2p_demo.Wire.{Bytes, u32, substr, short2string, int2string, string2short, string2uint, htonl}
use p2p_demo.Packet.OptData.{OptData}
use p2p_demo.Packet.OptData
use p2p_demo.Packet.Header.{Packet, PacketClass, new_packet}

pub record Pong : Type 0 where
  pub packet : Packet
  pub open packet use *
  pub port : ℕ
  pub ip : ℕ
  pub num_files : ℕ
  pub num_size : ℕ
  pub optdata : OptData

unfoldable pub pong_fields : Pong → Bytes
pong_fields m =
    short2string m.port
    ++ int2string (htonl m.ip)
    ++ int2string m.num_files
    ++ int2string m.num_size
    ++ OptData.to_string m.optdata

unfoldable pub update_payload : Pong → Pong
update_payload m = record m {
  packet = record (m.packet) { payload = OptData.parse_string m.packet.payload (pong_fields m) };
}

unfoldable pub parse_payload : Pong → Outcome Pong
parse_payload m =
    let str = OptData.to_string m.packet.payload in
    if ltb (length str) 14 then throw runtime_error else do
      port ← string2short str 0
      ip ← string2uint str 2
      num_files ← string2uint str 6
      num_size ← string2uint str 10
      rest ← substr str 14
      ok (record m {
        port = port;
        ip = htonl (u32 ip);
        num_files = u32 num_files;
        num_size = u32 num_size;
        optdata = OptData.parse_string m.optdata rest;
      })

instance abbrev pub pong_class : PacketClass Pong
pong_class = record {
  base = λ m. m.packet;
  set_base = λ m p. record m { packet = p };
  update_payload = update_payload;
  parse_payload = parse_payload;
  base-set_base = λ m p. refl;
  set_base-set_base = λ m p q. refl;
}

unfoldable pub new_pong : Bytes → Pong
unfolding new_packet
new_pong rand = record {
  packet = record (new_packet rand) { pd = 0x01 };
  port = 0;
  ip = 0;
  num_files = 0;
  num_size = 0;
  optdata = OptData.empty;
}
