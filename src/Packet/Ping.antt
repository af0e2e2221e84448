-- ===== src/Packet/Ping.antt =====
-- class Ping: the header alone; its optional data is the payload itself.
pub mod RoundTrip
use p2p_demo.Prelude.{refl}
use p2p_demo.Outcome.{ok}
use p2p_demo.Wire.{Bytes}
use p2p_demo.Packet.Header.{Packet, PacketClass, new_packet}

pub record Ping : Type 0 where
  pub packet : Packet
  pub open packet use *

instance abbrev pub ping_class : PacketClass Ping
ping_class = record {
  base = λ m. m.packet;
  set_base = λ m p. record m { packet = p };
  update_payload = λ m. m;
  parse_payload = λ m. ok m;
  base-set_base = λ m p. refl;
  set_base-set_base = λ m p q. refl;
}

unfoldable pub new_ping : Bytes → Ping
unfolding new_packet
new_ping rand = record { packet = record (new_packet rand) { pd = 0x00 } }
