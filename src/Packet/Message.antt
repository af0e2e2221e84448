-- ===== src/Packet/Message.antt =====
-- A `Packet&` whose class is known at run time (`typeid`), its text and its id in hexadecimal.
use p2p_demo.Prelude.{true, take}
use p2p_demo.Wire.{Bytes}
use p2p_demo.Util.Hex.{to_hex}
use p2p_demo.Packet.Header.{Packet, id_size, to_string}
use p2p_demo.Packet.Ping.{Ping, ping_class}
use p2p_demo.Packet.Pong.{Pong, pong_class}
use p2p_demo.Packet.Query.{Query, query_class}
use p2p_demo.Packet.QueryHits.{QueryHits, hits_class}

pub data Message : Type 0 where
  ping : Ping → Message
  pong : Pong → Message
  query : Query → Message
  query_hits : QueryHits → Message

abbrev pub base : Message → Packet
base (ping m) = m.packet
base (pong m) = m.packet
base (query m) = m.packet
base (query_hits m) = m.packet

-- `msg.toString()`, by the class of the object.
unfoldable pub text : Message → Bytes
text (ping m) = (to_string m).1
text (pong m) = (to_string m).1
text (query m) = (to_string m).1
text (query_hits m) = (to_string m).1

-- `hexid()`, which `key()` repeats.
unfoldable pub hexid : Packet → Bytes
hexid p = to_hex true (take id_size p.id)
