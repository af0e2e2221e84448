-- ===== src/Listener/Network/PingRoles.antt =====
-- What a Ping and the Pong that answers it keep on the way.
use p2p_demo.Prelude.{ℕ, ◌≡◌, refl, ap, ◌∙◌, true, length-take, take, take_exact, arith}
use p2p_demo.Wire.{u16}
use p2p_demo.Util.Hex.{to_hex}
use p2p_demo.Packet.Header.{id_size, set_id, to_string}
use p2p_demo.Packet.Header.Laws.{IsHeader}
use p2p_demo.Packet.Ping.{Ping, ping_class}
use p2p_demo.Packet.Pong.{Pong, new_pong, pong_class, update_payload}
use p2p_demo.Packet.Pong.RoundTrip.{IsPong}
use p2p_demo.Packet.Message.{hexid}
use p2p_demo.Listener.State.{World, Net, note, drew, fd_key}
use p2p_demo.Listener.History.{save_msg_hist}
use p2p_demo.Listener.Routing.Seen.{my_ping-hexid, stale_ping-hexid}
use p2p_demo.Listener.Network.PingHops.{PassesPing, Welcomes, reply, passed, recorded}

-- The Pong gives the address of the node to who asked.
pub record IsWelcome (m : Ping) (c : World) (p : Pong) : Type 0 where
  pub sound : IsPong p
  pub is_pong : p.packet.pd ≡ 0x01
  pub same_id : hexid p.packet ≡ hexid m.packet
  pub same_ip : p.ip ≡ c.hostip
  pub same_port : p.port ≡ u16 c.conf.neighbor_port

-- A Ping with a whole id and payload.
pub record IsPing (m : Ping) : Type 0 where
  pub sound : IsHeader m.packet
  pub is_ping : m.packet.pd ≡ 0x00

pub hexid-to_string_pong : (p : Pong) → hexid (to_string p).0.packet ≡ hexid p.packet
unfolding to_string update_payload hexid
hexid-to_string_pong p = refl

pub hexid-passed_ping : (m : Ping) → hexid (passed m).packet ≡ hexid m.packet
unfolding hexid
hexid-passed_ping m = refl

pub IsWelcome-passed :
    (m : Ping) (c : World) (p : Pong) → IsWelcome (passed m) c p → IsWelcome m c (to_string p).0
unfolding to_string update_payload
IsWelcome-passed m c p s = record {
  sound = record {
    id_length = s.sound.id_length;
    port_fits = s.sound.port_fits;
    ip_fits = s.sound.ip_fits;
    files_fit = s.sound.files_fit;
    size_fits = s.sound.size_fits;
    whole = s.sound.whole;
    length_fits = s.sound.length_fits;
  };
  is_pong = s.is_pong;
  same_id = hexid-to_string_pong p ∙ s.same_id ∙ hexid-passed_ping m;
  same_ip = s.same_ip;
  same_port = s.same_port;
}

pub PassesPing-passed :
    (m : Ping) (from to : ℕ) (b : World) → PassesPing m from to b → PassesPing (passed m) from to b
PassesPing-passed m from to b p = record {
  mine = my_ping-hexid b.listener (passed m).packet m.packet (hexid-passed_ping m) ∙ p.mine;
  stale = stale_ping-hexid b.listener (passed m) m (hexid-passed_ping m) ∙ p.stale;
  sorted = p.sorted;
  peer = p.peer;
  linked = p.linked;
  other = p.other;
}

pub Welcomes-passed : (m : Ping) (c : World) → Welcomes m c → Welcomes (passed m) c
Welcomes-passed m c p = record {
  mine = my_ping-hexid c.listener (passed m).packet m.packet (hexid-passed_ping m) ∙ p.mine;
  stale = stale_ping-hexid c.listener (passed m) m (hexid-passed_ping m) ∙ p.stale;
  no_seed = p.no_seed;
  room = p.room;
  ip_fits = p.ip_fits;
}

pub IsPing-passed : (m : Ping) → IsPing m → IsPing (passed m)
IsPing-passed m v = record {
  sound = record { id_length = v.sound.id_length; whole = v.sound.whole };
  is_ping = v.is_ping;
}

pub reply-IsWelcome :
    (net : Net) (fd : ℕ) (m : Ping) (c : World)
    → IsPing m
    → Welcomes m c
    → IsWelcome m c (reply net m (recorded net fd m (note drew c)))
unfolding set_id new_pong save_msg_hist hexid
reply-IsWelcome net fd m c v p = record {
  sound = record {
    id_length = omega (arith, length-take 16 m.packet.id, v.sound.id_length);
    port_fits = omega arith;
    ip_fits = p.ip_fits;
    files_fit = omega arith;
    size_fits = omega arith;
    whole = record { exact = refl; fits = omega arith };
    length_fits = omega arith;
  };
  is_pong = refl;
  same_id = ap (λ t. to_hex true (take id_size t)) (take_exact 16 m.packet.id v.sound.id_length);
  same_ip = refl;
  same_port = refl;
}
