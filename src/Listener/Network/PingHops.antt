-- ===== src/Listener/Network/PingHops.antt =====
-- What each node does with the text of a Ping, and of the Pong that answers it.
use p2p_demo.Prelude.{ℕ, ◌<◌, ◌≡◌, ◌≢◌, ◌^◌, ap, ◌∙◌, false, some, arith}
use p2p_demo.Prelude.Maps.{IsSorted, lookup}
use p2p_demo.Outcome.{ok}
use p2p_demo.Wire.{Bytes, u8, u16}
use p2p_demo.Packet.Header.{set_id, to_string, parse_string}
use p2p_demo.Packet.Header.Laws.{IsHeader}
use p2p_demo.Packet.Ping.{Ping, new_ping, ping_class}
use p2p_demo.Packet.Ping.RoundTrip.{parse_string-to_string_ping}
use p2p_demo.Packet.Pong.{Pong, new_pong, pong_class, update_payload}
use p2p_demo.Packet.Pong.RoundTrip.{IsPong, header, parse_string-to_string_pong}
use p2p_demo.Packet.Message.{ping}
use p2p_demo.Listener.State.{World, Net, PeerInfo, note, drew, draws, fd_key}
use p2p_demo.Listener.Peers.{peer_full, erase_peer}
use p2p_demo.Listener.History.{is_stale_message, is_my_ping, save_msg_hist}
use p2p_demo.Listener.Routing.{handle_ping, handle_pong, answer_ping, reply_ping, age}
use p2p_demo.Listener.Receive.{caught, handle_peer_msg, dispatch}
use p2p_demo.Listener.Commands.{drop_peer, ping_peer}
use p2p_demo.Listener.Network.Texts.{handle_peer_msg-serialize}
use p2p_demo.Listener.Network.Hops.{Sends, sent_to-pass_on_source}

-- A node that has not seen the Ping, with the socket of another peer.
pub record PassesPing (m : Ping) (from to : ℕ) (b : World) : Type 0 where
  pub mine : is_my_ping b.listener m.packet ≡ false
  pub stale : is_stale_message b.listener (ping m) ≡ false
  pub sorted : IsSorted b.peers
  pub peer : PeerInfo
  pub linked : lookup to b.peers ≡ some peer
  pub other : to ≢ from

-- A node that has not seen the Ping, is no seed node, and has room for a peer.
pub record Welcomes (m : Ping) (c : World) : Type 0 where
  pub mine : is_my_ping c.listener m.packet ≡ false
  pub stale : is_stale_message c.listener (ping m) ≡ false
  pub no_seed : c.conf.is_seed_node ≡ 0
  pub room : peer_full c.listener ≡ false
  pub ip_fits : c.hostip < 2 ^ 32

-- The Ping that `ping_peer` writes, and the Pong that `reply_ping` writes.
abbrev pub probe : Net → Bytes → World → Ping
probe net id w =
    let fresh = set_id (new_ping (draws net w)) id in
    record fresh { packet = record (fresh.packet) { ttl = u8 w.conf.ttl } }

abbrev pub reply : Net → Ping → World → Pong
reply net m w =
    let msg = set_id (new_pong (draws net w)) m.packet.id in
    record msg {
      packet = record (msg.packet) { ttl = u8 w.conf.ttl };
      ip = w.hostip;
      port = u16 w.conf.neighbor_port;
    }

abbrev pub passed : Ping → Ping
passed m = record m { packet = age m.packet }

pub ping_peer-Sends :
    (net : Net) (fd : ℕ) (id : Bytes) (w : World)
    → Sends fd (to_string (probe net id w)).1 w (ping_peer net fd id w).0
unfolding ping_peer drop_peer erase_peer
ping_peer-Sends net fd id w = ground arith

module _ (net : Net) (fd : ℕ) (w : World) where
  dispatch-ping :
      (str : Bytes) (m : Ping)
      → parse_string (new_ping (draws net w)) str ≡ ok m
      → dispatch net 0x00 fd str w ≡ ok (handle_ping net fd m (note drew w))
  unfolding dispatch
  dispatch-ping str m e =
      ap (λ o. caught (note drew w) o (λ q. handle_ping net fd q (note drew w))) e

  dispatch-pong :
      (str : Bytes) (m : Pong)
      → parse_string (new_pong (draws net w)) str ≡ ok m
      → dispatch net 0x01 fd str w ≡ ok (handle_pong net fd m (note drew w))
  unfolding dispatch
  dispatch-pong str m e =
      ap (λ o. caught (note drew w) o (λ q. handle_pong net fd q (note drew w))) e

  pub handle_peer_msg-ping :
      (m : Ping)
      → IsHeader m.packet
      → m.packet.pd ≡ 0x00
      → handle_peer_msg net fd (to_string m).1 w ≡ ok (handle_ping net fd m (note drew w))
  unfolding to_string
  handle_peer_msg-ping m v e =
      handle_peer_msg-serialize net fd w m.packet v
      ∙ ap (λ d. dispatch net d fd (to_string m).1 w) e
      ∙ dispatch-ping (to_string m).1 m (parse_string-to_string_ping (draws net w) m v)

  pub handle_peer_msg-pong :
      (m : Pong)
      → IsPong m
      → m.packet.pd ≡ 0x01
      → handle_peer_msg net fd (to_string m).1 w
        ≡ ok (handle_pong net fd (to_string m).0 (note drew w))
  unfolding to_string update_payload
  handle_peer_msg-pong m v e =
      handle_peer_msg-serialize net fd w (update_payload m).packet (header m v)
      ∙ ap (λ d. dispatch net d fd (to_string m).1 w) e
      ∙ dispatch-pong (to_string m).1 (to_string m).0
          (parse_string-to_string_pong m v (new_pong (draws net w)))

module _ (net : Net) (fd : ℕ) (m : Ping) (w : World) where
  abbrev pub recorded : World
  recorded = save_msg_hist net fd (ping (passed m)) w

  pub handle_ping-Sends :
      Welcomes m w → Sends fd (to_string (reply net m recorded)).1 w (handle_ping net fd m w)
  unfolding handle_ping answer_ping reply_ping save_msg_hist peer_full
  handle_ping-Sends p =
      rw (handle_ping, p.mine, p.stale)
        (sent_to-pass_on_source _ fd _ ∙ ground (arith, p.no_seed, p.room))
