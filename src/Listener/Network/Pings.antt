-- ===== src/Listener/Network/Pings.antt =====
-- Nodes that are joined: a Ping that goes over several of them, and the Pong that comes back.
use p2p_demo.Prelude.{
  ℕ, ◌<◌, ◌≡◌, refl, ap, ◌∙◌, true, false, List, [], ◌∷◌, All, All-map, length, length-take, lt→ltb,
  arith,
}
use p2p_demo.Outcome.{ok}
use p2p_demo.Wire.{Bytes, u8, u16}
use p2p_demo.Packet.Header.{set_id, to_string}
use p2p_demo.Packet.Ping.{Ping, new_ping, ping_class}
use p2p_demo.Packet.Pong.{Pong, pong_class, update_payload}
use p2p_demo.Packet.Message.{pong, text}
use p2p_demo.Listener.State.{World, Net, note, drew, wrote, fd_key}
use p2p_demo.Listener.Peers.{has_peer, peer_full, connect_peer}
use p2p_demo.Listener.History.{is_my_ping}
use p2p_demo.Listener.Routing.{handle_ping, handle_pong}
use p2p_demo.Listener.Routing.Pings.{handle_ping_forwards, handle_pong_passed}
use p2p_demo.Listener.Routing.Seen.{my_ping-hexid}
use p2p_demo.Listener.Receive.{handle_peer_msg}
use p2p_demo.Listener.Commands.{ping_peer}
use p2p_demo.Listener.Commands.Laws.{is_my_ping-ping_peer}
use p2p_demo.Listener.Network.Hops.{Sends}
use p2p_demo.Listener.Network.Roles.{Relay, Found, Carries}
use p2p_demo.Listener.Network.PingHops.{
  PassesPing, Welcomes, probe, reply, passed, recorded, ping_peer-Sends, handle_peer_msg-ping,
  handle_peer_msg-pong, handle_ping-Sends,
}
use p2p_demo.Listener.Network.PingRoles.{
  hexid-to_string_pong, hexid-passed_ping, IsWelcome-passed, PassesPing-passed, Welcomes-passed,
  IsPing-passed, reply-IsWelcome, IsWelcome, IsPing,
}

module _ (r : Relay) (m : Ping) (v : IsPing m) (p : PassesPing m r.from r.to r.world) where
  abbrev behind : World
  behind = handle_ping r.net r.from m (note drew r.world)

  relay-Carries :
      1 < m.packet.ttl
      → Carries r.net r.from (to_string m).1 r.world r.to (to_string (passed m)).1 behind
  unfolding text
  relay-Carries h = (
    handle_peer_msg-ping r.net r.from r.world m v.sound v.is_ping,
    handle_ping_forwards r.net r.from m (note drew r.world) r.to p.peer p.mine p.stale p.sorted
          p.linked p.other
        ∙ rw (lt→ltb 1 m.packet.ttl h) refl,
  )

  return-Carries :
      (c : World) (a : Pong)
      → IsWelcome (passed m) c a
      → Carries r.net r.to
          (to_string a).1
          behind
          r.from
          (to_string (to_string a).0).1
          (note (wrote r.from (text (pong (to_string a).0))) (note drew behind))
  unfolding text
  return-Carries c a s = (
    handle_peer_msg-pong r.net r.to behind a s.sound s.is_pong
        ∙ ap ok (
            handle_pong_passed r.net r.from m (note drew r.world) r.to (to_string a).0
              (note drew behind) refl (hexid-to_string_pong a ∙ s.same_id ∙ hexid-passed_ping m)
              p.mine p.stale),
    ground arith,
  )

abbrev pub PassesPingAll : Ping → List Relay → Type 0
PassesPingAll m rs = All (λ r. PassesPing m r.from r.to r.world) rs

module _ (net : Net) (fd : ℕ) (c : World) where
  probe-Found :
      (rs : List Relay) (m : Ping)
      → IsPing m
      → length rs < m.packet.ttl
      → PassesPingAll m rs
      → Welcomes m c
      → (a : Pong) × IsWelcome m c a × Found rs net fd c (to_string m).1 (to_string a).1
  probe-Found [] m v h ps p = (
    reply net m (recorded net fd m (note drew c)),
    reply-IsWelcome net fd m c v p,
    (
      _,
      (
        handle_peer_msg-ping net fd c m v.sound v.is_ping,
        handle_ping-Sends net fd m (note drew c) (record {
          mine = p.mine;
          stale = p.stale;
          no_seed = p.no_seed;
          room = p.room;
          ip_fits = p.ip_fits;
        }),
      ),
    ),
  )
  probe-Found (r ∷ rs) m v h (p, ps) w =
      let (a, s, found) =
        probe-Found rs (passed m) (IsPing-passed m v) (omega (arith, h))
          (All-map (λ (r : Relay). PassesPing m r.from r.to r.world)
            (λ (r : Relay). PassesPing (passed m) r.from r.to r.world) rs
            (λ r. PassesPing-passed m r.from r.to r.world) ps)
          (Welcomes-passed m c w) in
      (
        (to_string a).0,
        IsWelcome-passed m c a s,
        (_, _, _, _, relay-Carries r m v p (omega (arith, h)), found, return-Carries r m v p c a s),
      )

probe-IsPing : (net : Net) (id : Bytes) (a : World) → length id ≡ 16 → IsPing (probe net id a)
unfolding set_id new_ping
probe-IsPing net id a h = record {
  sound = record {
    id_length = omega (arith, length-take 16 id, h);
    whole = record { exact = refl; fits = omega arith };
  };
  is_ping = refl;
}

-- The Pong that comes to who asked makes it connect.
answer-connects :
    (net : Net) (fd : ℕ) (id : Bytes) (a c : World) (p : Pong)
    → IsWelcome (probe net id a) c p
    → has_peer (ping_peer net fd id a).0.listener c.hostip (u16 c.conf.neighbor_port) ≡ false
    → peer_full (ping_peer net fd id a).0.listener ≡ false
    → handle_peer_msg net fd (to_string p).1 (ping_peer net fd id a).0
      ≡ ok
          (connect_peer net c.hostip
            (u16 c.conf.neighbor_port)
            (note drew (ping_peer net fd id a).0)).0
unfolding handle_pong to_string update_payload set_id
answer-connects net fd id a c p s new open_place =
    let asked = (ping_peer net fd id a).0 in
    let m = probe net id a in
    let mine : is_my_ping asked.listener (to_string p).0.packet ≡ true =
      my_ping-hexid asked.listener (to_string p).0.packet m.packet
        (hexid-to_string_pong p ∙ s.same_id)
      ∙ is_my_ping-ping_peer net fd id a m.packet refl in
    handle_peer_msg-pong net fd asked p s.sound s.is_pong
    ∙ ap ok (rw (handle_pong, mine, s.same_ip, s.same_port, new, open_place) refl)

-- A Ping finds a node over any number of nodes below its `ttl`, as bytes. What `ping_peer` writes
-- is handled by the first node, what each node passes on by the next, and the Pong of the last
-- node by each node on the way back, up to the node that pinged, which then connects to the
-- address and port of the last node. The id has sixteen bytes; each node on the way keeps a sorted
-- table with the next one in it; no node has seen the Ping before or has pinged with its id; the
-- last one is no seed node and has room for a peer; and the node that pinged has room too, and
-- does not have that peer yet.
pub ping_peer-Found :
    (rs : List Relay) (net : Net) (fd : ℕ) (c : World) (asking : Net) (to : ℕ) (id : Bytes)
    (a : World)
    → length id ≡ 16
    → length rs < u8 a.conf.ttl
    → PassesPingAll (probe asking id a) rs
    → Welcomes (probe asking id a) c
    → has_peer (ping_peer asking to id a).0.listener c.hostip (u16 c.conf.neighbor_port) ≡ false
    → peer_full (ping_peer asking to id a).0.listener ≡ false
    → (str : Bytes) × (back : Bytes) × Sends to str a (ping_peer asking to id a).0
      × Found rs net fd c str back
      × (handle_peer_msg asking to back (ping_peer asking to id a).0
          ≡ ok
              (connect_peer asking c.hostip
                (u16 c.conf.neighbor_port)
                (note drew (ping_peer asking to id a).0)).0)
ping_peer-Found rs net fd c asking to id a h hops ps p new open_place =
    let m = probe asking id a in
    let (reached, s, found) = probe-Found net fd c rs m (probe-IsPing asking id a h) hops ps p in
    (
      (to_string m).1,
      (to_string reached).1,
      ping_peer-Sends asking to id a,
      found,
      answer-connects asking to id a c reached s new open_place,
    )
