-- ===== src/Listener/History.antt =====
-- The records of messages seen: `isStaleMessage`, `saveMsgHist`, `isMyPing`, `isMyQuery` and
-- `cleanHist`. Ids are compared in hexadecimal.
pub mod Laws
use p2p_demo.Prelude.{
  ℕ, ◌+◌, Bool, true, false, List, [], ◌∷◌, Option, none, some, ltb, if◌then◌else◌,
}
use p2p_demo.Prelude.Maps.{lookup, insert}
use p2p_demo.Wire.{Bytes}
use p2p_demo.Util.Text.{bytes_eq}
use p2p_demo.Packet.Header.{Packet}
use p2p_demo.Packet.Message.{Message, ping, pong, query, query_hits, base, hexid}
use p2p_demo.Listener.State.{Listener, MsgInfo, Hist, World, Net, bytes_key}

-- `hist.find(key) != hist.end()`
unfoldable pub has_key : Bytes → Hist → Bool
has_key k h = elim (lookup k h) [ none ↦ false | some info ↦ true ]

unfoldable pub is_stale_message : Listener → Message → Bool
unfolding has_key
is_stale_message l (ping m) = has_key (hexid m.packet) l.ping_hist
is_stale_message l (pong m) = has_key (hexid m.packet) l.pong_hist
is_stale_message l (query m) = has_key (hexid m.packet) l.query_hist
is_stale_message l (query_hits m) = has_key (hexid m.packet) l.queryhits_hist

abbrev msg_info : Packet → ℕ → ℕ → MsgInfo
msg_info p sockfd now = record { key = hexid p; sockfd = sockfd; ts = now }

unfoldable pub save_msg_hist : Net → ℕ → Message → World → World
save_msg_hist net sockfd (ping m) w = record w {
  listener = record (w.listener) {
    ping_hist = insert (hexid m.packet) (msg_info m.packet sockfd (net.now w.trace)) w.ping_hist;
  };
}
save_msg_hist net sockfd (pong m) w = record w {
  listener = record (w.listener) {
    pong_hist = insert (hexid m.packet) (msg_info m.packet sockfd (net.now w.trace)) w.pong_hist;
  };
}
save_msg_hist net sockfd (query m) w = record w {
  listener = record (w.listener) {
    query_hist = insert (hexid m.packet) (msg_info m.packet sockfd (net.now w.trace)) w.query_hist;
  };
}
save_msg_hist net sockfd (query_hits m) w = record w {
  listener = record (w.listener) {
    queryhits_hist =
        insert (hexid m.packet) (msg_info m.packet sockfd (net.now w.trace)) w.queryhits_hist;
  };
}

unfoldable pub is_my_ping : Listener → Packet → Bool
unfolding has_key
is_my_ping l p = has_key (hexid p) l.my_ping_hist

unfoldable pub is_my_query : Listener → Packet → Bool
is_my_query l p = bytes_eq l.my_query_hexid (hexid p)

abbrev pub stale_time : ℕ
stale_time = 60

-- One pass of the loop of `cleanHist` over a map.
unfoldable pub clean : ℕ → Hist → Hist
clean now [] = []
clean now ((k, info) ∷ h) =
    if ltb (info.ts + stale_time) now then clean now h else (k, info) ∷ clean now h

unfoldable pub clean_hist : Net → World → World
unfolding clean
clean_hist net w = record w {
  listener = record (w.listener) {
    my_ping_hist = clean (net.now w.trace) w.my_ping_hist;
    ping_hist = clean (net.now w.trace) w.ping_hist;
    pong_hist = clean (net.now w.trace) w.pong_hist;
    query_hist = clean (net.now w.trace) w.query_hist;
    queryhits_hist = clean (net.now w.trace) w.queryhits_hist;
  };
}
