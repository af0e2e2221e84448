-- ===== src/Listener/Routing/Seen.antt =====
-- Messages that were seen before are dropped.
use p2p_demo.Prelude.{ℕ, ◌≡◌, ◌⊎◌, refl, true, some, arith, inl, inr}
use p2p_demo.Prelude.Maps.{lookup, lookup-insert}
use p2p_demo.Util.Text.{bytes_eq_refl}
use p2p_demo.Packet.Header.{Packet}
use p2p_demo.Packet.Ping.{Ping}
use p2p_demo.Packet.Query.{Query}
use p2p_demo.Packet.Message.{Message, ping, pong, query, query_hits, hexid}
use p2p_demo.Listener.State.{Listener, World, Net, fd_key, bytes_key}
use p2p_demo.Listener.History.{is_stale_message, save_msg_hist, is_my_ping, is_my_query}
use p2p_demo.Listener.History.Laws.{has_key-insert}
use p2p_demo.Listener.Routing.{handle_ping, handle_query, age}

-- Own messages and repetitions are dropped with no effect at all.
pub handle_ping_dropped :
    (net : Net) (fd : ℕ) (m : Ping) (w : World)
    → (is_my_ping w.listener m.packet ≡ true) ⊎ (is_stale_message w.listener (ping m) ≡ true)
    → handle_ping net fd m w ≡ w
unfolding handle_ping
handle_ping_dropped net fd m w (inl mine) = rw (handle_ping, mine)
handle_ping_dropped net fd m w (inr stale) = ground (arith, stale)

pub handle_query_dropped :
    (net : Net) (fd : ℕ) (m : Query) (w : World)
    → (is_my_query w.listener m.packet ≡ true) ⊎ (is_stale_message w.listener (query m) ≡ true)
    → handle_query net fd m w ≡ w
unfolding handle_query
handle_query_dropped net fd m w (inl mine) = rw (handle_query, mine)
handle_query_dropped net fd m w (inr stale) = ground (arith, stale)

pub my_ping-hexid :
    (l : Listener) (p q : Packet) → hexid p ≡ hexid q → is_my_ping l p ≡ is_my_ping l q
unfolding is_my_ping
my_ping-hexid l p q e = rw e

pub my_query-hexid :
    (l : Listener) (p q : Packet) → hexid p ≡ hexid q → is_my_query l p ≡ is_my_query l q
unfolding is_my_query
my_query-hexid l p q e = rw e

pub stale_ping-hexid :
    (l : Listener) (m k : Ping)
    → hexid m.packet ≡ hexid k.packet
    → is_stale_message l (ping m) ≡ is_stale_message l (ping k)
unfolding is_stale_message
stale_ping-hexid l m k e = rw e

pub stale_query-hexid :
    (l : Listener) (m k : Query)
    → hexid m.packet ≡ hexid k.packet
    → is_stale_message l (query m) ≡ is_stale_message l (query k)
unfolding is_stale_message
stale_query-hexid l m k e = rw e

pub hexid-age : (p : Packet) → hexid (age p) ≡ hexid p
unfolding hexid
hexid-age p = refl

module _ (net : Net) (fd : ℕ) (w : World) where
  pub stale_saved_ping :
      (m : Ping) → is_stale_message (save_msg_hist net fd (ping m) w).listener (ping m) ≡ true
  unfolding is_stale_message save_msg_hist
  stale_saved_ping m = rw (
    has_key-insert (hexid m.packet) (hexid m.packet) _ w.ping_hist,
    bytes_eq_refl (hexid m.packet),
  )

  pub stale_saved_query :
      (m : Query) → is_stale_message (save_msg_hist net fd (query m) w).listener (query m) ≡ true
  unfolding is_stale_message save_msg_hist
  stale_saved_query m = rw (
    has_key-insert (hexid m.packet) (hexid m.packet) _ w.query_hist,
    bytes_eq_refl (hexid m.packet),
  )

  pub my_ping_saved :
      (m : Message) (p : Packet)
      → is_my_ping (save_msg_hist net fd m w).listener p ≡ is_my_ping w.listener p
  unfolding is_my_ping save_msg_hist
  my_ping_saved (ping m) p = refl
  my_ping_saved (pong m) p = refl
  my_ping_saved (query m) p = refl
  my_ping_saved (query_hits m) p = refl

  pub my_query_saved :
      (m : Message) (p : Packet)
      → is_my_query (save_msg_hist net fd m w).listener p ≡ is_my_query w.listener p
  unfolding is_my_query save_msg_hist
  my_query_saved (ping m) p = refl
  my_query_saved (pong m) p = refl
  my_query_saved (query m) p = refl
  my_query_saved (query_hits m) p = refl

  pub lookup_saved_ping :
      (m : Ping)
      → lookup (hexid m.packet) (save_msg_hist net fd (ping m) w).ping_hist
        ≡ some (record { key = hexid m.packet; sockfd = fd; ts = net.now w.trace })
  unfolding save_msg_hist
  lookup_saved_ping m = rw (
    lookup-insert (hexid m.packet) (hexid m.packet) _ w.ping_hist,
    bytes_eq_refl (hexid m.packet),
  )

  pub lookup_saved_query :
      (m : Query)
      → lookup (hexid m.packet) (save_msg_hist net fd (query m) w).query_hist
        ≡ some (record { key = hexid m.packet; sockfd = fd; ts = net.now w.trace })
  unfolding save_msg_hist
  lookup_saved_query m = rw (
    lookup-insert (hexid m.packet) (hexid m.packet) _ w.query_hist,
    bytes_eq_refl (hexid m.packet),
  )
