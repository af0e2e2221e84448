-- ===== src/Listener/Routing/Pings.antt =====
-- The way of a Ping and of the Pongs that answer it.
use p2p_demo.Prelude.{
  ℕ, ◌+◌, ◌-◌, ◌%◌, ◌^◌, ◌≡◌, ◌≢◌, refl, sym, ap, ◌∙◌, false, ◌∷◌, some, ltb, if◌then◌else◌,
  Bool-cases, inl, inr,
}
use p2p_demo.Prelude.Maps.{IsSorted, lookup}
use p2p_demo.Packet.Ping.{Ping}
use p2p_demo.Packet.Pong.{Pong}
use p2p_demo.Packet.Message.{ping, pong, text, hexid}
use p2p_demo.Listener.State.{World, Net, wrote, note, fd_key, bytes_key, PeerInfo}
use p2p_demo.Listener.History.{is_stale_message, save_msg_hist, is_my_ping}
use p2p_demo.Listener.Routing.{forward_message_single, handle_ping, handle_pong, age, answer_ping}
use p2p_demo.Listener.Routing.Flood.{
  pass_on-listener, answer_ping-listener, sent_to, pass_on-sends, hops_left, sent_to-answer_ping,
}
use p2p_demo.Listener.Routing.Seen.{
  handle_ping_dropped, my_ping-hexid, stale_ping-hexid, hexid-age, stale_saved_ping, my_ping_saved,
  lookup_saved_ping,
}

module _ (net : Net) (fd : ℕ) (m : Ping) (w : World) where
  pub aged_ping : Ping
  aged_ping = record m { packet = age m.packet }

  -- A Ping that is neither the node's own nor a repetition is recorded, whatever else is done.
  pub handle_ping-listener :
      is_my_ping w.listener m.packet ≡ false
      → is_stale_message w.listener (ping m) ≡ false
      → (handle_ping net fd m w).listener ≡ (save_msg_hist net fd (ping aged_ping) w).listener
  unfolding handle_ping aged_ping
  handle_ping-listener mine stale =
      let saved : World = save_msg_hist net fd (ping aged_ping) w in
      rw (handle_ping, mine, stale)
        (pass_on-listener (ping aged_ping) fd (answer_ping net fd aged_ping saved)
          ∙ answer_ping-listener net fd aged_ping saved)

  -- Behind a first handling a message with the same id is dropped, from wherever it comes.
  handle_ping_fresh_then :
      (fd' : ℕ) (k : Ping)
      → hexid k.packet ≡ hexid m.packet
      → is_my_ping w.listener m.packet ≡ false
      → is_stale_message w.listener (ping m) ≡ false
      → handle_ping net fd' k (handle_ping net fd m w) ≡ handle_ping net fd m w
  handle_ping_fresh_then fd' k e mine stale =
      handle_ping_dropped net fd' k (handle_ping net fd m w) (
        inr (
          rw (handle_ping-listener mine stale) (
            stale_ping-hexid _ k aged_ping (e ∙ unfold aged_ping in sym (hexid-age m.packet))
            ∙ stale_saved_ping net fd w aged_ping)))

  -- Once a Ping has been handled, handling any Ping with the same hexadecimal id, from whatever
  -- socket, changes nothing and sends nothing.
  pub handle_ping_repeated :
      (fd' : ℕ) (k : Ping)
      → hexid k.packet ≡ hexid m.packet
      → handle_ping net fd' k (handle_ping net fd m w) ≡ handle_ping net fd m w
  handle_ping_repeated fd' k e = elim (Bool-cases (is_my_ping w.listener m.packet)) [
    | inl mine ↦ rw (handle_ping_dropped net fd m w (inl mine)) (
        handle_ping_dropped net fd' k w (inl (my_ping-hexid w.listener k.packet m.packet e ∙ mine)))
    | inr other ↦ elim (Bool-cases (is_stale_message w.listener (ping m))) [
      | inl stale ↦
          rw (handle_ping_dropped net fd m w (inr stale))
            (handle_ping_dropped net fd' k w (inr (stale_ping-hexid w.listener k m e ∙ stale)))
      | inr fresh ↦ handle_ping_fresh_then fd' k e other fresh
    ]
  ]

  -- The way back is known to every world that has the listener of then.
  pub handle_pong_passed :
      (fd' : ℕ) (p : Pong) (w' : World)
      → w'.listener ≡ (handle_ping net fd m w).listener
      → hexid p.packet ≡ hexid m.packet
      → is_my_ping w.listener m.packet ≡ false
      → is_stale_message w.listener (ping m) ≡ false
      → handle_pong net fd' p w' ≡ note (wrote fd (text (pong p))) w'
  unfolding handle_pong forward_message_single
  handle_pong_passed fd' p w' same e mine stale =
      let not_mine : is_my_ping w'.listener p.packet ≡ false =
        rw (same, handle_ping-listener mine stale)
          (my_ping_saved net fd w (ping aged_ping) p.packet
            ∙ my_ping-hexid w.listener p.packet m.packet e
            ∙ mine) in
      let known : lookup (hexid p.packet) w'.ping_hist
          ≡ some (record { key = hexid m.packet; sockfd = fd; ts = net.now w.trace }) =
        rw (same, handle_ping-listener mine stale, e)
          (unfold aged_ping hexid in lookup_saved_ping net fd w aged_ping) in
      rw (handle_pong, not_mine, known)

  -- After a Ping that was neither the node's own nor a repetition, a Pong with the same
  -- hexadecimal id is written, unchanged, to the socket that the Ping came from, and nothing else
  -- happens.
  pub handle_pong_returns :
      (fd' : ℕ) (p : Pong)
      → hexid p.packet ≡ hexid m.packet
      → is_my_ping w.listener m.packet ≡ false
      → is_stale_message w.listener (ping m) ≡ false
      → handle_pong net fd' p (handle_ping net fd m w)
        ≡ note (wrote fd (text (pong p))) (handle_ping net fd m w)
  handle_pong_returns fd' p = handle_pong_passed fd' p (handle_ping net fd m w) refl

  saved : World
  saved = save_msg_hist net fd (ping aged_ping) w

  saved-same : (saved.peers ≡ w.peers) × (saved.trace ≡ w.trace)
  unfolding saved save_msg_hist
  saved-same = (refl, refl)

  answered-peers : (answer_ping net fd aged_ping saved).peers ≡ w.peers
  answered-peers = ap (λ l. l.peers) (answer_ping-listener net fd aged_ping saved) ∙ saved-same.0

  -- A Ping that is neither the node's own nor a repetition, and whose ttl is above 1, is written
  -- exactly once, with its ttl lowered by one and its hops raised by one modulo 256, to each peer
  -- of a sorted table other than the socket it came from; with a ttl of 0 or 1 nothing is written
  -- to those peers.
  pub handle_ping_forwards :
      (j : ℕ) (q : PeerInfo)
      → is_my_ping w.listener m.packet ≡ false
      → is_stale_message w.listener (ping m) ≡ false
      → IsSorted w.peers
      → lookup j w.peers ≡ some q
      → j ≢ fd
      → sent_to j (handle_ping net fd m w).trace ≡ (
          if ltb 1 m.packet.ttl
          then text (
              ping (record m {
                packet = record (m.packet) {
                  ttl = m.packet.ttl - 1;
                  hops = (m.packet.hops + 1) % 2 ^ 8;
                };
              }))
            ∷ sent_to j w.trace
          else sent_to j w.trace)
  unfolding handle_ping saved aged_ping
  handle_ping_forwards j q mine stale u h ne =
      rw (handle_ping, mine, stale)
        (pass_on-sends (ping aged_ping) fd j q (answer_ping net fd aged_ping saved)
            (rw answered-peers u) (rw answered-peers h) ne
          ∙ rw (sent_to-answer_ping net fd j aged_ping saved ne, saved-same.1)
              (unfold aged_ping in rw (hops_left m.packet.ttl)))
