-- ===== src/Listener/Routing/Queries.antt =====
-- The way of a Query and of the QueryHits that answer it.
use p2p_demo.Prelude.{
  ℕ, ◌+◌, ◌-◌, ◌%◌, ◌^◌, ◌≡◌, ◌≢◌, refl, sym, ap, ◌∙◌, false, ◌∷◌, some, ltb, if◌then◌else◌,
  Bool-cases, inl, inr,
}
use p2p_demo.Prelude.Maps.{IsSorted, lookup}
use p2p_demo.Packet.Query.{Query}
use p2p_demo.Packet.QueryHits.{QueryHits}
use p2p_demo.Packet.Message.{query, query_hits, text, hexid}
use p2p_demo.Listener.State.{World, Net, wrote, note, fd_key, bytes_key, PeerInfo}
use p2p_demo.Listener.History.{is_stale_message, save_msg_hist, is_my_query}
use p2p_demo.Listener.Routing.{
  forward_message_single, reply_query, handle_query, handle_query_hits, age,
}
use p2p_demo.Listener.Routing.Flood.{
  pass_on-listener, reply_query-listener, sent_to, pass_on-sends, hops_left, sent_to-reply_query,
}
use p2p_demo.Listener.Routing.Seen.{
  handle_query_dropped, my_query-hexid, stale_query-hexid, hexid-age, stale_saved_query,
  my_query_saved, lookup_saved_query,
}

module _ (net : Net) (fd : ℕ) (m : Query) (w : World) where
  pub aged_query : Query
  aged_query = record m { packet = age m.packet }

  -- A Query that is neither the node's own nor a repetition is recorded, whatever else is done.
  pub handle_query-listener :
      is_my_query w.listener m.packet ≡ false
      → is_stale_message w.listener (query m) ≡ false
      → (handle_query net fd m w).listener ≡ (save_msg_hist net fd (query aged_query) w).listener
  unfolding handle_query aged_query
  handle_query-listener mine stale =
      let saved : World = save_msg_hist net fd (query aged_query) w in
      rw (handle_query, mine, stale)
        (pass_on-listener (query aged_query) fd (reply_query net fd aged_query saved)
          ∙ reply_query-listener net fd aged_query saved)

  -- Behind a first handling a message with the same id is dropped, from wherever it comes.
  handle_query_fresh_then :
      (fd' : ℕ) (k : Query)
      → hexid k.packet ≡ hexid m.packet
      → is_my_query w.listener m.packet ≡ false
      → is_stale_message w.listener (query m) ≡ false
      → handle_query net fd' k (handle_query net fd m w) ≡ handle_query net fd m w
  handle_query_fresh_then fd' k e mine stale =
      handle_query_dropped net fd' k (handle_query net fd m w) (
        inr (
          rw (handle_query-listener mine stale) (
            stale_query-hexid _ k aged_query (e ∙ unfold aged_query in sym (hexid-age m.packet))
            ∙ stale_saved_query net fd w aged_query)))

  -- Once a Query has been handled, handling any Query with the same hexadecimal id, from whatever
  -- socket, changes nothing and sends nothing.
  pub handle_query_repeated :
      (fd' : ℕ) (k : Query)
      → hexid k.packet ≡ hexid m.packet
      → handle_query net fd' k (handle_query net fd m w) ≡ handle_query net fd m w
  handle_query_repeated fd' k e = elim (Bool-cases (is_my_query w.listener m.packet)) [
    | inl mine ↦ rw (handle_query_dropped net fd m w (inl mine)) (
        handle_query_dropped net fd' k w
          (inl (my_query-hexid w.listener k.packet m.packet e ∙ mine)))
    | inr other ↦ elim (Bool-cases (is_stale_message w.listener (query m))) [
      | inl stale ↦
          rw (handle_query_dropped net fd m w (inr stale))
            (handle_query_dropped net fd' k w (inr (stale_query-hexid w.listener k m e ∙ stale)))
      | inr fresh ↦ handle_query_fresh_then fd' k e other fresh
    ]
  ]

  -- The way back is known to every world that has the listener of then.
  pub handle_query_hits_passed :
      (fd' : ℕ) (p : QueryHits) (w' : World)
      → w'.listener ≡ (handle_query net fd m w).listener
      → hexid p.packet ≡ hexid m.packet
      → is_my_query w.listener m.packet ≡ false
      → is_stale_message w.listener (query m) ≡ false
      → handle_query_hits net fd' p w' ≡ note (wrote fd (text (query_hits p))) w'
  unfolding handle_query_hits forward_message_single
  handle_query_hits_passed fd' p w' same e mine stale =
      let not_mine : is_my_query w'.listener p.packet ≡ false =
        rw (same, handle_query-listener mine stale)
          (my_query_saved net fd w (query aged_query) p.packet
            ∙ my_query-hexid w.listener p.packet m.packet e
            ∙ mine) in
      let known : lookup (hexid p.packet) w'.query_hist
          ≡ some (record { key = hexid m.packet; sockfd = fd; ts = net.now w.trace }) =
        rw (same, handle_query-listener mine stale, e)
          (unfold aged_query hexid in lookup_saved_query net fd w aged_query) in
      rw (handle_query_hits, not_mine, known)

  -- After a Query that was neither the node's own nor a repetition, a QueryHits with the same
  -- hexadecimal id is written, unchanged, to the socket that the Query came from, and nothing else
  -- happens.
  pub handle_query_hits_returns :
      (fd' : ℕ) (p : QueryHits)
      → hexid p.packet ≡ hexid m.packet
      → is_my_query w.listener m.packet ≡ false
      → is_stale_message w.listener (query m) ≡ false
      → handle_query_hits net fd' p (handle_query net fd m w)
        ≡ note (wrote fd (text (query_hits p))) (handle_query net fd m w)
  handle_query_hits_returns fd' p = handle_query_hits_passed fd' p (handle_query net fd m w) refl

  saved : World
  saved = save_msg_hist net fd (query aged_query) w

  saved-same : (saved.peers ≡ w.peers) × (saved.trace ≡ w.trace)
  unfolding saved save_msg_hist
  saved-same = (refl, refl)

  replied-peers : (reply_query net fd aged_query saved).peers ≡ w.peers
  replied-peers = ap (λ l. l.peers) (reply_query-listener net fd aged_query saved) ∙ saved-same.0

  -- A Query that is neither the node's own nor a repetition, and whose ttl is above 1, is written
  -- exactly once, with its ttl lowered by one and its hops raised by one modulo 256, to each peer
  -- of a sorted table other than the socket it came from; with a ttl of 0 or 1 nothing is written
  -- to those peers.
  pub handle_query_forwards :
      (j : ℕ) (q : PeerInfo)
      → is_my_query w.listener m.packet ≡ false
      → is_stale_message w.listener (query m) ≡ false
      → IsSorted w.peers
      → lookup j w.peers ≡ some q
      → j ≢ fd
      → sent_to j (handle_query net fd m w).trace ≡ (
          if ltb 1 m.packet.ttl
          then text (
              query (record m {
                packet = record (m.packet) {
                  ttl = m.packet.ttl - 1;
                  hops = (m.packet.hops + 1) % 2 ^ 8;
                };
              }))
            ∷ sent_to j w.trace
          else sent_to j w.trace)
  unfolding handle_query saved aged_query
  handle_query_forwards j q mine stale u h ne =
      rw (handle_query, mine, stale)
        (pass_on-sends (query aged_query) fd j q (reply_query net fd aged_query saved)
            (rw replied-peers u) (rw replied-peers h) ne
          ∙ rw (sent_to-reply_query net fd j aged_query saved ne, saved-same.1)
              (unfold aged_query in rw (hops_left m.packet.ttl)))
