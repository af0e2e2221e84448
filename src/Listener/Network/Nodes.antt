-- ===== src/Listener/Network/Nodes.antt =====
-- What a node does with the text of a Query that it gets, and of the QueryHits that answers it.
use p2p_demo.Prelude.{
  ℕ, ◌<◌, ◌≡◌, refl, ap, sym, ◌∙◌, false, ◌++◌, length, length-take, take, take_exact, true, lt→ltb,
  arith,
}
use p2p_demo.Outcome.{ok}
use p2p_demo.Wire.{Bytes}
use p2p_demo.Packet.Header.{id_size, set_id, to_string}
use p2p_demo.Packet.Query.{Query, query_class, new_query, update_payload}
use p2p_demo.Packet.Query.RoundTrip.{IsQuery}
use p2p_demo.Packet.QueryHits.{QueryHits, hits_class, new_query_hits, results_string}
use p2p_demo.Packet.QueryHits
use p2p_demo.Packet.QueryHits.RoundTrip.{IsHits}
use p2p_demo.Packet.Message.{query, query_hits, text, hexid}
use p2p_demo.Listener.State.{World, Net, note, drew, draws, wrote, fd_key}
use p2p_demo.Listener.History.{is_stale_message, is_my_query, save_msg_hist}
use p2p_demo.Listener.Search.{results_for, save_query_result}
use p2p_demo.Listener.Search.Laws.{answer-IsHits}
use p2p_demo.Listener.Search
use p2p_demo.Util.Hex.{to_hex}
use p2p_demo.Listener.Routing.{handle_query, age}
use p2p_demo.Listener.Commands.{drop_peer, query_peer}
use p2p_demo.Listener.Peers.{erase_peer}
use p2p_demo.Listener.Network.Texts.{
  to_string-IsQuery, handle_peer_msg-query, handle_peer_msg-query_hits,
}
use p2p_demo.Listener.Network.Hops.{question, recorded, reply, handle_query-Sends}
use p2p_demo.Listener.Routing.Queries.{handle_query_forwards, handle_query_hits_passed}
use p2p_demo.Listener.Routing.Seen.{my_query-hexid, stale_query-hexid}
use p2p_demo.Listener.Network.Roles.{Asks, Passes, Answers, results, Carries}

module _ (net : Net) (keyword id : Bytes) (a : World) (h : Asks keyword id) where
  pub question-IsQuery : IsQuery (question net keyword id a)
  unfolding set_id new_query
  question-IsQuery = record {
    id_length = omega (arith, length-take 16 id, h.id_length);
    speed_fits = omega arith;
    some_criteria = h.some_text;
    no_nul = h.no_nul;
    whole = record { exact = refl; fits = omega arith };
    length_fits = omega (arith, h.text_fits);
  }

-- The message as a node passes it on.
abbrev pub passed : Query → Query
passed q = record (to_string q).0 { packet = age (to_string q).0.packet }

pub passed-IsQuery : (q : Query) → IsQuery q → IsQuery (passed q)
unfolding to_string update_payload
passed-IsQuery q v =
    let u = to_string-IsQuery q v in
    record {
      id_length = u.id_length;
      speed_fits = u.speed_fits;
      some_criteria = u.some_criteria;
      no_nul = u.no_nul;
      whole = u.whole;
      length_fits = u.length_fits;
    }

-- The id goes along.
pub hexid-passed : (q : Query) → hexid (passed q).packet ≡ hexid q.packet
unfolding to_string update_payload hexid
hexid-passed q = refl

pub hexid-to_string : (q : Query) → hexid (to_string q).0.packet ≡ hexid q.packet
unfolding to_string update_payload hexid
hexid-to_string q = refl

pub hexid-to_string_hits : (m : QueryHits) → hexid (to_string m).0.packet ≡ hexid m.packet
unfolding to_string QueryHits.update_payload hexid
hexid-to_string_hits m = refl

ttl-to_string : (q : Query) → (to_string q).0.packet.ttl ≡ q.packet.ttl
unfolding to_string update_payload
ttl-to_string q = refl

-- What a node knows of a message it knows of the message with its payload up to date.
pub mine-to_string :
    (q : Query) (w : World)
    → is_my_query w.listener q.packet ≡ false
    → is_my_query w.listener (to_string q).0.packet ≡ false
mine-to_string q w e =
    my_query-hexid w.listener (to_string q).0.packet q.packet (hexid-to_string q) ∙ e

pub stale-to_string :
    (q : Query) (w : World)
    → is_stale_message w.listener (query q) ≡ false
    → is_stale_message w.listener (query (to_string q).0) ≡ false
stale-to_string q w e = stale_query-hexid w.listener (to_string q).0 q (hexid-to_string q) ∙ e

module _ (net : Net) (from : ℕ) (q : Query) (v : IsQuery q) (is_query : q.packet.pd ≡ 0x80)
    (w : World) where
  -- The node behind the handling of the Query.
  abbrev pub handled : World
  handled = handle_query net from (to_string q).0 (note drew w)

  pub relay-Carries :
      (to : ℕ)
      → Passes q from to w
      → 1 < q.packet.ttl
      → Carries net from (to_string q).1 w to (to_string (passed q)).1 handled
  unfolding text
  relay-Carries to p h = (
    handle_peer_msg-query net from w q v is_query,
    handle_query_forwards net from (to_string q).0 (note drew w) to p.peer
          (mine-to_string q w p.mine) (stale-to_string q w p.stale) p.sorted p.linked p.other
        ∙ rw (ttl-to_string q, lt→ltb 1 q.packet.ttl h) refl,
  )

  hit_count :
      Answers q w
      → length (
          results_for
            (to_string q).0.criteria
            (recorded net from (to_string q).0 (note drew w)).local_files)
        ≡ length (results_for q.criteria w.local_files)
  unfolding to_string update_payload save_msg_hist
  hit_count p = refl

  pub answer-Carries :
      Answers q w
      → Carries net from
          (to_string q).1
          w
          from
          (to_string (reply net from (to_string q).0 (note drew w))).1
          handled
  answer-Carries p = (
    handle_peer_msg-query net from w q v is_query,
    handle_query-Sends net from (to_string q).0 (note drew w) (mine-to_string q w p.mine)
        (stale-to_string q w p.stale) (omega (arith, hit_count p, p.hit)),
  )

  pub return-Carries :
      (to : ℕ) (m : QueryHits)
      → Passes q from to w
      → IsHits m
      → m.packet.pd ≡ 0x81
      → m.num_hits ≡ length m.result_set
      → hexid m.packet ≡ hexid q.packet
      → Carries net to
          (to_string m).1
          handled
          from
          (to_string (to_string m).0).1
          (note (wrote from (text (query_hits (to_string m).0))) (note drew handled))
  unfolding text
  return-Carries to m p u is_hits all e = (
    handle_peer_msg-query_hits net to handled m u is_hits all
        ∙ ap ok (
            handle_query_hits_passed net from (to_string q).0 (note drew w) to (to_string m).0
              (note drew handled) refl (hexid-to_string_hits m ∙ e ∙ sym (hexid-to_string q))
              (mine-to_string q w p.mine) (stale-to_string q w p.stale)),
    ground arith,
  )

  abbrev pub hits : QueryHits
  hits = reply net from (to_string q).0 (note drew w)

  module _ (p : Answers q w) where
    pub reply-IsHits : IsHits hits
    unfolding to_string update_payload save_msg_hist
    reply-IsHits =
        answer-IsHits (recorded net from (to_string q).0 (note drew w)).listener q.criteria
          (draws net (recorded net from (to_string q).0 (note drew w))) q.packet.id p.shared
          v.id_length p.ip_fits p.length_fits

    pub reply-is_hits : hits.packet.pd ≡ 0x81
    unfolding set_id Search.query new_query_hits
    reply-is_hits = refl

    pub reply-exact : hits.num_hits ≡ length hits.result_set
    unfolding set_id Search.query to_string update_payload save_msg_hist
    reply-exact = omega (arith, p.few)

    pub hexid-reply : hexid hits.packet ≡ hexid q.packet
    unfolding set_id Search.query to_string update_payload hexid
    hexid-reply = ap (λ t. to_hex true (take id_size t)) (take_exact 16 q.packet.id v.id_length)

    pub save_query_result-reply :
        (w' : World)
        → (save_query_result hits w').query_result_set ≡ w'.query_result_set ++ results q w
    unfolding save_query_result set_id Search.query to_string update_payload save_msg_hist
    save_query_result-reply w' = refl

pub query_result_set-query_peer :
    (net : Net) (fd : ℕ) (keyword id : Bytes) (w : World)
    → (query_peer net fd keyword id w).0.query_result_set ≡ w.query_result_set
unfolding query_peer drop_peer erase_peer
query_result_set-query_peer net fd keyword id w = ground arith
