-- ===== src/Listener/Network.antt =====
-- Nodes that are joined: a search that goes over several of them.
mod Texts
pub mod Hops
pub mod Roles
mod Nodes
pub mod PingHops
mod PingRoles
pub mod Pings
use p2p_demo.Prelude.{
  ℕ, ◌≡◌, refl, ap, ◌∙◌, ◌++◌, List, [], ◌∷◌, length, All, All-map, true, ◌<◌, ◌-◌, arith,
}
use p2p_demo.Outcome.{ok}
use p2p_demo.Wire.{Bytes, u8}
use p2p_demo.Packet.Header.{Packet, set_id, to_string}
use p2p_demo.Packet.Query.{Query, query_class, new_query, update_payload}
use p2p_demo.Packet.QueryHits.{QueryHits, hits_class}
use p2p_demo.Packet.QueryHits
use p2p_demo.Packet.QueryHits.RoundTrip.{IsHits}
use p2p_demo.Packet.Query.RoundTrip.{IsQuery}
use p2p_demo.Listener.Search.{save_query_result}
use p2p_demo.Listener.Routing.Seen.{my_query-hexid, stale_query-hexid}
use p2p_demo.Listener.Network.Texts.{to_string-IsHits, handle_peer_msg-query_hits}
use p2p_demo.Packet.Message.{hexid}
use p2p_demo.Listener.State.{World, Net, note, drew}
use p2p_demo.Listener.Receive.{handle_peer_msg}
use p2p_demo.Listener.Commands.{query_peer}
use p2p_demo.Listener.Commands.Laws.{is_my_query-query_peer}
use p2p_demo.Listener.History.{is_my_query}
use p2p_demo.Listener.Routing.{handle_query_hits}
use p2p_demo.Listener.Network.Hops.{reply, Sends, question, query_peer-Sends}
use p2p_demo.Listener.Network.Roles.{Relay, Found, Asks, Passes, Answers, results}
use p2p_demo.Listener.Network.Nodes.{
  question-IsQuery, passed, passed-IsQuery, relay-Carries, answer-Carries, return-Carries,
  reply-IsHits, reply-is_hits, reply-exact, hexid-reply, save_query_result-reply,
  query_result_set-query_peer, hits, handled, hexid-passed, hexid-to_string_hits,
}

-- The message gives the results of the node to who asked.
record IsAnswer (q : Query) (c : World) (m : QueryHits) : Type 0 where
  sound : IsHits m
  is_hits : m.packet.pd ≡ 0x81
  exact : m.num_hits ≡ length m.result_set
  same_id : hexid m.packet ≡ hexid q.packet
  saved : (w : World) → (save_query_result m w).query_result_set ≡ w.query_result_set ++ results q c

-- Only the id, the text and the address count, and they go along.
Passes-passed :
    (q : Query) (from to : ℕ) (b : World) → Passes q from to b → Passes (passed q) from to b
Passes-passed q from to b p = record {
  mine = my_query-hexid b.listener (passed q).packet q.packet (hexid-passed q) ∙ p.mine;
  stale = stale_query-hexid b.listener (passed q) q (hexid-passed q) ∙ p.stale;
  sorted = p.sorted;
  peer = p.peer;
  linked = p.linked;
  other = p.other;
}

Answers-passed : (q : Query) (c : World) → Answers q c → Answers (passed q) c
unfolding to_string update_payload
Answers-passed q c p = record {
  mine = my_query-hexid c.listener (passed q).packet q.packet (hexid-passed q) ∙ p.mine;
  stale = stale_query-hexid c.listener (passed q) q (hexid-passed q) ∙ p.stale;
  shared = p.shared;
  ip_fits = p.ip_fits;
  hit = p.hit;
  few = p.few;
  length_fits = p.length_fits;
}

IsAnswer-passed :
    (q : Query) (c : World) (m : QueryHits) → IsAnswer (passed q) c m → IsAnswer q c (to_string m).0
unfolding to_string update_payload QueryHits.update_payload save_query_result
IsAnswer-passed q c m s = record {
  sound = to_string-IsHits m s.sound;
  is_hits = s.is_hits;
  exact = s.exact;
  same_id = hexid-to_string_hits m ∙ s.same_id ∙ hexid-passed q;
  saved = s.saved;
}

pd-passed : (q : Query) → (passed q).packet.pd ≡ q.packet.pd
unfolding to_string update_payload
pd-passed q = refl

ttl-passed : (q : Query) → (passed q).packet.ttl ≡ q.packet.ttl - 1
unfolding to_string update_payload
ttl-passed q = refl

abbrev pub PassesAll : Query → List Relay → Type 0
PassesAll q rs = All (λ r. Passes q r.from r.to r.world) rs

module _ (net : Net) (fd : ℕ) (c : World) where
  question-Found :
      (rs : List Relay) (q : Query)
      → IsQuery q
      → q.packet.pd ≡ 0x80
      → length rs < q.packet.ttl
      → PassesAll q rs
      → Answers q c
      → (m : QueryHits) × IsAnswer q c m × Found rs net fd c (to_string q).1 (to_string m).1
  question-Found [] q v is_query h ps p = (
    reply net fd (to_string q).0 (note drew c),
    record {
      sound = reply-IsHits net fd q v is_query c p;
      is_hits = reply-is_hits net fd q v is_query c p;
      exact = reply-exact net fd q v is_query c p;
      same_id = hexid-reply net fd q v is_query c p;
      saved = save_query_result-reply net fd q v is_query c p;
    },
    (_, answer-Carries net fd q v is_query c p),
  )
  question-Found (r ∷ rs) q v is_query h (p, ps) a =
      let (m, s, found) =
        question-Found rs (passed q) (passed-IsQuery q v) (pd-passed q ∙ is_query)
          (omega (arith, ttl-passed q, h))
          (All-map (λ (r : Relay). Passes q r.from r.to r.world)
            (λ (r : Relay). Passes (passed q) r.from r.to r.world) rs
            (λ r. Passes-passed q r.from r.to r.world) ps)
          (Answers-passed q c a) in
      (
        (to_string m).0,
        IsAnswer-passed q c m s,
        (
          _,
          _,
          _,
          _,
          relay-Carries r.net r.from q v is_query r.world r.to p (omega (arith, h)),
          found,
          return-Carries r.net r.from q v is_query r.world r.to m p s.sound s.is_hits s.exact
              (s.same_id ∙ hexid-passed q),
        ),
      )

pd-question :
    (net : Net) (keyword id : Bytes) (a : World) → (question net keyword id a).packet.pd ≡ 0x80
unfolding set_id new_query
pd-question net keyword id a = refl

-- The answer that comes to who asked is saved.
answer-saved :
    (net : Net) (fd : ℕ) (keyword id : Bytes) (a c : World) (m : QueryHits)
    → IsAnswer (question net keyword id a) c m
    → (a' : World) × (handle_peer_msg net fd (to_string m).1 (query_peer net fd keyword id a).0
        ≡ ok a')
      × (a'.query_result_set ≡ a.query_result_set ++ results (question net keyword id a) c)
unfolding handle_query_hits to_string QueryHits.update_payload save_query_result set_id
answer-saved net fd keyword id a c m s =
    let asked = (query_peer net fd keyword id a).0 in
    let q = question net keyword id a in
    let mine : is_my_query asked.listener (to_string m).0.packet ≡ true =
      my_query-hexid asked.listener (to_string m).0.packet q.packet
        (hexid-to_string_hits m ∙ s.same_id)
      ∙ is_my_query-query_peer net fd keyword id a q.packet refl in
    let kept : handle_query_hits net fd (to_string m).0 (note drew asked)
        ≡ save_query_result (to_string m).0 (note drew asked) =
      rw (handle_query_hits, mine) refl in
    (
      save_query_result (to_string m).0 (note drew asked),
      handle_peer_msg-query_hits net fd asked m s.sound s.is_hits s.exact ∙ ap ok kept,
      s.saved (note drew asked)
          ∙ ap (λ t. t ++ results q c) (query_result_set-query_peer net fd keyword id a),
    )

-- A search comes back over any number of nodes below its `ttl`, as bytes. What `query_peer` writes
-- is handled by the first node, what each node passes on by the next, and the answer of the last
-- node by each node on the way back, up to the node that asked, whose result set then also holds
-- the matching files of the last node, under its address and file port. The text of the search is
-- not empty and holds no NUL, and its id has sixteen bytes; each node on the way keeps a sorted
-- table with the next one in it; no node has seen the search before or has asked with its id; the
-- last one has a matching file and fewer than 256 of them, and all its files can be named in an
-- answer that fits.
pub query_peer-Found :
    (rs : List Relay) (net : Net) (fd : ℕ) (c : World) (asking : Net) (to : ℕ) (keyword id : Bytes)
    (a : World)
    → Asks keyword id
    → length rs < u8 a.conf.ttl
    → PassesAll (question asking keyword id a) rs
    → Answers (question asking keyword id a) c
    → (str : Bytes) × (back : Bytes) × (a' : World) × Sends to str a
        (query_peer asking to keyword id a).0
      × Found rs net fd c str back
      × (handle_peer_msg asking to back (query_peer asking to keyword id a).0 ≡ ok a')
      × (a'.query_result_set ≡ a.query_result_set ++ results (question asking keyword id a) c)
query_peer-Found rs net fd c asking to keyword id a h hops ps p =
    let q = question asking keyword id a in
    let (m, s, found) =
      question-Found net fd c rs q (question-IsQuery asking keyword id a h)
        (pd-question asking keyword id a) hops ps p in
    let (a', handled, shown) = answer-saved asking to keyword id a c m s in
    (
      (to_string q).1,
      (to_string m).1,
      a',
      query_peer-Sends asking to keyword id a,
      found,
      handled,
      shown,
    )
