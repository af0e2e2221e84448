-- ===== src/Listener/Network/Hops.antt =====
-- What each node on the way of a search writes.
use p2p_demo.Prelude.{ℕ, ◌<◌, ◌≡◌, refl, ◌∙◌, false, ◌∷◌, length, ltb, arith, Bool-cases, inl, inr}
use p2p_demo.Wire.{Bytes, u8}
use p2p_demo.Packet.Header.{set_id, to_string}
use p2p_demo.Packet.Query.{Query, query_class, new_query}
use p2p_demo.Packet.QueryHits.{QueryHits, hits_class}
use p2p_demo.Packet.Message.{Message, base, query, text}
use p2p_demo.Listener.State.{World, Net, draws, fd_key}
use p2p_demo.Listener.Peers.{erase_peer}
use p2p_demo.Listener.History.{is_stale_message, save_msg_hist, is_my_query}
use p2p_demo.Listener.Search.{results_for}
use p2p_demo.Listener.Search
use p2p_demo.Listener.Search.Laws.{answer}
use p2p_demo.Listener.Routing.{pass_on, reply_query, handle_query, age}
use p2p_demo.Listener.Routing.Flood.{sent_to, forward_message-flood, sent_to-flood_source}
use p2p_demo.Listener.Commands.{drop_peer, query_peer}

-- Between the two worlds the text is written to the descriptor, and nothing else is written to it.
abbrev pub Sends : ℕ → Bytes → World → World → Type 0
Sends fd str w w' = sent_to fd w'.trace ≡ str ∷ sent_to fd w.trace

-- The Query that `query_peer` writes.
abbrev pub question : Net → Bytes → Bytes → World → Query
question net keyword id w =
    let fresh = set_id (new_query (draws net w)) id in
    record fresh { packet = record (fresh.packet) { ttl = u8 w.conf.ttl }; criteria = keyword }

pub query_peer-Sends :
    (net : Net) (fd : ℕ) (keyword id : Bytes) (w : World)
    → Sends fd (to_string (question net keyword id w)).1 w (query_peer net fd keyword id w).0
unfolding query_peer drop_peer erase_peer
query_peer-Sends net fd keyword id w = ground arith

pub sent_to-pass_on_source :
    (msg : Message) (src : ℕ) (w : World)
    → sent_to src (pass_on msg src w).trace ≡ sent_to src w.trace
unfolding pass_on
sent_to-pass_on_source msg src w = elim (Bool-cases (ltb 0 (base msg).ttl)) [
  | inl more ↦
      rw (pass_on, more, forward_message-flood msg src w)
        (sent_to-flood_source (text msg) src w.peers w.trace)
  | inr last ↦ rw (pass_on, last) refl
]

module _ (net : Net) (fd : ℕ) (m : Query) (w : World) where
  -- The node as it is when it looks for its files.
  abbrev pub recorded : World
  recorded = save_msg_hist net fd (query (record m { packet = age m.packet })) w

  abbrev pub reply : QueryHits
  reply = answer recorded.listener m.criteria (draws net recorded) m.packet.id

  reply_query-Sends :
      0 < length (results_for m.criteria recorded.local_files)
      → Sends fd
          (to_string reply).1
          recorded
          (reply_query net fd (record m { packet = age m.packet }) recorded)
  unfolding reply_query Search.query
  reply_query-Sends h = ground arith

  pub handle_query-Sends :
      is_my_query w.listener m.packet ≡ false
      → is_stale_message w.listener (query m) ≡ false
      → 0 < length (results_for m.criteria recorded.local_files)
      → Sends fd (to_string reply).1 w (handle_query net fd m w)
  unfolding handle_query save_msg_hist
  handle_query-Sends mine stale some_hit =
      rw (handle_query, mine, stale) (sent_to-pass_on_source _ fd _ ∙ reply_query-Sends some_hit)
