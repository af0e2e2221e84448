-- ===== src/Listener/Routing/Flood.antt =====
-- What `forward_message` writes, and what it leaves alone.
use p2p_demo.Prelude.{
  ℕ, ◌-◌, ◌≡◌, ◌≢◌, refl, ◌∙◌, List, [], ◌∷◌, none, some, ltb, ◌==◌, if◌then◌else◌, arith,
  Bool-cases, inl, inr,
}
use p2p_demo.Prelude.Maps.{IsSorted, lookup_below, lookup}
use p2p_demo.Wire.{Bytes}
use p2p_demo.Packet.Ping.{Ping}
use p2p_demo.Packet.Query.{Query}
use p2p_demo.Packet.Message.{Message, base, text}
use p2p_demo.Listener.State.{World, Net, Peers, Event, wrote, note, fd_key, bytes_key, PeerInfo}
use p2p_demo.Listener.Routing.{
  forward_message_single, forward_to, forward_message, reply_ping, reply_query, answer_ping,
  pass_on,
}

-- What a flood writes: the text, once to each peer but the source, the last peer first.
abbrev pub flood : Bytes → ℕ → Peers → List Event → List Event
flood str src [] t = t
flood str src ((fd, p) ∷ ps) t = flood str src ps (if fd == src then t else wrote fd str ∷ t)

pub forward_to-flood :
    (msg : Message) (src : ℕ) (ps : Peers) (w : World)
    → forward_to msg src ps w ≡ record w { trace = flood (text msg) src ps w.trace }
unfolding forward_to forward_message_single
forward_to-flood msg src [] w = refl
forward_to-flood msg src ((fd, p) ∷ ps) w = elim (Bool-cases (fd == src)) [
  | inl same ↦ rw same (forward_to-flood msg src ps w)
  | inr other ↦ rw other (forward_to-flood msg src ps (note (wrote fd (text msg)) w))
]

-- `forward_message` changes nothing but what is written: the text of the message once to each peer
-- of the table but the source, in the order of the table.
pub forward_message-flood :
    (msg : Message) (src : ℕ) (w : World)
    → forward_message msg src w ≡ record w { trace = flood (text msg) src w.peers w.trace }
unfolding forward_message
forward_message-flood msg src w = forward_to-flood msg src w.peers w

pub reply_ping-listener :
    (net : Net) (fd : ℕ) (m : Ping) (w : World) → (reply_ping net fd m w).listener ≡ w.listener
unfolding reply_ping
reply_ping-listener net fd m w = refl

pub reply_query-listener :
    (net : Net) (fd : ℕ) (m : Query) (w : World) → (reply_query net fd m w).listener ≡ w.listener
unfolding reply_query
reply_query-listener net fd m w = ground arith

pub answer_ping-listener :
    (net : Net) (fd : ℕ) (m : Ping) (w : World) → (answer_ping net fd m w).listener ≡ w.listener
unfolding answer_ping
answer_ping-listener net fd m w = ground (arith, reply_ping-listener net fd m w)

pub pass_on-listener :
    (msg : Message) (src : ℕ) (w : World) → (pass_on msg src w).listener ≡ w.listener
unfolding pass_on
pass_on-listener msg src w = ground (arith, forward_message-flood msg src w)

-- The texts written to one descriptor, the last first.
abbrev pub sent_to : ℕ → List Event → List Bytes
sent_to j [] = []
sent_to j (wrote fd str ∷ t) = if fd == j then str ∷ sent_to j t else sent_to j t
sent_to j (e ∷ t) = sent_to j t

-- A flood never goes back to where the message came from.
pub sent_to-flood_source :
    (str : Bytes) (src : ℕ) (ps : Peers) (t : List Event)
    → sent_to src (flood str src ps t) ≡ sent_to src t
sent_to-flood_source str src [] t = refl
sent_to-flood_source str src ((fd, p) ∷ ps) t = elim (Bool-cases (fd == src)) [
  | inl same ↦ rw same (sent_to-flood_source str src ps t)
  | inr other ↦ rw other (sent_to-flood_source str src ps (wrote fd str ∷ t) ∙ rw other)
]

-- It leaves everybody alone who is not in the table.
pub sent_to-flood_stranger :
    (str : Bytes) (src j : ℕ) (ps : Peers) (t : List Event)
    → lookup j ps ≡ none
    → sent_to j (flood str src ps t) ≡ sent_to j t
unfolding lookup
sent_to-flood_stranger str src j [] t h = refl
sent_to-flood_stranger str src j ((fd, p) ∷ ps) t h = ground (
  arith,
  sent_to-flood_stranger str src j ps t,
  sent_to-flood_stranger str src j ps (wrote fd str ∷ t),
)

-- Every other peer gets the text exactly once.
pub sent_to-flood_peer :
    (str : Bytes) (src j : ℕ) (q : PeerInfo) (ps : Peers) (t : List Event)
    → IsSorted ps
    → lookup j ps ≡ some q
    → j ≢ src
    → sent_to j (flood str src ps t) ≡ str ∷ sent_to j t
unfolding lookup
sent_to-flood_peer str src j q [] t u h ne = cc
sent_to-flood_peer str src j q ((fd, p) ∷ ps) t u h ne = elim (Bool-cases (fd == j)) [
  | inl same ↦ ground (
    arith,
    lookup_below fd ps u.0,
    sent_to-flood_stranger str src j ps (wrote fd str ∷ t),
    sent_to-flood_stranger str src fd ps (wrote fd str ∷ t),
  )
  | inr other ↦ ground (
    arith,
    sent_to-flood_peer str src j q ps t u.1,
    sent_to-flood_peer str src j q ps (wrote fd str ∷ t) u.1,
  )
]

-- A message with hops left goes once to each peer but the source, and otherwise to nobody.
pub pass_on-sends :
    (msg : Message) (src j : ℕ) (q : PeerInfo) (w : World)
    → IsSorted w.peers
    → lookup j w.peers ≡ some q
    → j ≢ src
    → sent_to j (pass_on msg src w).trace
      ≡ (if ltb 0 (base msg).ttl then text msg ∷ sent_to j w.trace else sent_to j w.trace)
unfolding pass_on
pass_on-sends msg src j q w u h ne = elim (Bool-cases (ltb 0 (base msg).ttl)) [
  | inl more ↦
      rw (pass_on, more, forward_message-flood msg src w)
        (sent_to-flood_peer (text msg) src j q w.peers w.trace u h ne)
  | inr last ↦ rw (pass_on, last)
]

pub sent_to-answer_ping :
    (net : Net) (fd j : ℕ) (m : Ping) (w : World)
    → j ≢ fd
    → sent_to j (answer_ping net fd m w).trace ≡ sent_to j w.trace
unfolding answer_ping reply_ping
sent_to-answer_ping net fd j m w ne = ground arith

pub sent_to-reply_query :
    (net : Net) (fd j : ℕ) (m : Query) (w : World)
    → j ≢ fd
    → sent_to j (reply_query net fd m w).trace ≡ sent_to j w.trace
unfolding reply_query
sent_to-reply_query net fd j m w ne = ground arith

pub hops_left : (ttl : ℕ) → ltb 0 (ttl - 1) ≡ ltb 1 ttl
hops_left ttl = ground arith
