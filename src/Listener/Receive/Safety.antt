-- ===== src/Listener/Receive/Safety.antt =====
-- Whatever bytes arrive, `handle_peer_msg` returns; reading a packet may not.
use p2p_demo.Prelude.{
  ℕ, ◌+◌, ◌^◌, ◌≤◌, ◌≡◌, refl, Bool, true, false, some, length, ltb, leb, ◌==◌, if◌then◌else◌,
  arith, Bool-cases, inl, inr, not-ltb→le, eq→==, ◌*◌,
}
use p2p_demo.Outcome.{
  Outcome, ok, throw, undefined, runtime_error, out_of_range, bad_alloc, IsHandled,
}
use p2p_demo.Wire.{Bytes, byte_at, string2uint, sign_extend}
use p2p_demo.Wire.Laws.{byte_at_inside}
use p2p_demo.Packet.Header.{head_size}
use p2p_demo.Packet.Header.Safety.{parse_string-IsHandled}
use p2p_demo.Packet.Safety.{Ping-IsSafe, Pong-IsSafe, Query-IsSafe, QueryHits-IsSafe}
use p2p_demo.Packet.Ping.{Ping, ping_class, new_ping}
use p2p_demo.Packet.Pong.{Pong, pong_class, new_pong}
use p2p_demo.Packet.Query.{Query, query_class, new_query}
use p2p_demo.Packet.QueryHits.{QueryHits, hits_class, new_query_hits}
use p2p_demo.Listener.State.{World, Net, note, drew, draws}
use p2p_demo.Listener.Routing.{handle_ping, handle_pong, handle_query, handle_query_hits}
use p2p_demo.Listener.Receive.{
  caught, dispatch, handle_peer_msg, read_once, received, read_payload, read_one_packet,
}

-- The code returns a world for which `P` holds.
abbrev pub Returns : (World → Type 0) → Outcome World → Type 0
Returns P o = (w : World) × (o ≡ ok w) × P w

module _ (P : World → Type 0) where
  caught-Returns :
      {A : Type 0} (w : World) (o : Outcome A) (f : A → World)
      → IsHandled o
      → P w
      → ((a : A) → P (f a))
      → Returns P (caught w o f)
  caught-Returns w (ok a) f h p k = (f a, refl, k a)
  caught-Returns w (throw runtime_error) f h p k = (w, refl, p)
  caught-Returns w (throw out_of_range) f h p k = absurd h
  caught-Returns w (throw bad_alloc) f h p k = absurd h
  caught-Returns w undefined f h p k = absurd h

  if-Returns :
      (b : Bool) (m n : Outcome World) → Returns P m → Returns P n → Returns P (if b then m else n)
  if-Returns true m n hm hn = hm
  if-Returns false m n hm hn = hn

  -- What all four handlers keep, `handle_peer_msg` keeps; and it returns on every text.
  module _ (net : Net) (fd : ℕ) (w : World) (here : P w) (drawn : P (note drew w))
      (k_ping : (m : Ping) → P (handle_ping net fd m (note drew w)))
      (k_pong : (m : Pong) → P (handle_pong net fd m (note drew w)))
      (k_query : (m : Query) → P (handle_query net fd m (note drew w)))
      (k_hits : (m : QueryHits) → P (handle_query_hits net fd m (note drew w))) where
    dispatch-Returns :
        (pd : ℕ) (msg : Bytes) → 22 ≤ length msg → Returns P (dispatch net pd fd msg w)
    unfolding dispatch
    dispatch-Returns pd msg h =
        if-Returns (pd == 0x00) _ _
          (caught-Returns _ _ _ (parse_string-IsHandled Ping-IsSafe (new_ping (draws net w)) msg h)
            drawn k_ping)
          (if-Returns (pd == 0x01) _ _
            (caught-Returns _ _ _
              (parse_string-IsHandled Pong-IsSafe (new_pong (draws net w)) msg h) drawn k_pong)
            (if-Returns (pd == 0x80) _ _
              (caught-Returns _ _ _
                (parse_string-IsHandled Query-IsSafe (new_query (draws net w)) msg h) drawn k_query)
              (if-Returns (pd == 0x81) _ _
                (caught-Returns _ _ _
                  (parse_string-IsHandled QueryHits-IsSafe (new_query_hits (draws net w)) msg h)
                  drawn k_hits)
                (w, refl, here))))

    pub handle_peer_msg-Returns : (msg : Bytes) → Returns P (handle_peer_msg net fd msg w)
    unfolding handle_peer_msg
    handle_peer_msg-Returns msg = elim (Bool-cases (ltb (length msg) head_size)) [
      | inl short ↦ rw (handle_peer_msg, short) (w, refl, here)
      | inr long ↦
          let h : 23 ≤ length msg = not-ltb→le (length msg) 23 long in
          let (pd, e) = byte_at_inside 16 msg (omega arith) in
          rw (handle_peer_msg, long, e) (dispatch-Returns pd msg (omega arith))
    ]

-- Whatever bytes come from a peer, in whatever state and on whatever system, `handle_peer_msg`
-- returns: it reads nothing outside the text, and no exception leaves it.
pub handle_peer_msg_total :
    (net : Net) (fd : ℕ) (msg : Bytes) (w : World)
    → (w' : World) × (handle_peer_msg net fd msg w ≡ ok w')
handle_peer_msg_total net fd msg w =
    let (w', e, _) =
      handle_peer_msg-Returns (λ _. Unit {0}) net fd w tt tt (λ _. tt) (λ _. tt) (λ _. tt) (λ _. tt)
        msg in
    (w', e)

string2uint_top :
    (i : ℕ) (xs : Bytes) {d : ℕ}
    → i + 3 ≤ length xs
    → byte_at xs (i + 3) ≡ ok d
    → 128 ≤ d
    → (v : ℕ) × (string2uint xs i ≡ ok v) × (2 ^ 63 ≤ v)
unfolding string2uint
string2uint_top i xs {d} h e big =
    let (a, ea) = byte_at_inside i xs (omega arith) in
    let (b, eb) = byte_at_inside (i + 1) xs (omega arith) in
    let (c, ec) = byte_at_inside (i + 2) xs (omega arith) in
    let raw : ℕ = a + 256 * b + 65536 * c + 16777216 * d in
    (sign_extend raw, rw (ea, eb, ec, e), ground arith)

-- Where the system gives a whole header whose byte 22 is 128 or more, `read_one_packet` throws
-- `bad_alloc`, since the length is extended by its sign before it is allocated.
pub read_one_packet_huge :
    (net : Net) (fd d : ℕ) (head : Bytes) (w : World)
    → net.read_once w.trace fd head_size ≡ some head
    → length head ≡ head_size
    → byte_at head 22 ≡ ok d
    → 128 ≤ d
    → read_one_packet net fd w ≡ throw bad_alloc
unfolding read_one_packet read_once received read_payload
read_one_packet_huge net fd d head w e h top big =
    let (v, ev, hv) = string2uint_top 19 head (omega arith) top big in
    let huge : leb (2 ^ 63) v ≡ true = ground arith in
    rw (e, received, eq→== _ _ h, read_payload, ev, read_once, huge)
