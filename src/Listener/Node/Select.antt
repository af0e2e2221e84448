-- ===== src/Listener/Node/Select.antt =====
-- What the node does with the sockets that `select` reports keeps its invariant.
use p2p_demo.Prelude.{
  ℕ, ◌-◌, ◌^◌, ◌≤◌, ◌≡◌, ◌≢◌, refl, inl, inr, List, [], ◌∷◌, Option, none, some, length, All, leb,
  ◌==◌, if◌then◌else◌, arith, Bool-cases, ==→eq,
}
use p2p_demo.Outcome.{Outcome, ok, throw, undefined, runtime_error, out_of_range, bad_alloc, ◌>>=◌}
use p2p_demo.Wire.{Bytes, string2uint}
use p2p_demo.Wire.Laws.{string2uint_inside}
use p2p_demo.Packet.Header.{head_size}
use p2p_demo.Listener.State.{World, Net, Trace, Peers, PeerInfo, fd_key, note, read}
use p2p_demo.Listener.Peers.Invariant.{GivesFresh, fd_isset}
use p2p_demo.Listener.Receive.{
  read_once, received, read_payload, read_one_packet, handle_peer_msg, serve_peer, serve_peers,
  handle_peer_select,
}
use p2p_demo.Listener.Node.{Promise, lookup-none, IsNode, erase_peer-IsNode}
use p2p_demo.Listener.Node.Handlers.{handle_peer_msg-IsNode}

-- Some read gives a header whose length no array can have.
pub record HasHugeHead (net : Net) : Type 0 where
  pub trace : Trace
  pub fd : ℕ
  pub head : Bytes
  pub len : ℕ
  pub given : net.read_once trace fd head_size ≡ some head
  pub field : string2uint head 19 ≡ ok len
  pub huge : 2 ^ 63 ≤ len

-- The code returns a value for which `P` holds, or throws `bad_alloc` for such a header.
abbrev pub Ends {ℓ} : Net → {A : Type ℓ} → (A → Type 0) → Outcome A → Type 0
Ends net P (ok a) = P a
Ends net P (throw runtime_error) = ⊥
Ends net P (throw out_of_range) = ⊥
Ends net P (throw bad_alloc) = HasHugeHead net
Ends net P undefined = ⊥

Ends-bind {ℓ κ} :
    (net : Net) {A : Type ℓ} {B : Type κ} (P : A → Type 0) (Q : B → Type 0) (m : Outcome A)
    (k : A → Outcome B)
    → Ends net P m
    → ((a : A) → P a → Ends net Q (k a))
    → Ends net Q (m >>= k)
Ends-bind net P Q (ok a) k h step = step a h
Ends-bind net P Q (throw runtime_error) k h step = absurd h
Ends-bind net P Q (throw out_of_range) k h step = absurd h
Ends-bind net P Q (throw bad_alloc) k h step = h
Ends-bind net P Q undefined k h step = absurd h

module _ (B : Promise) (n f : ℕ) (net : Net) (g : GivesFresh n f net) where
  abbrev Good : (ℕ × Bytes) × World → Type 0
  Good r = IsNode B n f r.1.listener

  abbrev Kept : World → Type 0
  Kept w = IsNode B n f w.listener

  module _ (fd : ℕ) (hn : fd ≢ n) (hf : fd ≢ f) where
    received-Ends :
        (len : ℕ) (o : Option Bytes) (w : World) (whole : Outcome ((ℕ × Bytes) × World))
        → Kept w
        → ((buf : Bytes) → o ≡ some buf → length buf ≡ len → Ends net Good whole)
        → Ends net Good (received net fd len o w whole)
    unfolding received
    received-Ends len none w whole v k = v
    received-Ends len (some buf) w whole v k = elim (Bool-cases (length buf == len)) [
      | inl all ↦ rw all (k buf refl (==→eq _ _ all))
      | inr part ↦ elim (Bool-cases (length buf == 0)) [
        | inl gone ↦ rw (part, gone) (erase_peer-IsNode B n f w v fd hn hf)
        | inr more ↦ rw (part, more) v
      ]
    ]

    read_payload-Ends :
        (t : Trace) (head : Bytes) (w : World)
        → net.read_once t fd head_size ≡ some head
        → length head ≡ head_size
        → Kept w
        → Ends net Good (read_payload net fd head w)
    unfolding read_payload read_once
    read_payload-Ends t head w e h v =
        let (len, el) = string2uint_inside 19 head (omega (arith, h)) in
        elim (Bool-cases (leb (2 ^ 63) len)) [
          | inl big ↦
              rw (read_payload, el, big)
                (record {
                  trace = t;
                  fd = fd;
                  head = head;
                  len = len;
                  given = e;
                  field = el;
                  huge = ground (arith, big);
                })
          | inr fits ↦
              rw (read_payload, el, fits)
                (received-Ends len _ (note (read fd) w) _ v (λ buf _ _. v))
        ]

    read_one_packet-Ends : (w : World) → Kept w → Ends net Good (read_one_packet net fd w)
    unfolding read_one_packet read_once
    read_one_packet-Ends w v =
        received-Ends head_size (net.read_once w.trace fd head_size) (note (read fd) w) _ v
          (λ buf e h. rw e (read_payload-Ends w.trace buf (note (read fd) w) e h v))

    serve_peer-Ends : (w : World) → Kept w → Ends net Kept (serve_peer net fd w)
    unfolding serve_peer
    serve_peer-Ends w v =
        Ends-bind net Good Kept (read_one_packet net fd w) _ (read_one_packet-Ends w v) after
      where
        after :
            (r : (ℕ × Bytes) × World)
            → Good r
            → Ends net Kept (if r.0.0 == 0 then ok r.1 else handle_peer_msg net fd r.0.1 r.1)
        after ((len, buf), w') u = elim (Bool-cases (len == 0)) [
          | inl zero_bytes ↦ rw zero_bytes u
          | inr more ↦
              let (w'', e, u') = handle_peer_msg-IsNode B n f net fd w' g u buf in rw (more, e) u'
        ]

  serve_peers-Ends :
      (rset : List ℕ) (nready : ℕ) (ps : Peers) (w : World)
      → All (λ (e : ℕ × PeerInfo). e.0 ≢ n) ps
      → All (λ (e : ℕ × PeerInfo). e.0 ≢ f) ps
      → Kept w
      → Ends net Kept (serve_peers net rset nready ps w)
  unfolding serve_peers
  serve_peers-Ends rset nready [] w hn hf v = v
  serve_peers-Ends rset nready ((fd, p) ∷ ps) w (hn, hns) (hf, hfs) v =
      elim (Bool-cases (nready == 0)) [
        | inl done ↦ rw done v
        | inr left ↦ elim (Bool-cases (fd_isset fd rset)) [
          | inl ready ↦
              rw (left, ready)
                (Ends-bind net Kept Kept (serve_peer net fd w) _ (serve_peer-Ends fd hn hf w v)
                  λ w' u. serve_peers-Ends rset (nready - 1) ps w' hns hfs u)
          | inr idle ↦ rw (left, idle) (serve_peers-Ends rset nready ps w hns hfs v)
        ]
      ]

  -- In a node that keeps its invariant, on a system that hands out no listening socket again,
  -- `handle_peer_select` returns with the invariant kept, whatever the peers send, or throws
  -- `bad_alloc` where a read gives a header whose length field, extended by its sign, is 2 ^ 63 or
  -- more; nothing else can happen.
  pub handle_peer_select-IsNode :
      (rset : List ℕ) (msgcnt : ℕ) (w : World)
      → IsNode B n f w.listener
      → Ends net (λ w'. IsNode B n f w'.listener) (handle_peer_select net rset msgcnt w)
  unfolding handle_peer_select
  handle_peer_select-IsNode rset msgcnt w v =
      serve_peers-Ends rset msgcnt w.peers w (lookup-none n w.peers v.linked.apart.0)
        (lookup-none f w.peers v.linked.apart.1) v
