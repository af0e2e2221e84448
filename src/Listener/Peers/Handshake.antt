-- ===== src/Listener/Peers/Handshake.antt =====
-- The handshake of two nodes: `connect_peer` at one end, `handle_new_peer` at the other.
use p2p_demo.Prelude.{ℕ, ◌<◌, ◌^◌, ◌≡◌, refl, List, ap, sym, ◌∙◌, true, false, some, ◌∷◌, arith}
use p2p_demo.Prelude.Maps.{lookup, lookup-insert}
use p2p_demo.Wire.{Bytes, htonl}
use p2p_demo.Wire.Laws.{htonl_invol}
use p2p_demo.Wire.CString.{codes}
use p2p_demo.Util.Text.{bytes_eq}
use p2p_demo.Listener.State.{
  World, Net, PeerInfo, Client, success, note, opened, connected, wrote, read, accepted, fd_key,
}
use p2p_demo.Listener.Peers.{
  htons, connect_text, peer_full, add_peer, connect_peer, dial, greet, await_reply, is_accepting,
  is_greeting, handle_new_peer, admit, welcome,
}
use p2p_demo.Listener.Routing.Flood.{sent_to}

-- The calls that a dialling node makes, up to the reply.
abbrev pub greeted : ℕ → ℕ → ℕ → World → World
greeted fd ip port a =
    note (wrote fd connect_text) (note (connected fd (htonl ip) (htons port)) (note opened a))

-- Its calls come through, up to the greeting.
pub record Dials (net : Net) (fd ip port : ℕ) (a : World) : Type 0 where
  pub socket : net.socket a.trace ≡ some fd
  pub connects : net.connects (note opened a).trace fd (htonl ip) (htons port) ≡ true
  pub writes :
      net.writes (note (connected fd (htonl ip) (htons port)) (note opened a)).trace fd connect_text
      ≡ true

module _ (net : Net) (fd ip port : ℕ) (a : World) (d : Dials net fd ip port a) where
  connect_peer-greeted :
      connect_peer net ip port a ≡ await_reply net fd ip port (greeted fd ip port a)
  unfolding connect_peer dial greet
  connect_peer-greeted = rw (connect_peer, d.socket, dial, d.connects, greet, d.writes) refl

  sent_to-await_reply :
      sent_to fd (await_reply net fd ip port (greeted fd ip port a)).0.trace
      ≡ connect_text ∷ sent_to fd a.trace
  unfolding await_reply add_peer
  sent_to-await_reply = ground arith

-- A node with room that a client reaches, whose reply comes through.
pub record Accepts (net : Net) (cl : Client) (b : World) : Type 0 where
  pub client : net.accept b.trace ≡ some cl
  pub room : peer_full b.listener ≡ false
  pub writes :
      net.writes (note (read cl.fd) (note accepted b)).trace cl.fd (codes "GNUTELLA OK\r\n") ≡ true

module _ (net : Net) (cl : Client) (b : World) (v : Accepts net cl b)
    (heard : net.readed (note accepted b).trace cl.fd ≡ some connect_text) where
  handle_new_peer-welcome : handle_new_peer net b ≡ (
    add_peer cl.fd
        (record { ip = htonl cl.s_addr; port = htons cl.sin_port; sockfd = cl.fd })
        (note (wrote cl.fd (codes "GNUTELLA OK\r\n")) (note (read cl.fd) (note accepted b))),
    success,
  )
  unfolding handle_new_peer admit is_greeting bytes_eq welcome
  handle_new_peer-welcome =
      rw (handle_new_peer, v.client, admit, v.room, heard, welcome, v.writes) refl

  sent_to-handle_new_peer :
      sent_to cl.fd (handle_new_peer net b).0.trace
      ≡ codes "GNUTELLA OK\r\n" ∷ sent_to cl.fd b.trace
  unfolding add_peer
  sent_to-handle_new_peer = rw handle_new_peer-welcome (ground arith)

await_reply-accepted :
    (net : Net) (fd ip port : ℕ) (w : World)
    → net.readed w.trace fd ≡ some (codes "GNUTELLA OK\r\n")
    → await_reply net fd ip port w ≡ (
      add_peer fd
          (record { ip = htonl (htonl ip); port = htons (htons port); sockfd = fd })
          (note (read fd) w),
      success,
    )
unfolding await_reply is_accepting bytes_eq
await_reply-accepted net fd ip port w heard = rw (await_reply, heard) refl

lookup-add_peer : (fd : ℕ) (p : PeerInfo) (w : World) → lookup fd (add_peer fd p w).peers ≡ some p
unfolding add_peer
lookup-add_peer fd p w = lookup-insert fd fd p w.peers ∙ ground arith

htons_invol : (n : ℕ) → n < 2 ^ 16 → htons (htons n) ≡ n
unfolding htons
htons_invol n h = omega (arith, h)

heads-eq : (x y : Bytes) (xs ys : List Bytes) → x ∷ xs ≡ y ∷ ys → x ≡ y
heads-eq x y xs ys e = cc

-- Two nodes become peers of each other, each under its descriptor, where one runs `connect_peer`
-- and the other `handle_new_peer` and each reads what the other writes: the greeting of the first
-- and the reply of the second. The calls of the system succeed, the second node has room for a
-- peer, and address and port fit 32 and 16 bits; the first node keeps the address that it dialled,
-- the second the one that `accept` gave.
pub connect_peer-handle_new_peer :
    (net : Net) (fd ip port : ℕ) (a : World) (other : Net) (cl : Client) (b : World)
    (greeting reply : Bytes)
    → ip < 2 ^ 32
    → port < 2 ^ 16
    → Dials net fd ip port a
    → Accepts other cl b
    → sent_to fd (connect_peer net ip port a).0.trace ≡ greeting ∷ sent_to fd a.trace
    → other.readed (note accepted b).trace cl.fd ≡ some greeting
    → sent_to cl.fd (handle_new_peer other b).0.trace ≡ reply ∷ sent_to cl.fd b.trace
    → net.readed (greeted fd ip port a).trace fd ≡ some reply
    → ((connect_peer net ip port a).1 ≡ success)
      × (lookup fd (connect_peer net ip port a).0.peers
          ≡ some (record { ip = ip; port = port; sockfd = fd }))
      × ((handle_new_peer other b).1 ≡ success)
      × (lookup cl.fd (handle_new_peer other b).0.peers
          ≡ some (record { ip = htonl cl.s_addr; port = htons cl.sin_port; sockfd = cl.fd }))
connect_peer-handle_new_peer net fd ip port a other cl b greeting reply hi hp d v wrote_a read_b
      wrote_b read_a =
    let is_greeting : greeting ≡ connect_text =
      heads-eq greeting connect_text (sent_to fd a.trace) (sent_to fd a.trace) (
        sym wrote_a
        ∙ ap (λ r. sent_to fd r.0.trace) (connect_peer-greeted net fd ip port a d)
        ∙ sent_to-await_reply net fd ip port a d) in
    let heard_b = read_b ∙ ap some is_greeting in
    let is_reply : reply ≡ codes "GNUTELLA OK\r\n" =
      heads-eq reply (codes "GNUTELLA OK\r\n") (sent_to cl.fd b.trace) (sent_to cl.fd b.trace)
        (sym wrote_b ∙ sent_to-handle_new_peer other cl b v heard_b) in
    let at_a =
      connect_peer-greeted net fd ip port a d
      ∙ await_reply-accepted net fd ip port (greeted fd ip port a) (read_a ∙ ap some is_reply) in
    let at_b = handle_new_peer-welcome other cl b v heard_b in
    (
      ap (λ r. r.1) at_a,
      (ap (λ r. lookup fd r.0.peers) at_a
          ∙ lookup-add_peer fd _ _
          ∙ rw (htonl_invol ip hi, htons_invol port hp) refl),
      ap (λ r. r.1) at_b,
      (ap (λ r. lookup cl.fd r.0.peers) at_b ∙ lookup-add_peer cl.fd _ _),
    )
