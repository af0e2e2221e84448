-- ===== src/Listener/Peers.antt =====
-- The table of peers: who is a peer, how many may be, and how one is added or removed.
pub mod Invariant
pub mod Handshake
use p2p_demo.Prelude.{
  ℕ, zero, ◌+◌, ◌-◌, ◌*◌, ◌/◌, ◌%◌, ◌<◌, ◌≤◌, Bool, true, false, not, ◌&&◌, ◌||◌, List, [], ◌∷◌,
  ◌++◌, Option, none, some, length, ltb, leb, ◌==◌, if◌then◌else◌,
}
use p2p_demo.Wire.CString.{codes}
use p2p_demo.Prelude.Maps.{insert, erase}
use p2p_demo.Wire.{Bytes, u16, htonl}
use p2p_demo.Util.Text.{bytes_eq}
use p2p_demo.Listener.State.{
  Listener, Conf, PeerInfo, Peers, World, Net, Client, Status, success, failure, note, wrote, read,
  opened, connected, accepted, closed, fd_key,
}

-- `htons` and `ntohs` on a little-endian machine.
unfoldable pub htons : ℕ → ℕ
htons n = 256 * (n % 256) + n / 256 % 256

abbrev fd_setsize : ℕ
fd_setsize = 1024

unfoldable pub max_peer_size : Conf → ℕ
max_peer_size conf =
    let maxsize = (fd_setsize - 10) / 100 * 100 in
    if conf.is_seed_node == 0
    then if ltb maxsize conf.number_of_peers then maxsize else conf.number_of_peers
    else maxsize

unfoldable pub peer_full : Listener → Bool
peer_full l = leb (max_peer_size l.conf) (length l.peers)

-- The first peer at an address, in the order of descriptors; nothing for -1.
unfoldable pub get_peer_fd : ℕ → ℕ → Peers → Option ℕ
get_peer_fd ip port [] = none
get_peer_fd ip port ((fd, p) ∷ ps) =
    if p.ip == ip && p.port == port then some fd else get_peer_fd ip port ps

-- `get_peer_fd(ip, port) > 0`
unfoldable pub has_peer : Listener → ℕ → ℕ → Bool
unfolding get_peer_fd
has_peer l ip port = elim (get_peer_fd ip port l.peers) [ none ↦ false | some fd ↦ ltb 0 fd ]

-- `FD_SET` and `FD_CLR`
unfoldable pub fd_clr : ℕ → List ℕ → List ℕ
fd_clr fd [] = []
fd_clr fd (x ∷ xs) = if x == fd then fd_clr fd xs else x ∷ fd_clr fd xs

unfoldable pub fd_set : ℕ → List ℕ → List ℕ
unfolding fd_clr
fd_set fd xs = fd ∷ fd_clr fd xs

-- The entry that `peers[sockfd]` makes for the log where there is none is erased with the rest.
unfoldable pub erase_peer : ℕ → World → World
erase_peer fd w = note (closed fd) (record w {
  listener = record (w.listener) { fdset = fd_clr fd w.fdset; peers = erase fd w.peers };
})

-- `peers[fd] = pinfo`, `maxfd = max(maxfd, fd)` and `FD_SET`, as `connect_peer` and
-- `handle_new_peer` end.
unfoldable pub add_peer : ℕ → PeerInfo → World → World
add_peer fd p w = record w {
  listener = record (w.listener) {
    peers = insert fd p w.peers;
    maxfd = if ltb w.maxfd fd then fd else w.maxfd;
    fdset = fd_set fd w.fdset;
  };
}

abbrev pub connect_text : Bytes
connect_text = codes "GNUTELLA CONNECT/0.4\r\n"

is_accepting : Bytes → Bool
is_accepting reply =
    bytes_eq reply (codes "GNUTELLA OK\n\n") || bytes_eq reply (codes "GNUTELLA OK\r\n")

is_greeting : Bytes → Bool
is_greeting buf = bytes_eq buf (codes "GNUTELLA CONNECT/0.4\n\n") || bytes_eq buf connect_text

abbrev give_up : ℕ → World → World × Status
give_up fd w = (note (closed fd) w, failure)

module _ (net : Net) where
  -- Behind a greeting that was sent: `readed` gives -1 or 0 where there is no reply.
  await_reply : ℕ → ℕ → ℕ → World → World × Status
  unfolding is_accepting
  await_reply fd ip port w =
      let w' = note (read fd) w in
      elim (net.readed w.trace fd) [
        | none ↦ give_up fd w'
        | some [] ↦ give_up fd w'
        | some (b ∷ reply) ↦
            if is_accepting (b ∷ reply)
            then (
              add_peer fd (record { ip = htonl (htonl ip); port = htons (htons port); sockfd = fd })
                  w',
              success,
            )
            else give_up fd w'
      ]

  greet : ℕ → ℕ → ℕ → World → World × Status
  unfolding await_reply
  greet fd ip port w =
      let w' = note (wrote fd connect_text) w in
      if net.writes w.trace fd connect_text then await_reply fd ip port w' else give_up fd w'

  dial : ℕ → ℕ → ℕ → World → World × Status
  unfolding greet
  dial fd ip port w =
      let w' = note (connected fd (htonl ip) (htons port)) w in
      if net.connects w.trace fd (htonl ip) (htons port) then greet fd ip port w' else give_up fd w'

  unfoldable pub connect_peer : ℕ → ℕ → World → World × Status
  unfolding dial
  connect_peer ip port w =
      let w' = note opened w in
      elim (net.socket w.trace) [ none ↦ (w', failure) | some fd ↦ dial fd ip port w' ]

  -- Behind a greeting that was read from a client.
  welcome : Client → World → World × Status
  welcome c w =
      let ok_text = codes "GNUTELLA OK\r\n" in
      let w' = note (wrote c.fd ok_text) w in
      if net.writes w.trace c.fd ok_text
      then (
        add_peer c.fd (record { ip = htonl c.s_addr; port = htons c.sin_port; sockfd = c.fd }) w',
        success,
      )
      else give_up c.fd w'

  admit : Client → World → World × Status
  unfolding welcome is_greeting
  admit c w =
      if peer_full w.listener
      then give_up c.fd w
      else (let w' = note (read c.fd) w in
          elim (net.readed w.trace c.fd) [
            | none ↦ give_up c.fd w'
            | some buf ↦ if is_greeting buf then welcome c w' else give_up c.fd w'
          ])

  -- With no descriptor from `accept` all that follows fails on the descriptor -1.
  unfoldable pub handle_new_peer : World → World × Status
  unfolding admit
  handle_new_peer w =
      let w' = note accepted w in
      elim (net.accept w.trace) [ none ↦ (w', failure) | some c ↦ admit c w' ]
