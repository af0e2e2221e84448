-- ===== src/Tests/Handshakes.antt =====
-- Two nodes that shake hands.
use p2p_demo.Prelude.{◌≡◌, refl, ◌∷◌, some, arith}
use p2p_demo.Prelude.Maps.{lookup}
use p2p_demo.Wire.{htonl}
use p2p_demo.Wire.CString.{codes}
use p2p_demo.Util.Text.{bytes_eq}
use p2p_demo.Listener.State.{Net, success, fd_key}
use p2p_demo.Listener.Peers.{
  htons, connect_text, peer_full, max_peer_size, add_peer, connect_peer, handle_new_peer,
}
use p2p_demo.Listener.Peers.Handshake.{Dials, Accepts, connect_peer-handle_new_peer}
use p2p_demo.Listener.Routing.Flood.{sent_to}
use p2p_demo.Tests.Data.{client, world, net}

-- The node that is dialled reads the greeting.
abbrev hears : Net
hears = record net { readed = λ t fd. some connect_text }

dials : Dials net 9 0x0A000001 6346 world
dials = record { socket = refl; connects = refl; writes = refl }

accepts : Accepts hears client world
unfolding peer_full max_peer_size
accepts = record { client = refl; room = refl; writes = refl }

greets :
    sent_to 9 (connect_peer net 0x0A000001 6346 world).0.trace
    ≡ connect_text ∷ sent_to 9 world.trace
unfolding connect_peer bytes_eq add_peer
greets = refl

replies :
    sent_to 9 (handle_new_peer hears world).0.trace
    ≡ codes "GNUTELLA OK\r\n" ∷ sent_to 9 world.trace
unfolding handle_new_peer peer_full max_peer_size bytes_eq add_peer
replies = refl

handshake_example :
    ((connect_peer net 0x0A000001 6346 world).1 ≡ success)
    × (lookup 9 (connect_peer net 0x0A000001 6346 world).0.peers
        ≡ some (record { ip = 0x0A000001; port = 6346; sockfd = 9 }))
    × ((handle_new_peer hears world).1 ≡ success)
    × (lookup 9 (handle_new_peer hears world).0.peers
        ≡ some (record { ip = htonl client.s_addr; port = htons client.sin_port; sockfd = 9 }))
handshake_example =
    connect_peer-handle_new_peer net 9 0x0A000001 6346 world hears client world connect_text
      (codes "GNUTELLA OK\r\n") (omega arith) (omega arith) dials accepts greets refl replies refl
