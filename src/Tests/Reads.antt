-- ===== src/Tests/Reads.antt =====
-- Messages that a peer sends whole or in parts.
use p2p_demo.Prelude.{◌≡◌, refl, ◌==◌, if◌then◌else◌, [], ◌∷◌, some, arith}
use p2p_demo.Outcome.{ok}
use p2p_demo.Packet.Header.{serialize}
use p2p_demo.Packet.Header.Laws.{IsHeader}
use p2p_demo.Listener.State.{Net, note, read}
use p2p_demo.Listener.Receive.{handle_peer_msg, serve_peer}
use p2p_demo.Listener.Receive.Whole.{head_text, serve_peer-whole, serve_peer-short}
use p2p_demo.Tests.Data.{a_ping, two_bytes, world, net}

-- The head first, then the payload.
abbrev whole_net : Net
whole_net = record net {
  read_once =
      λ t fd len. if len == 23 then some (head_text a_ping.packet) else some two_bytes.optdata;
}

ping-IsHeader : IsHeader a_ping.packet
ping-IsHeader = record { id_length = refl; whole = record { exact = refl; fits = omega arith } }

whole_example :
    serve_peer whole_net 5 world
    ≡ handle_peer_msg whole_net 5 (serialize a_ping.packet) (note (read 5) (note (read 5) world))
whole_example =
    serve_peer-whole a_ping.packet ping-IsHeader (omega arith) whole_net 5 world refl refl

abbrev part_net : Net
part_net = record net { read_once = λ t fd len. some (1 ∷ 2 ∷ 3 ∷ []) }

part_example : serve_peer part_net 5 world ≡ ok (note (read 5) world)
part_example = serve_peer-short part_net 5 (1 ∷ 2 ∷ 3 ∷ []) world refl (omega arith) (omega arith)
