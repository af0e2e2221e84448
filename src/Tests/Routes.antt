-- ===== src/Tests/Routes.antt =====
-- The way of messages through a small network, and the answers to the node's own messages.
use p2p_demo.Prelude.{◌≡◌, refl, [], ◌∷◌, false, some, arith}
use p2p_demo.Prelude.Maps.{lookup}
use p2p_demo.Packet.QueryHits.{hits_class}
use p2p_demo.Packet.Message.{ping, pong, query, query_hits, text, hexid}
use p2p_demo.Util.Text.{bytes_eq}
use p2p_demo.Util.Hex.{to_hex}
use p2p_demo.Listener.State.{World, note, wrote, fd_key, bytes_key}
use p2p_demo.Listener.History.{is_my_ping, is_my_query, is_stale_message, has_key}
use p2p_demo.Listener.Routing.{
  handle_ping, handle_pong, handle_query, handle_query_hits, forward_message,
}
use p2p_demo.Listener.Routing.Flood.{flood, forward_message-flood, sent_to}
use p2p_demo.Listener.Routing.Pings.{
  handle_ping_repeated, handle_pong_returns, handle_ping_forwards,
}
use p2p_demo.Listener.Routing.Queries.{
  handle_query_repeated, handle_query_hits_returns, handle_query_forwards,
}
use p2p_demo.Tests.Data.{a_ping, a_pong, a_query, hits, listener, world, net, peer}
use p2p_demo.Tests.Nodes.{peers-IsSorted}

abbrev seen_ping : World
seen_ping = handle_ping net 5 a_ping world

abbrev seen_query : World
seen_query = handle_query net 5 a_query world

not_my_ping : is_my_ping listener a_ping.packet ≡ false
unfolding is_my_ping has_key lookup
not_my_ping = refl

fresh_ping : is_stale_message listener (ping a_ping) ≡ false
unfolding is_stale_message has_key lookup
fresh_ping = refl

not_my_query : is_my_query listener a_query.packet ≡ false
unfolding is_my_query hexid bytes_eq to_hex
not_my_query = refl

fresh_query : is_stale_message listener (query a_query) ≡ false
unfolding is_stale_message has_key lookup
fresh_query = refl

second_peer : lookup 6 listener.peers ≡ some (peer 6)
unfolding lookup
second_peer = refl

repeated_ping : handle_ping net 6 a_ping seen_ping ≡ seen_ping
repeated_ping = handle_ping_repeated net 5 a_ping world 6 a_ping refl

returned_pong : handle_pong net 6 a_pong seen_ping ≡ note (wrote 5 (text (pong a_pong))) seen_ping
unfolding hexid
returned_pong = handle_pong_returns net 5 a_ping world 6 a_pong refl not_my_ping fresh_ping

forwarded_ping :
    sent_to 6 seen_ping.trace
    ≡ text (ping (record a_ping { packet = record (a_ping.packet) { ttl = 6; hops = 2 } })) ∷ []
forwarded_ping =
    handle_ping_forwards net 5 a_ping world 6 (peer 6) not_my_ping fresh_ping peers-IsSorted
      second_peer (omega arith)

repeated_query : handle_query net 6 a_query seen_query ≡ seen_query
repeated_query = handle_query_repeated net 5 a_query world 6 a_query refl

returned_hits :
    handle_query_hits net 6 hits seen_query ≡ note (wrote 5 (text (query_hits hits))) seen_query
unfolding hexid
returned_hits = handle_query_hits_returns net 5 a_query world 6 hits refl not_my_query fresh_query

forwarded_query :
    sent_to 6 seen_query.trace
    ≡ text (query (record a_query { packet = record (a_query.packet) { ttl = 6; hops = 2 } })) ∷ []
forwarded_query =
    handle_query_forwards net 5 a_query world 6 (peer 6) not_my_query fresh_query peers-IsSorted
      second_peer (omega arith)

flood_example :
    forward_message (ping a_ping) 5 world
    ≡ record world { trace = flood (text (ping a_ping)) 5 listener.peers [] }
flood_example = forward_message-flood (ping a_ping) 5 world
