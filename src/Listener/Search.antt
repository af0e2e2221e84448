-- ===== src/Listener/Search.antt =====
-- Local files and the answers to a search: `FileInfo::match`, `query`, `save_and_display_query_result`.
use p2p_demo.Prelude.{ℕ, Bool, true, false, ◌||◌, List, [], ◌∷◌, ◌++◌, map, length, if◌then◌else◌}
use p2p_demo.Wire.{Bytes, u8, u16, u32}
use p2p_demo.Util.Text.{to_upper, contains}
use p2p_demo.Packet.QueryResult.{QueryResult, new_query_result}
use p2p_demo.Packet.QueryHits.{QueryHits}
use p2p_demo.Listener.State.{Listener, FileInfo, QueryResultInfo, World}
pub mod Laws

any_contains : Bytes → List Bytes → Bool
any_contains s [] = false
any_contains s (k ∷ ks) = contains s (to_upper k) || any_contains s ks

-- `FileInfo::match`
unfoldable pub matches : FileInfo → Bytes → Bool
unfolding any_contains
matches fi kw = any_contains (to_upper kw) fi.keywords

abbrev pub result_of : FileInfo → QueryResult
result_of fi = record new_query_result {
  file_index = u32 fi.file_index;
  file_name = fi.file_name;
  file_size = u32 fi.size;
}

-- The loop over `localFiles`.
unfoldable pub results_for : Bytes → List FileInfo → List QueryResult
unfolding matches
results_for keyword [] = []
results_for keyword (fi ∷ fs) =
    if matches fi keyword then result_of fi ∷ results_for keyword fs else results_for keyword fs

-- `Listener::query` fills in a message. `num_hits` is an `unsigned char`.
unfoldable pub query : Listener → Bytes → QueryHits → QueryHits
unfolding results_for
query l keyword msg =
    let rs = results_for keyword l.local_files in
    record msg {
      packet = record (msg.packet) { ttl = u8 l.conf.ttl };
      ip = l.hostip;
      port = u16 l.conf.file_port;
      result_set = rs;
      num_hits = u8 (length rs);
    }

-- What is shown on the screen is left out.
unfoldable pub save_query_result : QueryHits → World → World
save_query_result qh w = record w {
  listener = record (w.listener) {
    query_result_set =
        w.query_result_set
        ++ map (λ r. record { ip = qh.ip; port = qh.port; qr = r }) qh.result_set;
  };
}
