-- ===== src/Listener/Listing/Overflow.antt =====
-- A result that a peer sends can have a name that no listing can show.
use p2p_demo.Prelude.{
  ℕ, ◌≤◌, ◌≡◌, refl, ap, sym, ◌∙◌, List, [], ◌∷◌, ◌++◌, map, length, take, append_assoc,
}
use p2p_demo.Outcome.{undefined}
use p2p_demo.Wire.{Bytes}
use p2p_demo.Wire.CString.{c_string}
use p2p_demo.Util.Read.{maxline}
use p2p_demo.Packet.Header.{id_size}
use p2p_demo.Packet.QueryResult.{QueryResult}
use p2p_demo.Packet.QueryHits.{QueryHits}
use p2p_demo.Listener.State.{QueryResultInfo, World, Net}
use p2p_demo.Listener.Search.{save_query_result}
use p2p_demo.Listener.Routing.{handle_query_hits}
use p2p_demo.Listener.Commands.{query_peer}
use p2p_demo.Listener.Commands.Laws.{own_hits_saved}
use p2p_demo.Listener.Listing.{com_qrs}
use p2p_demo.Listener.Listing.Laws.{com_qrs-undefined}

map-middle {ℓ κ} :
    {A : Type ℓ} {B : Type κ} (f : A → B) (front : List A) (x : A) (back : List A)
    → map f (front ++ x ∷ back) ≡ map f front ++ f x ∷ map f back
map-middle f [] x back = refl
map-middle f (y ∷ front) x back = ap (λ t. f y ∷ t) (map-middle f front x back)

-- A QueryHits that answers the last search of the node, with one name of 4096 characters or more
-- before a NUL, leaves a result set that `com_qrs` cannot show, whoever sends it: the line is
-- written past its array.
pub own_hits-com_qrs :
    (net : Net) (fd fd' : ℕ) (keyword id : Bytes) (w : World) (p : QueryHits)
    (front : List QueryResult) (r : QueryResult) (back : List QueryResult)
    → p.packet.id ≡ take id_size id
    → p.result_set ≡ front ++ r ∷ back
    → maxline ≤ length (c_string r.file_name)
    → com_qrs (handle_query_hits net fd' p (query_peer net fd keyword id w).0).listener ≡ undefined
unfolding save_query_result
own_hits-com_qrs net fd fd' keyword id w p front r back hid e h =
    let asked = (query_peer net fd keyword id w).0 in
    let info : QueryResult → QueryResultInfo = λ q. record { ip = p.ip; port = p.port; qr = q } in
    rw (own_hits_saved net fd keyword id w fd' p hid) (
      com_qrs-undefined (save_query_result p asked).listener
        (asked.query_result_set ++ map info front) (info r) (map info back)
        (ap (λ t. asked.query_result_set ++ t) (ap (map info) e ∙ map-middle info front r back)
          ∙ sym (append_assoc asked.query_result_set (map info front) (info r ∷ map info back)))
        h)
