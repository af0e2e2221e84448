-- ===== src/Listener/Download/Fetch.antt =====
-- `Listener::com_get`: the node fetches a file of its result set.
pub mod Laws
pub mod Delivery
use p2p_demo.Prelude.{
  ℕ, ◌+◌, ◌-◌, ◌%◌, ◌^◌, Bool, true, false, List, [], ◌∷◌, ◌++◌, Option, none, some, ltb, ◌==◌, not,
  if◌then◌else◌, length, get_elem?, ◌||◌,
}
use p2p_demo.Outcome.{Outcome, ok, undefined, ◌>>=◌}
use p2p_demo.Wire.{Bytes, htonl}
use p2p_demo.Wire.CString.{codes, c_string, is_empty}
use p2p_demo.Util.Decimal.{int_decimal}
use p2p_demo.Util.Read.{ReadAnswer, bytes, interrupted, failed}
use p2p_demo.Util.Scan.{Scan, got, mismatch, overflow}
use p2p_demo.Listener.State.{
  QueryResultInfo, Status, success, failure, World, Net, note, opened, connected, wrote, read,
  closed,
}
use p2p_demo.Listener.Peers.{htons}
use p2p_demo.Listener.Listing.{result_to_string}
use p2p_demo.Listener.Download.Request.{crlf}
use p2p_demo.Listener.Download.Response.{DownloadResponse, maxline}
use p2p_demo.Listener.Download.Response

-- `(size_t) idx + 1`, for the bit pattern of an `int`.
unfoldable pub index_after : ℕ → ℕ
index_after idx = ((if ltb idx (2 ^ 31) then idx else 2 ^ 64 - 2 ^ 32 + idx) + 1) % 2 ^ 64

-- The result set is read at the index where the test lets it through.
unfoldable pub pick_result : List QueryResultInfo → ℕ → Outcome (Option QueryResultInfo)
pick_result results idx =
    if ltb (length results) (index_after idx)
    then ok none
    else elim (get_elem? results idx) [ none ↦ undefined | some fi ↦ ok (some fi) ]

-- The text that asks for the file, of the name up to its NUL.
unfoldable pub get_text : ℕ → Bytes → Bytes
get_text index name =
    codes "GET /get/"
    ++ (int_decimal index
        ++ b'/'
          ∷ (name
              ++ (codes "/ HTTP/1.0"
                  ++ (crlf ++ (codes "User-Agent: Gnutella/0.4" ++ (crlf ++ crlf))))))

-- `sprintf` writes the first line, of the name up to its NUL, to an array of `MAXLINE` characters.
unfoldable pub request_text : QueryResultInfo → Outcome Bytes
request_text fi =
    let name = c_string fi.qr.file_name in
    let first =
      codes "GET /get/"
      ++ (int_decimal fi.qr.file_index ++ b'/' ∷ (name ++ codes "/ HTTP/1.0\r\n")) in
    if ltb (length first) maxline then ok (get_text fi.qr.file_index name) else undefined

-- The loop behind the head, over the answers still to come: what it writes to the local file, and
-- whether it met an error. Nothing while it still waits for an answer.
unfoldable pub receive : List ReadAnswer → Option (Bytes × Bool)
receive [] = none
receive (interrupted ∷ more) = receive more
receive (failed ∷ more) = some ([], true)
receive (bytes [] ∷ more) = some ([], false)
receive (bytes (b ∷ s) ∷ more) = elim (receive more) [
  | none ↦ none
  | some (rest, error) ↦ some (b ∷ s ++ rest, error)
]

-- The local file, where it opens, and the result. `has_error && nwrite < 1` is always false.
unfoldable pub save : Bool → DownloadResponse → Bytes × Bool → Option Bytes × Status
save opens dr (rest, error) =
    let file = dr.part_binary ++ rest in
    let total = if opens then length file else 0 in
    let has_error = (if opens then error else false) || not (dr.contentlength == total) in
    ((if opens then some file else none), (if has_error then failure else success))

-- The local path with what was written to it, if it opened, and the result.
pub record Fetched : Type 0 where
  pub file : Option (Bytes × Bytes)
  pub status : Status

abbrev pub Fetch : Type 0
Fetch = Outcome (World × Option Fetched)

abbrev pub stop_with : Status → World → Fetch
stop_with status w = ok (w, some (record { file = none; status = status }))

abbrev pub hang_up : ℕ → World → Fetch
hang_up sockfd w = stop_with failure (note (closed sockfd) w)

-- The socket is read only where the local file opens.
unfoldable pub receive_into : Bool → List ReadAnswer → Option (Bytes × Bool)
receive_into opens answers = if opens then receive answers else some ([], false)

-- Behind the text of the first `read`: no result while the loop waits for an answer.
unfoldable pub fetch_rest : Bool → List ReadAnswer → Bytes → ℕ → Bytes → World → Fetch
fetch_rest opens answers localpath sockfd buf w = elim (Response.parse_from_string buf) [
  | mismatch ↦ hang_up sockfd w
  | overflow ↦ undefined
  | got dr ↦ elim (receive_into opens answers) [
    | none ↦ ok (w, none)
    | some received ↦
        let (file, status) = save opens dr received in
        ok (
          note (closed sockfd) w,
          some (record {
            file = elim file [ none ↦ none | some text ↦ some (localpath, text) ];
            status = status;
          }),
        )
  ]
]

module _ (net : Net) (opens : Bytes → Bool) (answers : List ReadAnswer) where
  -- With the text of the request. A first `read` that fails leaves the text empty.
  unfoldable pub ask : Bytes → Bytes → ℕ → World → Fetch
  ask localpath text sockfd w =
      let sent = note (wrote sockfd text) w in
      let buf : Bytes = elim (net.read_once sent.trace sockfd maxline) [ none ↦ [] | some s ↦ s ] in
      if not (net.writes w.trace sockfd text)
      then hang_up sockfd sent
      else fetch_rest (opens localpath) answers localpath sockfd buf (note (read sockfd) sent)

  -- Behind the line that shows what is fetched. The request is written behind `connect`.
  unfoldable pub dial_file : QueryResultInfo → Bytes → World → Fetch
  dial_file fi path w =
      let opening = note opened w in
      let ip = htonl fi.ip in
      let port = htons fi.port in
      elim (net.socket w.trace) [
        | none ↦ stop_with failure opening
        | some sockfd ↦
            let dialed = note (connected sockfd ip port) opening in
            if not (net.connects opening.trace sockfd ip port)
            then hang_up sockfd dialed
            else request_text fi >>= (λ text. ask path text sockfd dialed)
      ]

  -- The result -1 comes with nothing fetched.
  unfoldable pub com_get : ℕ → Bytes → World → Fetch
  com_get idx localpath w = pick_result w.query_result_set idx >>= (λ picked. elim picked [
    | none ↦ stop_with failure w
    | some fi ↦
        let path = if is_empty localpath then fi.qr.file_name else localpath in
        result_to_string fi >>= (λ shown. dial_file fi path w)
  ])
